-- ===== src/Aes.antt =====
-- AES-128: the reference model of blocks/aes/dv/diff_sim_main.cpp, namespace `aes_ref`, and the
-- tables and the key schedule of blocks/aes/rtl.
pub mod Gf
pub mod Ref
pub mod Package
pub mod KeyExpand
pub mod Core
pub mod Chain
pub mod Regs
