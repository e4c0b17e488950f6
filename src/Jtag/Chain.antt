-- ===== src/Jtag/Chain.antt =====
-- The JTAG chain of blocks/jtag: transport module, bridge, test top, and its two test benches.
pub mod Dtm
pub mod Slave
pub mod Bridge
pub mod Top
pub mod Scan
pub mod Main
pub mod Passes
pub mod Serve
pub mod Bypass
