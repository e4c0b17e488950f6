-- ===== src/Jtag.antt =====
-- The JTAG blocks: the test access port (`Tap`) and the chain from it to a bus (`Chain`).
pub mod Tap
pub mod Chain
