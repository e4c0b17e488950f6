-- ===== src/Timer.antt =====
-- The timer: blocks/timer/rtl/timer.v (`Rtl`), the software model that blocks/timer/dv/sim_main.cpp
-- checks it against (`Model`), and that test bench (`Main`).
pub mod Rtl
pub mod Model
pub mod Main
