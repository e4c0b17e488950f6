-- ===== src/Watchdog.antt =====
-- The watchdog: blocks/watchdog/rtl/watchdog.v (`Rtl`), the software model that
-- blocks/watchdog/dv/sim_main.cpp checks it against (`Model`), and that test bench (`Main`).
pub mod Rtl
pub mod Model
pub mod Main
