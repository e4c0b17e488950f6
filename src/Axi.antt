-- ===== src/Axi.antt =====
-- The AXI4-Lite signals of tb/common/axi_lite_bfm.h and a design under test behind them.
-- `Pins` defines the signals, `Bfm` the two transactions, `Bfm/...` what they guarantee.
pub mod Pins
pub mod Bfm
