-- ===== src/Axi/Pins.antt =====
-- The signal bundle `AxiLiteSignals` of tb/common/axi_lite_bfm.h, split into the pins that the
-- test bench drives and those that it reads, and the Verilated design between them.
use riscv_soc.Base.{ℕ, Bool, true, false, ◌≡◌}

-- What the test bench drives. `resetn` is not in the bundle: the mains drive it themselves.
pub record Pins : Type 0 where
  pub resetn : Bool
  pub awvalid : Bool
  pub awaddr : ℕ
  pub wvalid : Bool
  pub wdata : ℕ
  pub wstrb : ℕ
  pub bready : Bool
  pub arvalid : Bool
  pub araddr : ℕ
  pub rready : Bool

-- What the test bench reads.
pub record Outs : Type 0 where
  pub awready : Bool
  pub wready : Bool
  pub bvalid : Bool
  pub bresp : ℕ
  pub arready : Bool
  pub rvalid : Bool
  pub rdata : ℕ
  pub rresp : ℕ

-- A design under test: its registers after a rising clock edge, and its outputs.
pub record Dut (S : Type 0) : Type 0 where
  pub step : Pins → S → S
  pub outs : Pins → S → Outs

-- The pins together with the registers of the design.
pub record Bench (S : Type 0) : Type 0 where
  pub pins : Pins
  pub state : S

-- Verilator starts with every pin at 0.
abbrev pub idle_pins : Pins
idle_pins = record {
  resetn = false;
  awvalid = false;
  awaddr = 0;
  wvalid = false;
  wdata = 0;
  wstrb = 0;
  bready = false;
  arvalid = false;
  araddr = 0;
  rready = false;
}

-- Out of reset, with no transaction on the bus.
pub record IsIdle (p : Pins) : Type 0 where
  pub out_of_reset : p.resetn ≡ true
  pub awvalid_low : p.awvalid ≡ false
  pub wvalid_low : p.wvalid ≡ false
  pub arvalid_low : p.arvalid ≡ false
