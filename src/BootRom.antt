-- ===== src/BootRom.antt =====
-- blocks/boot_rom/rtl/boot_rom.v, and `main` of blocks/boot_rom/dv/sim_main.cpp (`Main`).
pub mod ReadOnly
pub mod Main
use riscv_soc.Base.{ℕ, ◌/◌, ◌%◌, Bool, true, false, ◌&&◌, if◌then◌else◌}
use riscv_soc.Axi.Pins.{Pins, Outs, Dut}

-- The memory is a function of the word index; `$readmemh` has filled it before the first edge.
pub record BootRom : Type 0 where
  pub mem : ℕ → ℕ
  pub s_bvalid : Bool
  pub s_bresp : ℕ
  pub s_rvalid : Bool
  pub s_rdata : ℕ
  pub s_rresp : ℕ

abbrev pub resp_okay : ℕ
resp_okay = 0

abbrev pub resp_slverr : ℕ
resp_slverr = 2

-- `s_araddr[15:2]`.
abbrev pub word_index : ℕ → ℕ
word_index addr = addr / 4 % 16384

abbrev pub do_write : Pins → Bool
do_write p = p.awvalid && p.wvalid

-- A write is answered with SLVERR and leaves the memory alone.
unfoldable pub step : Pins → BootRom → BootRom
step p s =
    if p.resetn
    then record {
      mem = s.mem;
      s_bvalid = do_write p;
      s_bresp = if do_write p then resp_slverr else s.s_bresp;
      s_rvalid = p.arvalid;
      s_rdata = if p.arvalid then s.mem (word_index p.araddr) else s.s_rdata;
      s_rresp = if p.arvalid then resp_okay else s.s_rresp;
    }
    else record s { s_bvalid = false; s_rvalid = false }

abbrev pub outs : Pins → BootRom → Outs
outs p s = record {
  awready = true;
  wready = true;
  bvalid = s.s_bvalid;
  bresp = s.s_bresp;
  arready = true;
  rvalid = s.s_rvalid;
  rdata = s.s_rdata;
  rresp = s.s_rresp;
}

abbrev pub dut : Dut BootRom
dut = record { step = step; outs = outs }
