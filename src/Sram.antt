-- ===== src/Sram.antt =====
-- blocks/sram/rtl/sram.v, and `main` of blocks/sram/dv/sim_main.cpp (`Main`).
pub mod ReadWrite
pub mod Main
use riscv_soc.Base.{ℕ, ◌/◌, ◌%◌, Bool, true, false, ◌&&◌, if◌then◌else◌, merge_bytes, update}
use riscv_soc.Axi.Pins.{Pins, Outs, Dut}

-- The memory is a function of the word index.
pub record Sram : Type 0 where
  pub mem : ℕ → ℕ
  pub s_bvalid : Bool
  pub s_bresp : ℕ
  pub s_rvalid : Bool
  pub s_rdata : ℕ
  pub s_rresp : ℕ

abbrev pub resp_okay : ℕ
resp_okay = 0

-- `addr[16:2]`.
abbrev pub word_index : ℕ → ℕ
word_index addr = addr / 4 % 32768

abbrev pub do_write : Pins → Bool
do_write p = p.awvalid && p.wvalid

unfoldable pub write_mem : Pins → (ℕ → ℕ) → ℕ → ℕ
write_mem p mem =
    let i = word_index p.awaddr in
    if do_write p then update mem i (merge_bytes p.wstrb p.wdata (mem i)) else mem

-- In reset the valid flags fall, and the memory and the other registers keep their values.
unfoldable pub step : Pins → Sram → Sram
unfolding write_mem
step p s =
    if p.resetn
    then record {
      mem = write_mem p s.mem;
      s_bvalid = do_write p;
      s_bresp = if do_write p then resp_okay else s.s_bresp;
      s_rvalid = p.arvalid;
      s_rdata = if p.arvalid then s.mem (word_index p.araddr) else s.s_rdata;
      s_rresp = if p.arvalid then resp_okay else s.s_rresp;
    }
    else record s { s_bvalid = false; s_rvalid = false }

abbrev pub outs : Pins → Sram → Outs
outs p s = record {
  awready = true;
  wready = true;
  bvalid = s.s_bvalid;
  bresp = s.s_bresp;
  arready = true;
  rvalid = s.s_rvalid;
  rdata = s.s_rdata;
  rresp = s.s_rresp;
}

abbrev pub dut : Dut Sram
dut = record { step = step; outs = outs }
