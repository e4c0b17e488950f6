-- ===== src/Xbar/Fake.antt =====
-- tb/common/fake_axi_lite_slave.v on numbers: a memory of sixteen words that answers on the next
-- edge. Its response is always OKAY, and it ignores the write strobes.
use riscv_soc.Base.{ℕ, ◌/◌, ◌%◌, Bool, true, false, ◌&&◌, if◌then◌else◌, update}
use riscv_soc.Axi.Pins.{Pins, Outs, Dut}

pub record Fake : Type 0 where
  pub mem : ℕ → ℕ
  pub s_bvalid : Bool
  pub s_rvalid : Bool
  pub s_rdata : ℕ

-- `addr[5:2]`.
abbrev pub word_of : ℕ → ℕ
word_of addr = addr / 4 % 16

unfoldable pub fake_step : Pins → Fake → Fake
fake_step p s =
    if p.resetn
    then record {
      mem = if p.awvalid && p.wvalid then update s.mem (word_of p.awaddr) p.wdata else s.mem;
      s_bvalid = p.awvalid && p.wvalid;
      s_rvalid = p.arvalid;
      s_rdata = if p.arvalid then s.mem (word_of p.araddr) else s.s_rdata;
    }
    else record s { s_bvalid = false; s_rvalid = false }

unfoldable pub fake_outs : Pins → Fake → Outs
fake_outs p s = record {
  awready = true;
  wready = true;
  bvalid = s.s_bvalid;
  bresp = 0;
  arready = true;
  rvalid = s.s_rvalid;
  rdata = s.s_rdata;
  rresp = 0;
}

abbrev pub fake_slave : Dut Fake
fake_slave = record { step = fake_step; outs = fake_outs }
