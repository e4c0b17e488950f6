-- ===== src/DmaRam/Quiet.antt =====
-- A bench of the burst memory on which no handshake is going on.
use riscv_soc.Base.{true, false, ◌≡◌, refl, sym}
use riscv_soc.DmaRam.{w_idle, r_idle}
use riscv_soc.DmaRam.Burst.{RamBench}

-- No handshake is going on.
pub record IsQuiet (b : RamBench) : Type 0 where
  pub out_of_reset : b.pins.resetn ≡ true
  pub no_aw : b.pins.awvalid ≡ false
  pub no_w : b.pins.wvalid ≡ false
  pub no_b : b.pins.bready ≡ false
  pub no_ar : b.pins.arvalid ≡ false
  pub no_r : b.pins.rready ≡ false
  pub writes_idle : b.ram.w_state ≡ w_idle
  pub no_response : b.ram.s_bvalid ≡ false
  pub reads_idle : b.ram.r_state ≡ r_idle
  pub no_data : b.ram.s_rvalid ≡ false

unfoldable pub quiet_form : RamBench → RamBench
quiet_form b = record {
  pins = record b.pins {
    resetn = true;
    awvalid = false;
    wvalid = false;
    bready = false;
    arvalid = false;
    rready = false;
  };
  ram = record b.ram { w_state = w_idle; s_bvalid = false; r_state = r_idle; s_rvalid = false };
}

pub quiet_form-eq : (b : RamBench) → IsQuiet b → quiet_form b ≡ b
unfolding quiet_form
quiet_form-eq b h = λ i. record {
  pins = record b.pins {
    resetn = sym h.out_of_reset i;
    awvalid = sym h.no_aw i;
    wvalid = sym h.no_w i;
    bready = sym h.no_b i;
    arvalid = sym h.no_ar i;
    rready = sym h.no_r i;
  };
  ram = record b.ram {
    w_state = sym h.writes_idle i;
    s_bvalid = sym h.no_response i;
    r_state = sym h.reads_idle i;
    s_rvalid = sym h.no_data i;
  };
}

pub quiet_form-IsQuiet : (b : RamBench) → IsQuiet (quiet_form b)
unfolding quiet_form
quiet_form-IsQuiet b = record {
  out_of_reset = refl;
  no_aw = refl;
  no_w = refl;
  no_b = refl;
  no_ar = refl;
  no_r = refl;
  writes_idle = refl;
  no_response = refl;
  reads_idle = refl;
  no_data = refl;
}
