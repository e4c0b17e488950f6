-- ===== src/Tests/Chained.antt =====
-- The JTAG chain at concrete inputs.
use riscv_soc.Base.{ℕ, Bool, true, false, ◌≡◌, refl, arith}
use riscv_soc.Base.{Bits, to_bits}
use riscv_soc.Jtag.Chain.Dtm.{Dtm, DtmIn, dtm_edge, tdo}
use riscv_soc.Jtag.Chain.Bridge.{idle}
use riscv_soc.Jtag.Chain.Top.{Chain}
use riscv_soc.Jtag.Chain.Main.{slow_main, fast_main}
use riscv_soc.Jtag.Chain.Passes.{slow_main_passes, fast_main_passes}
use riscv_soc.Jtag.Chain.Serve.{clk_edges, WriteServed, write_served}
use riscv_soc.Jtag.Chain.Bypass.{unlisted_shows_old}

abbrev zeros : Bits
zeros = to_bits 32 0

-- The controller in state `state`, with the instruction `ir`.
abbrev dtm_at : ℕ → ℕ → Bool → Dtm
dtm_at state ir rw = record {
  state_r = state;
  ir_shift = to_bits 4 0;
  ir_reg = ir;
  dr_shift = to_bits 32 1;
  bypass_reg = true;
  addr_reg = to_bits 32 0x8;
  data_reg = to_bits 32 0x1234;
  bridge_busy_prev = false;
  start_pulse_tck = false;
  rw_tck = rw;
}

-- A chain with a request of the kind `rw` if `requested`.
abbrev chain_with : Bool → Bool → Chain
chain_with requested rw = record {
  clk = false;
  resetn = true;
  tck = false;
  tck_resetn = true;
  tms = false;
  tdi = false;
  dtm = dtm_at 1 4 rw;
  tck_side = record {
    start_toggle_tck = requested;
    done_toggle_sync1 = false;
    done_toggle_sync2 = false;
    resp_ok_sync1 = false;
    resp_ok_sync2 = false;
    rdata_sync1 = zeros;
    rdata_sync2 = zeros;
  };
  clk_side = record {
    start_toggle_sync1 = false;
    start_toggle_sync2 = false;
    start_toggle_sync2_d = false;
    state = idle;
    addr_reg = zeros;
    wdata_reg = zeros;
    rdata_reg = zeros;
    aw_done = false;
    w_done = false;
    resp_ok = false;
    done_toggle_clk = false;
  };
  slave = record { mem = λ i. to_bits 32 i; s_bvalid = false; s_rvalid = false; s_rdata = zeros };
}

slow_main_passes_example : slow_main (chain_with false false) ≡ 0
slow_main_passes_example =
    slow_main_passes (chain_with false false) (record { addr_width = refl; data_width = refl })

fast_main_passes_example : fast_main (chain_with false false) ≡ 0
fast_main_passes_example =
    fast_main_passes (chain_with false false) (record { addr_width = refl; data_width = refl })

write_served_example : WriteServed (chain_with true false) (clk_edges 5 (chain_with true false))
write_served_example = write_served (chain_with true false) (record {
  waiting = record {
    out_of_reset = refl;
    is_idle = refl;
    first_sample = refl;
    second_sample = refl;
    toggle_is = refl;
  };
  kind = refl;
})

abbrev shift_pins : Bool → DtmIn
shift_pins tdi = record {
  resetn = true;
  tms = false;
  tdi = tdi;
  bridge_busy_tck = false;
  bridge_resp_ok_tck = false;
  bridge_rdata_tck = zeros;
}

unlisted_shows_old_example :
    let d = dtm_at 3 5 false in
    (tdo (dtm_edge (shift_pins true) d) ≡ true)
    × (tdo (dtm_edge (shift_pins true) (dtm_edge (shift_pins true) d)) ≡ false)
unlisted_shows_old_example =
    unlisted_shows_old (shift_pins true) (shift_pins true) (dtm_at 3 5 false) true false
      (to_bits 30 0) (record { out_of_reset = refl; tms_low = refl })
      (record { out_of_reset = refl; tms_low = refl }) refl
      (record {
        not_idcode = omega arith;
        not_addr = omega arith;
        not_data = omega arith;
        not_ctrl = omega arith;
        not_bypass = omega arith;
      })
      refl
