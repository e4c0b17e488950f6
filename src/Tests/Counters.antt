-- ===== src/Tests/Counters.antt =====
-- The timer at concrete inputs.
use riscv_soc.Base.{ℕ, true, false, bit, ◌≡◌, refl, List, [], ◌∷◌, arith}
use riscv_soc.Axi.Pins.{Pins, Bench, IsIdle, idle_pins}
use riscv_soc.Timer.Rtl.{Timer}
use riscv_soc.Timer.Rtl.Period
use riscv_soc.Timer.Rtl.Period.{pulses-period}
use riscv_soc.Timer.Model
use riscv_soc.Timer.Model.Agree
use riscv_soc.Timer.Model.Agree.{Call, reads-predicted, clear_at_expiry}

abbrev quiet : Pins
quiet = record idle_pins { resetn = true }

quiet-IsIdle : IsIdle quiet
quiet-IsIdle = record {
  out_of_reset = refl;
  awvalid_low = refl;
  wvalid_low = refl;
  arvalid_low = refl;
}

abbrev timer_at : ℕ → Timer
timer_at n = record {
  ctrl_en = true;
  reload_reg = 5;
  count = n;
  status_expired = false;
  irq_pulse = false;
  s_bvalid = false;
  s_bresp = 0;
  s_rvalid = false;
  s_rdata = 0;
  s_rresp = 0;
}

timer-IsRunning : Period.IsRunning 5 (timer_at 1)
timer-IsRunning = record { enabled = refl; reloads = refl; below = omega arith; fits = omega arith }

three_quiet : Period.AllQuiet (quiet ∷ quiet ∷ quiet ∷ [])
three_quiet =
    let q : Period.IsQuiet quiet = record { out_of_reset = refl; no_write = refl } in
    (q, (q, (q, tt)))

pulses-period_example : Period.pulses (quiet ∷ quiet ∷ quiet ∷ []) (timer_at 1) ≡ 1
pulses-period_example =
    pulses-period 5 (quiet ∷ quiet ∷ quiet ∷ []) (timer_at 1) three_quiet timer-IsRunning

abbrev timer_model : ℕ → Model.Model
timer_model n = record {
  model_en = true;
  model_count = n;
  model_expired = false;
  model_write_ctrl_en_this_cycle = false;
}

abbrev timer_bench : ℕ → Bench Timer
timer_bench n = record { pins = quiet; state = timer_at n }

timer-Tracks : (n : ℕ) → Agree.Tracks 5 (timer_model n) (timer_bench n)
timer-Tracks n = (
  record { enabled = refl; counts = refl; expired = refl; reloads = refl; flag_low = refl },
  quiet-IsIdle,
)

abbrev calls : List Call
calls = Call.read_count ∷ Call.enable ∷ []

calls-AllClear : Agree.AllClear 5 calls (timer_model 3)
calls-AllClear = (tt, (tt, tt))

reads-predicted_example :
    let n = Agree.on_model_all 5 calls (timer_model 3) in
    let e = Agree.on_bench_all 5 calls 0 0 (timer_bench 3) in
    Agree.Reports 5 0x4 e 0 0 5
    × Agree.Reports 5 0x8 e 0 0 n.model_count
    × Agree.Reports 5 0xC e 0 0 (bit n.model_expired)
reads-predicted_example =
    reads-predicted 5 calls 0 0 (timer_model 3) (timer_bench 3) (timer-Tracks 3) calls-AllClear

clear_at_expiry_example :
    ((Agree.on_bench 5 Call.clear_status 0 0 (timer_bench 0)).state.status_expired ≡ true)
    × ((Agree.on_model 5 Call.clear_status (timer_model 0)).model_expired ≡ false)
clear_at_expiry_example =
    clear_at_expiry 5 0 0 (timer_model 0) (timer_bench 0) (timer-Tracks 0) refl refl
