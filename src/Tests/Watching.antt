-- ===== src/Tests/Watching.antt =====
-- The watchdog at concrete inputs.
use riscv_soc.Base.{ℕ, true, false, ◌≡◌, refl, List, [], ◌∷◌, arith}
use riscv_soc.Axi.Pins.{Pins, Bench, idle_pins}
use riscv_soc.Watchdog.Rtl.{Watchdog}
use riscv_soc.Watchdog.Rtl.Feeding.{
  IsQuiet, AllQuiet, IsRunning, Feeding, IsFed, AllNoRestart, run, Feeding-IsFed, reset_req-run,
}
use riscv_soc.Watchdog.Model.{Model}
use riscv_soc.Watchdog.Model.Agree.{Call}

abbrev quiet : Pins
quiet = record idle_pins { resetn = true }

-- A write to KICK.
abbrev kicking : Pins
kicking = record quiet { awvalid = true; awaddr = 0x8; wvalid = true; wdata = 0xFFFF_FFFF }

-- A write of 1 to STATUS.
abbrev clearing : Pins
clearing = record quiet { awvalid = true; awaddr = 0xC; wvalid = true; wdata = 1 }

quiet-IsQuiet : IsQuiet quiet
quiet-IsQuiet = record { out_of_reset = refl; no_write = refl }

abbrev watchdog_at : ℕ → Watchdog
watchdog_at n = record {
  ctrl_en = true;
  timeout_reg = 6;
  count = n;
  status_warning = false;
  status_reset_req = false;
  irq_pulse = false;
  s_bvalid = false;
  s_bresp = 0;
  s_rvalid = false;
  s_rdata = 0;
  s_rresp = 0;
}

abbrev waiting : List Pins
waiting = quiet ∷ quiet ∷ quiet ∷ []

waiting-AllQuiet : AllQuiet waiting
waiting-AllQuiet = (quiet-IsQuiet, (quiet-IsQuiet, (quiet-IsQuiet, tt)))

at_two-IsRunning : IsRunning (watchdog_at 2)
at_two-IsRunning = record { enabled = refl; fits = omega arith }

at_five-IsRunning : IsRunning (watchdog_at 5)
at_five-IsRunning = record { enabled = refl; fits = omega arith }

reset_req-run_example : (run waiting (watchdog_at 2)).status_reset_req ≡ true
reset_req-run_example = reset_req-run waiting (watchdog_at 2) waiting-AllQuiet at_two-IsRunning

fed : Feeding 6 2 (quiet ∷ quiet ∷ kicking ∷ quiet ∷ [])
fed =
    Feeding.wait quiet-IsQuiet (
      Feeding.wait quiet-IsQuiet (Feeding.kick refl refl (Feeding.wait quiet-IsQuiet Feeding.done)))

at_two-IsFed : IsFed 6 2 (watchdog_at 2)
at_two-IsFed = record {
  running = at_two-IsRunning;
  timeout_is = refl;
  fits = omega arith;
  enough = omega arith;
  no_request = refl;
}

Feeding-IsFed_example :
    (run (quiet ∷ quiet ∷ kicking ∷ quiet ∷ []) (watchdog_at 2)).status_reset_req ≡ false
Feeding-IsFed_example = Feeding-IsFed 6 (watchdog_at 2) fed at_two-IsFed

abbrev asking : Watchdog
asking = record (watchdog_at 0) { status_reset_req = true }

clearing-AllNoRestart : AllNoRestart (clearing ∷ quiet ∷ [])
clearing-AllNoRestart = (
  record { out_of_reset = refl; no_restart = refl },
  (record { out_of_reset = refl; no_restart = refl }, tt),
)

abbrev model_at : ℕ → Model
model_at n = record {
  model_en = true;
  model_count = n;
  model_warning = false;
  model_reset_req = false;
  model_irq_pulse = false;
  model_restart_this_cycle = false;
  model_status_clear_this_cycle = false;
}

abbrev bench_at : ℕ → Bench Watchdog
bench_at n = record { pins = quiet; state = watchdog_at n }

abbrev calls : List Call
calls = Call.read_kick ∷ Call.kick ∷ Call.clear_status ∷ []
