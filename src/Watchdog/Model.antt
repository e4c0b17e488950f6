-- ===== src/Watchdog/Model.antt =====
-- The software model of blocks/watchdog/dv/sim_main.cpp, advanced once for each bus transaction.
pub mod Agree
use riscv_soc.Base.{
  ℕ, ◌+◌, ◌*◌, Bool, true, false, not, ◌&&◌, ◌==◌, if◌then◌else◌, bit, all_ones, dec32,
}

-- The constant `WARN_MARGIN` of the test bench.
abbrev pub warn_margin : ℕ
warn_margin = 4

pub record Model : Type 0 where
  pub model_en : Bool
  pub model_count : ℕ
  pub model_warning : Bool
  pub model_reset_req : Bool
  pub model_irq_pulse : Bool
  pub model_restart_this_cycle : Bool
  pub model_status_clear_this_cycle : Bool

abbrev pub initial : Model
initial = record {
  model_en = false;
  model_count = all_ones;
  model_warning = false;
  model_reset_req = false;
  model_irq_pulse = false;
  model_restart_this_cycle = false;
  model_status_clear_this_cycle = false;
}

advance_counters : ℕ → Model → Model
advance_counters timeout m =
    if m.model_restart_this_cycle
    then record m { model_count = timeout; model_warning = false; model_reset_req = false }
    else record m {
      model_count =
          if m.model_en && not (m.model_count == 0) then dec32 m.model_count else m.model_count;
      model_warning =
          if m.model_en && m.model_count == warn_margin
          then true
          else if m.model_status_clear_this_cycle
          then false
          else m.model_warning;
      model_reset_req = if m.model_en && m.model_count == 0 then true else m.model_reset_req;
    }

-- The lambda `advance_model`; `timeout` is the constant `TIMEOUT`.
unfoldable pub advance_model : ℕ → Model → Model
unfolding advance_counters
advance_model timeout m = record (advance_counters timeout m) {
  model_irq_pulse = not m.model_restart_this_cycle && (m.model_en && m.model_count == warn_margin);
  model_restart_this_cycle = false;
  model_status_clear_this_cycle = false;
}

-- What `main` does to the model around a bus transaction: around a plain one, around the write of
-- 1 to CTRL, around a kick, and around the write of 1 to STATUS.
unfoldable pub after_call : ℕ → Model → Model
unfolding advance_model
after_call timeout m = advance_model timeout m

unfoldable pub after_enable : ℕ → Model → Model
unfolding advance_model
after_enable timeout m =
    record (advance_model timeout (record m { model_restart_this_cycle = true })) {
      model_en = true;
    }

unfoldable pub after_kick : ℕ → Model → Model
unfolding advance_model
after_kick timeout m = advance_model timeout (record m { model_restart_this_cycle = true })

unfoldable pub after_clear : ℕ → Model → Model
unfolding advance_model
after_clear timeout m = advance_model timeout (record m { model_status_clear_this_cycle = true })

-- `expected_status`.
abbrev pub expected_status : Model → ℕ
expected_status m = 2 * bit m.model_reset_req + bit m.model_warning
