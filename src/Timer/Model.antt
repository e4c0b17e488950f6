-- ===== src/Timer/Model.antt =====
-- The software model of blocks/timer/dv/sim_main.cpp, advanced once for each bus transaction.
pub mod Agree
use riscv_soc.Base.{ℕ, Bool, true, false, ◌&&◌, ◌==◌, if◌then◌else◌, all_ones, dec32}

pub record Model : Type 0 where
  pub model_en : Bool
  pub model_count : ℕ
  pub model_expired : Bool
  pub model_write_ctrl_en_this_cycle : Bool

abbrev pub initial : Model
initial = record {
  model_en = false;
  model_count = all_ones;
  model_expired = false;
  model_write_ctrl_en_this_cycle = false;
}

-- The lambda `advance_model`; `reload` is the constant `RELOAD`.
unfoldable pub advance_model : ℕ → Model → Model
advance_model reload m =
    record (if m.model_write_ctrl_en_this_cycle
      then record m { model_count = reload }
      else if m.model_en && m.model_count == 0
      then record m { model_count = reload; model_expired = true }
      else if m.model_en
      then record m { model_count = dec32 m.model_count }
      else m) { model_write_ctrl_en_this_cycle = false }

-- What `main` does to the model around a bus transaction: around a plain one, around the write of
-- 1 and of 0 to CTRL, and around the write of 1 to STATUS.
unfoldable pub after_call : ℕ → Model → Model
unfolding advance_model
after_call reload m = advance_model reload m

unfoldable pub after_enable : ℕ → Model → Model
unfolding advance_model
after_enable reload m =
    advance_model reload (record m { model_en = true; model_write_ctrl_en_this_cycle = true })

unfoldable pub after_disable : ℕ → Model → Model
unfolding advance_model
after_disable reload m = record (advance_model reload m) { model_en = false }

unfoldable pub after_clear : ℕ → Model → Model
unfolding advance_model
after_clear reload m = record (advance_model reload m) { model_expired = false }
