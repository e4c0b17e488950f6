-- ===== src/Watchdog/Main.antt =====
-- `main` of blocks/watchdog/dv/sim_main.cpp.
use riscv_soc.Base.{ℕ, ◌+◌, Bool, true, false, not, ◌&&◌, ◌==◌, if◌then◌else◌, same, ◌≡◌, refl}
use riscv_soc.Harness.{
  Test, ◌>>=◌, ◌>>◌, check, get, modify_model, for_from, exit_status, write, read, power_on,
}
use riscv_soc.Watchdog.Rtl.{Watchdog, dut, resp_okay, step}
use riscv_soc.Watchdog.Model.{
  Model, initial, warn_margin, after_call, after_enable, after_kick, after_clear, expected_status,
}

abbrev timeout : ℕ
timeout = 6

-- The model and the locals of the countdown walk.
pub record Locals : Type 0 where
  pub model : Model
  pub saw_warning_exactly_at_margin : Bool
  pub saw_reset_req_exactly_at_zero : Bool
  pub prev_warning : Bool
  pub prev_reset_req : Bool

advance : (Model → Model) → Locals → Locals
advance f l = record l { model = f l.model }

-- One write, one step of the model, and the check of the success of the write.
write_ok : ℕ → ℕ → (Model → Model) → Test Watchdog Locals (Unit {0})
unfolding write advance
write_ok addr word f = do
  ok ← write dut addr word 0xF
  modify_model (advance f)
  s ← get
  check (ok && s.resp == resp_okay)

-- A read of STATUS against the model before the transaction, with a further condition on it.
status_expects : (Model → Bool) → Test Watchdog Locals (Unit {0})
unfolding read advance after_call
status_expects also = do
  before ← get
  ok ← read dut 0xC
  modify_model (advance (after_call timeout))
  s ← get
  let m = s.model.model
  check (ok && (s.rd == expected_status before.model.model && also m))

-- The body of the countdown loop.
walk : Test Watchdog Locals (Unit {0})
unfolding read advance after_call
walk = do
  before ← get
  let pre_edge_count = before.model.model.model_count
  ok ← read dut 0x8
  modify_model (advance (after_call timeout))
  s ← get
  let m = s.model.model
  let warned = m.model_warning && not s.model.prev_warning
  let asked = m.model_reset_req && not s.model.prev_reset_req
  check (if warned then pre_edge_count == warn_margin else true)
  check (if asked then pre_edge_count == 0 else true)
  modify_model (λ l. record l {
    saw_warning_exactly_at_margin = if warned then true else l.saw_warning_exactly_at_margin;
    saw_reset_req_exactly_at_zero = if asked then true else l.saw_reset_req_exactly_at_zero;
  })
  check (same s.bench.state.status_reset_req m.model_reset_req)
  check (same s.bench.state.irq_pulse m.model_irq_pulse)
  modify_model
      (λ l. record l { prev_warning = m.model_warning; prev_reset_req = m.model_reset_req })

body : Test Watchdog Locals (Unit {0})
unfolding read write_ok status_expects walk advance after_call after_enable after_kick after_clear
body = do
  write_ok 0x4 timeout (after_call timeout)
  ok ← read dut 0x4
  modify_model (advance (after_call timeout))
  s ← get
  check (ok && s.rd == timeout)
  write_ok 0x0 0x1 (after_enable timeout)
  t ← get
  modify_model (λ l. record l {
    prev_warning = l.model.model_warning;
    prev_reset_req = l.model.model_reset_req;
  })
  for_from (timeout + 2) 0 (λ cycle. walk)
  u ← get
  check u.model.saw_warning_exactly_at_margin
  check u.model.saw_reset_req_exactly_at_zero
  status_expects (λ m. true)
  v ← get
  check (not v.bench.state.irq_pulse)
  check (same v.bench.state.status_reset_req v.model.model.model_reset_req)
  write_ok 0xC 0x1 (after_clear timeout)
  status_expects (λ m. not m.model_warning && m.model_reset_req)
  write_ok 0x8 0xFFFF_FFFF (after_kick timeout)
  w ← get
  check (not w.bench.state.status_reset_req)
  ok' ← read dut 0xC
  modify_model (advance (after_call timeout))
  x ← get
  check (ok' && (x.rd == 0 && expected_status w.model.model == 0))

-- `main`, from a power-on state of the registers and of the locals `rd` and `resp`.
pub main : Watchdog → ℕ → ℕ → ℕ
unfolding body power_on
main s rd resp = exit_status (
    body (record {
      bench = power_on dut s;
      model = record {
        model = initial;
        saw_warning_exactly_at_margin = false;
        saw_reset_req_exactly_at_zero = false;
        prev_warning = false;
        prev_reset_req = false;
      };
      rd = rd;
      resp = resp;
      fail_count = 0;
    }))

-- The test bench passes whatever the registers and the uninitialised locals hold at power-on.
pub watchdog_main_passes : (s : Watchdog) (rd resp : ℕ) → main s rd resp ≡ 0
unfolding main step
watchdog_main_passes s rd resp = refl
