-- ===== src/Timer/Main.antt =====
-- `main` of blocks/timer/dv/sim_main.cpp.
use riscv_soc.Base.{ℕ, ◌+◌, ◌*◌, ◌%◌, ◌&&◌, ◌==◌, bit, ◌≡◌, refl}
use riscv_soc.Harness.{
  Test, ◌>>=◌, ◌>>◌, check, get, modify_model, for_from, exit_status, write, read, power_on,
}
use riscv_soc.Timer.Rtl.{Timer, dut, resp_okay, step}
use riscv_soc.Timer.Model.{Model, initial, after_call, after_enable, after_disable, after_clear}

abbrev reload : ℕ
reload = 5

-- One transaction, the check of its success, and one step of the model.
write_ok : ℕ → ℕ → (Model → Model) → Test Timer Model (Unit {0})
unfolding write
write_ok addr word advance = do
  ok ← write dut addr word 0xF
  modify_model advance
  s ← get
  check (ok && s.resp == resp_okay)

-- A read that expects a word which is taken from the model before the transaction.
read_expects : ℕ → (Model → ℕ) → Test Timer Model (Unit {0})
unfolding read after_call
read_expects addr expected = do
  before ← get
  ok ← read dut addr
  modify_model (after_call reload)
  s ← get
  check (ok && s.rd == expected before.model)

-- A read of STATUS, of which only bit 0 is compared.
status_expects : Test Timer Model (Unit {0})
unfolding read after_call
status_expects = do
  before ← get
  ok ← read dut 0xC
  modify_model (after_call reload)
  s ← get
  check (ok && s.rd % 2 == bit before.model.model_expired)

-- A read of COUNT while the timer is stopped.
read_holds : ℕ → Test Timer Model (Unit {0})
unfolding read after_call
read_holds held_count = do
  before ← get
  ok ← read dut 0x8
  modify_model (after_call reload)
  s ← get
  check (ok && (s.rd == before.model.model_count && before.model.model_count == held_count))

body : Test Timer Model (Unit {0})
unfolding write_ok read_expects status_expects read_holds after_call after_enable after_disable
    after_clear
body = do
  write_ok 0x4 reload (after_call reload)
  read_expects 0x4 (λ m. reload)
  write_ok 0x0 0x1 (after_enable reload)
  s ← get
  check (s.model.model_count == reload)
  for_from (2 * (reload + 1)) 0 (λ cycle. read_expects 0x8 (λ m. m.model_count))
  t ← get
  check t.model.model_expired
  status_expects
  write_ok 0xC 0x1 (after_clear reload)
  status_expects
  read_expects 0x8 (λ m. m.model_count)
  write_ok 0x0 0x0 (after_disable reload)
  held ← get
  for_from 3 0 (λ i. read_holds held.model.model_count)

-- `main`, from a power-on state of the registers and of the locals `rd` and `resp`.
pub main : Timer → ℕ → ℕ → ℕ
unfolding body power_on
main s rd resp = exit_status (
    body (record { bench = power_on dut s; model = initial; rd = rd; resp = resp; fail_count = 0 }))

-- The test bench passes whatever the registers and the uninitialised locals hold at power-on.
pub timer_main_passes : (s : Timer) (rd resp : ℕ) → main s rd resp ≡ 0
unfolding main step
timer_main_passes s rd resp = refl
