-- ===== src/Timer/Rtl/Period.antt =====
-- When the timer interrupts.
use riscv_soc.Base.{
  ℕ, suc, ◌+◌, ◌-◌, ◌*◌, ◌/◌, ◌≤◌, ◌<◌, ◌^◌, true, false, bit, ◌≡◌, List, [], ◌∷◌, length, arith,
}
use native.Mathlib.Nat.{mul-add-div_right, div-eq_of_lt}
use riscv_soc.Axi.Pins.{Pins}
use riscv_soc.Timer.Rtl.{Timer, step, do_write}

-- The registers after a rising edge for each entry of the list.
abbrev pub run : List Pins → Timer → Timer
run [] s = s
run (p ∷ ps) s = run ps (step p s)

-- How many of these edges leave `irq` high.
abbrev pub pulses : List Pins → Timer → ℕ
pulses [] s = 0
pulses (p ∷ ps) s = bit (step p s).irq_pulse + pulses ps (step p s)

-- Out of reset, with no write on the bus; reads may go on.
pub record IsQuiet (p : Pins) : Type 0 where
  pub out_of_reset : p.resetn ≡ true
  pub no_write : do_write p ≡ false

abbrev pub AllQuiet : List Pins → Type 0
AllQuiet [] = Unit {0}
AllQuiet (p ∷ ps) = IsQuiet p × AllQuiet ps

-- An enabled timer with COUNT at or below RELOAD.
pub record IsRunning (r : ℕ) (s : Timer) : Type 0 where
  pub enabled : s.ctrl_en ≡ true
  pub reloads : s.reload_reg ≡ r
  pub below : s.count ≤ r
  pub fits : r < 2 ^ 32

step-IsRunning : (r : ℕ) (p : Pins) (s : Timer) → IsQuiet p → IsRunning r s → IsRunning r (step p s)
unfolding step
step-IsRunning r p s q h = ground arith

step_distance :
    (r : ℕ) (p : Pins) (s : Timer)
    → IsQuiet p
    → IsRunning r s
    → bit (step p s).irq_pulse * suc r + (r - (step p s).count) ≡ suc (r - s.count)
unfolding step
step_distance r p s q h = ground arith

run_distance :
    (r : ℕ) (ps : List Pins) (s : Timer)
    → AllQuiet ps
    → IsRunning r s
    → pulses ps s * suc r + (r - (run ps s).count) ≡ length ps + (r - s.count)
run_distance r [] s q h = omega arith
run_distance r (p ∷ ps) s q h = omega (
  arith,
  step_distance r p s q.0 h,
  run_distance r ps (step p s) q.1 (step-IsRunning r p s q.0 h),
)

-- While nothing is written, an enabled timer with COUNT at or below RELOAD = r raises `irq` once
-- every r + 1 edges: after n edges it has done so (n + (r - COUNT)) / (r + 1) times.
pub pulses-period :
    (r : ℕ) (ps : List Pins) (s : Timer)
    → AllQuiet ps
    → IsRunning r s
    → pulses ps s ≡ (length ps + (r - s.count)) / suc r
pulses-period r ps s q h = rw (← run_distance r ps s q h) (
    rw (mul-add-div_right {m = suc r} (omega arith) (pulses ps s) (r - (run ps s).count))
      (rw (div-eq_of_lt {n = r - (run ps s).count} {m = suc r} (omega arith)) (omega arith)))
