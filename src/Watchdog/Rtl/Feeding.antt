-- ===== src/Watchdog/Rtl/Feeding.antt =====
-- When the watchdog warns, when it asks for a reset, and what keeps it from doing so.
use riscv_soc.Base.{
  ℕ, suc, ◌+◌, ◌-◌, ◌≤◌, ◌<◌, ◌^◌, true, false, ◌&&◌, ◌||◌, ◌==◌, bit, ltb, leb, ◌≡◌, List, [], ◌∷◌,
  length, arith,
}
use riscv_soc.Axi.Pins.{Pins}
use riscv_soc.Watchdog.Rtl.{Watchdog, step, do_write, restart, write_kick, warn_margin}

-- The registers after a rising edge for each entry of the list.
abbrev pub run : List Pins → Watchdog → Watchdog
run [] s = s
run (p ∷ ps) s = run ps (step p s)

-- How many of these edges leave `irq` high.
abbrev pub pulses : List Pins → Watchdog → ℕ
pulses [] s = 0
pulses (p ∷ ps) s = bit (step p s).irq_pulse + pulses ps (step p s)

-- Out of reset, with no write on the bus; reads may go on.
pub record IsQuiet (p : Pins) : Type 0 where
  pub out_of_reset : p.resetn ≡ true
  pub no_write : do_write p ≡ false

abbrev pub AllQuiet : List Pins → Type 0
AllQuiet [] = Unit {0}
AllQuiet (p ∷ ps) = IsQuiet p × AllQuiet ps

-- An enabled watchdog.
pub record IsRunning (s : Watchdog) : Type 0 where
  pub enabled : s.ctrl_en ≡ true
  pub fits : s.count < 2 ^ 32

step_quiet :
    (p : Pins) (s : Watchdog)
    → IsQuiet p
    → IsRunning s
    → IsRunning (step p s)
      × ((step p s).count ≡ s.count - 1)
      × ((step p s).status_reset_req ≡ (s.status_reset_req || s.count == 0))
      × ((step p s).irq_pulse ≡ (s.count == warn_margin))
unfolding step
step_quiet p s q h = ground arith

-- An enabled watchdog that is left alone asks for a reset after exactly COUNT + 1 edges: after n
-- edges the request is up if it was up before or COUNT < n.
pub reset_req-run :
    (ps : List Pins) (s : Watchdog)
    → AllQuiet ps
    → IsRunning s
    → (run ps s).status_reset_req ≡ (s.status_reset_req || ltb s.count (length ps))
reset_req-run [] s q h = ground arith
reset_req-run (p ∷ ps) s q h =
    ground (arith, step_quiet p s q.0 h, reset_req-run ps (step p s) q.1 (step_quiet p s q.0 h).0)

-- An enabled watchdog that is left alone for n edges warns exactly once if COUNT is at least
-- WARN_MARGIN and COUNT - WARN_MARGIN < n, and never otherwise.
pub warnings-run :
    (ps : List Pins) (s : Watchdog)
    → AllQuiet ps
    → IsRunning s
    → pulses ps s ≡ bit (leb warn_margin s.count && ltb (s.count - warn_margin) (length ps))
warnings-run [] s q h = ground arith
warnings-run (p ∷ ps) s q h =
    ground (arith, step_quiet p s q.0 h, warnings-run ps (step p s) q.1 (step_quiet p s q.0 h).0)

-- Traffic that lets at most `left` edges pass before the first kick and at most `timeout` edges
-- between any two.
pub data Feeding (timeout : ℕ) : ℕ → List Pins → Type 0 where
  done : {left : ℕ} → Feeding timeout left []
  kick :
      {left : ℕ} {p : Pins} {ps : List Pins}
      → p.resetn ≡ true
      → write_kick p ≡ true
      → Feeding timeout timeout ps
      → Feeding timeout left (p ∷ ps)
  wait :
      {left : ℕ} {p : Pins} {ps : List Pins}
      → IsQuiet p
      → Feeding timeout left ps
      → Feeding timeout (suc left) (p ∷ ps)

-- A running watchdog with TIMEOUT = t, no pending request, and at least `left` cycles to go.
pub record IsFed (t left : ℕ) (s : Watchdog) : Type 0 where
  pub running : IsRunning s
  pub timeout_is : s.timeout_reg ≡ t
  pub fits : t < 2 ^ 32
  pub enough : left ≤ s.count
  pub no_request : s.status_reset_req ≡ false

step_wait-IsFed :
    (t left : ℕ) (p : Pins) (s : Watchdog)
    → IsQuiet p
    → IsFed t (suc left) s
    → IsFed t left (step p s)
unfolding step
step_wait-IsFed t left p s q h = ground arith

step_kick-IsFed :
    (t left : ℕ) (p : Pins) (s : Watchdog)
    → p.resetn ≡ true
    → write_kick p ≡ true
    → IsFed t left s
    → IsFed t t (step p s)
unfolding step
step_kick-IsFed t left p s r k h = ground arith

-- Traffic of kicks and other quiet cycles that kicks a running watchdog before its count is used
-- up, and then at most TIMEOUT cycles after each kick, never makes it ask for a reset.
pub Feeding-IsFed :
    (t : ℕ) {left : ℕ} {ps : List Pins} (s : Watchdog)
    → Feeding t left ps
    → IsFed t left s
    → (run ps s).status_reset_req ≡ false
Feeding-IsFed t s done h = h.no_request
Feeding-IsFed t s (kick {left = l} {p = p} r k f) h =
    Feeding-IsFed t (step p s) f (step_kick-IsFed t l p s r k h)
Feeding-IsFed t s (wait {left = l} {p = p} q f) h =
    Feeding-IsFed t (step p s) f (step_wait-IsFed t l p s q h)

-- Out of reset, and neither a kick nor a write that enables.
pub record IsNoRestart (p : Pins) : Type 0 where
  pub out_of_reset : p.resetn ≡ true
  pub no_restart : restart p ≡ false

abbrev pub AllNoRestart : List Pins → Type 0
AllNoRestart [] = Unit {0}
AllNoRestart (p ∷ ps) = IsNoRestart p × AllNoRestart ps

step_sticky :
    (p : Pins) (s : Watchdog)
    → IsNoRestart p
    → s.status_reset_req ≡ true
    → (step p s).status_reset_req ≡ true
unfolding step
step_sticky p s n h = ground arith

-- No traffic but a restart takes back a reset request: writes to STATUS, to TIMEOUT and of 0 to
-- CTRL leave it up.
pub reset_req_sticky :
    (ps : List Pins) (s : Watchdog)
    → AllNoRestart ps
    → s.status_reset_req ≡ true
    → (run ps s).status_reset_req ≡ true
reset_req_sticky [] s n h = h
reset_req_sticky (p ∷ ps) s n h = reset_req_sticky ps (step p s) n.1 (step_sticky p s n.0 h)
