-- ===== src/Jtag/Tap/Main/Passes.antt =====
-- Runs of the test bench of the controller.
use riscv_soc.Base.{ℕ, zero, suc, ◌<◌, Bool, true, ==_iff, ◌≡◌, refl, List, [], ◌∷◌, arith}
use riscv_soc.Jtag.Tap.{Tap, model_next, test_logic_reset}
use riscv_soc.Jtag.Tap.Reset.{next_state-eq-model_next, model_next-lt, five_ones-path_to}
use riscv_soc.Jtag.Tap.Main.{
  Sim, step_both, random_step, cross_check, random_walk, fresh_reset, tms_one, reset_property,
  reset_properties, directed_walk, walk_bits, first_reset, cross_checked, body, main,
}

-- Design and model are in the same state, out of reset, and no check has failed.
pub record IsSynced (s : Sim) : Type 0 where
  pub out_of_reset : s.dut.resetn ≡ true
  pub agree : s.dut.state_r ≡ s.model_state
  pub legal : s.model_state < 16
  pub clean : s.fail_count ≡ 0

step_both-IsSynced : (tms : Bool) (s : Sim) → IsSynced s → IsSynced (step_both tms s)
unfolding step_both
step_both-IsSynced tms s h =
    ground (arith, next_state-eq-model_next s.dut.state_r tms, model_next-lt s.model_state tms)

-- No check has failed.
abbrev IsClean : Sim → Type 0
IsClean s = s.fail_count ≡ 0

fresh_reset-IsSynced : (bits : ℕ → Bool) (s : Sim) → IsClean s → IsSynced (fresh_reset bits s)
unfolding fresh_reset
fresh_reset-IsSynced bits s h = ground arith

first_reset-IsSynced : (bits : ℕ → Bool) (s : Sim) → IsClean s → IsSynced (first_reset bits s)
unfolding first_reset
first_reset-IsSynced bits s h = ground arith

module _ (bits : ℕ → Bool) where
  random_step-IsSynced : (s : Sim) → IsSynced s → IsSynced (random_step bits s)
  unfolding random_step
  random_step-IsSynced s h =
      let k = step_both-IsSynced (bits s.dealt) s h in
      record { out_of_reset = k.out_of_reset; agree = k.agree; legal = k.legal; clean = k.clean }

  cross_check-IsSynced : (n : ℕ) (s : Sim) → IsSynced s → IsSynced (cross_check bits n s)
  unfolding cross_check
  cross_check-IsSynced zero s h = h
  cross_check-IsSynced (suc n) s h =
      let k = random_step-IsSynced s h in
      let t = random_step bits s in
      rw ((==_iff t.dut.state_r t.model_state).1 k.agree) (cross_check-IsSynced n t k)

  cross_checked-IsSynced : (n : ℕ) (s : Sim) → IsSynced s → IsSynced (cross_checked bits n s)
  unfolding cross_checked
  cross_checked-IsSynced n s h =
      let k = cross_check-IsSynced n s h in
      ground (arith, k.out_of_reset, k.agree, k.legal, k.clean)

  random_walk-IsSynced : (n : ℕ) (s : Sim) → IsSynced s → IsSynced (random_walk bits n s)
  unfolding random_walk
  random_walk-IsSynced zero s h = h
  random_walk-IsSynced (suc n) s h =
      random_walk-IsSynced n (random_step bits s) (random_step-IsSynced s h)

  tms_one-state :
      (s : Sim)
      → s.dut.resetn ≡ true
      → ((tms_one bits s).dut.state_r ≡ model_next s.dut.state_r true)
        × ((tms_one bits s).dut.resetn ≡ true)
        × ((tms_one bits s).fail_count ≡ s.fail_count)
  unfolding tms_one
  tms_one-state s r = ground (arith, next_state-eq-model_next s.dut.state_r true)

  -- Five edges with TMS = 1 end in Test-Logic-Reset.
  tms_five :
      (s : Sim)
      → IsSynced s
      → let u = tms_one bits (tms_one bits (tms_one bits (tms_one bits (tms_one bits s)))) in
        (u.dut.state_r ≡ test_logic_reset) × (u.fail_count ≡ 0)
  tms_five s h =
      let a = tms_one-state s h.out_of_reset in
      let s1 = tms_one bits s in
      let b = tms_one-state s1 a.1 in
      let s2 = tms_one bits s1 in
      let c = tms_one-state s2 b.1 in
      let s3 = tms_one bits s2 in
      let d = tms_one-state s3 c.1 in
      let s4 = tms_one bits s3 in
      let e = tms_one-state s4 d.1 in
      let legal : s.dut.state_r < 16 = rw h.agree h.legal in
      (
        rw (e.0, d.0, c.0, b.0, a.0) (five_ones-path_to s.dut.state_r 0 legal (omega arith)).0,
        rw (e.2, d.2, c.2, b.2, a.2) h.clean,
      )

  reset_property-IsClean : (n : ℕ) (s : Sim) → IsClean s → IsClean (reset_property bits n s)
  unfolding reset_property
  reset_property-IsClean n s h =
      let t = random_walk bits n (fresh_reset bits s) in
      let k =
        tms_five t (random_walk-IsSynced n (fresh_reset bits s) (fresh_reset-IsSynced bits s h)) in
      rw k.0 k.1

  reset_properties-IsClean :
      (n from : ℕ) (s : Sim) → IsClean s → IsClean (reset_properties bits n from s)
  unfolding reset_properties
  reset_properties-IsClean zero from s h = h
  reset_properties-IsClean (suc n) from s h =
      reset_properties-IsClean n (suc from) (reset_property bits from s)
        (reset_property-IsClean from s h)

  directed_walk-IsSynced :
      (bs : List Bool) (s : Sim) → IsSynced s → IsSynced (directed_walk bits bs s)
  unfolding directed_walk
  directed_walk-IsSynced [] s h = h
  directed_walk-IsSynced (b ∷ bs) s h =
      let k = step_both-IsSynced b s h in
      let u = step_both b s in
      directed_walk-IsSynced bs _ (ground (arith, k.out_of_reset, k.agree, k.legal, k.clean))

  body-IsClean : (n walks : ℕ) (s : Sim) → IsClean s → IsClean (body bits n walks s)
  unfolding body
  body-IsClean n walks s h =
      let t = first_reset bits s in
      let u = cross_checked bits n t in
      let v = reset_properties bits walks 0 u in
      let a = cross_checked-IsSynced n t (first_reset-IsSynced bits s h) in
      let c = reset_properties-IsClean walks 0 u a.clean in
      (directed_walk-IsSynced (walk_bits bits) (fresh_reset bits v)
        (fresh_reset-IsSynced bits v c)).clean

  -- The test bench passes on every sequence of bits that the random engine may deal and from every
  -- power-on state of the design.
  pub tap_main_passes : (d : Tap) → main bits d ≡ 0
  unfolding main
  tap_main_passes d =
      let s = body bits 5000 30 (record { dut = d; model_state = 0; dealt = 0; fail_count = 0 }) in
      rw
        ((==_iff s.fail_count 0).1 (
          body-IsClean 5000 30 (record { dut = d; model_state = 0; dealt = 0; fail_count = 0 })
            refl))
        refl
