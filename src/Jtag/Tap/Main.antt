-- ===== src/Jtag/Tap/Main.antt =====
-- `main` of blocks/jtag/dv/tap_sim_main.cpp. The bits that the random engine deals are a parameter.
pub mod Passes
use riscv_soc.Base.{ℕ, zero, suc, ◌+◌, Bool, true, false, ◌&&◌, ◌==◌, if◌then◌else◌, List, [], ◌∷◌}
use riscv_soc.Jtag.Tap.{Tap, posedge, model_next, test_logic_reset}

-- The locals of `main`: the design, the model, the number of bits dealt, the count of failures.
pub record Sim : Type 0 where
  pub dut : Tap
  pub model_state : ℕ
  pub dealt : ℕ
  pub fail_count : ℕ

-- The lambda `tck`: the design sees one rising edge.
unfoldable pub tck : Sim → Sim
unfolding posedge
tck s = record s { dut = posedge s.dut }

abbrev pub check : Bool → Sim → Sim
check cond s = record s { fail_count = if cond then s.fail_count else suc s.fail_count }

abbrev pub set_resetn : Bool → Sim → Sim
set_resetn level s = record s { dut = record s.dut { resetn = level } }

abbrev pub set_tms : Bool → Sim → Sim
set_tms tms s = record s { dut = record s.dut { tms = tms } }

abbrev pub in_reset : Sim → Bool
in_reset s = s.dut.state_r == test_logic_reset

-- One step of design and model with the same TMS.
unfoldable pub step_both : Bool → Sim → Sim
unfolding tck
step_both tms s =
    let t = tck (set_tms tms s) in record t { model_state = model_next t.model_state tms }

module _ (bits : ℕ → Bool) where
  -- `int tms = bit(rng)`, then one step of both.
  unfoldable pub random_step : Sim → Sim
  unfolding step_both
  random_step s = let t = step_both (bits s.dealt) s in record t { dealt = suc t.dealt }

  -- The cross-check loop, which breaks off at the first difference, with `left` rounds to go.
  unfoldable pub cross_check : ℕ → Sim → Sim
  unfolding random_step
  cross_check zero s = s
  cross_check (suc left) s =
      let t = random_step s in
      let rest = cross_check left t in
      if t.dut.state_r == t.model_state then rest else check false t

  -- The inner walk of the reset property.
  unfoldable pub random_walk : ℕ → Sim → Sim
  unfolding random_step
  random_walk zero s = s
  random_walk (suc left) s = random_walk left (random_step s)

  -- `resetn = 0; tck(); resetn = 1; model_state = TEST_LOGIC_RESET`.
  unfoldable pub fresh_reset : Sim → Sim
  unfolding tck
  fresh_reset s = record (set_resetn true (tck (set_resetn false s))) {
    model_state = test_logic_reset;
  }

  -- `tms = 1; tck();`
  unfoldable pub tms_one : Sim → Sim
  unfolding tck
  tms_one s = tck (set_tms true s)

  unfoldable pub reset_property : ℕ → Sim → Sim
  unfolding fresh_reset random_walk tms_one
  reset_property walk_len s =
      let t = random_walk walk_len (fresh_reset s) in
      let u = tms_one (tms_one (tms_one (tms_one (tms_one t)))) in check (in_reset u) u

  -- `for (int target_walk_len = from; target_walk_len < from + left; …)`.
  unfoldable pub reset_properties : ℕ → ℕ → Sim → Sim
  unfolding reset_property
  reset_properties zero from s = s
  reset_properties (suc left) from s = reset_properties left (suc from) (reset_property from s)

  unfoldable pub directed_walk : List Bool → Sim → Sim
  unfolding step_both
  directed_walk [] s = s
  directed_walk (t ∷ ts) s =
      let u = step_both t s in directed_walk ts (check (u.dut.state_r == u.model_state) u)

  abbrev pub walk_bits : List Bool
  walk_bits =
      false ∷ true ∷ true ∷ false ∷ true ∷ false ∷ true ∷ false ∷ true ∷ true ∷ true ∷ false ∷ true
      ∷ false ∷ true ∷ false ∷ true ∷ true ∷ false ∷ []

  -- The first reset: two edges, and a check of both outputs.
  unfoldable pub first_reset : Sim → Sim
  unfolding tck
  first_reset s =
      let t = tck (tck (set_resetn false s)) in
      record (set_resetn true (check (in_reset t) t)) { model_state = test_logic_reset }

  -- The cross-check and the check that follows it.
  unfoldable pub cross_checked : ℕ → Sim → Sim
  unfolding cross_check
  cross_checked n s = let t = cross_check n s in check (t.fail_count == 0) t

  pub body : ℕ → ℕ → Sim → Sim
  unfolding first_reset cross_checked reset_properties fresh_reset directed_walk
  body n walks s =
      directed_walk walk_bits
        (fresh_reset (reset_properties walks 0 (cross_checked n (first_reset s))))

  -- `main`, from a power-on state of the design; the result is the exit status.
  pub main : Tap → ℕ
  unfolding body
  main d =
      let s = body 5000 30 (record { dut = d; model_state = 0; dealt = 0; fail_count = 0 }) in
      if s.fail_count == 0 then 0 else 1
