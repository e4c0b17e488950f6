-- ===== src/Jtag/Tap/Reset.antt =====
-- What TMS can do to the controller from any state.
use riscv_soc.Base.{
  ℕ, ◌-◌, ◌<◌, Bool, true, false, ◌==◌, ltb, if◌then◌else◌, ◌≡◌, refl, ◌∙◌, ap, List, [], ◌∷◌, ◌++◌,
  arith, all_below, all_equal,
}
use riscv_soc.Jtag.Tap.{model_next, next_state, test_logic_reset, run_test_idle}

-- The table of the design is that of the software model.
pub next_state-eq-model_next : (cur : ℕ) (tms : Bool) → next_state cur tms ≡ model_next cur tms
unfolding next_state model_next
next_state-eq-model_next cur tms = refl

-- The states that follow under a sequence of TMS values.
abbrev pub walk : List Bool → ℕ → ℕ
walk [] s = s
walk (b ∷ bs) s = walk bs (model_next s b)

abbrev pub five_ones : List Bool
five_ones = true ∷ true ∷ true ∷ true ∷ true ∷ []

pub model_next-lt : (cur : ℕ) (tms : Bool) → model_next cur tms < 16
unfolding model_next
model_next-lt cur tms = ground arith

five_ones_table : all_below 16 (λ s. walk five_ones s == test_logic_reset) ≡ true
unfolding all_below model_next
five_ones_table = refl

five_ones_resets : (s : ℕ) → s < 16 → walk five_ones s ≡ test_logic_reset
five_ones_resets s h = all_equal 16 (walk five_ones) (λ t. test_logic_reset) s five_ones_table h

walk-append : (bs cs : List Bool) (s : ℕ) → walk (bs ++ cs) s ≡ walk cs (walk bs s)
walk-append [] cs s = refl
walk-append (b ∷ bs) cs s = walk-append bs cs (model_next s b)

-- A shortest way from Test-Logic-Reset to a state: the branch that the instruction and the data
-- column share, then the way down a column.
column_path : ℕ → List Bool
column_path n =
    if n == 0
    then false ∷ []
    else if n == 1
    then false ∷ false ∷ []
    else if n == 2
    then false ∷ true ∷ []
    else if n == 3
    then false ∷ true ∷ false ∷ []
    else if n == 4
    then false ∷ true ∷ false ∷ true ∷ []
    else false ∷ true ∷ true ∷ []

unfoldable pub path_to : ℕ → List Bool
unfolding column_path
path_to t =
    if t == test_logic_reset
    then []
    else if t == run_test_idle
    then false ∷ []
    else if t == 2
    then false ∷ true ∷ []
    else if ltb t 9
    then false ∷ true ∷ column_path (t - 3)
    else if t == 9
    then false ∷ true ∷ true ∷ []
    else false ∷ true ∷ true ∷ column_path (t - 10)

path_table : all_below 16 (λ t. walk (path_to t) test_logic_reset == t) ≡ true
unfolding all_below path_to model_next
path_table = refl

-- Five rising edges with TMS = 1 bring the controller from each of its sixteen states to
-- Test-Logic-Reset, and from there it can be driven to each of them.
pub five_ones-path_to :
    (s t : ℕ)
    → s < 16
    → t < 16
    → (walk five_ones s ≡ test_logic_reset) × (walk (five_ones ++ path_to t) s ≡ t)
five_ones-path_to s t h k =
    let reset = five_ones_resets s h in
    (
      reset,
      walk-append five_ones (path_to t) s
          ∙ (ap (walk (path_to t)) reset
              ∙ all_equal 16 (λ u. walk (path_to u) test_logic_reset) (λ u. u) t path_table k),
    )
