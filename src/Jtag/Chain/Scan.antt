-- ===== src/Jtag/Chain/Scan.antt =====
-- The lambdas of dv/jtag_chain_sim_main.cpp and dv/jtag_chain_fast_tck_sim_main.cpp, which differ
-- in how `clk` runs below each half period of `tck`: the parameter `pace`.
use riscv_soc.Base.{ℕ, zero, suc, ◌+◌, ◌%◌, ◌*◌, ◌^◌, Bool, true, false}
use riscv_soc.Base.{◌==◌, test_bit, bit, bit_or, if◌then◌else◌}
use riscv_soc.Harness.{◌>>=◌, ◌>>◌}
use riscv_soc.Jtag.Chain.Dtm.{tdo}
use riscv_soc.Jtag.Chain.Top.{Chain, set_tck, clk_step}

-- The locals of `main` that the lambdas change.
pub record Sim : Type 0 where
  pub chain : Chain
  pub tck_half_counter : ℕ
  pub fail_count : ℕ

-- A statement that yields a value.
abbrev pub Run : Type 0 → Type 0
Run A = Sim → A × Sim

unfoldable pub check : Bool → Run (Unit {0})
check cond s = (tt, record s { fail_count = if cond then s.fail_count else suc s.fail_count })

-- `for (int i = 0; i < n; i++) clk_step();`.
unfoldable pub clk_steps : ℕ → Chain → Chain
unfolding clk_step
clk_steps zero c = c
clk_steps (suc n) c = clk_steps n (clk_step c)

-- Slow `tck`: CLK_STEPS_PER_TCK_HALF = 10.
unfoldable pub slow_pace : Sim → Sim
unfolding clk_steps
slow_pace s = record s { chain = clk_steps 10 s.chain }

-- Fast `tck`: the lambda `maybe_clk_step`, TCK_HALVES_PER_CLK_HALF = 5.
unfoldable pub fast_pace : Sim → Sim
unfolding clk_step
fast_pace s =
    let n = s.tck_half_counter + 1 in
    record s { tck_half_counter = n; chain = if n % 5 == 0 then clk_step s.chain else s.chain }

unfoldable pub drive : Bool → Bool → Sim → Sim
drive tms tdi s = record s { chain = record s.chain { tms = tms; tdi = tdi } }

unfoldable pub put_tck : Bool → Sim → Sim
unfolding set_tck
put_tck level s = record s { chain = set_tck level s.chain }

module _ (pace : Sim → Sim) where
  unfoldable pub tap_edge : Bool → Bool → Run Bool
  unfolding drive put_tck
  tap_edge tms tdi s =
      let d = drive tms tdi s in (tdo d.chain.dtm, pace (put_tck false (pace (put_tck true d))))

  -- The loop of `ir_scan`, from bit `i` on with `left` bits to go.
  unfoldable pub ir_bits : ℕ → ℕ → ℕ → Run (Unit {0})
  unfolding tap_edge
  ir_bits zero i val s = (tt, s)
  ir_bits (suc left) i val s = ir_bits left (suc i) val (tap_edge (left == 0) (test_bit val i) s).1

  unfoldable pub ir_scan : ℕ → Run (Unit {0})
  unfolding tap_edge ir_bits
  ir_scan val =
      tap_edge true false
      >> tap_edge true false
      >> tap_edge false false
      >> tap_edge false false
      >> ir_bits 4 0 val
      >> tap_edge true false
      >> tap_edge false false
      >> (λ s. (tt, s))

  -- The loop of `dr_scan32`, from bit `i` on with `left` bits to go.
  unfoldable pub dr_bits : ℕ → ℕ → ℕ → ℕ → Run ℕ
  unfolding tap_edge
  dr_bits zero i val_in out s = (out, s)
  dr_bits (suc left) i val_in out s =
      let (level, t) = tap_edge (left == 0) (test_bit val_in i) s in
      dr_bits left (suc i) val_in (bit_or out (bit level * 2 ^ i)) t

  unfoldable pub dr_scan32 : ℕ → Run ℕ
  unfolding tap_edge dr_bits
  dr_scan32 val_in =
      tap_edge true false
      >> tap_edge false false
      >> tap_edge false false
      >> dr_bits 32 0 val_in 0
      >>= λ out. tap_edge true false >> tap_edge false false >> (λ s. (out, s))
