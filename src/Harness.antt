-- ===== src/Harness.antt =====
-- What the `main` of every AXI4-Lite test bench under blocks/*/dv has in common: the reset
-- sequence, the lambda `check`, the calls of the bus functional model, the exit status.
use riscv_soc.Base.{ℕ, zero, suc, Bool, true, false, ◌==◌, if◌then◌else◌}
use riscv_soc.Axi.Pins.{Dut, Bench, idle_pins}
use riscv_soc.Axi.Bfm
use riscv_soc.Axi.Bfm.{clock}

-- The locals of a `main`: the design, a software model of it, `rd`, `resp` and `fail_count`.
pub record Sim (S M : Type 0) : Type 0 where
  pub bench : Bench S
  pub model : M
  pub rd : ℕ
  pub resp : ℕ
  pub fail_count : ℕ

-- A statement of a `main`, which may yield a value.
abbrev pub Test : Type 0 → Type 0 → Type 0 → Type 0
Test S M A = Sim S M → A × Sim S M

-- Statements one after the other, over any locals `T`.
infixl 5 ◌>>=◌ ◌>>◌
abbrev pub ◌>>=◌ : {T A B : Type 0} → (T → A × T) → (A → T → B × T) → T → B × T
◌>>=◌ m f s = let (a, t) = m s in f a t

abbrev pub ◌>>◌ : {T A B : Type 0} → (T → A × T) → (T → B × T) → T → B × T
◌>>◌ m k s = let (a, t) = m s in k t

module _ {S M : Type 0} where
  abbrev pub check : Bool → Test S M (Unit {0})
  check cond s = (tt, record s { fail_count = if cond then s.fail_count else suc s.fail_count })

  abbrev pub get : Test S M (Sim S M)
  get s = (s, s)

  abbrev pub modify_model : (M → M) → Test S M (Unit {0})
  modify_model f s = (tt, record s { model = f s.model })

  -- `for (int i = first; i < first + n; i++) body(i)`.
  abbrev pub for_from : ℕ → ℕ → (ℕ → Test S M (Unit {0})) → Test S M (Unit {0})
  for_from zero first body s = (tt, s)
  for_from (suc n) first body s = let (u, t) = body first s in for_from n (suc first) body t

  -- `return fail_count ? 1 : 0`.
  abbrev pub exit_status : (Unit {0}) × Sim S M → ℕ
  exit_status r = if r.1.fail_count == 0 then 0 else 1

module _ {S M : Type 0} (d : Dut S) where
  -- `bfm.clock()`.
  unfoldable pub tick : Test S M (Unit {0})
  unfolding clock
  tick s = (tt, record s { bench = clock d s.bench })

  -- `bfm.write(addr, word, strb, &resp)` with the default time limit of 200 cycles.
  unfoldable pub write : ℕ → ℕ → ℕ → Test S M Bool
  unfolding Bfm.write
  write addr word strb s =
      let w = Bfm.write d 200 addr word strb s.resp s.bench in
      (w.ok, record s { bench = w.bench; resp = w.last_resp })

  -- `bfm.read(addr, &rd, &resp)` with the default time limit of 200 cycles.
  unfoldable pub read : ℕ → Test S M Bool
  unfolding Bfm.read
  read addr s =
      let r = Bfm.read d 200 addr s.rd s.resp s.bench in
      (r.ok, record s { bench = r.bench; rd = r.out_data; resp = r.last_resp })

module _ {S : Type 0} where
  abbrev pub set_resetn : Bool → Bench S → Bench S
  set_resetn level b = record b { pins = record b.pins { resetn = level } }

  -- `resetn = 0; clock(); clock(); resetn = 1; clock();` from any power-on state.
  unfoldable pub power_on : Dut S → S → Bench S
  unfolding clock
  power_on d s =
      let down = set_resetn false (record { pins = idle_pins; state = s }) in
      clock d (set_resetn true (clock d (clock d down)))
