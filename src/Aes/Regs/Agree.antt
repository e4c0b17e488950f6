-- ===== src/Aes/Regs/Agree.antt =====
-- The runs of `main` of blocks/aes/dv/diff_sim_main.cpp, for any random engine that deals bytes.
use riscv_soc.Base.{ℕ, zero, suc, ◌+◌, ◌*◌, ◌<◌, Bool, true, false}
use riscv_soc.Base.{if◌then◌else◌, ◌≡◌, refl, sym, ap, ◌∙◌, arith, Option, none, some}
use mathlib.Core.Path.{subst}
use riscv_soc.Harness.{Sim, power_on}
use riscv_soc.Aes.Gf.{init_tables, mul9, mul11, mul13, mul14}
use riscv_soc.Aes.Ref.{Block, encrypt, decrypt}
use riscv_soc.Aes.Ref.MixInverse.{IsByteBlock}
use riscv_soc.Aes.Ref.Inverse.{decrypt-encrypt, encrypt-IsByteBlock}
use riscv_soc.Aes.KeyExpand
use riscv_soc.Aes.KeyExpand.{RoundKey}
use riscv_soc.Aes.Core.{words_of, bytes_of, core_step}
use riscv_soc.Aes.Core.Main.{same_block}
use riscv_soc.Aes.Core.Refines.{bytes_of-words_of}
use riscv_soc.Aes.Chain.{chain_step, core_in}
use riscv_soc.Aes.Chain.Due.{cipher}
use riscv_soc.Aes.Regs.{Aes, dut, step, zero_words}
use riscv_soc.Aes.Regs.Run.{IsRested, rtl_run-cipher}
use riscv_soc.Aes.Regs.Diff.{
  rtl_run, block_of, random_key, random_pt, back_again, iteration, iterations, oracle_ok, main,
  differs,
}

encrypts :
    (key pt : Block)
    → IsByteBlock pt
    → bytes_of (cipher key false (words_of pt)) ≡ encrypt init_tables pt key
unfolding cipher
encrypts key pt h =
    ap (λ b. bytes_of (words_of (encrypt init_tables b key))) (bytes_of-words_of pt h)
    ∙ bytes_of-words_of (encrypt init_tables pt key) (encrypt-IsByteBlock pt key h)

decrypts :
    (key pt : Block)
    → IsByteBlock pt
    → bytes_of (cipher key true (words_of (encrypt init_tables pt key))) ≡ pt
unfolding cipher
decrypts key pt h =
    let ct = encrypt init_tables pt key in
    ap (λ b. bytes_of (words_of (decrypt init_tables b key)))
      (bytes_of-words_of ct (encrypt-IsByteBlock pt key h))
    ∙ ap (λ b. bytes_of (words_of b)) (decrypt-encrypt pt key h)
    ∙ bytes_of-words_of pt h

same_block_refl : (b : Block) → same_block b b ≡ true
unfolding same_block
same_block_refl b = ground arith

no_difference : (b : Block) → differs b b ≡ 0
no_difference b = ap (λ (v : Bool). if v then 0 else 1) (same_block_refl b)

-- The second half, when the first has yielded the ciphertext of the reference model.
back_again_agrees :
    (key pt : Block) (s : Sim Aes (Unit {0}))
    → IsByteBlock key
    → IsByteBlock pt
    → IsRested s
    → let r = back_again key pt (some (encrypt init_tables pt key)) s in (r.0 ≡ 0) × IsRested r.1
unfolding back_again
back_again_agrees key pt s bk bp h =
    let ct = encrypt init_tables pt key in
    let r = rtl_run key ct true s in
    let x = rtl_run-cipher key ct true s bk (encrypt-IsByteBlock pt key bp) h in
    let e : r.0 ≡ some pt = x.0 ∙ ap (λ b. some b) (decrypts key pt bp) in
    (
      ap
            (λ (v : Option Block). elim v [
              | none ↦ differs ct ct + 1
              | some b ↦ differs ct ct + differs b pt
            ])
            e
          ∙ (λ i. no_difference ct i + no_difference pt i),
      x.1,
    )

iteration_agrees :
    (key pt : Block) (s : Sim Aes (Unit {0}))
    → IsByteBlock key
    → IsByteBlock pt
    → IsRested s
    → let r = iteration key pt s in (r.0 ≡ 0) × IsRested r.1
unfolding iteration
iteration_agrees key pt s bk bp h =
    let r = rtl_run key pt false s in
    let x = rtl_run-cipher key pt false s bk bp h in
    let e : r.0 ≡ some (encrypt init_tables pt key) = x.0 ∙ ap (λ b. some b) (encrypts key pt bp) in
    subst (λ v. let t = back_again key pt v r.1 in (t.0 ≡ 0) × IsRested t.1) (sym e)
      (back_again_agrees key pt r.1 bk bp x.1)

powered_on :
    (s : Aes) (rd resp : ℕ)
    → IsRested (record { bench = power_on dut s; model = tt; rd = rd; resp = resp; fail_count = 0 })
unfolding power_on step chain_step core_in core_step KeyExpand.step
powered_on s rd resp = record {
  key = zero_words;
  input = zero_words;
  rests = record {
    idle = record {
      out_of_reset = refl;
      awvalid_low = refl;
      wvalid_low = refl;
      arvalid_low = refl;
    };
    holds = record {
      calm = record {
        free = record {
          chain_idle = refl;
          core_free = record { core_idle = refl; expand_idle = refl };
        };
        vector_words = record {
          l0 = omega arith;
          l1 = omega arith;
          l2 = omega arith;
          l3 = omega arith;
        };
        quiet = refl;
      };
      clear = refl;
      key = refl;
      input = refl;
    };
  };
}

-- The check of the reference model that comes first.
oracle_passes : oracle_ok ≡ true
unfolding oracle_ok encrypt decrypt init_tables mul9 mul11 mul13 mul14
oracle_passes = refl

module _ (rng : ℕ → ℕ) (deals : (i : ℕ) → rng i < 256) where
  dealt : (f : ℕ → ℕ) → ((i : ℕ) → f i < 256) → IsByteBlock (block_of f)
  unfolding block_of
  dealt f h = record {
    k0 = record { b0 = h 0; b1 = h 1; b2 = h 2; b3 = h 3 };
    k1 = record { b0 = h 4; b1 = h 5; b2 = h 6; b3 = h 7 };
    k2 = record { b0 = h 8; b1 = h 9; b2 = h 10; b3 = h 11 };
    k3 = record { b0 = h 12; b1 = h 13; b2 = h 14; b3 = h 15 };
  }

  iterations_agree :
      (left iter : ℕ) (s : Sim Aes (Unit {0})) → IsRested s → iterations rng left iter s ≡ 0
  unfolding iterations random_key random_pt
  iterations_agree zero iter s h = refl
  iterations_agree (suc left) iter s h =
      let key = random_key rng iter in
      let pt = random_pt rng iter in
      let x =
        iteration_agrees key pt s (dealt (λ i. rng (32 * iter + 2 * i)) (λ i. deals _))
          (dealt (λ i. rng (32 * iter + 2 * i + 1)) (λ i. deals _)) h in
      λ i. x.0 i + iterations_agree left (suc iter) (iteration key pt s).1 x.1 i

  -- If the random engine deals bytes, the differential test of the accelerator against the reference
  -- model returns 0, whatever the registers and the uninitialised locals hold at power-on.
  pub diff_main_passes : (s : Aes) (rd resp : ℕ) → main rng s rd resp ≡ 0
  unfolding main
  diff_main_passes s rd resp =
      let f = iterations_agree 500 0 _ (powered_on s rd resp) in
      ap
        (λ (o : Bool).
          if o
          then (elim (iterations rng 500 0 (record {
            bench = power_on dut s;
            model = tt;
            rd = rd;
            resp = resp;
            fail_count = 0;
          })) [ zero ↦ 0 | suc n ↦ 1 ])
          else 1)
        oracle_passes
      ∙ ap (λ (n : ℕ). elim n [ zero ↦ 0 | suc m ↦ 1 ]) f
