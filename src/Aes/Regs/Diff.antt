-- ===== src/Aes/Regs/Diff.antt =====
-- `main` of blocks/aes/dv/diff_sim_main.cpp: the accelerator against the reference model on random
-- keys and blocks. The bytes that the random engine deals are a parameter.
use riscv_soc.Base.{ℕ, zero, suc, ◌+◌, ◌*◌, Bool, true, false, ◌&&◌, bit, if◌then◌else◌}
use riscv_soc.Base.{Option, none, some}
use riscv_soc.Harness.{Sim, write, power_on}
use riscv_soc.Aes.Gf.{init_tables}
use riscv_soc.Aes.Ref.{Block, encrypt, decrypt}
use riscv_soc.Aes.Core.Main.{words_to_bytes, same_block, fips_b_key, fips_b_pt, fips_b_ct}
use riscv_soc.Aes.Regs.{Aes, dut}
use riscv_soc.Aes.Regs.Main.{AesTest, write_block, poll, read_result}

-- The part of the lambda `rtl_run` after the loop: nothing if it ran out, else the result.
unfoldable pub collect : Bool → AesTest (Option Block)
unfolding read_result write words_to_bytes
collect false s = (none, s)
collect true s =
    let r = read_result s in let c = write dut 0x4 0x2 0xF r.1 in (some (words_to_bytes r.0), c.1)

-- The lambda `rtl_run`. Its local `rd`, which is not initialised, starts as it ended the time before.
unfoldable pub rtl_run : Block → Block → Bool → AesTest (Option Block)
unfolding write_block write poll collect
rtl_run key input encdec s =
    let a = (write_block 0x10 key s).1 in
    let b = (write_block 0x20 input a).1 in
    let c = (write dut 0x0 (1 + 2 * bit encdec) 0xF b).1 in let d = poll 400 c in collect d.0 d.1

-- Sixteen bytes.
unfoldable pub block_of : (ℕ → ℕ) → Block
block_of f = record {
  c0 = record { r0 = f 0; r1 = f 1; r2 = f 2; r3 = f 3 };
  c1 = record { r0 = f 4; r1 = f 5; r2 = f 6; r3 = f 7 };
  c2 = record { r0 = f 8; r1 = f 9; r2 = f 10; r3 = f 11 };
  c3 = record { r0 = f 12; r1 = f 13; r2 = f 14; r3 = f 15 };
}

-- A run that timed out counts as a failure, and so does a block that differs.
abbrev pub differs : Block → Block → ℕ
differs got expected = if same_block got expected then 0 else 1

-- The second half of an iteration, for the ciphertext of the design.
unfoldable pub back_again : Block → Block → Option Block → AesTest ℕ
unfolding rtl_run same_block
back_again key pt none s = (1, s)
back_again key pt (some rtl_ct) s =
    let wrong = differs rtl_ct (encrypt init_tables pt key) in
    let r = rtl_run key rtl_ct true s in
    (elim r.0 [ none ↦ wrong + 1 | some rtl_pt2 ↦ wrong + differs rtl_pt2 pt ], r.1)

-- What an iteration adds to `fail_count`.
unfoldable pub iteration : Block → Block → AesTest ℕ
unfolding rtl_run back_again
iteration key pt s = let r = rtl_run key pt false s in back_again key pt r.0 r.1

-- The check of the reference model against FIPS-197 that comes first.
unfoldable pub oracle_ok : Bool
unfolding same_block
oracle_ok =
    let ct = encrypt init_tables fips_b_pt fips_b_key in
    same_block ct fips_b_ct && same_block (decrypt init_tables ct fips_b_key) fips_b_pt

module _ (rng : ℕ → ℕ) where
  -- The key and the plaintext of an iteration, dealt byte by byte in turn.
  unfoldable pub random_key : ℕ → Block
  unfolding block_of
  random_key iter = block_of (λ i. rng (32 * iter + 2 * i))

  unfoldable pub random_pt : ℕ → Block
  unfolding block_of
  random_pt iter = block_of (λ i. rng (32 * iter + 2 * i + 1))

  -- `for (int iter = 0; iter < N; iter++)` with `left` iterations to go: `fail_count` at the end.
  unfoldable pub iterations : ℕ → ℕ → Sim Aes (Unit {0}) → ℕ
  unfolding iteration random_key random_pt
  iterations zero iter s = 0
  iterations (suc left) iter s =
      let r = iteration (random_key iter) (random_pt iter) s in
      let rest = iterations left (suc iter) r.1 in r.0 + rest

  -- `main`, from a power-on state of the registers and of the locals `rd` and `resp`.
  unfoldable pub main : Aes → ℕ → ℕ → ℕ
  unfolding iterations oracle_ok power_on
  main s rd resp =
      let sim : Sim Aes (Unit {0}) = record {
        bench = power_on dut s;
        model = tt;
        rd = rd;
        resp = resp;
        fail_count = 0;
      } in
      let failures = iterations 500 0 sim in
      if oracle_ok then (elim failures [ zero ↦ 0 | suc n ↦ 1 ]) else 1
