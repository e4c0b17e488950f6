-- ===== src/Aes/Regs/Run.antt =====
-- One call of the lambda `rtl_run` of blocks/aes/dv/diff_sim_main.cpp.
use riscv_soc.Base.{ℕ, zero, suc, ◌+◌, ◌*◌, ◌%◌, ◌<◌, ◌≤◌, Bool, true, false}
use riscv_soc.Base.{bit, test_bit, ◌≡◌, refl, sym, ap, ◌∙◌, arith}
use riscv_soc.Base.{some}
use mathlib.Core.Path.{subst}
use riscv_soc.Axi.Pins.{IsIdle}
use riscv_soc.Harness.{Sim, write, read}
use riscv_soc.Aes.Ref.{Block, column_word}
use riscv_soc.Aes.Ref.MixInverse.{IsByteBlock}
use riscv_soc.Aes.KeyExpand.{RoundKey}
use riscv_soc.Aes.Core.{words_of, bytes_of}
use riscv_soc.Aes.Core.Main.{words_to_bytes}
use riscv_soc.Aes.Chain.Due.{cipher}
use riscv_soc.Aes.Regs.{Aes, dut, put_word, read_reg}
use riscv_soc.Aes.Regs.Main.{write_block, read_word, read_result, poll}
use riscv_soc.Aes.Regs.Bus.{On, write-On, read-On, after_read}
use riscv_soc.Aes.Regs.Phases.{
  Loaded, Busy, Finished, write-Loaded, read-Busy, read-Finished, read-keeps, clear-Loaded,
  start-Busy,
}
use riscv_soc.Aes.Regs.Diff.{rtl_run, collect}

abbrev AesSim : Type 0
AesSim = Sim Aes (Unit {0})

-- A vector after the four writes of a block, the first of them to the offset `to`.
abbrev put_block : ℕ → ℕ → Block → RoundKey → RoundKey
put_block first to b k = put_word first (to + 12) (column_word b.c3) (
    put_word first (to + 8) (column_word b.c2)
      (put_word first (to + 4) (column_word b.c1) (put_word first to (column_word b.c0) k)))

word_written :
    (k d : RoundKey) (addr word : ℕ) (s : AesSim)
    → addr < 128
    → 16 ≤ addr
    → On (Loaded k d) s
    → On
        (Loaded (put_word 0x10 addr word k) (put_word 0x20 addr word d))
        (write dut addr word 0xF s).1
word_written k d addr word s l g h =
    write-On (Loaded (put_word 0x10 addr word k) (put_word 0x20 addr word d)) addr word s h.idle (
      write-Loaded s.bench h.idle k d addr word l (λ e. omega (arith, e)) (λ e. omega (arith, e))
        h.holds)

block_written :
    (k d : RoundKey) (first : ℕ) (b : Block) (s : AesSim)
    → first < 100
    → 16 ≤ first
    → On (Loaded k d) s
    → On (Loaded (put_block 0x10 first b k) (put_block 0x20 first b d)) (write_block first b s).1
unfolding write_block
block_written k d first b s l g h = word_written _ _ (first + 12) _ _ (omega arith) (omega arith) (
    word_written _ _ (first + 8) _ _ (omega arith) (omega arith) (
      word_written _ _ (first + 4) _ _ (omega arith) (omega arith)
        (word_written k d first (column_word b.c0) s (omega arith) g h)))

key_written :
    (k d : RoundKey) (b : Block) (s : AesSim)
    → On (Loaded k d) s
    → On (Loaded (words_of b) d) (write_block 0x10 b s).1
unfolding put_word words_of
key_written k d b s h = block_written k d 0x10 b s (omega arith) (omega arith) h

input_written :
    (k d : RoundKey) (b : Block) (s : AesSim)
    → On (Loaded k d) s
    → On (Loaded k (words_of b)) (write_block 0x20 b s).1
unfolding put_word words_of
input_written k d b s h = block_written k d 0x20 b s (omega arith) (omega arith) h

-- One round of the loop that polls, by what it reads.
abbrev pick : ℕ → AesSim → Bool → Bool × AesSim
pick left s d = elim d [ true ↦ (true, s) | false ↦ poll left s ]

status_bit : (s : Aes) → test_bit (read_reg 0x4 s) 1 ≡ s.status_done
unfolding read_reg
status_bit s = ground arith

-- One round, from what the read leaves.
round_of :
    (P Q : Aes → Type 0) (v : Bool) (left : ℕ) (s : AesSim)
    → IsIdle s.bench.pins
    → s.bench.state.status_done ≡ v
    → Q (after_read 0x4 s.bench)
    → (On Q (read dut 0x4 s).1 → let r = pick left (read dut 0x4 s).1 v in (r.0 ≡ true) × On P r.1)
    → let r = poll (suc left) s in (r.0 ≡ true) × On P r.1
unfolding poll
round_of P Q v left s i e q go =
    let r = read-On Q 0x4 s i q in
    let seen = ap (λ w. test_bit w 1) r.1 ∙ status_bit s.bench.state ∙ e in
    subst (λ b. let t = pick left (read dut 0x4 s).1 b in (t.0 ≡ true) × On P t.1) (sym seen)
      (go r.0)

-- The loop sees DONE in the round after the one in which it is set.
polled :
    (n left : ℕ) (out : RoundKey) (s : AesSim)
    → n + 2 ≤ left
    → On (Busy n out) s
    → ((poll left s).0 ≡ true) × On (Finished out) (poll left s).1
polled n zero out s l h = absurd (omega arith)
polled n (suc zero) out s l h = absurd (omega arith)
polled zero (suc (suc left)) out s l h =
    let ready = read-Finished s.bench h.idle out 0x4 h.holds in
    round_of (Finished out) (Finished out) false (suc left) s h.idle h.holds.clear ready (λ f.
      round_of (Finished out) (Finished out) true left (read dut 0x4 s).1 f.idle f.holds.set
        (read-keeps (read dut 0x4 s).1.bench f.idle out 0x4 f.holds) (λ g. (refl, g)))
polled (suc n) (suc (suc left)) out s l h =
    round_of (Finished out) (Busy n out) false (suc left) s h.idle h.holds.clear
      (read-Busy s.bench h.idle n out 0x4 h.holds)
      (λ f. polled n (suc left) out (read dut 0x4 s).1 (omega arith) f)

word_read :
    (out : RoundKey) (addr : ℕ) (s : AesSim)
    → On (Finished out) s
    → ((read_word addr s).0 ≡ read_reg (addr % 128) s.bench.state)
      × On (Finished out) (read_word addr s).1
unfolding read_word
word_read out addr s h =
    let r = read-On (Finished out) addr s h.idle (read-keeps s.bench h.idle out addr h.holds) in
    (r.1, record { idle = r.0.idle; holds = r.0.holds })

result_read :
    (out : RoundKey) (s : AesSim)
    → On (Finished out) s
    → ((read_result s).0 ≡ out) × On (Finished out) (read_result s).1
unfolding read_result read_reg
result_read out s h =
    let a = word_read out 0x30 s h in
    let s1 = (read_word 0x30 s).1 in
    let b = word_read out 0x34 s1 a.1 in
    let s2 = (read_word 0x34 s1).1 in
    let c = word_read out 0x38 s2 b.1 in
    let s3 = (read_word 0x38 s2).1 in
    let d = word_read out 0x3C s3 c.1 in
    (
      λ i. record {
        w0 = (a.0 ∙ ap (λ (k : RoundKey). k.w0) h.holds.result) i;
        w1 = (b.0 ∙ ap (λ (k : RoundKey). k.w1) a.1.holds.result) i;
        w2 = (c.0 ∙ ap (λ (k : RoundKey). k.w2) b.1.holds.result) i;
        w3 = (d.0 ∙ ap (λ (k : RoundKey). k.w3) c.1.holds.result) i;
      },
      d.1,
    )

-- Between two runs, whatever the key and data registers hold.
pub record IsRested (s : AesSim) : Type 0 where
  pub key : RoundKey
  pub input : RoundKey
  pub rests : On (Loaded key input) s

collected :
    (out : RoundKey) (r : Bool × AesSim)
    → r.0 ≡ true
    → On (Finished out) r.1
    → ((collect r.0 r.1).0 ≡ some (bytes_of out)) × IsRested (collect r.0 r.1).1
unfolding collect bytes_of words_to_bytes
collected out r e h =
    let done = result_read out r.1 h in
    let t = (read_result r.1).1 in
    subst (λ v. ((collect v r.1).0 ≡ some (bytes_of out)) × IsRested (collect v r.1).1) (sym e)
      (
        ap (λ w. some (bytes_of w)) done.0,
        record {
          key = t.bench.state.key_reg;
          input = t.bench.state.data_reg;
          rests =
              write-On (Loaded t.bench.state.key_reg t.bench.state.data_reg) 0x4 0x2 t done.1.idle
                (clear-Loaded t.bench done.1.idle out done.1.holds);
        },
      )

-- A run of the design is a run of the cipher.
pub rtl_run-cipher :
    (key input : Block) (encdec : Bool) (s : AesSim)
    → IsByteBlock key
    → IsByteBlock input
    → IsRested s
    → let r = rtl_run key input encdec s in
      (r.0 ≡ some (bytes_of (cipher key encdec (words_of input)))) × IsRested r.1
unfolding rtl_run
rtl_run-cipher key input encdec s bk bi h =
    let s1 = (write_block 0x10 key s).1 in
    let a = key_written h.key h.input key s h.rests in
    let s2 = (write_block 0x20 input s1).1 in
    let b = input_written (words_of key) h.input input s1 a in
    let out = cipher key encdec (words_of input) in
    let c =
      write-On (Busy 22 out) 0x0 (1 + 2 * bit encdec) s2 b.idle
        (start-Busy s2.bench b.idle key input encdec bk bi b.holds) in
    let s3 = (write dut 0x0 (1 + 2 * bit encdec) 0xF s2).1 in
    let d = polled 22 400 out s3 (omega arith) c in collected out (poll 400 s3) d.0 d.1
