-- ===== src/Aes/Core/Refines.antt =====
-- A whole operation of blocks/aes/rtl/aes_core.v beside `encrypt` and `decrypt` of the reference
-- model.
use riscv_soc.Base.{ℕ, zero, suc, ◌+◌, ◌≤◌, Bool, true, false, ◌&&◌}
use riscv_soc.Base.{if◌then◌else◌, List, ◌≡◌, refl, sym, ap, ◌∙◌, arith}
use mathlib.Core.Path.{subst}
use riscv_soc.Aes.Gf.{init_tables}
use riscv_soc.Aes.Ref.{
  Column, Block, encrypt, decrypt, encrypt_rounds, decrypt_rounds, key_expansion, add_round_key,
  column_word, byte_of,
}
use riscv_soc.Aes.Ref.MixInverse.{IsByteBlock}
use riscv_soc.Aes.Ref.Sums.{IsByteColumn}
use riscv_soc.Aes.KeyExpand
use riscv_soc.Aes.KeyExpand.{RoundKey, KeyExpand, ExpandIn}
use riscv_soc.Aes.KeyExpand.Refines.{
  IsExpanding, IsExpanded, key_words, start-IsExpanding, step-IsExpanding, step-IsExpanded,
  schedule-Follows, schedule-IsWords,
}
use riscv_soc.Aes.Core.Round.{xor_key}
use riscv_soc.Aes.Core.Agree.{xor_key-eq}
use riscv_soc.Aes.Core.{
  st_idle, st_keyexp, st_round, Core, CoreIn, core_step, is_idle, expand_in, column_of, bytes_of,
  words_of,
}
use riscv_soc.Aes.Core.Rounds.{
  IsFree, Due, Rounding, keys_kept, last_encrypt, last_decrypt, encrypt-Due, decrypt-Due,
}

-- The registers of the core while the round keys are computed.
record Keying (decrypting : Bool) (b : Block) (s : Core) : Type 0 where
  phase : s.state ≡ st_keyexp
  direction : s.encdec_reg ≡ decrypting
  block : s.data_reg ≡ b
  waiting : s.done ≡ false

Keying-step :
    (decrypting : Bool) (b : Block) (p : CoreIn) (s : Core)
    → p.resetn ≡ true
    → s.key_expand.done ≡ false
    → Keying decrypting b s
    → Keying decrypting b (core_step p s)
unfolding core_step
Keying-step decrypting b p s e d h = record {
  phase = ground (arith, h);
  direction = ground (arith, h);
  block = ground (arith, h);
  waiting = ground (arith, h);
}

expand_step :
    (p : CoreIn) (s : Core)
    → (core_step p s).key_expand ≡ KeyExpand.step (expand_in p s) s.key_expand
unfolding core_step
expand_step p s = refl

-- The edge that enters the rounds.
enter_step :
    (decrypting : Bool) (b : Block) (p : CoreIn) (s : Core)
    → p.resetn ≡ true
    → s.key_expand.done ≡ true
    → Keying decrypting b s
    → let t = core_step p s in
      (t.state ≡ st_round)
      × (t.encdec_reg ≡ decrypting)
      × (t.rnum ≡ (if decrypting then 9 else 1))
      × (t.data_reg ≡ xor_key b (s.key_expand.rk (if decrypting then 10 else 0)))
      × (t.done ≡ false)
unfolding core_step
enter_step decrypting b p s e d h = ground (arith, h)

-- What the core computes from a schedule.
result : List ℕ → Bool → Block → Block
result w false b = last_encrypt w (encrypt_rounds init_tables w 9 1 (add_round_key w 0 b))
result w true b = last_decrypt w (decrypt_rounds init_tables w 9 (add_round_key w 10 b))

module _ (w : List ℕ) where
  enter-Rounding :
      (decrypting : Bool) (b : Block) (p : CoreIn) (s : Core)
      → p.resetn ≡ true
      → IsExpanded w s.key_expand
      → s.key_expand.state ≡ KeyExpand.st_idle
      → Keying decrypting b s
      → Rounding w st_round decrypting
          (if decrypting then 9 else 1)
          (add_round_key w (if decrypting then 10 else 0) b)
          (core_step p s)
  enter-Rounding decrypting b p s e x i h =
      let f = enter_step decrypting b p s e x.finished h in
      let first : ℕ = if decrypting then 10 else 0 in
      let small : first ≤ 10 = ground arith in
      record {
        phase = f.0;
        direction = f.1;
        round = f.2;
        block = f.3 ∙ ap (xor_key b) (x.holds first small) ∙ xor_key-eq w first b;
        waiting = f.4;
        rests = (keys_kept w p s 0 e (ap is_idle h.phase) i).1;
        keys = λ j l. (keys_kept w p s j e (ap is_idle h.phase) i).0 ∙ x.holds j l;
      }

  entered-Due :
      (decrypting : Bool) (b : Block) (s : Core)
      → Rounding w st_round decrypting
          (if decrypting then 9 else 1)
          (add_round_key w (if decrypting then 10 else 0) b)
          s
      → Due 10 (words_of (result w decrypting b)) s
  unfolding result
  entered-Due false b s h = encrypt-Due w 8 1 _ s refl h
  entered-Due true b s h = decrypt-Due w 8 _ s (omega arith) h

  expanded-Due :
      (decrypting : Bool) (b : Block) (s : Core)
      → IsExpanded w s.key_expand
      → s.key_expand.state ≡ KeyExpand.st_idle
      → Keying decrypting b s
      → Due 11 (words_of (result w decrypting b)) s
  unfolding Due
  expanded-Due decrypting b s x i h = (
    h.waiting,
    ap is_idle h.phase,
    λ p e. entered-Due decrypting b (core_step p s) (enter-Rounding decrypting b p s e x i h),
  )

module _ (key : Block) (bytes : IsByteBlock key) where
  abbrev keys_of : List ℕ
  keys_of = key_expansion init_tables key

  -- With `left` round keys to go after the next.
  expanding-Due :
      (left q n : ℕ) (decrypting : Bool) (b : Block) (s : Core)
      → q + left ≡ 9
      → 11 + left ≡ n
      → IsExpanding keys_of q s.key_expand
      → Keying decrypting b s
      → Due (suc n) (words_of (result keys_of decrypting b)) s
  unfolding Due
  expanding-Due zero q n decrypting b s l m x h = (
    h.waiting,
    ap is_idle h.phase,
    λ p e.
        let at9 = subst (λ k. IsExpanding keys_of k s.key_expand) l9 x in
        let f =
          step-IsExpanded keys_of (schedule-Follows key) (schedule-IsWords key bytes)
            (expand_in p s) s.key_expand e at9 in
        subst (λ k. Due k (words_of (result keys_of decrypting b)) (core_step p s)) m
          (expanded-Due keys_of decrypting b (core_step p s)
            (subst (IsExpanded keys_of) (sym (expand_step p s)) f.0)
            (ap (λ (k : KeyExpand). k.state) (expand_step p s) ∙ f.1)
            (Keying-step decrypting b p s e x.unfinished h)),
  )
    where
      l9 : q ≡ 9
      l9 = omega arith
  expanding-Due (suc left) q zero decrypting b s l m x h = absurd (omega arith)
  expanding-Due (suc left) q (suc n) decrypting b s l m x h = (
    h.waiting,
    ap is_idle h.phase,
    λ p e.
        expanding-Due left (suc q) n decrypting b (core_step p s) (omega arith) (omega arith)
          (subst (IsExpanding keys_of (suc q)) (sym (expand_step p s)) (
            step-IsExpanding keys_of (schedule-Follows key) (schedule-IsWords key bytes)
              (expand_in p s) s.key_expand q e (omega arith) x))
          (Keying-step decrypting b p s e x.unfinished h),
  )

byte_of-word :
    (c : Column)
    → IsByteColumn c
    → let w = column_word c in
      (byte_of w 3 ≡ c.r0) × (byte_of w 2 ≡ c.r1) × (byte_of w 1 ≡ c.r2) × (byte_of w 0 ≡ c.r3)
byte_of-word c h = omega arith

pub column_of-word : (c : Column) → IsByteColumn c → column_of (column_word c) ≡ c
column_of-word c h =
    let e = byte_of-word c h in λ i. record { r0 = e.0 i; r1 = e.1 i; r2 = e.2 i; r3 = e.3 i }

-- Sixteen bytes survive the way through four words.
pub bytes_of-words_of : (b : Block) → IsByteBlock b → bytes_of (words_of b) ≡ b
unfolding bytes_of words_of
bytes_of-words_of b h i = record {
  c0 = column_of-word b.c0 h.k0 i;
  c1 = column_of-word b.c1 h.k1 i;
  c2 = column_of-word b.c2 h.k2 i;
  c3 = column_of-word b.c3 h.k3 i;
}

words_of-eq : (key : Block) → words_of key ≡ key_words key
unfolding words_of
words_of-eq key = refl

result-eq :
    (key : Block) (decrypting : Bool) (input : Block)
    → result (key_expansion init_tables key) decrypting input
      ≡ (if decrypting then decrypt init_tables input key else encrypt init_tables input key)
unfolding result last_encrypt last_decrypt encrypt decrypt
result-eq key false input = refl
result-eq key true input = refl

start_step :
    (p : CoreIn) (s : Core)
    → p.resetn ≡ true
    → p.start ≡ true
    → s.state ≡ st_idle
    → let t = core_step p s in
      (t.state ≡ st_keyexp)
      × (t.encdec_reg ≡ p.encdec)
      × (t.data_reg ≡ bytes_of p.data_in)
      × (t.done ≡ false)
unfolding core_step
start_step p s e t i = ground arith

-- A free core that is started out of reset with a key and a block of sixteen bytes delivers, exactly
-- 21 edges later, the block that the reference model's `encrypt`, or with `encdec` up its `decrypt`,
-- gives for them, and is free again, whatever the other pins do meanwhile: a start, another key or
-- another block change nothing.
pub core-ref :
    (key input : Block) (p : CoreIn) (s : Core)
    → IsByteBlock key
    → IsByteBlock input
    → p.resetn ≡ true
    → p.start ≡ true
    → p.key_in ≡ words_of key
    → p.data_in ≡ words_of input
    → IsFree s
    → Due 21
        (words_of
          (if p.encdec then decrypt init_tables input key else encrypt init_tables input key))
        (core_step p s)
core-ref key input p s bk bi e t k d free =
    let f = start_step p s e t free.core_idle in
    let started : (expand_in p s).start ≡ true = (λ i. is_idle (free.core_idle i) && p.start) ∙ t in
    let x =
      start-IsExpanding key (expand_in p s) s.key_expand e started (k ∙ words_of-eq key)
        free.expand_idle in
    subst (λ b. Due 21 (words_of b) (core_step p s)) (result-eq key p.encdec input)
      (expanding-Due key bk 9 0 20 p.encdec input (core_step p s) refl refl
        (subst (IsExpanding (key_expansion init_tables key) 0) (sym (expand_step p s)) x)
        (record {
          phase = f.0;
          direction = f.1;
          block = f.2 ∙ ap bytes_of d ∙ bytes_of-words_of input bi;
          waiting = f.3;
        }))
