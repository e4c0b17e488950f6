-- ===== src/Aes/Chain/Refines.antt =====
-- A block through blocks/aes/rtl/aes_chain.v beside the modes of NIST SP 800-38A over the reference
-- model's cipher.
use riscv_soc.Base.{ℕ, zero, suc, ◌^◌, ◌<◌, Bool, true, false, not, ◌&&◌, ◌==◌}
use riscv_soc.Base.{if◌then◌else◌, ◌≡◌, refl, sym, ap, ◌∙◌, arith, xor-lt, if_keeps}
use mathlib.Core.Path.{subst}
use riscv_soc.Aes.Ref.{Block, column_word}
use riscv_soc.Aes.Ref.MixInverse.{IsByteBlock}
use riscv_soc.Aes.KeyExpand.{RoundKey}
use riscv_soc.Aes.KeyExpand.Rounds.{IsWords}
use riscv_soc.Aes.Core.{bytes_of, words_of, column_of}
use riscv_soc.Aes.Core.Rounds.{Due}
use riscv_soc.Aes.Core.Refines.{core-ref}
use riscv_soc.Aes.Chain.{
  Chain, ChainIn, st_idle, chain_step, core_in, core_data_in, is_idle, mode_cbc, mode_ctr,
  xor_words,
}
use riscv_soc.Aes.Chain.Due.{
  cipher, mode_input, mode_output, mode_next, IsFreeChain, DueChain, Running, core_rests,
  chain_core, Running-step, finish_step,
}

-- While the core has `n` edges to go.
Running-Due :
    (n mode : ℕ) (encdec : Bool) (d iv c : RoundKey) (s : Chain)
    → Running mode encdec d iv s
    → Due n c s.core
    → DueChain (suc n) (mode_output mode encdec iv d c) (mode_next mode encdec iv d c) s
unfolding DueChain Due core_in chain_step
Running-Due zero mode encdec d iv c s h due = (
  h.waiting,
  ap is_idle h.phase,
  λ p e l.
      let f = finish_step mode encdec d iv c p s e l due.0 due.1 h in
      let quiet : (core_in p s).start ≡ false = ap (λ x. is_idle x && p.start) h.phase in
      (
        f.0,
        f.2,
        f.3,
        record { chain_idle = f.1; core_free = core_rests (core_in p s) s.core e quiet due.2 },
      ),
)
Running-Due (suc n) mode encdec d iv c s h due = (
  h.waiting,
  ap is_idle h.phase,
  λ p e l.
      Running-Due n mode encdec d iv c (chain_step p s)
        (Running-step mode encdec d iv p s e l due.0 h) (due.2 (core_in p s) e),
)

start_step :
    (p : ChainIn) (s : Chain)
    → p.resetn ≡ true
    → p.start ≡ true
    → p.load_iv ≡ false
    → s.state ≡ st_idle
    → Running p.mode p.encdec p.data_in s.iv_reg (chain_step p s)
unfolding chain_step
start_step p s e t l h = record {
  phase = ground arith;
  moded = ground arith;
  direction = ground arith;
  input = ground arith;
  vector = ground arith;
  waiting = ground arith;
}

word-column_of : (w : ℕ) → w < 2 ^ 32 → column_word (column_of w) ≡ w
word-column_of w h = omega arith

-- Four words of 32 bits survive the way through sixteen bytes.
pub words_of-bytes_of : (k : RoundKey) → IsWords k → words_of (bytes_of k) ≡ k
unfolding words_of bytes_of
words_of-bytes_of k h i = record {
  w0 = word-column_of k.w0 h.l0 i;
  w1 = word-column_of k.w1 h.l1 i;
  w2 = word-column_of k.w2 h.l2 i;
  w3 = word-column_of k.w3 h.l3 i;
}

pub bytes_of-IsByteBlock : (k : RoundKey) → IsByteBlock (bytes_of k)
unfolding bytes_of
bytes_of-IsByteBlock k = omega arith

pub xor_words-IsWords : (a b : RoundKey) → IsWords a → IsWords b → IsWords (xor_words a b)
xor_words-IsWords a b h k = record {
  l0 = xor-lt 32 a.w0 b.w0 h.l0 k.l0;
  l1 = xor-lt 32 a.w1 b.w1 h.l1 k.l1;
  l2 = xor-lt 32 a.w2 b.w2 h.l2 k.l2;
  l3 = xor-lt 32 a.w3 b.w3 h.l3 k.l3;
}

pub mode_input-IsWords :
    (mode : ℕ) (encdec : Bool) (iv d : RoundKey)
    → IsWords iv
    → IsWords d
    → IsWords (mode_input mode encdec iv d)
unfolding mode_input
mode_input-IsWords mode encdec iv d h k =
    if_keeps IsWords (mode == mode_cbc && not encdec) (xor_words-IsWords d iv k h)
      (if_keeps IsWords (mode == mode_ctr) h k)

core_data_in-eq :
    (p : ChainIn) (s : Chain) → core_data_in p s ≡ mode_input p.mode p.encdec s.iv_reg p.data_in
unfolding core_data_in mode_input
core_data_in-eq p s = refl

-- The direction of the cipher: CTR always encrypts.
abbrev pub mode_dir : ℕ → Bool → Bool
mode_dir mode encdec = if mode == mode_ctr then false else encdec

-- A free chain that is started out of reset on a key and words of 32 bits, without a load of the
-- vector, delivers, exactly 22 edges later, the output and the next vector of its mode, over the
-- reference model's cipher, and is free again, whatever the other pins do meanwhile but load a vector.
pub chain-modes :
    (key : Block) (p : ChainIn) (s : Chain)
    → IsByteBlock key
    → IsWords p.data_in
    → IsWords s.iv_reg
    → p.resetn ≡ true
    → p.start ≡ true
    → p.load_iv ≡ false
    → p.key_in ≡ words_of key
    → IsFreeChain s
    → let c =
        cipher key (mode_dir p.mode p.encdec) (mode_input p.mode p.encdec s.iv_reg p.data_in) in
      DueChain 22
        (mode_output p.mode p.encdec s.iv_reg p.data_in c)
        (mode_next p.mode p.encdec s.iv_reg p.data_in c)
        (chain_step p s)
unfolding cipher core_in
chain-modes key p s bk dw vw e t l k free =
    let x = mode_input p.mode p.encdec s.iv_reg p.data_in in
    let xw = mode_input-IsWords p.mode p.encdec s.iv_reg p.data_in vw dw in
    let started : (core_in p s).start ≡ true = (λ i. is_idle (free.chain_idle i) && p.start) ∙ t in
    let due =
      core-ref key (bytes_of x) (core_in p s) s.core bk (bytes_of-IsByteBlock x) e started k
        (core_data_in-eq p s ∙ sym (words_of-bytes_of x xw)) free.core_free in
    Running-Due 21 p.mode p.encdec p.data_in s.iv_reg _ (chain_step p s)
      (start_step p s e t l free.chain_idle) (subst (Due 21 _) (sym (chain_core p s)) due)
