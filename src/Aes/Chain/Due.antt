-- ===== src/Aes/Chain/Due.antt =====
-- One block through blocks/aes/rtl/aes_chain.v.
use riscv_soc.Base.{ℕ, zero, suc, Bool, true, false, not, ◌&&◌, ◌==◌}
use riscv_soc.Base.{if◌then◌else◌, ◌≡◌, refl, arith}
use riscv_soc.Aes.Gf.{init_tables}
use riscv_soc.Aes.Ref.{Block, encrypt, decrypt}
use riscv_soc.Aes.KeyExpand
use riscv_soc.Aes.KeyExpand.{RoundKey}
use riscv_soc.Aes.Core.{Core, CoreIn, core_step, bytes_of, words_of}
use riscv_soc.Aes.Core.Rounds.{IsFree}
use riscv_soc.Aes.Chain.{
  Chain, ChainIn, st_idle, st_core, chain_step, core_in, finished_data, finished_iv, is_idle,
  mode_cbc, mode_ctr, xor_words, inc128,
}

-- The block cipher on four words, in the direction of `encdec`.
unfoldable pub cipher : Block → Bool → RoundKey → RoundKey
cipher key encdec w =
    let b = bytes_of w in
    words_of (if encdec then decrypt init_tables b key else encrypt init_tables b key)

-- NIST SP 800-38A: what goes into the cipher, what comes out of the mode, and the next vector, for
-- the input `d` under the vector `iv`, where the cipher answers with `c`.
unfoldable pub mode_input : ℕ → Bool → RoundKey → RoundKey → RoundKey
mode_input mode encdec iv d =
    if mode == mode_cbc && not encdec then xor_words d iv else if mode == mode_ctr then iv else d

unfoldable pub mode_output : ℕ → Bool → RoundKey → RoundKey → RoundKey → RoundKey
mode_output mode encdec iv d c =
    if mode == mode_cbc
    then (if encdec then xor_words c iv else c)
    else if mode == mode_ctr
    then xor_words d c
    else c

unfoldable pub mode_next : ℕ → Bool → RoundKey → RoundKey → RoundKey → RoundKey
mode_next mode encdec iv d c =
    if mode == mode_cbc
    then (if encdec then d else c)
    else if mode == mode_ctr
    then inc128 iv
    else iv

-- The mode is idle, and so is the core.
pub record IsFreeChain (s : Chain) : Type 0 where
  pub chain_idle : s.state ≡ st_idle
  pub core_free : IsFree s.core

-- The output `out` is due in `n` edges out of reset on which no vector is loaded, whatever the other
-- pins are, and the vector will then be `iv`.
unfoldable pub DueChain : ℕ → RoundKey → RoundKey → Chain → Type 0
DueChain zero out iv s =
    (s.done_reg ≡ true) × (s.data_out_reg ≡ out) × (s.iv_reg ≡ iv) × IsFreeChain s
DueChain (suc n) out iv s =
    (s.done_reg ≡ false)
    × (is_idle s.state ≡ false)
    × ((p : ChainIn) → p.resetn ≡ true → p.load_iv ≡ false → DueChain n out iv (chain_step p s))

-- The registers of the chain while the core works.
pub record Running (mode : ℕ) (encdec : Bool) (d iv : RoundKey) (s : Chain) : Type 0 where
  pub phase : s.state ≡ st_core
  pub moded : s.mode_reg ≡ mode
  pub direction : s.encdec_reg ≡ encdec
  pub input : s.data_in_reg ≡ d
  pub vector : s.iv_reg ≡ iv
  pub waiting : s.done_reg ≡ false

pub core_rests :
    (p : CoreIn) (s : Core) → p.resetn ≡ true → p.start ≡ false → IsFree s → IsFree (core_step p s)
unfolding core_step KeyExpand.step
core_rests p s e t h = record { core_idle = ground (arith, h); expand_idle = ground (arith, h) }

pub chain_core : (p : ChainIn) (s : Chain) → (chain_step p s).core ≡ core_step (core_in p s) s.core
unfolding chain_step
chain_core p s = refl

pub Running-step :
    (mode : ℕ) (encdec : Bool) (d iv : RoundKey) (p : ChainIn) (s : Chain)
    → p.resetn ≡ true
    → p.load_iv ≡ false
    → s.core.done ≡ false
    → Running mode encdec d iv s
    → Running mode encdec d iv (chain_step p s)
unfolding chain_step
Running-step mode encdec d iv p s e l c h = record {
  phase = ground (arith, h);
  moded = ground (arith, h);
  direction = ground (arith, h);
  input = ground (arith, h);
  vector = ground (arith, h);
  waiting = ground (arith, h);
}

pub finish_step :
    (mode : ℕ) (encdec : Bool) (d iv c : RoundKey) (p : ChainIn) (s : Chain)
    → p.resetn ≡ true
    → p.load_iv ≡ false
    → s.core.done ≡ true
    → s.core.data_out ≡ c
    → Running mode encdec d iv s
    → let t = chain_step p s in
      (t.done_reg ≡ true)
      × (t.state ≡ st_idle)
      × (t.data_out_reg ≡ mode_output mode encdec iv d c)
      × (t.iv_reg ≡ mode_next mode encdec iv d c)
unfolding chain_step finished_data finished_iv mode_output mode_next
finish_step mode encdec d iv c p s e l dn o h = ground (arith, h)
