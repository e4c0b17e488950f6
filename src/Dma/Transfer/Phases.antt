-- ===== src/Dma/Transfer/Phases.antt =====
-- The phases of a block one after the other.
use riscv_soc.Base.{ℕ, Bool, true, false, ◌≡◌, refl, sym, ap, ◌∙◌}
use mathlib.Core.Path.{subst}
use riscv_soc.Axi.Pins.{Pins}
use riscv_soc.Aes.Ref.{Block}
use riscv_soc.Aes.Ref.MixInverse.{IsByteBlock}
use riscv_soc.Aes.KeyExpand.{RoundKey}
use riscv_soc.Aes.KeyExpand.Rounds.{IsWords}
use riscv_soc.Aes.Core.{words_of}
use riscv_soc.Aes.Chain.{Chain, chain_step}
use riscv_soc.Aes.Chain.Due.{IsFreeChain, DueChain}
use riscv_soc.Aes.Chain.Messages.{block_out, block_next}
use riscv_soc.Aes.Chain.Refines.{chain-modes}
use riscv_soc.DmaRam.{RamPins}
use riscv_soc.Dma
use riscv_soc.Dma.{
  Engine, EngineState, st_rd_addr, st_aes_go, st_aes_wait, st_wr_addr, st_done, chain_in, add16,
}
use riscv_soc.Dma.Top.{Top, top_step}
use riscv_soc.Dma.Transfer.{
  calm_pins, settled, loading, Job, job, block_at, tick, run, vector, read_shape, read_job,
  read_block, read_chain,
}
use riscv_soc.Dma.Transfer.Cipher.{Waiting}

-- Before a block is read: the job that is left, and the vector with which the chain goes on.
pub record AtBlock (v : RoundKey) (j : Job) (s : Top) : Type 0 where
  pub load : Bool
  pub shape : s ≡ loading load s
  pub kept : job s ≡ j
  pub free : IsFreeChain s.engine.chain
  pub iv : vector s ≡ v

-- The block is read.
pub record AfterRead (v : RoundKey) (j : Job) (s : Top) : Type 0 where
  pub shape : s ≡ settled st_aes_go true s
  pub kept : job s ≡ j
  pub block : s.engine.rd_block ≡ block_at j.mem j.src
  pub free : IsFreeChain s.engine.chain
  pub iv : s.engine.chain.iv_reg ≡ v

-- The last block is written.
pub record AllWritten (mem : ℕ → ℕ) (s : Top) : Type 0 where
  pub shape : s ≡ settled st_done false s
  pub memory : s.ram.mem ≡ mem

-- What the chain owes for the first block of a job: its output, and the next vector.
abbrev pub out_of : Block → RoundKey → Job → RoundKey
out_of key v j = block_out key j.mode j.encdec v (block_at j.mem j.src)

abbrev pub next_of : Block → RoundKey → Job → RoundKey
next_of key v j = block_next key j.mode j.encdec v (block_at j.mem j.src)

module _ (p : Pins) (q : RamPins) where
  pub run-AfterRead :
      (v : RoundKey) (j : Job) (s : Top) → AtBlock v j s → AfterRead v j (run p q 7 s)
  run-AfterRead v j s h =
      let c = read_chain p q h.load s h.free in
      subst (λ t. AfterRead v j (run p q 7 t)) (sym h.shape)
        (record {
          shape = read_shape p q h.load s;
          kept = read_job p q h.load s ∙ h.kept;
          block = read_block p q h.load s ∙ ap (λ (k : Job). block_at k.mem k.src) h.kept;
          free = c.0;
          iv = c.1 ∙ subst (λ t. vector t ≡ v) h.shape h.iv;
        })

  module _ (key : Block) (bk : IsByteBlock key) where
    abbrev Owed : ℕ → Bool → RoundKey → RoundKey → Chain → Type 0
    Owed mode encdec v d c =
        DueChain 22 (block_out key mode encdec v d) (block_next key mode encdec v d) c

    go_due :
        (v : RoundKey) (j : Job) (s : Top)
        → IsWords v
        → IsWords (block_at j.mem j.src)
        → j.key ≡ words_of key
        → AfterRead v j s
        → Owed j.mode j.encdec v
            (block_at j.mem j.src)
            (chain_step (chain_in (calm_pins p) (settled st_aes_go true s).engine) s.engine.chain)
    unfolding chain_in
    go_due v j s vw dw k h =
        let e = s.engine in
        let c = chain_in (calm_pins p) (settled st_aes_go true s).engine in
        let due : Owed e.ctrl_mode e.ctrl_encdec e.chain.iv_reg e.rd_block (chain_step c e.chain) =
          chain-modes key c e.chain bk (subst IsWords (sym h.block) dw)
            (subst IsWords (sym h.iv) vw) refl refl refl (ap (λ (i : Job). i.key) h.kept ∙ k)
            h.free in
        subst (λ (i : Job). Owed i.mode i.encdec v (block_at j.mem j.src) (chain_step c e.chain))
          h.kept
          (subst
            (λ x. Owed e.ctrl_mode e.ctrl_encdec x (block_at j.mem j.src) (chain_step c e.chain))
            h.iv
            (subst (λ x. Owed e.ctrl_mode e.ctrl_encdec e.chain.iv_reg x (chain_step c e.chain))
              h.block due))

    pub tick-Waiting_go :
        (v : RoundKey) (j : Job) (s : Top)
        → IsWords v
        → IsWords (block_at j.mem j.src)
        → j.key ≡ words_of key
        → AfterRead v j s
        → Waiting 22 j (out_of key v j) (next_of key v j) (tick p q s)
    unfolding top_step Dma.step
    tick-Waiting_go v j s vw dw k h =
        subst (λ t. Waiting 22 j (out_of key v j) (next_of key v j) (tick p q t)) (sym h.shape)
          (record { shape = refl; kept = h.kept; due = go_due v j s vw dw k h })
