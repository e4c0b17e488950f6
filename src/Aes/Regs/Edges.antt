-- ===== src/Aes/Regs/Edges.antt =====
-- The edges of blocks/aes/rtl/aes.v that a transaction of the test benches makes.
use riscv_soc.Base.{true, false, ◌&&◌}
use riscv_soc.Base.{◌≡◌, refl, sym, arith}
use mathlib.Core.Path.{subst}
use riscv_soc.Axi.Pins.{Pins}
use riscv_soc.Aes.KeyExpand.Rounds.{IsWords}
use riscv_soc.Aes.Chain.{Chain, ChainIn, st_idle, chain_step, core_in, is_idle}
use riscv_soc.Aes.Chain.Due.{IsFreeChain, core_rests}
use riscv_soc.Aes.Regs.{Aes, edge, do_start, do_load_iv, chain_in}

-- Nothing is under way, and no event is pending.
pub record IsCalm (s : Aes) : Type 0 where
  pub free : IsFreeChain s.chain
  pub vector_words : IsWords s.chain.iv_reg
  pub quiet : s.chain.done_reg ≡ false

idle_step :
    (p : ChainIn) (s : Chain)
    → p.resetn ≡ true
    → p.load_iv ≡ false
    → p.start ≡ false
    → s.state ≡ st_idle
    → let t = chain_step p s in
      (t.state ≡ st_idle)
      × (t.iv_reg ≡ s.iv_reg)
      × (t.done_reg ≡ false)
      × (t.data_out_reg ≡ s.data_out_reg)
unfolding chain_step
idle_step p s e l t h = ground arith

-- A chain without a start rests.
pub chain_rests :
    (p : ChainIn) (s : Chain)
    → p.resetn ≡ true
    → p.load_iv ≡ false
    → p.start ≡ false
    → IsFreeChain s
    → let t = chain_step p s in
      IsFreeChain t
      × (t.iv_reg ≡ s.iv_reg)
      × (t.done_reg ≡ false)
      × (t.data_out_reg ≡ s.data_out_reg)
unfolding core_in chain_step
chain_rests p s e l t h =
    let f = idle_step p s e l t h.chain_idle in
    let quiet : (core_in p s).start ≡ false = λ i. is_idle (h.chain_idle i) && t i in
    (
      record { chain_idle = f.0; core_free = core_rests (core_in p s) s.core e quiet h.core_free },
      f.1,
      f.2,
      f.3,
    )

pub edge_chain : (p : Pins) (s : Aes) → (edge p s).chain ≡ chain_step (chain_in p s) s.chain
unfolding edge
edge_chain p s = refl

-- An edge that neither starts nor loads.
pub edge-IsCalm :
    (p : Pins) (s : Aes)
    → p.resetn ≡ true
    → do_start p s ≡ false
    → do_load_iv p s ≡ false
    → IsFreeChain s.chain
    → IsWords s.chain.iv_reg
    → IsCalm (edge p s) × ((edge p s).chain.data_out_reg ≡ s.chain.data_out_reg)
unfolding edge chain_in
edge-IsCalm p s e t l h v =
    let f = chain_rests (chain_in p s) s.chain e l t h in
    (record { free = f.0; vector_words = subst IsWords (sym f.1) v; quiet = f.2 }, f.3)
