-- ===== src/Dma/Transfer/Cipher.antt =====
-- The cipher phase of a block, and the burst write after it.
use riscv_soc.Base.{ℕ, zero, suc, Bool, true, false, ◌≡◌, refl, sym, ◌∙◌}
use mathlib.Core.Path.{subst}
use riscv_soc.Axi.Pins.{Pins}
use riscv_soc.Aes.KeyExpand.{RoundKey}
use riscv_soc.Aes.Chain.Due.{IsFreeChain, DueChain}
use riscv_soc.DmaRam.{RamPins}
use riscv_soc.Dma
use riscv_soc.Dma.{
  Engine, EngineState, st_rd_addr, st_aes_go, st_aes_wait, st_wr_addr, st_wr_resp, st_done,
  chain_in, add16,
}
use riscv_soc.Dma.Top.{Top, top_step}
use riscv_soc.Dma.Transfer.{calm_pins, settled, Job, job, tick, run, tick_waits}

-- The chain works on the block, which is due in `n` edges.
pub record Waiting (n : ℕ) (j : Job) (out next : RoundKey) (s : Top) : Type 0 where
  pub shape : s ≡ settled st_aes_wait false s
  pub kept : job s ≡ j
  pub due : DueChain n out next s.engine.chain

-- The block is there, and the memory is not yet asked.
pub record BeforeWrite (j : Job) (out next : RoundKey) (s : Top) : Type 0 where
  pub shape : s ≡ settled st_wr_addr false s
  pub kept : job s ≡ j
  pub block : s.engine.wr_block ≡ out
  pub free : IsFreeChain s.engine.chain
  pub iv : s.engine.chain.iv_reg ≡ next

abbrev set_done : Bool → Top → Top
set_done d s = record s {
  engine = record s.engine { chain = record s.engine.chain { done_reg = d } };
}

abbrev waiting : Bool → Top → Top
waiting d s = set_done d (settled st_aes_wait false s)

waiting-eq :
    (d : Bool) (s : Top)
    → s ≡ settled st_aes_wait false s
    → s.engine.chain.done_reg ≡ d
    → s ≡ waiting d s
waiting-eq d s h e = h ∙ (λ i. set_done (e i) (settled st_aes_wait false s))

module _ (p : Pins) (q : RamPins) (j : Job) (out next : RoundKey) where
  waiting_tick :
      (n : ℕ) (s : Top)
      → job s ≡ j
      → DueChain (suc n) out next (waiting false s).engine.chain
      → Waiting n j out next (tick p q (waiting false s))
  unfolding top_step Dma.step DueChain chain_in
  waiting_tick n s k d = record {
    shape = refl;
    kept = k;
    due = d.2 (chain_in (calm_pins p) (waiting false s).engine) refl refl;
  }

  tick-Waiting :
      (n : ℕ) (s : Top) → Waiting (suc n) j out next s → Waiting n j out next (tick p q s)
  unfolding DueChain
  tick-Waiting n s h =
      let e = waiting-eq false s h.shape h.due.0 in
      subst (λ t. Waiting n j out next (tick p q t)) (sym e)
        (waiting_tick n s h.kept
          (subst (λ (t : Top). DueChain (suc n) out next t.engine.chain) e h.due))

  finished_tick :
      (s : Top)
      → job s ≡ j
      → s.engine.chain.data_out_reg ≡ out
      → s.engine.chain.iv_reg ≡ next
      → IsFreeChain (waiting true s).engine.chain
      → BeforeWrite j out next (tick p q (waiting true s))
  unfolding top_step Dma.step
  finished_tick s k o v f =
      let w = tick_waits p q (waiting true s) refl f in
      record { shape = refl; kept = k; block = o; free = w.0; iv = w.1 ∙ v }

  tick-BeforeWrite : (s : Top) → Waiting 0 j out next s → BeforeWrite j out next (tick p q s)
  unfolding DueChain
  tick-BeforeWrite s h =
      let e = waiting-eq true s h.shape h.due.0 in
      subst (λ t. BeforeWrite j out next (tick p q t)) (sym e)
        (finished_tick s h.kept h.due.1 h.due.2
          (subst (λ (t : Top). IsFreeChain t.engine.chain) e h.due.3))

  -- All of the wait.
  pub run-BeforeWrite :
      (n : ℕ) (s : Top) → Waiting n j out next s → BeforeWrite j out next (run p q (suc n) s)
  unfolding run
  run-BeforeWrite zero s h = tick-BeforeWrite s h
  run-BeforeWrite (suc n) s h = run-BeforeWrite n (tick p q s) (tick-Waiting n s h)
