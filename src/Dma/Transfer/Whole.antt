-- ===== src/Dma/Transfer/Whole.antt =====
-- Block after block of a transfer of blocks/dma/rtl/dma_engine.v.
use riscv_soc.Base.{ℕ, zero, suc, ◌==◌, ◌<◌, ◌^◌, false}
use riscv_soc.Base.{if◌then◌else◌, ◌≡◌, refl, sym, ap, ◌∙◌, arith, update, dec32}
use mathlib.Core.Path.{subst}
use riscv_soc.Axi.Pins.{Pins}
use riscv_soc.Aes.Ref.{Block}
use riscv_soc.Aes.Ref.MixInverse.{IsByteBlock}
use riscv_soc.Aes.KeyExpand.{RoundKey}
use riscv_soc.Aes.KeyExpand.Rounds.{IsWords}
use riscv_soc.Aes.Core.{words_of}
use riscv_soc.Aes.Chain.Due.{IsFreeChain}
use riscv_soc.Aes.Chain.Messages.{block_next-IsWords}
use riscv_soc.DmaRam.{RamPins}
use riscv_soc.Dma.{add16}
use riscv_soc.Dma.Top.{Top}
use riscv_soc.Dma.Transfer.{Job, job, block_at, tick, run, tick_waits}
use riscv_soc.Dma.Transfer.Cipher.{BeforeWrite, run-BeforeWrite}
use riscv_soc.Dma.Transfer.Phases.{
  AtBlock, AllWritten, run-AfterRead, tick-Waiting_go, out_of, next_of,
}
use riscv_soc.Dma.Transfer.Written.{
  store_block, store_merged, store_merged-eq, rest, writing, answered, write_last, write_more,
  response_shape, answered-rest, write_chain,
}

module _ (p : Pins) (q : RamPins) (j : Job) (out next : RoundKey) where
  run-AllWritten :
      (s : Top)
      → j.left ≡ 1
      → BeforeWrite j out next s
      → AllWritten (store_block j.mem j.dst out) (run p q 7 s)
  run-AllWritten s l h =
      let one = ap (λ (k : Job). k.left) h.kept ∙ l in
      let e : s ≡ writing s.ram.s_bvalid 1 s = h.shape ∙ (λ i. writing s.ram.s_bvalid (one i) s) in
      let f = write_last p q s s.ram.s_bvalid in
      subst (λ t. AllWritten (store_block j.mem j.dst out) (run p q 7 t)) (sym e)
        (record {
          shape = f.0;
          memory =
              f.1
              ∙ (λ i. store_merged (h.kept i).mem (h.kept i).dst (h.block i))
              ∙ store_merged-eq j.mem j.dst out;
        })

  answered-AtBlock :
      (s : Top)
      → (s.engine.blocks_left == 1) ≡ false
      → s ≡ answered s
      → job s ≡ record j { mem = store_block j.mem j.dst out }
      → IsFreeChain s.engine.chain
      → s.engine.chain.iv_reg ≡ next
      → AtBlock next (rest out j) (tick p q s)
  answered-AtBlock s l shape kept free iv =
      let w = tick_waits p q (answered s) refl free in
      subst (λ t. AtBlock next (rest out j) (tick p q t)) (sym shape)
        (record {
          load = false;
          shape = response_shape p q s l;
          kept = answered-rest p q s l ∙ (λ i. record (kept i) {
            src = add16 (kept i).src;
            dst = add16 (kept i).dst;
            left = dec32 (kept i).left;
          });
          free = w.0;
          iv =
              subst
                (λ b.
                  (if b
                    then (tick p q (answered s)).engine.iv_reg
                    else (tick p q (answered s)).engine.chain.iv_reg)
                  ≡ next)
                (sym (ap (λ (t : Top). t.engine.chain_load_iv) (response_shape p q s l)))
                (w.1 ∙ iv);
        })

  run-AtBlock :
      (s : Top)
      → (j.left == 1) ≡ false
      → BeforeWrite j out next s
      → AtBlock next (rest out j) (run p q 7 s)
  unfolding run
  run-AtBlock s l h =
      let b = s.ram.s_bvalid in
      let s0 = writing b s.engine.blocks_left s in
      let f = write_more p q s b in
      let c = write_chain p q s b h.free in
      let kept : job (run p q 6 s0) ≡ record j { mem = store_block j.mem j.dst out } =
        f.1
        ∙ (λ i. record (h.kept i) { mem = store_merged (h.kept i).mem (h.kept i).dst (h.block i) })
        ∙ (λ i. record j { mem = store_merged-eq j.mem j.dst out i }) in
      subst (λ t. AtBlock next (rest out j) (run p q 7 t)) (sym h.shape)
        (answered-AtBlock (run p q 6 s0) (ap (λ (k : Job). k.left == 1) kept ∙ l) f.0 kept c.0
          (c.1 ∙ h.iv))

module _ (key : Block) where
  -- The memory when `n` blocks and one more are done.
  abbrev pub transferred : ℕ → RoundKey → Job → ℕ → ℕ
  transferred zero v j = store_block j.mem j.dst (out_of key v j)
  transferred (suc n) v j = transferred n (next_of key v j) (rest (out_of key v j) j)

-- Every word of the memory has 32 bits.
abbrev pub IsWide : (ℕ → ℕ) → Type 0
IsWide mem = (i : ℕ) → mem i < 2 ^ 32

update-IsWide : (mem : ℕ → ℕ) (i w : ℕ) → IsWide mem → w < 2 ^ 32 → IsWide (update mem i w)
update-IsWide mem i w h b k = ground (arith, h k)

store_block-IsWide :
    (mem : ℕ → ℕ) (addr : ℕ) (k : RoundKey) → IsWide mem → IsWide (store_block mem addr k)
store_block-IsWide mem addr k h =
    update-IsWide _ _ _
      (update-IsWide _ _ _
        (update-IsWide _ _ _ (update-IsWide mem _ _ h (omega arith)) (omega arith)) (omega arith))
      (omega arith)

block_at-IsWords : (mem : ℕ → ℕ) (addr : ℕ) → IsWide mem → IsWords (block_at mem addr)
block_at-IsWords mem addr h = record { l0 = h _; l1 = h _; l2 = h _; l3 = h _ }

-- The edges of one block and of `n` blocks and one more.
module _ (p : Pins) (q : RamPins) where
  abbrev pub block_run : Top → Top
  block_run s = run p q 38 s

  abbrev pub blocks_run : ℕ → Top → Top
  blocks_run zero s = block_run s
  blocks_run (suc n) s = blocks_run n (block_run s)

  block_run-eq : (s : Top) → block_run s ≡ run p q 7 (run p q 23 (tick p q (run p q 7 s)))
  unfolding run
  block_run-eq s = refl

  module _ (key : Block) (bk : IsByteBlock key) where
    block-BeforeWrite :
        (v : RoundKey) (j : Job) (s : Top)
        → IsWords v
        → IsWide j.mem
        → j.key ≡ words_of key
        → AtBlock v j s
        → BeforeWrite j (out_of key v j) (next_of key v j) (run p q 23 (tick p q (run p q 7 s)))
    block-BeforeWrite v j s vw mw k h =
        run-BeforeWrite p q j (out_of key v j) (next_of key v j) 22 (tick p q (run p q 7 s)) (
          tick-Waiting_go p q key bk v j (run p q 7 s) vw (block_at-IsWords j.mem j.src mw) k
            (run-AfterRead p q v j s h))

    pub blocks_run-AllWritten :
        (n : ℕ) (v : RoundKey) (j : Job) (s : Top)
        → IsWords v
        → IsWide j.mem
        → j.key ≡ words_of key
        → j.left ≡ suc n
        → suc n < 2 ^ 32
        → AtBlock v j s
        → AllWritten (transferred key n v j) (blocks_run n s)
    blocks_run-AllWritten zero v j s vw mw k l b h =
        subst (AllWritten (transferred key 0 v j)) (sym (block_run-eq s)) (
          run-AllWritten p q j (out_of key v j) (next_of key v j) _ l
            (block-BeforeWrite v j s vw mw k h))
    blocks_run-AllWritten (suc n) v j s vw mw k l b h =
        let out = out_of key v j in
        let next = next_of key v j in
        let more : (j.left == 1) ≡ false = ground (arith, l) in
        let fewer : dec32 j.left ≡ suc n = omega (arith, l, b) in
        let x = run-AtBlock p q j out next _ more (block-BeforeWrite v j s vw mw k h) in
        blocks_run-AllWritten n next (rest out j) (block_run s)
          (block_next-IsWords key j.mode j.encdec v (block_at j.mem j.src) vw
            (block_at-IsWords j.mem j.src mw))
          (store_block-IsWide j.mem j.dst out mw) k fewer (omega (arith, b))
          (subst (AtBlock next (rest out j)) (sym (block_run-eq s)) x)
