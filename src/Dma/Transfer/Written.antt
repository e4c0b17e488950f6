-- ===== src/Dma/Transfer/Written.antt =====
-- The burst write of a block, and the response to it.
use riscv_soc.Base.{
  ℕ, ◌==◌, Bool, true, false, ◌≡◌, refl, ◌∙◌, update, merge_bytes, ◌%◌, ◌^◌, dec32, arith,
}
use riscv_soc.Axi.Pins.{Pins}
use riscv_soc.Aes.KeyExpand.{RoundKey}
use riscv_soc.Aes.Chain.Due.{IsFreeChain}
use riscv_soc.DmaRam
use riscv_soc.DmaRam.{Ram, RamPins, w_idle, r_idle, word_index, next_index}
use riscv_soc.Dma
use riscv_soc.Dma.{
  Engine, EngineState, st_rd_addr, st_aes_go, st_aes_wait, st_wr_addr, st_wr_resp, st_done,
  chain_in, add16,
}
use riscv_soc.Dma.Top.{Top, top_step}
use riscv_soc.Dma.Transfer.{settled, loading, Job, job, tick, run, tick_waits}

-- The memory after a block is stored from an address on, with all strobes.
abbrev pub store_merged : (ℕ → ℕ) → ℕ → RoundKey → ℕ → ℕ
store_merged mem addr k =
    let i0 = word_index addr in
    let i1 = next_index i0 in
    let i2 = next_index i1 in
    let i3 = next_index i2 in
    let put = λ (m : ℕ → ℕ) (i w : ℕ). update m i (merge_bytes 0xF w (m i)) in
    put (put (put (put mem i0 k.w0) i1 k.w1) i2 k.w2) i3 k.w3

-- The memory after the low 32 bits of four words are stored from an address on.
abbrev pub store_block : (ℕ → ℕ) → ℕ → RoundKey → ℕ → ℕ
store_block mem addr k =
    let i0 = word_index addr in
    let i1 = next_index i0 in
    let i2 = next_index i1 in
    update (update (update (update mem i0 (k.w0 % 2 ^ 32)) i1 (k.w1 % 2 ^ 32)) i2 (k.w2 % 2 ^ 32))
      (next_index i2) (k.w3 % 2 ^ 32)

merge_bytes-low : (word old : ℕ) → merge_bytes 0xF word old ≡ word % 2 ^ 32
unfolding merge_bytes
merge_bytes-low word old = omega arith

pub store_merged-eq :
    (mem : ℕ → ℕ) (addr : ℕ) (k : RoundKey) → store_merged mem addr k ≡ store_block mem addr k
store_merged-eq mem addr k i =
    let i0 = word_index addr in
    let i1 = next_index i0 in
    let i2 = next_index i1 in
    let i3 = next_index i2 in
    let m0 = update mem i0 (merge_bytes-low k.w0 (mem i0) i) in
    let m1 = update m0 i1 (merge_bytes-low k.w1 (m0 i1) i) in
    let m2 = update m1 i2 (merge_bytes-low k.w2 (m1 i2) i) in
    update m2 i3 (merge_bytes-low k.w3 (m2 i3) i)

-- Before the write, by whether an old response is pending, and the number of blocks left.
abbrev pub writing : Bool → ℕ → Top → Top
writing b left s =
    let t = settled st_wr_addr false s in
    record { engine = record t.engine { blocks_left = left }; ram = record t.ram { s_bvalid = b } }

-- The job when its first block is done.
abbrev pub rest : RoundKey → Job → Job
rest out j = record j {
  src = add16 j.src;
  dst = add16 j.dst;
  left = dec32 j.left;
  mem = store_block j.mem j.dst out;
}

-- At the response.
abbrev pub answered : Top → Top
answered t =
    let u = settled st_wr_resp false t in
    record { engine = record u.engine { m_bready = true }; ram = record u.ram { s_bvalid = true } }

module _ (p : Pins) (q : RamPins) (s : Top) where
  pub write_last :
      (b : Bool)
      → let t = run p q 7 (writing b 1 s) in
        (t ≡ settled st_done false t)
        × (t.ram.mem ≡ store_merged s.ram.mem s.engine.cur_dst s.engine.wr_block)
  unfolding run Dma.step DmaRam.step
  write_last true = (refl, refl)
  write_last false = (refl, refl)

  -- The write up to the response.
  pub write_more :
      (b : Bool)
      → let t = run p q 6 (writing b s.engine.blocks_left s) in
        (t ≡ answered t)
        × (job t
            ≡ record (job s) { mem = store_merged s.ram.mem s.engine.cur_dst s.engine.wr_block })
  unfolding run Dma.step DmaRam.step
  write_more true = (refl, refl)
  write_more false = (refl, refl)

  response_fields :
      (s.engine.blocks_left == 1) ≡ false
      → let t = tick p q (answered s) in
        (t.engine.state ≡ st_rd_addr)
        × (t.engine.m_arvalid ≡ false)
        × (t.engine.m_rready ≡ false)
        × (t.engine.m_awvalid ≡ false)
        × (t.engine.m_wvalid ≡ false)
        × (t.engine.m_bready ≡ false)
        × (t.engine.chain_start ≡ false)
        × (t.engine.chain_load_iv ≡ false)
  unfolding top_step Dma.step DmaRam.step
  response_fields h = ground (arith, h)

  response_job :
      (s.engine.blocks_left == 1) ≡ false
      → let t = tick p q (answered s) in
        (t.engine.cur_src ≡ add16 s.engine.cur_src)
        × (t.engine.cur_dst ≡ add16 s.engine.cur_dst)
        × (t.engine.blocks_left ≡ dec32 s.engine.blocks_left)
        × (t.engine.key_reg ≡ s.engine.key_reg)
        × (t.engine.ctrl_mode ≡ s.engine.ctrl_mode)
        × (t.engine.ctrl_encdec ≡ s.engine.ctrl_encdec)
  unfolding top_step Dma.step DmaRam.step
  response_job h = ground (arith, h)

  pub response_shape :
      (s.engine.blocks_left == 1) ≡ false
      → tick p q (answered s) ≡ loading false (tick p q (answered s))
  unfolding top_step DmaRam.step
  response_shape h =
      let u = tick p q (answered s) in
      let f = response_fields h in
      λ i. record {
        engine = record u.engine {
          state = f.0 i;
          m_arvalid = f.1 i;
          m_rready = f.2 i;
          m_awvalid = f.3 i;
          m_wvalid = f.4 i;
          m_bready = f.5 i;
          chain_start = f.6 i;
          chain_load_iv = f.7 i;
        };
        ram = record u.ram { w_state = w_idle; r_state = r_idle };
      }

  pub answered-rest :
      (s.engine.blocks_left == 1) ≡ false
      → job (tick p q (answered s)) ≡ record (job s) {
        src = add16 s.engine.cur_src;
        dst = add16 s.engine.cur_dst;
        left = dec32 s.engine.blocks_left;
      }
  unfolding top_step DmaRam.step
  answered-rest h =
      let f = response_job h in
      λ i. record {
        src = f.0 i;
        dst = f.1 i;
        left = f.2 i;
        key = f.3 i;
        mode = f.4 i;
        encdec = f.5 i;
        mem = s.ram.mem;
      }

  pub write_chain :
      (b : Bool)
      → IsFreeChain s.engine.chain
      → let t = run p q 6 (writing b s.engine.blocks_left s) in
        IsFreeChain t.engine.chain × (t.engine.chain.iv_reg ≡ s.engine.chain.iv_reg)
  unfolding run Dma.step DmaRam.step
  write_chain b h =
      let s0 = writing b s.engine.blocks_left s in
      let s1 = tick p q s0 in
      let s2 = tick p q s1 in
      let s3 = tick p q s2 in
      let s4 = tick p q s3 in
      let s5 = tick p q s4 in
      let c1 = tick_waits p q s0 refl h in
      let c2 = tick_waits p q s1 refl c1.0 in
      let c3 = tick_waits p q s2 refl c2.0 in
      let c4 = tick_waits p q s3 refl c3.0 in
      let c5 = tick_waits p q s4 refl c4.0 in
      let c6 = tick_waits p q s5 refl c5.0 in (c6.0, c6.1 ∙ c5.1 ∙ c4.1 ∙ c3.1 ∙ c2.1 ∙ c1.1)
