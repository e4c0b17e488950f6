-- ===== src/Dma/Transfer.antt =====
-- One block through blocks/dma/dv/dma_engine_testtop.v, from the burst read to the burst write.
pub mod Phases
pub mod Cipher
pub mod Written
pub mod Whole
pub mod Order
use riscv_soc.Base.{
  ℕ, zero, suc, ◌+◌, ◌==◌, Bool, true, false, if◌then◌else◌, ◌≡◌, refl, sym, ap, ◌∙◌, update,
  merge_bytes, dec32, ◌&&◌, arith,
}
use mathlib.Core.Path.{subst}
use riscv_soc.Axi.Pins.{Pins}
use riscv_soc.Aes.Ref.{Block}
use riscv_soc.Aes.Ref.MixInverse.{IsByteBlock}
use riscv_soc.Aes.KeyExpand.{RoundKey}
use riscv_soc.Aes.KeyExpand.Rounds.{IsWords}
use riscv_soc.Aes.Core.{words_of}
use riscv_soc.Aes.Chain.{Chain, ChainIn, chain_step, core_in, is_idle, st_idle}
use riscv_soc.Aes.Chain.Due.{IsFreeChain, DueChain, core_rests}
use riscv_soc.Aes.Chain.Messages.{block_out, block_next}
use riscv_soc.Aes.Chain.Refines.{chain-modes}
use riscv_soc.Aes.Regs.Edges.{chain_rests}
use riscv_soc.DmaRam
use riscv_soc.DmaRam.{Ram, RamPins, w_idle, r_idle, word_index, next_index}
use riscv_soc.Dma
use riscv_soc.Dma.{
  Engine, EngineState, st_rd_addr, st_aes_go, st_aes_wait, st_wr_addr, st_wr_resp, st_done,
  chain_in, add16,
}
use riscv_soc.Dma.Top.{Top, top_step}

-- Out of reset, without a write to the registers.
abbrev pub calm_pins : Pins → Pins
calm_pins p = record p { resetn = true; awvalid = false }

-- The test port asks for nothing.
abbrev pub quiet_pins : RamPins → RamPins
quiet_pins q = record q { awvalid = false; wvalid = false; arvalid = false; rready = false }

-- No request is up, the memory is idle, and the chain is given nothing.
abbrev pub settled : EngineState → Bool → Top → Top
settled st start s = record {
  engine = record s.engine {
    state = st;
    m_arvalid = false;
    m_rready = false;
    m_awvalid = false;
    m_wvalid = false;
    m_bready = false;
    chain_start = start;
    chain_load_iv = false;
  };
  ram = record s.ram { w_state = w_idle; r_state = r_idle };
}

-- The same with the vector still to be loaded or not.
abbrev pub loading : Bool → Top → Top
loading load s =
    let t = settled st_rd_addr false s in
    record t { engine = record t.engine { chain_load_iv = load } }

-- What a transfer reads and does not change until a block is written.
pub record Job : Type 0 where
  pub src : ℕ
  pub dst : ℕ
  pub left : ℕ
  pub key : RoundKey
  pub mode : ℕ
  pub encdec : Bool
  pub mem : ℕ → ℕ

abbrev pub job : Top → Job
job s = record {
  src = s.engine.cur_src;
  dst = s.engine.cur_dst;
  left = s.engine.blocks_left;
  key = s.engine.key_reg;
  mode = s.engine.ctrl_mode;
  encdec = s.engine.ctrl_encdec;
  mem = s.ram.mem;
}

-- The four words from an address on.
abbrev pub block_at : (ℕ → ℕ) → ℕ → RoundKey
block_at mem addr =
    let i = word_index addr in
    record {
      w0 = mem i;
      w1 = mem (next_index i);
      w2 = mem (next_index (next_index i));
      w3 = mem (next_index (next_index (next_index i)));
    }

-- The vector with which the chain goes on.
abbrev pub vector : Top → RoundKey
vector s = if s.engine.chain_load_iv then s.engine.iv_reg else s.engine.chain.iv_reg

-- An edge of the chain without a start.
chain_waits :
    (c : ChainIn) (s : Chain)
    → c.resetn ≡ true
    → c.start ≡ false
    → s.state ≡ st_idle
    → ((chain_step c s).iv_reg ≡ (if c.load_iv then c.iv_in else s.iv_reg))
      × ((chain_step c s).state ≡ st_idle)
unfolding chain_step
chain_waits c s e t h = ground arith

-- An edge of the whole without a start of the chain.
pub edge_waits :
    (p : Pins) (s : Top)
    → p.resetn ≡ true
    → s.engine.chain_start ≡ false
    → IsFreeChain s.engine.chain
    → let c = chain_step (chain_in p s.engine) s.engine.chain in
      IsFreeChain c × (c.iv_reg ≡ vector s)
unfolding chain_in core_in chain_step
edge_waits p s e t h =
    let c = chain_in p s.engine in
    let f = chain_waits c s.engine.chain e t h.chain_idle in
    let quiet : (core_in c s.engine.chain).start ≡ false = λ i. is_idle (h.chain_idle i) && t i in
    (
      record {
        chain_idle = f.1;
        core_free = core_rests (core_in c s.engine.chain) s.engine.chain.core e quiet h.core_free;
      },
      f.0,
    )

module _ (p : Pins) (q : RamPins) where
  abbrev pub tick : Top → Top
  tick s = top_step (calm_pins p) (quiet_pins q) s

  -- Edges one after the other.
  unfoldable pub run : ℕ → Top → Top
  unfolding top_step
  run zero s = s
  run (suc n) s = run n (tick s)

  pub tick_waits :
      (s : Top)
      → s.engine.chain_start ≡ false
      → IsFreeChain s.engine.chain
      → IsFreeChain (tick s).engine.chain × ((tick s).engine.chain.iv_reg ≡ vector s)
  unfolding top_step Dma.step
  tick_waits s t h = edge_waits (calm_pins p) s refl t h

  -- The read of a block, for either way to begin.
  module _ (load : Bool) (s : Top) where
    pub read_shape : run 7 (loading load s) ≡ settled st_aes_go true (run 7 (loading load s))
    unfolding run Dma.step DmaRam.step
    read_shape = refl

    pub read_job : job (run 7 (loading load s)) ≡ job s
    unfolding run Dma.step DmaRam.step
    read_job = refl

    pub read_block : (run 7 (loading load s)).engine.rd_block ≡ block_at s.ram.mem s.engine.cur_src
    unfolding run Dma.step DmaRam.step
    read_block = refl

    pub read_chain :
        IsFreeChain s.engine.chain
        → let t = run 7 (loading load s) in
          IsFreeChain t.engine.chain × (t.engine.chain.iv_reg ≡ vector (loading load s))
    unfolding run Dma.step DmaRam.step
    read_chain h =
        let s0 = loading load s in
        let s1 = tick s0 in
        let s2 = tick s1 in
        let s3 = tick s2 in
        let s4 = tick s3 in
        let s5 = tick s4 in
        let s6 = tick s5 in
        let a = tick_waits s0 refl h in
        let b = tick_waits s1 refl a.0 in
        let c = tick_waits s2 refl b.0 in
        let d = tick_waits s3 refl c.0 in
        let e = tick_waits s4 refl d.0 in
        let f = tick_waits s5 refl e.0 in
        let g = tick_waits s6 refl f.0 in (g.0, g.1 ∙ f.1 ∙ e.1 ∙ d.1 ∙ c.1 ∙ b.1 ∙ a.1)
