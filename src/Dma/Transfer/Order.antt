-- ===== src/Dma/Transfer/Order.antt =====
-- A whole transfer of blocks/dma/rtl/dma_engine.v, from the write to CTRL to the interrupt.
use riscv_soc.Base.{ℕ, suc, ◌/◌, ◌%◌, ◌<◌, ◌^◌, true, false, test_bit}
use riscv_soc.Base.{if◌then◌else◌, ◌≡◌, refl, sym, arith}
use mathlib.Core.Path.{subst}
use riscv_soc.Axi.Pins.{Pins}
use riscv_soc.Aes.Ref.{Block}
use riscv_soc.Aes.Ref.MixInverse.{IsByteBlock}
use riscv_soc.Aes.KeyExpand.Rounds.{IsWords}
use riscv_soc.Aes.Core.{words_of}
use riscv_soc.Aes.Chain.Due.{IsFreeChain}
use riscv_soc.DmaRam
use riscv_soc.DmaRam.{RamPins, w_idle, r_idle}
use riscv_soc.Dma
use riscv_soc.Dma.{Engine, st_idle, st_rd_addr, st_done, do_start, add16}
use riscv_soc.Dma.Top.{Top, top_step}
use riscv_soc.Dma.Transfer.{quiet_pins, settled, Job, tick, edge_waits}
use riscv_soc.Dma.Transfer.Phases.{AtBlock, AllWritten}
use riscv_soc.Dma.Transfer.Whole.{IsWide, transferred, blocks_run, blocks_run-AllWritten}

-- The engine is idle, and so is the memory.
pub record IsWaiting (s : Top) : Type 0 where
  pub shape : s ≡ settled st_idle false s
  pub not_busy : s.engine.status_busy ≡ false
  pub free : IsFreeChain s.engine.chain

-- A write of `word` to CTRL.
abbrev pub start_pins : ℕ → Pins → Pins
start_pins word p = record p {
  resetn = true;
  awvalid = true;
  wvalid = true;
  awaddr = 0x00;
  wdata = word;
}

-- The job that the registers describe.
abbrev pub ordered : ℕ → Top → Job
ordered word s = record {
  src = s.engine.src_addr_reg;
  dst = s.engine.dst_addr_reg;
  left = s.engine.len_reg;
  key = s.engine.key_reg;
  mode = word / 4 % 4;
  encdec = test_bit word 1;
  mem = s.ram.mem;
}

module _ (p : Pins) (q : RamPins) (word : ℕ) where
  abbrev pub start : Top → Top
  start s = top_step (start_pins word p) (quiet_pins q) s

  start_fields :
      (s : Top)
      → test_bit word 0 ≡ true
      → s.engine.status_busy ≡ false
      → let t = start (settled st_idle false s) in
        (t.engine.state ≡ st_rd_addr)
        × (t.engine.m_arvalid ≡ false)
        × (t.engine.m_rready ≡ false)
        × (t.engine.m_awvalid ≡ false)
        × (t.engine.m_wvalid ≡ false)
        × (t.engine.m_bready ≡ false)
        × (t.engine.chain_start ≡ false)
        × (t.engine.chain_load_iv ≡ true)
        × (t.engine.cur_src ≡ s.engine.src_addr_reg)
        × (t.engine.cur_dst ≡ s.engine.dst_addr_reg)
        × (t.engine.blocks_left ≡ s.engine.len_reg)
        × (t.engine.key_reg ≡ s.engine.key_reg)
        × (t.engine.ctrl_mode ≡ word / 4 % 4)
        × (t.engine.ctrl_encdec ≡ test_bit word 1)
        × (t.engine.iv_reg ≡ s.engine.iv_reg)
  unfolding top_step Dma.step DmaRam.step
  start_fields s b n = ground (arith, b, n)

  started-AtBlock :
      (s : Top)
      → test_bit word 0 ≡ true
      → s.engine.status_busy ≡ false
      → IsFreeChain s.engine.chain
      → AtBlock s.engine.iv_reg (ordered word s) (start (settled st_idle false s))
  unfolding top_step Dma.step DmaRam.step
  started-AtBlock s b n h =
      let f = start_fields s b n in
      let s0 = settled st_idle false s in
      let u = start s0 in
      record {
        load = true;
        shape = λ i. record {
          engine = record u.engine {
            state = f.0 i;
            m_arvalid = f.1 i;
            m_rready = f.2 i;
            m_awvalid = f.3 i;
            m_wvalid = f.4 i;
            m_bready = f.5 i;
            chain_start = f.6 i;
            chain_load_iv = f.7 i;
          };
          ram = record u.ram { w_state = w_idle; r_state = r_idle };
        };
        kept = λ i. record {
          src = f.8 i;
          dst = f.9 i;
          left = f.10 i;
          key = f.11 i;
          mode = f.12 i;
          encdec = f.13 i;
          mem = s.ram.mem;
        };
        free = (edge_waits (start_pins word p) s0 refl refl h).0;
        iv =
            subst (λ b. (if b then u.engine.iv_reg else u.engine.chain.iv_reg) ≡ s.engine.iv_reg)
              (sym f.7) f.14;
      }

  start-AtBlock :
      (s : Top)
      → test_bit word 0 ≡ true
      → IsWaiting s
      → AtBlock s.engine.iv_reg (ordered word s) (start s)
  start-AtBlock s b h =
      subst (λ t. AtBlock s.engine.iv_reg (ordered word s) (start t)) (sym h.shape)
        (started-AtBlock s b h.not_busy h.free)

  -- The edge after the last block.
  done_fields :
      (s : Top) (mem : ℕ → ℕ)
      → AllWritten mem s
      → let t = tick p q s in
        (t.ram.mem ≡ mem)
        × (t.engine.status_done ≡ true)
        × (t.engine.status_busy ≡ false)
        × (t.engine.irq_pulse ≡ true)
  unfolding top_step Dma.step DmaRam.step
  done_fields s mem h =
      subst
        (λ x.
          let t = tick p q x in
          (t.ram.mem ≡ mem)
          × (t.engine.status_done ≡ true)
          × (t.engine.status_busy ≡ false)
          × (t.engine.irq_pulse ≡ true))
        (sym h.shape) (h.memory, refl, refl, refl)

  -- A write to CTRL with START set, while the engine, the chain and the memory are idle and LEN is not
  -- 0, makes the engine transfer LEN blocks: 38 edges for each of them and one more later, if no
  -- register is written, the test port asks for nothing and the pins keep the same levels at every edge, DONE is set, BUSY is clear, the interrupt
  -- is up, and the memory is the one in which block after block from SRC_ADDR on, in the mode and the
  -- direction that the write gave and from the vector in IV0 to IV3 on, has been put through the mode
  -- over the reference model's cipher under the key in KEY0 to KEY3 and stored from DST_ADDR on.
  pub transfer_stores :
      (key : Block) (n : ℕ) (s : Top)
      → IsByteBlock key
      → s.engine.key_reg ≡ words_of key
      → IsWords s.engine.iv_reg
      → IsWide s.ram.mem
      → s.engine.len_reg ≡ suc n
      → suc n < 2 ^ 32
      → test_bit word 0 ≡ true
      → IsWaiting s
      → let t = tick p q (blocks_run p q n (start s)) in
        (t.ram.mem ≡ transferred key n s.engine.iv_reg (ordered word s))
        × (t.engine.status_done ≡ true)
        × (t.engine.status_busy ≡ false)
        × (t.engine.irq_pulse ≡ true)
  transfer_stores key n s bk k vw mw l b w h =
      done_fields (blocks_run p q n (start s)) (transferred key n s.engine.iv_reg (ordered word s))
        (blocks_run-AllWritten p q key bk n s.engine.iv_reg (ordered word s) (start s) vw mw k l b
          (start-AtBlock s w h))
