-- ===== src/Dma.antt =====
-- blocks/dma/rtl/dma_engine.v: the streaming engine. The sizes and burst types that it drives are
-- constants that the memory does not read.
pub mod State
pub mod Top
pub mod Steady
pub mod Transfer
pub mod Stale
pub mod Bench
pub mod Main
use riscv_soc.Base.{
  ℕ, ◌+◌, ◌*◌, ◌-◌, ◌/◌, ◌%◌, ◌^◌, Bool, true, false, not, ◌&&◌, ◌==◌, bit, test_bit,
}
use riscv_soc.Base.{if◌then◌else◌, dec32}
use riscv_soc.Axi.Pins.{Pins}
use riscv_soc.Aes.KeyExpand.{RoundKey}
use riscv_soc.Aes.Chain.{Chain, ChainIn, chain_step}
use riscv_soc.Aes.Regs.{next_vector, zero_words}
pub use riscv_soc.Dma.State.{
  EngineState, st_idle, st_rd_addr, st_rd_data, st_aes_go, st_aes_wait, st_wr_addr, st_wr_data,
  st_wr_resp, st_done, Engine, FromRam, offset, do_write, do_start,
}

-- `{block[95:0], word}`.
abbrev pub shift_in : RoundKey → ℕ → RoundKey
shift_in k word = record { w0 = k.w1; w1 = k.w2; w2 = k.w3; w3 = word }

-- `cur + 32'd16`.
abbrev pub add16 : ℕ → ℕ
add16 n = (n + 16) % 2 ^ 32

-- The outputs that are driven combinationally.
unfoldable pub m_wdata : Engine → ℕ
m_wdata s = s.wr_block.w0

unfoldable pub m_wlast : Engine → Bool
m_wlast s = s.beat_cnt == 3

unfoldable pub chain_in : Pins → Engine → ChainIn
chain_in p s = record {
  resetn = p.resetn;
  load_iv = s.chain_load_iv;
  iv_in = s.iv_reg;
  start = s.chain_start;
  encdec = s.ctrl_encdec;
  mode = s.ctrl_mode;
  key_in = s.key_reg;
  data_in = s.rd_block;
}

-- The `case (state)`.
unfoldable pub engine_case : FromRam → Pins → EngineState → Engine → Engine
unfolding do_start
engine_case r p st_idle s =
    if do_start p s
    then record s {
      cur_src = s.src_addr_reg;
      cur_dst = s.dst_addr_reg;
      blocks_left = s.len_reg;
      status_busy = true;
      chain_load_iv = true;
      state = st_rd_addr;
    }
    else s
engine_case r p st_rd_addr s =
    if s.m_arvalid && r.m_arready
    then record s {
      m_arvalid = false;
      m_araddr = s.cur_src;
      m_arlen = 3;
      m_rready = true;
      beat_cnt = 0;
      state = st_rd_data;
    }
    else record s { m_arvalid = true; m_araddr = s.cur_src; m_arlen = 3 }
engine_case r p st_rd_data s =
    if r.m_rvalid && s.m_rready
    then (if r.m_rlast
        then record s {
          rd_block = shift_in s.rd_block r.m_rdata;
          m_rready = false;
          chain_start = true;
          state = st_aes_go;
        }
        else record s { rd_block = shift_in s.rd_block r.m_rdata })
    else s
engine_case r p st_aes_go s = record s { state = st_aes_wait }
engine_case r p st_aes_wait s =
    if s.chain.done_reg then record s { wr_block = s.chain.data_out_reg; state = st_wr_addr } else s
engine_case r p st_wr_addr s =
    if s.m_awvalid && r.m_awready
    then record s {
      m_awvalid = false;
      m_awaddr = s.cur_dst;
      m_awlen = 3;
      m_wvalid = true;
      beat_cnt = 0;
      state = st_wr_data;
    }
    else record s { m_awvalid = true; m_awaddr = s.cur_dst; m_awlen = 3 }
engine_case r p st_wr_data s =
    if s.m_wvalid && r.m_wready
    then (if s.beat_cnt == 3
        then record s {
          wr_block = shift_in s.wr_block 0;
          m_wvalid = false;
          m_bready = true;
          state = st_wr_resp;
        }
        else record s { wr_block = shift_in s.wr_block 0; beat_cnt = (s.beat_cnt + 1) % 4 })
    else s
engine_case r p st_wr_resp s =
    if r.m_bvalid
    then (if s.blocks_left == 1 then record s { m_bready = false; state = st_done } else record s {
      m_bready = false;
      cur_src = add16 s.cur_src;
      cur_dst = add16 s.cur_dst;
      blocks_left = dec32 s.blocks_left;
      state = st_rd_addr;
    })
    else s
engine_case r p st_done s = record s {
  status_busy = false;
  status_done = true;
  irq_pulse = true;
  state = st_idle;
}

-- The first `always` block out of reset.
unfoldable pub engine_edge : FromRam → Pins → Engine → Engine
unfolding engine_case
engine_edge r p s =
    engine_case r p s.state
      (record s { irq_pulse = false; chain_load_iv = false; chain_start = false })

-- A register of one word under a write.
abbrev pub next_word : ℕ → Pins → ℕ → ℕ
next_word o p old = if do_write p && offset p.awaddr == o then p.wdata else old

unfoldable pub read_reg : ℕ → Engine → ℕ
read_reg o s =
    if o == 0x00
    then s.ctrl_mode * 4 + bit s.ctrl_encdec * 2
    else if o == 0x04
    then bit s.status_done * 2 + bit s.status_busy
    else if o == 0x08
    then s.src_addr_reg
    else if o == 0x0C
    then s.dst_addr_reg
    else if o == 0x10
    then s.len_reg
    else if o == 0x24
    then s.iv_reg.w0
    else if o == 0x28
    then s.iv_reg.w1
    else if o == 0x2C
    then s.iv_reg.w2
    else if o == 0x30
    then s.iv_reg.w3
    else 0

-- One rising edge out of reset. Both `always` blocks assign `status_done`; the clear comes last.
unfoldable pub edge : FromRam → Pins → Engine → Engine
unfolding engine_edge next_vector read_reg chain_in do_start
edge r p s =
    let t = engine_edge r p s in
    record t {
      status_done =
          if do_write p && (offset p.awaddr == 0x04 && test_bit p.wdata 1)
          then false
          else t.status_done;
      ctrl_encdec = if do_start p s then test_bit p.wdata 1 else s.ctrl_encdec;
      ctrl_mode = if do_start p s then p.wdata / 4 % 4 else s.ctrl_mode;
      src_addr_reg = next_word 0x08 p s.src_addr_reg;
      dst_addr_reg = next_word 0x0C p s.dst_addr_reg;
      len_reg = next_word 0x10 p s.len_reg;
      key_reg = next_vector 0x14 p s.key_reg;
      iv_reg = next_vector 0x24 p s.iv_reg;
      s_bvalid = do_write p;
      s_bresp = if do_write p then 0 else s.s_bresp;
      s_rvalid = p.arvalid;
      s_rdata = if p.arvalid then read_reg (offset p.araddr) s else s.s_rdata;
      s_rresp = if p.arvalid then 0 else s.s_rresp;
      chain = chain_step (chain_in p s) s.chain;
    }

-- One rising edge in reset.
unfoldable pub reset : Pins → Engine → Engine
unfolding chain_in
reset p s = record s {
  state = st_idle;
  status_busy = false;
  irq_pulse = false;
  chain_load_iv = false;
  chain_start = false;
  m_awvalid = false;
  m_wvalid = false;
  m_bready = false;
  m_arvalid = false;
  m_rready = false;
  src_addr_reg = 0;
  dst_addr_reg = 0;
  len_reg = 0;
  key_reg = zero_words;
  iv_reg = zero_words;
  status_done = false;
  ctrl_mode = 0;
  ctrl_encdec = false;
  chain = chain_step (chain_in p s) s.chain;
}

unfoldable pub step : FromRam → Pins → Engine → Engine
unfolding edge reset
step r p s = if p.resetn then edge r p s else reset p s
