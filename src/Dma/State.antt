-- ===== src/Dma/State.antt =====
-- The registers and the pins of blocks/dma/rtl/dma_engine.v.
use riscv_soc.Base.{ℕ, ◌%◌, Bool, not, ◌&&◌, ◌==◌, test_bit}
use riscv_soc.Axi.Pins.{Pins}
use riscv_soc.Aes.KeyExpand.{RoundKey}
use riscv_soc.Aes.Chain.{Chain}

pub data EngineState : Type 0 where
  st_idle st_rd_addr st_rd_data st_aes_go st_aes_wait st_wr_addr st_wr_data st_wr_resp st_done :
      EngineState

pub record Engine : Type 0 where
  pub src_addr_reg : ℕ
  pub dst_addr_reg : ℕ
  pub len_reg : ℕ
  pub key_reg : RoundKey
  pub iv_reg : RoundKey
  pub status_busy : Bool
  pub status_done : Bool
  pub irq_pulse : Bool
  pub ctrl_mode : ℕ
  pub ctrl_encdec : Bool
  pub state : EngineState
  pub cur_src : ℕ
  pub cur_dst : ℕ
  pub blocks_left : ℕ
  pub beat_cnt : ℕ
  pub rd_block : RoundKey
  pub wr_block : RoundKey
  pub chain_load_iv : Bool
  pub chain_start : Bool
  pub m_awvalid : Bool
  pub m_awaddr : ℕ
  pub m_awlen : ℕ
  pub m_wvalid : Bool
  pub m_bready : Bool
  pub m_arvalid : Bool
  pub m_araddr : ℕ
  pub m_arlen : ℕ
  pub m_rready : Bool
  pub s_bvalid : Bool
  pub s_bresp : ℕ
  pub s_rvalid : Bool
  pub s_rdata : ℕ
  pub s_rresp : ℕ
  pub chain : Chain

-- The inputs of the burst port.
pub record FromRam : Type 0 where
  pub m_awready : Bool
  pub m_wready : Bool
  pub m_bvalid : Bool
  pub m_arready : Bool
  pub m_rvalid : Bool
  pub m_rdata : ℕ
  pub m_rlast : Bool

abbrev pub offset : ℕ → ℕ
offset addr = addr % 128

abbrev pub do_write : Pins → Bool
do_write p = p.awvalid && p.wvalid

unfoldable pub do_start : Pins → Engine → Bool
do_start p s = do_write p && (offset p.awaddr == 0x00 && (test_bit p.wdata 0 && not s.status_busy))
