-- ===== src/Jtag/Chain/Bypass.antt =====
-- How the instruction selects the data register between TDI and TDO.
use riscv_soc.Base.{ℕ, Bool, true, false, ◌≡◌, ◌≢◌, ◌∷◌, arith}
use riscv_soc.Jtag.Tap.{capture_dr}
use riscv_soc.Base.{Bits}
use riscv_soc.Jtag.Chain.Dtm.{Dtm, DtmIn, dtm_edge, tdo}
use riscv_soc.Jtag.Chain.Dtm.{ir_idcode, ir_axi_addr, ir_axi_data, ir_axi_ctrl, ir_bypass}

-- An edge out of reset with TMS = 0.
pub record IsShiftEdge (p : DtmIn) : Type 0 where
  pub out_of_reset : p.resetn ≡ true
  pub tms_low : p.tms ≡ false

-- The instruction is none of the five that the module names.
pub record IsUnlisted (ir : ℕ) : Type 0 where
  pub not_idcode : ir ≢ ir_idcode
  pub not_addr : ir ≢ ir_axi_addr
  pub not_data : ir ≢ ir_axi_data
  pub not_ctrl : ir ≢ ir_axi_ctrl
  pub not_bypass : ir ≢ ir_bypass

-- Under BYPASS, Capture-DR puts 0 on TDO and the following Shift-DR edge puts the TDI of that edge
-- there.
pub bypass_delay :
    (p q : DtmIn) (d : Dtm)
    → IsShiftEdge p
    → IsShiftEdge q
    → d.state_r ≡ capture_dr
    → d.ir_reg ≡ ir_bypass
    → (tdo (dtm_edge p d) ≡ false) × (tdo (dtm_edge q (dtm_edge p d)) ≡ q.tdi)
unfolding dtm_edge
bypass_delay p q d hp hq s r = ground arith

-- Under an instruction that is not one of the five, Capture-DR loads nothing, and the following
-- Shift-DR edge moves on in the old contents of the 32-bit shift register: TDO shows its lowest two
-- bits, not 0 and then TDI.
pub unlisted_shows_old :
    (p q : DtmIn) (d : Dtm) (b0 b1 : Bool) (bs : Bits)
    → IsShiftEdge p
    → IsShiftEdge q
    → d.state_r ≡ capture_dr
    → IsUnlisted d.ir_reg
    → d.dr_shift ≡ b0 ∷ b1 ∷ bs
    → (tdo (dtm_edge p d) ≡ b0) × (tdo (dtm_edge q (dtm_edge p d)) ≡ b1)
unfolding dtm_edge
unlisted_shows_old p q d b0 b1 bs hp hq s r e = ground arith
