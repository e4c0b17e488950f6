-- ===== src/Jtag/Chain/Dtm.antt =====
-- blocks/jtag/rtl/jtag_dtm.v: instruction register, data registers and TDO, on the clock `tck`.
use riscv_soc.Base.{ℕ, Bool, false, not, ◌&&◌, ◌||◌, ◌==◌, if◌then◌else◌, [], ◌∷◌}
use riscv_soc.Jtag.Tap.{posedge, test_logic_reset, capture_dr, shift_dr, update_dr}
use riscv_soc.Jtag.Tap.{capture_ir, shift_ir, update_ir}
use riscv_soc.Base.{Bits, to_bits, to_number, low_bit, shift_in}

abbrev pub ir_idcode : ℕ
ir_idcode = 0x1

abbrev pub ir_axi_addr : ℕ
ir_axi_addr = 0x2

abbrev pub ir_axi_data : ℕ
ir_axi_data = 0x3

abbrev pub ir_axi_ctrl : ℕ
ir_axi_ctrl = 0x4

abbrev pub ir_bypass : ℕ
ir_bypass = 0xF

-- `{4'h1, 16'hC0DE, 11'h051, 1'b1}`.
abbrev pub idcode_value : Bits
idcode_value = to_bits 32 0x1C0D_E0A3

-- The registers, with the state of the controller `u_tap`.
pub record Dtm : Type 0 where
  pub state_r : ℕ
  pub ir_shift : Bits
  pub ir_reg : ℕ
  pub dr_shift : Bits
  pub bypass_reg : Bool
  pub addr_reg : Bits
  pub data_reg : Bits
  pub bridge_busy_prev : Bool
  pub start_pulse_tck : Bool
  pub rw_tck : Bool

-- The pins, and what the bridge shows to the `tck` domain.
pub record DtmIn : Type 0 where
  pub resetn : Bool
  pub tms : Bool
  pub tdi : Bool
  pub bridge_busy_tck : Bool
  pub bridge_resp_ok_tck : Bool
  pub bridge_rdata_tck : Bits

abbrev pub tdo : Dtm → Bool
tdo d = if d.ir_reg == ir_bypass then d.bypass_reg else low_bit d.dr_shift

-- `u_tap` on the same edge.
abbrev pub next_tap : DtmIn → Dtm → ℕ
next_tap p d = (posedge (record { resetn = p.resetn; tms = p.tms; state_r = d.state_r })).state_r

-- The word that Capture-DR loads; an instruction with a bypass register loads none.
captured : DtmIn → Dtm → Bits
captured p d =
    if d.ir_reg == ir_idcode
    then idcode_value
    else if d.ir_reg == ir_axi_addr
    then d.addr_reg
    else if d.ir_reg == ir_axi_data
    then d.data_reg
    else if d.ir_reg == ir_axi_ctrl
    then p.bridge_busy_tck ∷ p.bridge_resp_ok_tck ∷ to_bits 30 0
    else d.dr_shift

is_captured : Dtm → Bool
is_captured d =
    d.ir_reg == ir_idcode
    || (d.ir_reg == ir_axi_addr || (d.ir_reg == ir_axi_data || d.ir_reg == ir_axi_ctrl))

next_dr_shift : DtmIn → Dtm → Bits
next_dr_shift p d =
    if d.state_r == capture_dr
    then captured p d
    else if d.state_r == shift_dr && not (d.ir_reg == ir_bypass)
    then shift_in p.tdi d.dr_shift
    else d.dr_shift

next_bypass : DtmIn → Dtm → Bool
next_bypass p d =
    if d.state_r == capture_dr
    then (if is_captured d then d.bypass_reg else false)
    else if d.state_r == shift_dr && d.ir_reg == ir_bypass
    then p.tdi
    else d.bypass_reg

-- Update-DR with the instruction `ir`.
updates : ℕ → Dtm → Bool
updates ir d = d.state_r == update_dr && d.ir_reg == ir

-- The data register takes the read data when the bridge falls idle after a read; an update of the
-- register on the same edge wins.
next_data : DtmIn → Dtm → Bits
next_data p d =
    if updates ir_axi_data d
    then d.dr_shift
    else if d.bridge_busy_prev && (not p.bridge_busy_tck && d.rw_tck)
    then p.bridge_rdata_tck
    else d.data_reg

-- The second low bit of the shift register.
second_bit : Bits → Bool
second_bit [] = false
second_bit (b ∷ bs) = low_bit bs

unfoldable pub dtm_reset : DtmIn → Dtm → Dtm
unfolding posedge
dtm_reset p d = record d {
  state_r = next_tap p d;
  ir_reg = ir_idcode;
  start_pulse_tck = false;
  bridge_busy_prev = false;
}

unfoldable pub dtm_run : DtmIn → Dtm → Dtm
unfolding posedge captured is_captured next_dr_shift next_bypass updates next_data second_bit
dtm_run p d = record {
  state_r = next_tap p d;
  ir_shift =
      if d.state_r == capture_ir
      then to_bits 4 5
      else if d.state_r == shift_ir
      then shift_in p.tdi d.ir_shift
      else d.ir_shift;
  ir_reg = if d.state_r == update_ir then to_number d.ir_shift else d.ir_reg;
  dr_shift = next_dr_shift p d;
  bypass_reg = next_bypass p d;
  addr_reg = if updates ir_axi_addr d then d.dr_shift else d.addr_reg;
  data_reg = next_data p d;
  bridge_busy_prev = p.bridge_busy_tck;
  start_pulse_tck = updates ir_axi_ctrl d && low_bit d.dr_shift;
  rw_tck = if updates ir_axi_ctrl d then second_bit d.dr_shift else d.rw_tck;
}

-- A rising edge of `tck`.
unfoldable pub dtm_edge : DtmIn → Dtm → Dtm
unfolding dtm_reset dtm_run
dtm_edge p d = if not p.resetn || d.state_r == test_logic_reset then dtm_reset p d else dtm_run p d
