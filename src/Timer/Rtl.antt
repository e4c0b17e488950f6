-- ===== src/Timer/Rtl.antt =====
-- blocks/timer/rtl/timer.v: its registers and the two `always @(posedge clk)` branches.
pub mod Ready
pub mod Period
use riscv_soc.Base.{
  ℕ, ◌%◌, Bool, true, false, not, ◌&&◌, ◌==◌, if◌then◌else◌, bit, all_ones, dec32, test_bit,
}
use riscv_soc.Axi.Pins.{Pins, Outs, Dut}

pub record Timer : Type 0 where
  pub ctrl_en : Bool
  pub reload_reg : ℕ
  pub count : ℕ
  pub status_expired : Bool
  pub irq_pulse : Bool
  pub s_bvalid : Bool
  pub s_bresp : ℕ
  pub s_rvalid : Bool
  pub s_rdata : ℕ
  pub s_rresp : ℕ

abbrev pub reg_ctrl : ℕ
reg_ctrl = 0x0

abbrev pub reg_reload : ℕ
reg_reload = 0x4

abbrev pub reg_count : ℕ
reg_count = 0x8

abbrev pub reg_status : ℕ
reg_status = 0xC

abbrev pub resp_okay : ℕ
resp_okay = 0

-- The wires `do_write`, `write_ctrl_en` and the test for a natural expiry.
abbrev pub do_write : Pins → Bool
do_write p = p.awvalid && p.wvalid

-- `s_awaddr[3:0]` and `s_araddr[3:0]`.
abbrev pub offset : ℕ → ℕ
offset addr = addr % 16

abbrev pub write_to : Pins → ℕ → Bool
write_to p reg = do_write p && offset p.awaddr == reg

abbrev pub write_ctrl_en : Pins → Bool
write_ctrl_en p = write_to p reg_ctrl && test_bit p.wdata 0

abbrev pub expires : Pins → Timer → Bool
expires p s = s.ctrl_en && (s.count == 0 && not (write_ctrl_en p))

-- The register that a read address selects.
read_reg : ℕ → Timer → ℕ
read_reg reg s =
    if reg == reg_ctrl
    then bit s.ctrl_en
    else if reg == reg_reload
    then s.reload_reg
    else if reg == reg_count
    then s.count
    else if reg == reg_status
    then bit s.status_expired
    else 0

-- The branch `!resetn`: the response registers keep their values.
abbrev pub reset : Timer → Timer
reset s = record s {
  ctrl_en = false;
  reload_reg = all_ones;
  count = all_ones;
  status_expired = false;
  irq_pulse = false;
}

next_count : Pins → Timer → ℕ
next_count p s =
    if write_ctrl_en p
    then s.reload_reg
    else if s.ctrl_en && s.count == 0
    then s.reload_reg
    else if s.ctrl_en
    then dec32 s.count
    else s.count

next_expired : Pins → Timer → Bool
next_expired p s =
    if expires p s
    then true
    else if write_to p reg_status && test_bit p.wdata 0
    then false
    else s.status_expired

unfoldable pub edge : Pins → Timer → Timer
unfolding next_count next_expired read_reg
edge p s = record {
  ctrl_en = if write_to p reg_ctrl then test_bit p.wdata 0 else s.ctrl_en;
  reload_reg = if write_to p reg_reload then p.wdata else s.reload_reg;
  count = next_count p s;
  status_expired = next_expired p s;
  irq_pulse = expires p s;
  s_bvalid = do_write p;
  s_bresp = if do_write p then resp_okay else s.s_bresp;
  s_rvalid = p.arvalid;
  s_rdata = if p.arvalid then read_reg (offset p.araddr) s else s.s_rdata;
  s_rresp = if p.arvalid then resp_okay else s.s_rresp;
}

unfoldable pub step : Pins → Timer → Timer
unfolding edge
step p s = if p.resetn then edge p s else reset s

abbrev pub outs : Pins → Timer → Outs
outs p s = record {
  awready = true;
  wready = true;
  bvalid = s.s_bvalid;
  bresp = s.s_bresp;
  arready = true;
  rvalid = s.s_rvalid;
  rdata = s.s_rdata;
  rresp = s.s_rresp;
}

abbrev pub dut : Dut Timer
dut = record { step = step; outs = outs }
