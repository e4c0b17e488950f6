-- ===== src/Watchdog/Rtl.antt =====
-- blocks/watchdog/rtl/watchdog.v: its registers and the two `always @(posedge clk)` branches.
pub mod Ready
pub mod Feeding
use riscv_soc.Base.{
  ℕ, ◌+◌, ◌*◌, ◌%◌, Bool, true, false, not, ◌&&◌, ◌||◌, ◌==◌, if◌then◌else◌, bit, all_ones, dec32,
  test_bit,
}
use riscv_soc.Axi.Pins.{Pins, Outs, Dut}

pub record Watchdog : Type 0 where
  pub ctrl_en : Bool
  pub timeout_reg : ℕ
  pub count : ℕ
  pub status_warning : Bool
  pub status_reset_req : Bool
  pub irq_pulse : Bool
  pub s_bvalid : Bool
  pub s_bresp : ℕ
  pub s_rvalid : Bool
  pub s_rdata : ℕ
  pub s_rresp : ℕ

-- The parameter `WARN_MARGIN` at its default.
abbrev pub warn_margin : ℕ
warn_margin = 4

abbrev pub reg_ctrl : ℕ
reg_ctrl = 0x0

abbrev pub reg_timeout : ℕ
reg_timeout = 0x4

abbrev pub reg_kick : ℕ
reg_kick = 0x8

abbrev pub reg_status : ℕ
reg_status = 0xC

abbrev pub resp_okay : ℕ
resp_okay = 0

abbrev pub do_write : Pins → Bool
do_write p = p.awvalid && p.wvalid

-- `s_awaddr[3:0]` and `s_araddr[3:0]`.
abbrev pub offset : ℕ → ℕ
offset addr = addr % 16

abbrev pub write_to : Pins → ℕ → Bool
write_to p reg = do_write p && offset p.awaddr == reg

abbrev pub write_ctrl_en : Pins → Bool
write_ctrl_en p = write_to p reg_ctrl && test_bit p.wdata 0

abbrev pub write_kick : Pins → Bool
write_kick p = write_to p reg_kick

abbrev pub restart : Pins → Bool
restart p = write_ctrl_en p || write_kick p

-- The register that a read address selects.
read_reg : ℕ → Watchdog → ℕ
read_reg reg s =
    if reg == reg_ctrl
    then bit s.ctrl_en
    else if reg == reg_timeout
    then s.timeout_reg
    else if reg == reg_kick
    then 0
    else if reg == reg_status
    then 2 * bit s.status_reset_req + bit s.status_warning
    else 0

-- The branch `!resetn`: the response registers keep their values.
abbrev pub reset : Watchdog → Watchdog
reset s = record s {
  ctrl_en = false;
  timeout_reg = all_ones;
  count = all_ones;
  status_warning = false;
  status_reset_req = false;
  irq_pulse = false;
}

next_count : Pins → Watchdog → ℕ
next_count p s =
    if restart p
    then s.timeout_reg
    else if s.ctrl_en && not (s.count == 0)
    then dec32 s.count
    else s.count

next_warning : Pins → Watchdog → Bool
next_warning p s =
    if restart p
    then false
    else if s.ctrl_en && s.count == warn_margin
    then true
    else if write_to p reg_status && test_bit p.wdata 0
    then false
    else s.status_warning

next_reset_req : Pins → Watchdog → Bool
next_reset_req p s =
    if restart p then false else if s.ctrl_en && s.count == 0 then true else s.status_reset_req

unfoldable pub edge : Pins → Watchdog → Watchdog
unfolding next_count next_warning next_reset_req read_reg
edge p s = record {
  ctrl_en = if write_to p reg_ctrl then test_bit p.wdata 0 else s.ctrl_en;
  timeout_reg = if write_to p reg_timeout then p.wdata else s.timeout_reg;
  count = next_count p s;
  status_warning = next_warning p s;
  status_reset_req = next_reset_req p s;
  irq_pulse = not (restart p) && (s.ctrl_en && s.count == warn_margin);
  s_bvalid = do_write p;
  s_bresp = if do_write p then resp_okay else s.s_bresp;
  s_rvalid = p.arvalid;
  s_rdata = if p.arvalid then read_reg (offset p.araddr) s else s.s_rdata;
  s_rresp = if p.arvalid then resp_okay else s.s_rresp;
}

unfoldable pub step : Pins → Watchdog → Watchdog
unfolding edge
step p s = if p.resetn then edge p s else reset s

abbrev pub outs : Pins → Watchdog → Outs
outs p s = record {
  awready = true;
  wready = true;
  bvalid = s.s_bvalid;
  bresp = s.s_bresp;
  arready = true;
  rvalid = s.s_rvalid;
  rdata = s.s_rdata;
  rresp = s.s_rresp;
}

abbrev pub dut : Dut Watchdog
dut = record { step = step; outs = outs }
