-- ===== src/Xbar/Read.antt =====
-- The read path of blocks/axi_lite_xbar/rtl/axi_lite_xbar.v.
use riscv_soc.Base.{ℕ, Bool, true, false, not, ◌&&◌, ◌||◌, ◌==◌, if◌then◌else◌, test_bit}
use riscv_soc.Axi.Pins.{Pins, Outs}
use riscv_soc.Xbar.{Around, select, decode_addr, no_slave, slave_err, slave_xbar_csr}
use riscv_soc.Xbar.{resp_okay, resp_decerr}

pub data RState : Type 0 where
  r_idle r_issue r_wait_r r_resp : RState

pub record ReadSide : Type 0 where
  pub r_state : RState
  pub r_sel : ℕ
  pub r_addr_lat : ℕ
  pub r_issued_ar : Bool
  pub s_rvalid : Bool
  pub s_rdata : ℕ
  pub s_rresp : ℕ
  pub r_grant : Bool
  pub last_decerr_raddr : ℕ
  pub decerr_irq_r : Bool

unfoldable pub r_open : ReadSide → Bool
r_open x = elim x.r_state [ r_idle ↦ true | _ ↦ false ]

unfoldable pub r_arb_s0 : Pins → Pins → Bool
r_arb_s0 s0 s1 = s0.arvalid || not s1.arvalid

unfoldable pub r_grant_eff : Pins → Pins → ReadSide → Bool
unfolding r_open r_arb_s0
r_grant_eff s0 s1 x = if r_open x then r_arb_s0 s0 s1 else x.r_grant

-- The master whose address the crossbar looks at.
unfoldable pub r_cur : Pins → Pins → ReadSide → Pins
unfolding r_grant_eff
r_cur s0 s1 x = if r_grant_eff s0 s1 x then s0 else s1

unfoldable pub cur_rready : Pins → Pins → ReadSide → Bool
cur_rready s0 s1 x = if x.r_grant then s0.rready else s1.rready

unfoldable pub s0_arready : Pins → Pins → ReadSide → Bool
unfolding r_grant_eff r_open
s0_arready s0 s1 x = if r_grant_eff s0 s1 x then r_open x else false

unfoldable pub s1_arready : Pins → Pins → ReadSide → Bool
unfolding r_grant_eff r_open
s1_arready s0 s1 x = if r_grant_eff s0 s1 x then false else r_open x

unfoldable pub s0_rvalid : ReadSide → Bool
s0_rvalid x = if x.r_grant then x.s_rvalid else false

unfoldable pub s1_rvalid : ReadSide → Bool
s1_rvalid x = if not x.r_grant then x.s_rvalid else false

-- The pins of downstream port `i` that the read path drives.
unfoldable pub port_arvalid : ℕ → ReadSide → Bool
port_arvalid i x = elim x.r_state [ r_issue ↦ x.r_sel == i && not x.r_issued_ar | _ ↦ false ]

unfoldable pub port_rready : ℕ → ReadSide → Bool
port_rready i x = elim x.r_state [ r_wait_r ↦ x.r_sel == i | _ ↦ false ]

-- The case R_IDLE.
unfoldable pub r_accept : Pins → ReadSide → ReadSide
r_accept cur x =
    let missed = decode_addr cur.araddr == slave_err in
    if cur.arvalid
    then record x {
      r_addr_lat = cur.araddr;
      r_sel = decode_addr cur.araddr;
      r_issued_ar = false;
      r_state = r_issue;
      last_decerr_raddr = if missed then cur.araddr else x.last_decerr_raddr;
      decerr_irq_r = missed;
    }
    else x

-- The case R_ISSUE, with the ready output of the selected slave.
unfoldable pub r_drive : Outs → ReadSide → ReadSide
r_drive slave x =
    if x.r_sel == slave_err || x.r_sel == slave_xbar_csr
    then record x { r_state = r_resp }
    else record x {
      r_issued_ar = x.r_issued_ar || slave.arready;
      r_state = if x.r_issued_ar || slave.arready then r_wait_r else r_issue;
    }

-- The case R_WAIT_R.
unfoldable pub r_collect : Outs → ReadSide → ReadSide
r_collect slave x =
    if slave.rvalid
    then record x { s_rdata = slave.rdata; s_rresp = slave.rresp; r_state = r_resp }
    else x

-- What the two windows that the crossbar answers itself put on the bus. The first argument is the
-- register `last_decerr_waddr` of the write path.
unfoldable pub r_answer : ℕ → ReadSide → ReadSide
r_answer waddr x =
    if x.r_sel == slave_err && not x.s_rvalid
    then record x { s_rdata = 0; s_rresp = resp_decerr }
    else if x.r_sel == slave_xbar_csr && not x.s_rvalid
    then record x {
      s_rdata = if test_bit x.r_addr_lat 2 then x.last_decerr_raddr else waddr;
      s_rresp = resp_okay;
    }
    else x

-- The case R_RESP, with `cur_rready`.
unfoldable pub r_present : ℕ → Bool → ReadSide → ReadSide
unfolding r_answer
r_present waddr rready x =
    let taken = x.s_rvalid && rready in
    record (r_answer waddr x) { s_rvalid = not taken; r_state = if taken then r_idle else r_resp }

-- `r_grant` and `decerr_irq_r` before the case statement.
unfoldable pub r_before : Pins → Pins → ReadSide → ReadSide
unfolding r_open r_arb_s0
r_before s0 s1 x = record x {
  r_grant = if r_open x then r_arb_s0 s0 s1 else x.r_grant;
  decerr_irq_r = false;
}

unfoldable pub r_edge : ℕ → Around → ReadSide → ReadSide
unfolding r_before r_accept r_cur r_drive r_collect r_present cur_rready
r_edge waddr a x =
    let y = r_before a.s0 a.s1 x in
    let slave = select x.r_sel a.slaves no_slave in
    elim x.r_state [
      | r_idle ↦ r_accept (r_cur a.s0 a.s1 x) y
      | r_issue ↦ r_drive slave y
      | r_wait_r ↦ r_collect slave y
      | r_resp ↦ r_present waddr (cur_rready a.s0 a.s1 x) y
    ]

unfoldable pub r_reset : ReadSide → ReadSide
r_reset x = record x {
  r_state = r_idle;
  s_rvalid = false;
  r_grant = true;
  last_decerr_raddr = 0;
  decerr_irq_r = false;
}
