-- ===== src/Xbar/Write.antt =====
-- The write path of blocks/axi_lite_xbar/rtl/axi_lite_xbar.v.
use riscv_soc.Base.{ℕ, Bool, true, false, not, ◌&&◌, ◌||◌, ◌==◌, if◌then◌else◌}
use riscv_soc.Axi.Pins.{Pins, Outs}
use riscv_soc.Xbar.{Around, select, decode_addr, no_slave, slave_err, slave_xbar_csr}
use riscv_soc.Xbar.{resp_slverr, resp_decerr}

pub data WState : Type 0 where
  w_idle w_issue w_wait_b w_resp : WState

pub record WriteSide : Type 0 where
  pub w_state : WState
  pub w_sel : ℕ
  pub w_addr_lat : ℕ
  pub w_data_lat : ℕ
  pub w_strb_lat : ℕ
  pub w_have_aw : Bool
  pub w_have_w : Bool
  pub w_issued_aw : Bool
  pub w_issued_w : Bool
  pub s_bvalid : Bool
  pub s_bresp : ℕ
  pub w_grant : Bool
  pub last_decerr_waddr : ℕ
  pub decerr_irq_w : Bool

abbrev pub is_idle : WState → Bool
is_idle w_idle = true
is_idle w_issue = false
is_idle w_wait_b = false
is_idle w_resp = false

unfoldable pub w_open : WriteSide → Bool
w_open x = is_idle x.w_state && (not x.w_have_aw && not x.w_have_w)

-- Master 0 wins when it asks for something, and when master 1 does not.
unfoldable pub w_arb_s0 : Pins → Pins → Bool
w_arb_s0 s0 s1 = (s0.awvalid || s0.wvalid) || not (s1.awvalid || s1.wvalid)

unfoldable pub w_grant_eff : Pins → Pins → WriteSide → Bool
unfolding w_open w_arb_s0
w_grant_eff s0 s1 x = if w_open x then w_arb_s0 s0 s1 else x.w_grant

-- The master whose address and data the crossbar looks at.
unfoldable pub w_cur : Pins → Pins → WriteSide → Pins
unfolding w_grant_eff
w_cur s0 s1 x = if w_grant_eff s0 s1 x then s0 else s1

unfoldable pub cur_bready : Pins → Pins → WriteSide → Bool
cur_bready s0 s1 x = if x.w_grant then s0.bready else s1.bready

abbrev pub cur_awready : WriteSide → Bool
cur_awready x = is_idle x.w_state && not x.w_have_aw

abbrev pub cur_wready : WriteSide → Bool
cur_wready x = is_idle x.w_state && not x.w_have_w

-- `s0_awready`, `s1_awready` and so on: `own` is whether the grant is the master's.
unfoldable pub s0_awready : Pins → Pins → WriteSide → Bool
unfolding w_grant_eff
s0_awready s0 s1 x = if w_grant_eff s0 s1 x then cur_awready x else false

unfoldable pub s1_awready : Pins → Pins → WriteSide → Bool
unfolding w_grant_eff
s1_awready s0 s1 x = if w_grant_eff s0 s1 x then false else cur_awready x

unfoldable pub s0_wready : Pins → Pins → WriteSide → Bool
unfolding w_grant_eff
s0_wready s0 s1 x = if w_grant_eff s0 s1 x then cur_wready x else false

unfoldable pub s1_wready : Pins → Pins → WriteSide → Bool
unfolding w_grant_eff
s1_wready s0 s1 x = if w_grant_eff s0 s1 x then false else cur_wready x

unfoldable pub s0_bvalid : WriteSide → Bool
s0_bvalid x = if x.w_grant then x.s_bvalid else false

unfoldable pub s1_bvalid : WriteSide → Bool
s1_bvalid x = if not x.w_grant then x.s_bvalid else false

-- The pins of downstream port `i` that the write path drives.
unfoldable pub port_awvalid : ℕ → WriteSide → Bool
port_awvalid i x = elim x.w_state [ w_issue ↦ x.w_sel == i && not x.w_issued_aw | _ ↦ false ]

unfoldable pub port_wvalid : ℕ → WriteSide → Bool
port_wvalid i x = elim x.w_state [ w_issue ↦ x.w_sel == i && not x.w_issued_w | _ ↦ false ]

unfoldable pub port_bready : ℕ → WriteSide → Bool
port_bready i x = elim x.w_state [ w_wait_b ↦ x.w_sel == i | _ ↦ false ]

-- The case W_IDLE.
unfoldable pub w_accept : Pins → WriteSide → WriteSide
w_accept cur x =
    let aw_fire = cur.awvalid && not x.w_have_aw in
    let w_fire = cur.wvalid && not x.w_have_w in
    let both = (x.w_have_aw || aw_fire) && (x.w_have_w || w_fire) in
    let missed = aw_fire && decode_addr cur.awaddr == slave_err in
    record x {
      w_addr_lat = if aw_fire then cur.awaddr else x.w_addr_lat;
      w_sel = if aw_fire then decode_addr cur.awaddr else x.w_sel;
      last_decerr_waddr = if missed then cur.awaddr else x.last_decerr_waddr;
      decerr_irq_w = missed;
      w_data_lat = if w_fire then cur.wdata else x.w_data_lat;
      w_strb_lat = if w_fire then cur.wstrb else x.w_strb_lat;
      w_have_aw = if both then false else x.w_have_aw || aw_fire;
      w_have_w = if both then false else x.w_have_w || w_fire;
      w_state = if both then w_issue else w_idle;
      w_issued_aw = if both then false else x.w_issued_aw;
      w_issued_w = if both then false else x.w_issued_w;
    }

-- The case W_ISSUE, with the ready outputs of the selected slave.
unfoldable pub w_drive : Outs → WriteSide → WriteSide
w_drive slave x =
    if x.w_sel == slave_err || x.w_sel == slave_xbar_csr
    then record x { w_state = w_resp }
    else record x {
      w_issued_aw = x.w_issued_aw || slave.awready;
      w_issued_w = x.w_issued_w || slave.wready;
      w_state =
          if (x.w_issued_aw || slave.awready) && (x.w_issued_w || slave.wready)
          then w_wait_b
          else w_issue;
    }

-- The case W_WAIT_B.
unfoldable pub w_collect : Outs → WriteSide → WriteSide
w_collect slave x = if slave.bvalid then record x { s_bresp = slave.bresp; w_state = w_resp } else x

-- The case W_RESP, with `cur_bready`.
unfoldable pub w_present : Bool → WriteSide → WriteSide
w_present bready x =
    let taken = x.s_bvalid && bready in
    record x {
      s_bresp =
          if x.w_sel == slave_err && not x.s_bvalid
          then resp_decerr
          else if x.w_sel == slave_xbar_csr && not x.s_bvalid
          then resp_slverr
          else x.s_bresp;
      s_bvalid = not taken;
      w_state = if taken then w_idle else w_resp;
    }

-- `w_grant` and `decerr_irq_w` before the case statement.
unfoldable pub w_before : Pins → Pins → WriteSide → WriteSide
unfolding w_open w_arb_s0
w_before s0 s1 x = record x {
  w_grant = if w_open x then w_arb_s0 s0 s1 else x.w_grant;
  decerr_irq_w = false;
}

unfoldable pub w_edge : Around → WriteSide → WriteSide
unfolding w_before w_accept w_cur w_drive w_collect w_present cur_bready
w_edge a x =
    let y = w_before a.s0 a.s1 x in
    let slave = select x.w_sel a.slaves no_slave in
    elim x.w_state [
      | w_idle ↦ w_accept (w_cur a.s0 a.s1 x) y
      | w_issue ↦ w_drive slave y
      | w_wait_b ↦ w_collect slave y
      | w_resp ↦ w_present (cur_bready a.s0 a.s1 x) y
    ]

unfoldable pub w_reset : WriteSide → WriteSide
w_reset x = record x {
  w_state = w_idle;
  w_have_aw = false;
  w_have_w = false;
  s_bvalid = false;
  w_grant = true;
  last_decerr_waddr = 0;
  decerr_irq_w = false;
}
