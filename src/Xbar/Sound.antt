-- ===== src/Xbar/Sound.antt =====
-- What holds of the write path of blocks/axi_lite_xbar/rtl/axi_lite_xbar.v in every reachable state.
use riscv_soc.Base.{ℕ, Bool, true, false, ◌&&◌, ◌||◌, ◌≡◌, ◌≢◌, arith}
use riscv_soc.Axi.Pins.{Pins, Outs}
use riscv_soc.Xbar.{Around, select, decode_addr, no_slave, slave_err, slave_xbar_csr}
use riscv_soc.Xbar.Write.{
  WState, w_idle, w_issue, w_wait_b, w_resp, WriteSide, w_edge, w_reset, w_before, w_accept, w_cur,
  w_drive, w_collect, w_present, cur_bready, port_awvalid, port_wvalid, port_bready,
}

-- What each state of the state machine promises.
abbrev pub Promise : WState → WriteSide → Type 0
Promise w_idle x =
    (x.s_bvalid ≡ false)
    × ((x.w_have_aw && x.w_have_w) ≡ false)
    × (x.w_have_aw ≡ true → x.w_sel ≡ decode_addr x.w_addr_lat)
Promise w_issue x =
    ((x.w_have_aw || x.w_have_w) ≡ false)
    × (x.s_bvalid ≡ false)
    × ((x.w_issued_aw && x.w_issued_w) ≡ false)
    × (x.w_sel ≡ decode_addr x.w_addr_lat)
Promise w_wait_b x =
    ((x.w_have_aw || x.w_have_w) ≡ false)
    × (x.s_bvalid ≡ false)
    × (x.w_sel ≢ slave_err)
    × (x.w_sel ≢ slave_xbar_csr)
    × (x.w_sel ≡ decode_addr x.w_addr_lat)
Promise w_resp x = ((x.w_have_aw || x.w_have_w) ≡ false) × (x.w_sel ≡ decode_addr x.w_addr_lat)

abbrev pub IsSound : WriteSide → Type 0
IsSound x = Promise x.w_state x

w_accept-IsSound : (cur : Pins) (x : WriteSide) → Promise w_idle x → IsSound (w_accept cur x)
unfolding w_accept
w_accept-IsSound cur x h = ground arith

w_drive-IsSound :
    (slave : Outs) (x : WriteSide)
    → x.w_state ≡ w_issue
    → Promise w_issue x
    → IsSound (w_drive slave x)
unfolding w_drive
w_drive-IsSound slave x e h = ground arith

w_collect-IsSound :
    (slave : Outs) (x : WriteSide)
    → x.w_state ≡ w_wait_b
    → Promise w_wait_b x
    → IsSound (w_collect slave x)
unfolding w_collect
w_collect-IsSound slave x e h = ground arith

w_present-IsSound :
    (bready : Bool) (x : WriteSide) → Promise w_resp x → IsSound (w_present bready x)
unfolding w_present
w_present-IsSound bready x h = ground arith

-- Every edge keeps the promises, whatever the masters and the slaves do.
pub w_edge-IsSound : (a : Around) (x : WriteSide) → IsSound x → IsSound (w_edge a x)
unfolding w_edge w_before
w_edge-IsSound a x h =
    let y = w_before a.s0 a.s1 x in
    let slave = select x.w_sel a.slaves no_slave in
    ground (
      arith,
      w_accept-IsSound (w_cur a.s0 a.s1 x) y,
      w_drive-IsSound slave y,
      w_collect-IsSound slave y,
      w_present-IsSound (cur_bready a.s0 a.s1 x) y,
    )

-- The states that the write path reaches: an edge with `resetn` low from any state, then any edges.
pub data Reached : WriteSide → Type 0 where
  reset : (x : WriteSide) → Reached (w_reset x)
  edge : {x : WriteSide} (a : Around) → Reached x → Reached (w_edge a x)

pub Reached-IsSound : {x : WriteSide} → Reached x → IsSound x
unfolding w_reset
Reached-IsSound (reset x) = ground arith
Reached-IsSound (edge a r) = w_edge-IsSound a _ (Reached-IsSound r)

-- In every state that the write path reaches, whatever the masters and the slaves have done since
-- reset, a slave sees AWVALID, WVALID or BREADY only when the latched address decodes to its number.
pub port_sees_own :
    {x : WriteSide} (i : ℕ)
    → Reached x
    → (port_awvalid i x || port_wvalid i x || port_bready i x) ≡ true
    → decode_addr x.w_addr_lat ≡ i
unfolding port_awvalid port_wvalid port_bready
port_sees_own i r h = let s = Reached-IsSound r in ground arith
