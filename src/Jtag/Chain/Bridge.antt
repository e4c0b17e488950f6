-- ===== src/Jtag/Chain/Bridge.antt =====
-- blocks/jtag/rtl/jtag_axi_bridge.v: the bus master on the clock `clk`, with a toggle synchroniser
-- in each direction.
use riscv_soc.Base.{Bool, true, false, not, ◌&&◌, ◌||◌, ◌==◌, same, if◌then◌else◌}
use riscv_soc.Base.{Bits}
use riscv_soc.Jtag.Chain.Slave.{SlaveIn, Slave, s_resp, s_ready}

-- The three bits of `state`; the codes 5 to 7 are not used.
pub data BridgeState : Type 0 where
  idle wr_go wr_b rd_go rd_r unused : BridgeState

-- The registers that move on `clk`.
pub record ClkSide : Type 0 where
  pub start_toggle_sync1 : Bool
  pub start_toggle_sync2 : Bool
  pub start_toggle_sync2_d : Bool
  pub state : BridgeState
  pub addr_reg : Bits
  pub wdata_reg : Bits
  pub rdata_reg : Bits
  pub aw_done : Bool
  pub w_done : Bool
  pub resp_ok : Bool
  pub done_toggle_clk : Bool

-- The registers that move on `tck`.
pub record TckSide : Type 0 where
  pub start_toggle_tck : Bool
  pub done_toggle_sync1 : Bool
  pub done_toggle_sync2 : Bool
  pub resp_ok_sync1 : Bool
  pub resp_ok_sync2 : Bool
  pub rdata_sync1 : Bits
  pub rdata_sync2 : Bits

-- What the `tck` domain hands over.
pub record Request : Type 0 where
  pub start_toggle_tck : Bool
  pub rw_tck : Bool
  pub addr_tck : Bits
  pub wdata_tck : Bits

abbrev pub busy_tck : TckSide → Bool
busy_tck t = not (same t.start_toggle_tck t.done_toggle_sync2)

abbrev pub start_pulse_clk : ClkSide → Bool
start_pulse_clk c = not (same c.start_toggle_sync2 c.start_toggle_sync2_d)

abbrev is_wr_go : BridgeState → Bool
is_wr_go wr_go = true
is_wr_go _ = false

abbrev is_rd_go : BridgeState → Bool
is_rd_go rd_go = true
is_rd_go _ = false

-- The master port as the slave sees it.
abbrev pub master : ClkSide → SlaveIn
master c = record {
  s_awvalid = is_wr_go c.state && not c.aw_done;
  s_awaddr = c.addr_reg;
  s_wvalid = is_wr_go c.state && not c.w_done;
  s_wdata = c.wdata_reg;
  s_arvalid = is_rd_go c.state;
  s_araddr = c.addr_reg;
}

-- The `case (state)` of the master.
master_step : Request → Slave → BridgeState → ClkSide → ClkSide
master_step q s idle c =
    if start_pulse_clk c
    then record c {
      addr_reg = q.addr_tck;
      wdata_reg = q.wdata_tck;
      aw_done = false;
      w_done = false;
      state = if q.rw_tck then rd_go else wr_go;
    }
    else c
master_step q s wr_go c = record c {
  aw_done = if not c.aw_done && s_ready then true else c.aw_done;
  w_done = if not c.w_done && s_ready then true else c.w_done;
  state = if (c.aw_done || s_ready) && (c.w_done || s_ready) then wr_b else wr_go;
}
master_step q s wr_b c =
    if s.s_bvalid
    then record c { resp_ok = s_resp == 0; done_toggle_clk = not c.done_toggle_clk; state = idle }
    else c
master_step q s rd_go c = if (master c).s_arvalid && s_ready then record c { state = rd_r } else c
master_step q s rd_r c =
    if s.s_rvalid
    then record c {
      rdata_reg = s.s_rdata;
      resp_ok = s_resp == 0;
      done_toggle_clk = not c.done_toggle_clk;
      state = idle;
    }
    else c
master_step q s unused c = record c { state = idle }

-- A rising edge of `clk`.
unfoldable pub bridge_clk_edge : Bool → Request → Slave → ClkSide → ClkSide
unfolding master_step
bridge_clk_edge resetn q s c =
    if resetn
    then record (master_step q s c.state c) {
      start_toggle_sync1 = q.start_toggle_tck;
      start_toggle_sync2 = c.start_toggle_sync1;
      start_toggle_sync2_d = c.start_toggle_sync2;
    }
    else record c {
      start_toggle_sync1 = false;
      start_toggle_sync2 = false;
      start_toggle_sync2_d = false;
      state = idle;
      done_toggle_clk = false;
    }

-- A rising edge of `tck`.
unfoldable pub bridge_tck_edge : Bool → Bool → ClkSide → TckSide → TckSide
bridge_tck_edge tck_resetn start_pulse_tck c t =
    if tck_resetn
    then record {
      start_toggle_tck = if start_pulse_tck then not t.start_toggle_tck else t.start_toggle_tck;
      done_toggle_sync1 = c.done_toggle_clk;
      done_toggle_sync2 = t.done_toggle_sync1;
      resp_ok_sync1 = c.resp_ok;
      resp_ok_sync2 = t.resp_ok_sync1;
      rdata_sync1 = c.rdata_reg;
      rdata_sync2 = t.rdata_sync1;
    }
    else record t {
      start_toggle_tck = false;
      done_toggle_sync1 = false;
      done_toggle_sync2 = false;
      resp_ok_sync1 = false;
      resp_ok_sync2 = false;
    }
