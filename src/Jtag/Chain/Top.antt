-- ===== src/Jtag/Chain/Top.antt =====
-- blocks/jtag/dv/jtag_chain_testtop.v: controller, transport module, bridge and slave.
use riscv_soc.Base.{Bool, not, ◌&&◌, if◌then◌else◌}
use riscv_soc.Jtag.Chain.Dtm.{Dtm, DtmIn, dtm_edge}
use riscv_soc.Jtag.Chain.Slave.{Slave, slave_edge}
use riscv_soc.Jtag.Chain.Bridge.{ClkSide, TckSide, Request, busy_tck, master}
use riscv_soc.Jtag.Chain.Bridge.{bridge_clk_edge, bridge_tck_edge}

-- The pins and the parts.
pub record Chain : Type 0 where
  pub clk : Bool
  pub resetn : Bool
  pub tck : Bool
  pub tck_resetn : Bool
  pub tms : Bool
  pub tdi : Bool
  pub dtm : Dtm
  pub tck_side : TckSide
  pub clk_side : ClkSide
  pub slave : Slave

abbrev pub dtm_in : Chain → DtmIn
dtm_in c = record {
  resetn = c.tck_resetn;
  tms = c.tms;
  tdi = c.tdi;
  bridge_busy_tck = busy_tck c.tck_side;
  bridge_resp_ok_tck = c.tck_side.resp_ok_sync2;
  bridge_rdata_tck = c.tck_side.rdata_sync2;
}

abbrev pub request : Chain → Request
request c = record {
  start_toggle_tck = c.tck_side.start_toggle_tck;
  rw_tck = c.dtm.rw_tck;
  addr_tck = c.dtm.addr_reg;
  wdata_tck = c.dtm.data_reg;
}

unfoldable pub tck_edge : Chain → Chain
unfolding dtm_edge bridge_tck_edge
tck_edge c = record c {
  dtm = dtm_edge (dtm_in c) c.dtm;
  tck_side = bridge_tck_edge c.tck_resetn c.dtm.start_pulse_tck c.clk_side c.tck_side;
}

unfoldable pub clk_edge : Chain → Chain
unfolding bridge_clk_edge slave_edge
clk_edge c = record c {
  clk_side = bridge_clk_edge c.resetn (request c) c.slave c.clk_side;
  slave = slave_edge c.resetn (master c.clk_side) c.slave;
}

-- `dut->tck = level; dut->eval();`.
unfoldable pub set_tck : Bool → Chain → Chain
unfolding tck_edge
set_tck level c = let d = record c { tck = level } in if level && not c.tck then tck_edge d else d

-- `dut->clk = !dut->clk; dut->eval();`.
unfoldable pub clk_step : Chain → Chain
unfolding clk_edge
clk_step c = let d = record c { clk = not c.clk } in if c.clk then d else clk_edge d
