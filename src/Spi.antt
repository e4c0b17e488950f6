-- ===== src/Spi.antt =====
-- blocks/spi/dv/spi_testtop.v: blocks/spi/rtl/spi_master.v with tb/common/fake_spi_slave.v.
pub mod Fake
pub mod Transfer
pub mod Main
use riscv_soc.Base.{
  ℕ, ◌+◌, ◌*◌, ◌%◌, Bool, true, false, not, ◌&&◌, ◌==◌, if◌then◌else◌, test_bit, bit,
}
use riscv_soc.Base.{dec32, List, [], ◌∷◌, get_or, Bits, to_bits, to_number}
use riscv_soc.Axi.Pins.{Pins, Outs, Dut}
use riscv_soc.Spi.Fake.{Slave, Wires, slave_edge, shift_up, low_bits}

pub data SpiState : Type 0 where
  idle run : SpiState

-- The registers of the master.
pub record Master : Type 0 where
  pub state : SpiState
  pub cpol_r : Bool
  pub cpha_r : Bool
  pub divider_reg : ℕ
  pub div_cnt : ℕ
  pub edge_cnt : ℕ
  pub tx_shift : Bits
  pub rx_shift : Bits
  pub rxdata_reg : Bits
  pub txdata_reg : Bits
  pub busy : Bool
  pub done : Bool
  pub irq_pulse : Bool
  pub sclk : Bool
  pub mosi : Bool
  pub cs_n : Bool
  pub s_bvalid : Bool
  pub s_bresp : ℕ
  pub s_rvalid : Bool
  pub s_rdata : ℕ
  pub s_rresp : ℕ

-- Master and slave, and the inputs of the slave that the test bench drives.
pub record Spi : Type 0 where
  pub master : Master
  pub slave : Slave
  pub slave_cpol : Bool
  pub slave_cpha : Bool
  pub slave_preload : ℕ

abbrev pub do_write : Pins → Bool
do_write p = p.awvalid && p.wvalid

-- `addr[4:0]`.
abbrev pub offset : ℕ → ℕ
offset addr = addr % 32

abbrev pub write_to : Pins → ℕ → Bool
write_to p reg = do_write p && offset p.awaddr == reg

abbrev pub do_start : Pins → Master → Bool
do_start p s = write_to p 0x00 && (test_bit p.wdata 0 && not s.busy)

abbrev pub is_leading_edge : Master → Bool
is_leading_edge s = s.edge_cnt % 2 == 0

abbrev pub is_sample_edge : Master → Bool
is_sample_edge s = if s.cpha_r then not (is_leading_edge s) else is_leading_edge s

abbrev pub is_shift_edge : Master → Bool
is_shift_edge s =
    if s.cpha_r then is_leading_edge s && not (s.edge_cnt == 0) else not (is_leading_edge s)

-- One edge of SCLK.
sclk_edge : Bool → Master → Master
sclk_edge miso s = record s {
  div_cnt = 0;
  sclk = not s.sclk;
  rx_shift = if is_sample_edge s then shift_up 8 miso s.rx_shift else s.rx_shift;
  tx_shift = if is_shift_edge s then shift_up 7 false s.tx_shift else s.tx_shift;
  mosi = if is_shift_edge s then get_or s.tx_shift 6 false else s.mosi;
  edge_cnt = (s.edge_cnt + 1) % 32;
}

-- The `case (state)`, after the writes to DIVIDER and STATUS above it.
transfer_step : Pins → Bool → SpiState → Master → Master
unfolding sclk_edge
transfer_step p miso idle s =
    if do_start p s
    then record s {
      cpol_r = test_bit p.wdata 1;
      cpha_r = test_bit p.wdata 2;
      tx_shift = low_bits 7 s.txdata_reg;
      mosi = get_or s.txdata_reg 7 false;
      cs_n = false;
      sclk = test_bit p.wdata 1;
      edge_cnt = 0;
      div_cnt = 0;
      busy = true;
      done = false;
      state = run;
    }
    else record s { cs_n = true }
transfer_step p miso run s =
    if s.div_cnt == dec32 s.divider_reg
    then (if s.edge_cnt == 16
        then record s {
          div_cnt = 0;
          cs_n = true;
          busy = false;
          done = true;
          irq_pulse = true;
          rxdata_reg = s.rx_shift;
          state = idle;
        }
        else sclk_edge miso s)
    else record s { div_cnt = (s.div_cnt + 1) % 0x1_0000_0000 }

read_reg : ℕ → Master → ℕ
read_reg offs s =
    if offs == 0x00
    then 2 * bit s.cpol_r + 4 * bit s.cpha_r
    else if offs == 0x04
    then s.divider_reg
    else if offs == 0x08
    then to_number s.txdata_reg
    else if offs == 0x0C
    then to_number s.rxdata_reg
    else if offs == 0x10
    then 2 * bit s.done + bit s.busy
    else 0

-- The writes to DIVIDER, which keeps 0 out, and to STATUS, and the default of `irq_pulse`.
before_case : Pins → Master → Master
before_case p s = record s {
  irq_pulse = false;
  divider_reg = if write_to p 0x04 then (if p.wdata == 0 then 1 else p.wdata) else s.divider_reg;
  done = if write_to p 0x10 && test_bit p.wdata 1 then false else s.done;
}

-- Out of reset. The case and the read port see `s`, the registers before the edge; of the registers
-- that `before_case` sets, the case sets `done` and `irq_pulse` again and reads `divider_reg`.
edge : Pins → Bool → Master → Master
unfolding transfer_step before_case read_reg
edge p miso s =
    let t =
      transfer_step p miso s.state (record (before_case p s) { divider_reg = s.divider_reg }) in
    record t {
      divider_reg = (before_case p s).divider_reg;
      txdata_reg = if write_to p 0x08 then to_bits 8 p.wdata else s.txdata_reg;
      s_bvalid = do_write p;
      s_bresp = if do_write p then 0 else s.s_bresp;
      s_rvalid = p.arvalid;
      s_rdata = if p.arvalid then read_reg (offset p.araddr) s else s.s_rdata;
      s_rresp = if p.arvalid then 0 else s.s_rresp;
    }

abbrev reset : Master → Master
reset s = record s {
  state = idle;
  sclk = false;
  cs_n = true;
  busy = false;
  done = false;
  irq_pulse = false;
  divider_reg = 2;
  txdata_reg = to_bits 8 0;
}

abbrev pub wires : Spi → Wires
wires s = record {
  sclk = s.master.sclk;
  mosi = s.master.mosi;
  cs_n = s.master.cs_n;
  cpol = s.slave_cpol;
  cpha = s.slave_cpha;
  preload = s.slave_preload;
}

unfoldable pub step : Pins → Spi → Spi
unfolding edge slave_edge
step p s = record s {
  master = if p.resetn then edge p s.slave.miso s.master else reset s.master;
  slave = slave_edge (wires s) s.slave;
}

abbrev pub outs : Pins → Spi → Outs
outs p s = record {
  awready = true;
  wready = true;
  bvalid = s.master.s_bvalid;
  bresp = s.master.s_bresp;
  arready = true;
  rvalid = s.master.s_rvalid;
  rdata = s.master.s_rdata;
  rresp = s.master.s_rresp;
}

abbrev pub dut : Dut Spi
dut = record { step = step; outs = outs }
