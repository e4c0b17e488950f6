-- ===== src/Uart.antt =====
-- blocks/uart/rtl/uart.v (transmit only), and blocks/uart/dv/sim_main.cpp: its decoder of the serial
-- line (`Capture`) and its `main` (`Main`).
pub mod Capture
pub mod Main
use riscv_soc.Base.{
  ℕ, ◌+◌, ◌-◌, ◌%◌, Bool, true, false, not, ◌&&◌, ◌==◌, if◌then◌else◌, bit, test_bit,
}
use riscv_soc.Axi.Pins.{Pins, Outs, Dut}

pub data TxState : Type 0 where
  tx_idle tx_start tx_data tx_stop : TxState

pub record Uart : Type 0 where
  pub tx_state : TxState
  pub bit_idx : ℕ
  pub tx_shift : ℕ
  pub clk_cnt : ℕ
  pub do_start_tx : Bool
  pub start_byte : ℕ
  pub tx : Bool
  pub s_bvalid : Bool
  pub s_bresp : ℕ
  pub s_rvalid : Bool
  pub s_rdata : ℕ
  pub s_rresp : ℕ

-- The parameter `CLKS_PER_BIT` at its default.
abbrev pub clks_per_bit : ℕ
clks_per_bit = 4

abbrev pub resp_okay : ℕ
resp_okay = 0

abbrev pub is_idle : TxState → Bool
is_idle tx_idle = true
is_idle _ = false

abbrev pub tx_busy : Uart → Bool
tx_busy s = not (is_idle s.tx_state)

abbrev pub do_write : Pins → Bool
do_write p = p.awvalid && p.wvalid

-- `s_awaddr[3:0]` and `s_araddr[3:0]`.
abbrev pub offset : ℕ → ℕ
offset addr = addr % 16

-- The last clock of a bit period.
abbrev pub bit_ends : Uart → Bool
bit_ends s = s.clk_cnt == clks_per_bit - 1

-- The first `always` block: the transmitter.
transmit : TxState → Uart → Uart
transmit tx_idle s =
    if s.do_start_tx
    then record s { tx = true; tx_shift = s.start_byte; tx_state = tx_start; clk_cnt = 0 }
    else record s { tx = true }
transmit tx_start s =
    if bit_ends s
    then record s { tx = false; clk_cnt = 0; bit_idx = 0; tx_state = tx_data }
    else record s { tx = false; clk_cnt = (s.clk_cnt + 1) % 256 }
transmit tx_data s =
    let level = test_bit s.tx_shift s.bit_idx in
    if bit_ends s
    then (if s.bit_idx == 7
        then record s { tx = level; clk_cnt = 0; tx_state = tx_stop }
        else record s { tx = level; clk_cnt = 0; bit_idx = (s.bit_idx + 1) % 8 })
    else record s { tx = level; clk_cnt = (s.clk_cnt + 1) % 256 }
transmit tx_stop s =
    if bit_ends s
    then record s { tx = true; clk_cnt = 0; tx_state = tx_idle }
    else record s { tx = true; clk_cnt = (s.clk_cnt + 1) % 256 }

-- The write to TXDATA that starts a frame.
abbrev pub accepts : Pins → Uart → Bool
accepts p s = do_write p && (offset p.awaddr == 0x0 && not (tx_busy s))

-- Both `always` blocks out of reset; all right sides are the values before the edge.
unfoldable pub edge : Pins → Uart → Uart
unfolding transmit
edge p s = record (transmit s.tx_state s) {
  do_start_tx = accepts p s;
  start_byte = if accepts p s then p.wdata % 256 else s.start_byte;
  s_bvalid = do_write p;
  s_bresp = if do_write p then resp_okay else s.s_bresp;
  s_rvalid = p.arvalid;
  s_rdata =
      if p.arvalid then (if offset p.araddr == 0x4 then bit (tx_busy s) else 0) else s.s_rdata;
  s_rresp = if p.arvalid then resp_okay else s.s_rresp;
}

abbrev pub reset : Uart → Uart
reset s = record s {
  tx_state = tx_idle;
  tx = true;
  clk_cnt = 0;
  bit_idx = 0;
  s_bvalid = false;
  s_rvalid = false;
  do_start_tx = false;
}

unfoldable pub step : Pins → Uart → Uart
unfolding edge
step p s = if p.resetn then edge p s else reset s

abbrev pub outs : Pins → Uart → Outs
outs p s = record {
  awready = true;
  wready = true;
  bvalid = s.s_bvalid;
  bresp = s.s_bresp;
  arready = true;
  rvalid = s.s_rvalid;
  rdata = s.s_rdata;
  rresp = s.s_rresp;
}

abbrev pub dut : Dut Uart
dut = record { step = step; outs = outs }
