-- ===== src/Tests/Serial.antt =====
-- The serial port at concrete inputs.
use riscv_soc.Base.{true, false, ◌≡◌, refl, [], ◌∷◌, arith}
use riscv_soc.Axi.Pins.{Bench, idle_pins}
use riscv_soc.Uart.{Uart, TxState}
use riscv_soc.Uart.Capture.Frame.{IsQuiet, receive, receive_all}

abbrev some_uart : Uart
some_uart = record {
  tx_state = TxState.tx_idle;
  bit_idx = 5;
  tx_shift = 77;
  clk_cnt = 2;
  do_start_tx = false;
  start_byte = 9;
  tx = true;
  s_bvalid = false;
  s_bresp = 0;
  s_rvalid = false;
  s_rdata = 0;
  s_rresp = 0;
}

abbrev bench : Bench Uart
bench = record { pins = record idle_pins { resetn = true }; state = some_uart }

bench-IsQuiet : IsQuiet bench
bench-IsQuiet = record {
  pins_idle = record {
    out_of_reset = refl;
    awvalid_low = refl;
    wvalid_low = refl;
    arvalid_low = refl;
  };
  not_sending = refl;
  not_starting = refl;
  line_high = refl;
}

receive_all_example : receive (0x48 ∷ 0x69 ∷ []) 7 bench ≡ 0x48 ∷ 0x69 ∷ []
receive_all_example =
    receive_all (0x48 ∷ 0x69 ∷ []) 7 bench bench-IsQuiet (omega arith, (omega arith, tt))
