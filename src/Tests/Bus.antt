-- ===== src/Tests/Bus.antt =====
-- The bus functional model on a timer and on a slave that never answers.
use riscv_soc.Base.{true, false, ◌≡◌, refl}
use riscv_soc.Axi.Pins.{Pins, Dut, Bench, idle_pins}
use riscv_soc.Axi.Bfm.{write, read}
use riscv_soc.Axi.Bfm.Ready.{write_single, read_single, written_state, read_state}
use riscv_soc.Axi.Bfm.Frame.{Within, write-Within}
use riscv_soc.Timer.Rtl.{Timer, dut, step}
use riscv_soc.Timer.Rtl.Ready.{dut-IsReady}

abbrev running_pins : Pins
running_pins = record idle_pins { resetn = true }

abbrev some_timer : Timer
some_timer = record {
  ctrl_en = true;
  reload_reg = 5;
  count = 3;
  status_expired = false;
  irq_pulse = false;
  s_bvalid = false;
  s_bresp = 0;
  s_rvalid = false;
  s_rdata = 7;
  s_rresp = 0;
}

abbrev timer_bench : Bench Timer
timer_bench = record { pins = running_pins; state = some_timer }

-- A slave with no registers and no answers.
abbrev deaf : Dut (Unit {0})
deaf = record {
  step = λ p s. tt;
  outs = λ p s. record {
    awready = true;
    wready = true;
    bvalid = false;
    bresp = 0;
    arready = true;
    rvalid = false;
    rdata = 0;
    rresp = 0;
  };
}

abbrev deaf_bench : Bench (Unit {0})
deaf_bench = record { pins = running_pins; state = tt }

write_single_example : write dut 200 0x4 9 0xF 7 timer_bench ≡ record {
  bench = record {
    pins = record running_pins { awaddr = 0x4; wdata = 9; wstrb = 0xF };
    state = written_state dut 0x4 9 0xF timer_bench;
  };
  ok = true;
  last_resp = 0;
}
unfolding step
write_single_example = write_single dut dut-IsReady 199 0x4 9 0xF 7 timer_bench refl

read_single_example : read dut 200 0x8 9 7 timer_bench ≡ record {
  bench = record {
    pins = record running_pins { araddr = 0x8 };
    state = read_state dut 0x8 timer_bench;
  };
  ok = true;
  out_data = 3;
  last_resp = 0;
}
unfolding step
read_single_example = read_single dut dut-IsReady 199 0x8 9 7 timer_bench refl

write-Within_example :
    let w = write deaf 200 0x4 9 0xF 7 deaf_bench in Within deaf 200 tt w.bench.state w.ok
write-Within_example = write-Within deaf 200 0x4 9 0xF 7 deaf_bench

deaf_to_write : (p : Pins) (s : Unit {0}) → (deaf.outs p s).bvalid ≡ false
deaf_to_write p s = refl
