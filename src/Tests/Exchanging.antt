-- ===== src/Tests/Exchanging.antt =====
-- The SPI transfer at concrete inputs.
use riscv_soc.Base.{true, false, refl, to_bits}
use riscv_soc.Axi.Pins.{idle_pins}
use riscv_soc.Harness.{Sim}
use riscv_soc.Spi.{Spi, idle}
use riscv_soc.Spi.Transfer.{run_transfer}
use riscv_soc.Spi.Transfer.Exchange.{Exchanged, run_transfer-Exchanged}

abbrev some_spi : Spi
some_spi = record {
  master = record {
    state = idle;
    cpol_r = true;
    cpha_r = true;
    divider_reg = 4;
    div_cnt = 9;
    edge_cnt = 3;
    tx_shift = to_bits 7 0x55;
    rx_shift = to_bits 8 0xAA;
    rxdata_reg = to_bits 8 0;
    txdata_reg = to_bits 8 0;
    busy = false;
    done = true;
    irq_pulse = false;
    sclk = false;
    mosi = true;
    cs_n = true;
    s_bvalid = false;
    s_bresp = 0;
    s_rvalid = false;
    s_rdata = 0;
    s_rresp = 0;
  };
  slave = record {
    miso = false;
    received = to_bits 8 0xFF;
    xfer_done = false;
    tx_shift = to_bits 8 0;
    edge_cnt = 5;
    sclk_prev = true;
    cs_n_prev = true;
  };
  slave_cpol = false;
  slave_cpha = false;
  slave_preload = 0;
}

abbrev some_sim : Sim Spi (Unit {0})
some_sim = record {
  bench = record { pins = record idle_pins { resetn = true }; state = some_spi };
  model = tt;
  rd = 7;
  resp = 7;
  fail_count = 0;
}

run_transfer-Exchanged_example :
    Exchanged 0x5A 0xC3 (run_transfer 2000 false true 0x5A 0xC3 some_sim)
run_transfer-Exchanged_example = run_transfer-Exchanged false true 0x5A 0xC3 some_sim (record {
  pins_idle = record {
    out_of_reset = refl;
    awvalid_low = refl;
    wvalid_low = refl;
    arvalid_low = refl;
  };
  divides = refl;
  not_running = refl;
  not_busy = refl;
  deselected = refl;
  was_deselected = refl;
})
