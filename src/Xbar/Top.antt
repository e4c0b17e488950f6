-- ===== src/Xbar/Top.antt =====
-- blocks/axi_lite_xbar/rtl/axi_lite_xbar.v as a whole, with the nine slaves that
-- blocks/axi_lite_xbar/dv/xbar_testtop.v puts behind it.
use riscv_soc.Base.{ℕ, Bool, ◌||◌, if◌then◌else◌}
use riscv_soc.Axi.Pins.{Pins, Outs, Dut}
use riscv_soc.Xbar.{Ports, Around}
use riscv_soc.Xbar.Write.{WriteSide, w_edge, w_reset, port_awvalid, port_wvalid, port_bready}
use riscv_soc.Xbar.Write.{s0_awready, s1_awready, s0_wready, s1_wready, s0_bvalid, s1_bvalid}
use riscv_soc.Xbar.Read.{ReadSide, r_edge, r_reset, port_arvalid, port_rready}
use riscv_soc.Xbar.Read.{s0_arready, s1_arready, s0_rvalid, s1_rvalid}

pub record Xbar : Type 0 where
  pub write : WriteSide
  pub read : ReadSide

unfoldable pub decerr_irq : Xbar → Bool
decerr_irq x = x.write.decerr_irq_w || x.read.decerr_irq_r

-- The pins of downstream port `i`.
unfoldable pub port_pins : Bool → Xbar → ℕ → Pins
unfolding port_awvalid port_wvalid port_bready port_arvalid port_rready
port_pins resetn x i = record {
  resetn = resetn;
  awvalid = port_awvalid i x.write;
  awaddr = x.write.w_addr_lat;
  wvalid = port_wvalid i x.write;
  wdata = x.write.w_data_lat;
  wstrb = x.write.w_strb_lat;
  bready = port_bready i x.write;
  arvalid = port_arvalid i x.read;
  araddr = x.read.r_addr_lat;
  rready = port_rready i x.read;
}

unfoldable pub s0_outs : Pins → Pins → Xbar → Outs
unfolding s0_awready s0_wready s0_bvalid s0_arready s0_rvalid
s0_outs s0 s1 x = record {
  awready = s0_awready s0 s1 x.write;
  wready = s0_wready s0 s1 x.write;
  bvalid = s0_bvalid x.write;
  bresp = x.write.s_bresp;
  arready = s0_arready s0 s1 x.read;
  rvalid = s0_rvalid x.read;
  rdata = x.read.s_rdata;
  rresp = x.read.s_rresp;
}

unfoldable pub s1_outs : Pins → Pins → Xbar → Outs
unfolding s1_awready s1_wready s1_bvalid s1_arready s1_rvalid
s1_outs s0 s1 x = record {
  awready = s1_awready s0 s1 x.write;
  wready = s1_wready s0 s1 x.write;
  bvalid = s1_bvalid x.write;
  bresp = x.write.s_bresp;
  arready = s1_arready s0 s1 x.read;
  rvalid = s1_rvalid x.read;
  rdata = x.read.s_rdata;
  rresp = x.read.s_rresp;
}

unfoldable pub xbar_step : Bool → Around → Xbar → Xbar
unfolding w_edge w_reset r_edge r_reset
xbar_step resetn a x =
    if resetn
    then record { write = w_edge a x.write; read = r_edge x.write.last_decerr_waddr a x.read }
    else record { write = w_reset x.write; read = r_reset x.read }

-- A crossbar with its slaves.
pub record Top (S : Type 0) : Type 0 where
  pub xbar : Xbar
  pub slaves : Ports S

-- What a slave does depends on its port number and on the state behind the port.
unfoldable pub for_ports {ℓ κ} : {A : Type ℓ} {B : Type κ} → (ℕ → A → B) → Ports A → Ports B
for_ports f p = record {
  rom = f 0 p.rom;
  ram = f 1 p.ram;
  timer = f 2 p.timer;
  wdt = f 3 p.wdt;
  uart = f 4 p.uart;
  i2c = f 5 p.i2c;
  spi = f 6 p.spi;
  aes = f 7 p.aes;
  dma = f 8 p.dma;
}

module _ {S : Type 0} (slave : Dut S) where
  unfoldable pub around : Bool → Pins → Pins → Top S → Around
  unfolding for_ports port_pins
  around resetn s0 s1 t = record {
    s0 = s0;
    s1 = s1;
    slaves = for_ports (λ i. slave.outs (port_pins resetn t.xbar i)) t.slaves;
  }

  -- One rising edge of the clock.
  unfoldable pub top_step : Bool → Pins → Pins → Top S → Top S
  unfolding around xbar_step for_ports port_pins
  top_step resetn s0 s1 t = record {
    xbar = xbar_step resetn (around resetn s0 s1 t) t.xbar;
    slaves = for_ports (λ i. slave.step (port_pins resetn t.xbar i)) t.slaves;
  }
