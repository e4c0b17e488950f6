-- ===== src/Tests/Crossing.antt =====
-- The crossbar at concrete inputs.
use riscv_soc.Base.{ℕ, Bool, true, false, [], ◌∷◌, ◌≡◌, refl, arith}
use riscv_soc.Axi.Pins.{Pins, Outs, idle_pins}
use riscv_soc.Xbar.{Ports, Around, decode_addr, select, no_slave, resp_decerr}
use riscv_soc.Xbar.Write.{
  WriteSide, WState, w_idle, w_wait_b, w_edge, w_accept, w_before, w_cur, w_reset, w_open, w_arb_s0,
  s1_awready, s1_wready, s0_bvalid, s1_bvalid, port_awvalid, port_wvalid, port_bready,
}
use riscv_soc.Xbar.Read.{ReadSide, r_idle, r_edge, s0_rvalid, s1_rvalid, r_open}
use riscv_soc.Xbar.Fake.{Fake}
use riscv_soc.Xbar.Top.{Top}
use riscv_soc.Xbar.Main.{main}
use riscv_soc.Xbar.Main.Passes.{xbar_main_passes}
use riscv_soc.Xbar.MemoryMap.{decode-window, decode-alias}
use riscv_soc.Xbar.Sound.{reset, edge, port_sees_own}
use riscv_soc.Xbar.Granted.{grant_locked, begun, offered}
use riscv_soc.Xbar.Answer.{write_answered, write_refused, exchange, w_run, slave_of}
use riscv_soc.Xbar.Window.{read_self_answered}

abbrev write_side : WState → WriteSide
write_side st = record {
  w_state = st;
  w_sel = 1;
  w_addr_lat = 0x1000_0000;
  w_data_lat = 0;
  w_strb_lat = 0xF;
  w_have_aw = false;
  w_have_w = false;
  w_issued_aw = false;
  w_issued_w = false;
  s_bvalid = false;
  s_bresp = 0;
  w_grant = false;
  last_decerr_waddr = 0;
  decerr_irq_w = false;
}

abbrev read_side : ReadSide
read_side = record {
  r_state = r_idle;
  r_sel = 0;
  r_addr_lat = 0;
  r_issued_ar = false;
  s_rvalid = false;
  s_rdata = 0;
  s_rresp = 0;
  r_grant = true;
  last_decerr_raddr = 0x9000_0000;
  decerr_irq_r = false;
}

abbrev asking : ℕ → Pins
asking addr = record idle_pins {
  awvalid = true;
  awaddr = addr;
  wvalid = true;
  wdata = 5;
  arvalid = true;
  araddr = addr;
}

abbrev slave : Bool → Bool → Outs
slave ready answers = record no_slave {
  awready = ready;
  wready = ready;
  bvalid = answers;
  bresp = 2;
}

abbrev nine {ℓ} : {A : Type ℓ} → A → Ports A
nine x = record {
  rom = x;
  ram = x;
  timer = x;
  wdt = x;
  uart = x;
  i2c = x;
  spi = x;
  aes = x;
  dma = x;
}

-- Master 0 asks for `addr`, and master 1 for a word of the ROM.
abbrev contended : ℕ → Bool → Bool → Around
contended addr ready answers = record {
  s0 = asking addr;
  s1 = asking 0;
  slaves = nine (slave ready answers);
}

abbrev timer_edge : Bool → Bool → Around
timer_edge ready answers = contended 0x4000_0004 ready answers

-- A timer that is slow twice.
write_answered_example :
    let y =
      w_run
        (exchange
          (timer_edge false false)
          (timer_edge false false ∷ [])
          (timer_edge true false)
          (timer_edge false false ∷ [])
          (timer_edge false true)
          (timer_edge false false))
        (write_side w_idle) in
    (s0_bvalid y ≡ true)
    × (s1_bvalid y ≡ false)
    × (y.s_bresp ≡ (slave_of 2 (timer_edge false true)).bresp)
unfolding w_open decode_addr select
write_answered_example =
    write_answered 2 (timer_edge false false) (timer_edge false false ∷ []) (timer_edge true false)
      (timer_edge false false ∷ []) (timer_edge false true) (timer_edge false false)
      (write_side w_idle) refl refl (refl, refl) refl (λ e. omega arith, λ e. omega arith)
      ((refl, refl), tt) (refl, refl) (refl, tt) refl

abbrev missing : Around
missing = contended 0x5000_0000 true true

write_refused_example :
    let x1 = w_edge missing (write_side w_idle) in
    let x2 = w_edge missing x1 in
    let x3 = w_edge missing x2 in
    (s0_bvalid x3 ≡ true)
    × (x3.s_bresp ≡ resp_decerr)
    × (x1.decerr_irq_w ≡ true)
    × (x2.decerr_irq_w ≡ false)
    × (x3.decerr_irq_w ≡ false)
    × (x3.last_decerr_waddr ≡ 0x5000_0000)
unfolding w_open decode_addr
write_refused_example =
    write_refused missing missing missing (write_side w_idle) refl refl (refl, refl) refl

abbrev csr_read : Around
csr_read = contended 0x4000_7004 true true

read_self_answered_example :
    let y = r_edge 0 csr_read (r_edge 0 csr_read (r_edge 0 csr_read read_side)) in
    (s0_rvalid y ≡ true)
    × (s1_rvalid y ≡ false)
    × (y.s_rdata ≡ 0x9000_0000)
    × (y.s_rresp ≡ 0)
    × (y.last_decerr_raddr ≡ 0x9000_0000)
unfolding r_open decode_addr
read_self_answered_example =
    read_self_answered 0 0 0 csr_read csr_read csr_read read_side refl refl refl refl

-- The edge after reset at which master 0 asks for the timer.
port_sees_own_example :
    decode_addr (w_edge (timer_edge true false) (w_reset (write_side w_wait_b))).w_addr_lat ≡ 2
unfolding w_edge w_reset w_accept w_before w_cur w_open w_arb_s0 port_awvalid port_wvalid
    port_bready decode_addr
port_sees_own_example =
    port_sees_own 2 (edge (timer_edge true false) (reset (write_side w_wait_b))) refl

-- Master 1 hands over address and word of a write at once; an edge later master 0 asks too.
abbrev second_asks : Around
second_asks = record (timer_edge false false) { s0 = idle_pins; s1 = asking 0x4000_0004 }

abbrev fresh : WriteSide
fresh = w_reset (write_side w_wait_b)

grant_locked_example :
    let x = w_edge second_asks fresh in
    (x.w_grant ≡ false) × (offered true (timer_edge true false) x ≡ false)
unfolding s1_awready s1_wready w_reset
grant_locked_example =
    grant_locked false (timer_edge true false) (w_edge second_asks fresh)
      (begun second_asks fresh refl)

-- The last byte of the UART's window.
decode-window_example : decode_addr 0x4000_2FFF ≡ 4
decode-window_example = decode-window 4 0x4000_2FFF (omega arith) (omega arith) (omega arith)

-- An address in no window, which reaches the SPI master.
decode-alias_example : decode_addr 0x4003_4ABD ≡ 6
decode-alias_example =
    decode-alias 6 0x4000_4008 0x4003_4ABD (omega arith) (omega arith) (omega arith) refl refl

abbrev powered : Top Fake
powered = record {
  xbar = record { write = write_side w_wait_b; read = read_side };
  slaves = nine (record { mem = λ i. 0; s_bvalid = true; s_rvalid = false; s_rdata = 3 });
}

xbar_main_passes_example : main powered 1 2 ≡ 0
xbar_main_passes_example = xbar_main_passes powered 1 2 refl
