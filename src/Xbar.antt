-- ===== src/Xbar.antt =====
-- blocks/axi_lite_xbar/rtl/axi_lite_xbar.v, with rtl/include/addr_map.vh: the address decoder and
-- what the write side and the read side share.
pub mod Write
pub mod Read
pub mod Fake
pub mod Top
pub mod Raw
pub mod Main
pub mod MemoryMap
pub mod Sound
pub mod Granted
pub mod Answer
pub mod Window
use riscv_soc.Base.{ℕ, ◌/◌, ◌%◌, ◌^◌, Bool, true, false, ◌&&◌, ◌==◌, if◌then◌else◌}
use riscv_soc.Axi.Pins.{Pins, Outs}

-- The slave numbers.
abbrev pub slave_rom : ℕ
slave_rom = 0

abbrev pub slave_ram : ℕ
slave_ram = 1

abbrev pub slave_timer : ℕ
slave_timer = 2

abbrev pub slave_wdt : ℕ
slave_wdt = 3

abbrev pub slave_uart : ℕ
slave_uart = 4

abbrev pub slave_i2c : ℕ
slave_i2c = 5

abbrev pub slave_spi : ℕ
slave_spi = 6

abbrev pub slave_aes : ℕ
slave_aes = 7

abbrev pub slave_dma : ℕ
slave_dma = 8

abbrev pub slave_xbar_csr : ℕ
slave_xbar_csr = 9

abbrev pub slave_err : ℕ
slave_err = 10

-- One thing for each of the nine downstream ports.
pub record Ports {ℓ} (A : Type ℓ) : Type ℓ where
  pub rom : A
  pub ram : A
  pub timer : A
  pub wdt : A
  pub uart : A
  pub i2c : A
  pub spi : A
  pub aes : A
  pub dma : A

-- The multiplexer over the selected port, with what it yields for any other number.
unfoldable pub select {ℓ} : {A : Type ℓ} → ℕ → Ports A → A → A
select sel ports other =
    if sel == slave_rom
    then ports.rom
    else if sel == slave_ram
    then ports.ram
    else if sel == slave_timer
    then ports.timer
    else if sel == slave_wdt
    then ports.wdt
    else if sel == slave_uart
    then ports.uart
    else if sel == slave_i2c
    then ports.i2c
    else if sel == slave_spi
    then ports.spi
    else if sel == slave_aes
    then ports.aes
    else if sel == slave_dma
    then ports.dma
    else other

-- `addr[31:28]` and `addr[15:12]` of the peripheral region.
unfoldable pub decode_periph : ℕ → ℕ
decode_periph window =
    if window == 0
    then slave_timer
    else if window == 1
    then slave_wdt
    else if window == 2
    then slave_uart
    else if window == 3
    then slave_i2c
    else if window == 4
    then slave_spi
    else if window == 5
    then slave_aes
    else if window == 6
    then slave_dma
    else if window == 7
    then slave_xbar_csr
    else slave_err

unfoldable pub decode_addr : ℕ → ℕ
unfolding decode_periph
decode_addr addr =
    let region = addr / 2 ^ 28 % 16 in
    if region == 0
    then slave_rom
    else if region == 1
    then slave_ram
    else if region == 4
    then decode_periph (addr / 2 ^ 12 % 16)
    else slave_err

abbrev pub resp_okay : ℕ
resp_okay = 0

abbrev pub resp_slverr : ℕ
resp_slverr = 2

abbrev pub resp_decerr : ℕ
resp_decerr = 3

-- What the multiplexers yield when no port is selected.
abbrev pub no_slave : Outs
no_slave = record {
  awready = true;
  wready = true;
  bvalid = true;
  bresp = resp_slverr;
  arready = true;
  rvalid = true;
  rdata = 0;
  rresp = resp_slverr;
}

-- One edge as the crossbar sees it: the two masters and the outputs of the nine slaves.
pub record Around : Type 0 where
  pub s0 : Pins
  pub s1 : Pins
  pub slaves : Ports Outs
