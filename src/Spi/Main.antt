-- ===== src/Spi/Main.antt =====
-- `main` of blocks/spi/dv/sim_main.cpp.
use riscv_soc.Base.{ℕ, Bool, true, false, ◌==◌, test_bit, to_number, ◌≡◌, refl}
use riscv_soc.Harness.{
  Test, ◌>>=◌, ◌>>◌, check, get, for_from, exit_status, tick, write, read, power_on,
}
use riscv_soc.Spi.{Spi, dut, step}
use riscv_soc.Spi.Transfer.{prepare, await_done, run_transfer}

-- `dut->slave_received`.
abbrev received : Spi → ℕ
received s = to_number s.slave.received

-- One round of the loop over `modes`.
mode : Bool → Bool → ℕ → ℕ → Test Spi (Unit {0}) (Unit {0})
unfolding run_transfer read write
mode cpol cpha mtx stx = do
  finished ← run_transfer 2000 cpol cpha mtx stx
  check finished
  ok ← read dut 0xC
  s ← get
  check (s.rd == stx)
  check (received s.bench.state == mtx)
  ok' ← write dut 0x10 0x2 0xF
  ok'' ← read dut 0x10
  t ← get
  check (t.rd == 0)

-- A second START while the master is busy.
restart : Test Spi (Unit {0}) (Unit {0})
unfolding await_done read write
restart = do
  prepare false false 0x11
  ok ← write dut 0x8 0x22 0xF
  ok' ← write dut 0x0 0x1 0xF
  ok'' ← read dut 0x10
  s ← get
  check (test_bit s.rd 0)
  again ← write dut 0x8 0x99 0xF
  again' ← write dut 0x0 0x1 0xF
  done2 ← await_done 2000
  check done2
  last ← read dut 0xC
  t ← get
  check (t.rd == 0x11)
  check (received t.bench.state == 0x22)

-- The long divider, whose outcome nothing checks.
long_divider : Test Spi (Unit {0}) Bool
unfolding tick write
long_divider = do
  ok ← write dut 0x4 0xFFFF_FFFF 0xF
  prepare false false 0x00
  ok' ← write dut 0x8 0x5A 0xF
  ok'' ← write dut 0x0 0x1 0xF
  for_from 70000 0 (λ i. tick dut)
  write dut 0x4 4 0xF

body : Test Spi (Unit {0}) Bool
unfolding mode restart long_divider write
body = do
  ok ← write dut 0x4 4 0xF
  mode false false 0xA5 0x3C
  mode false true 0x5A 0xC3
  mode true false 0xF0 0x0F
  mode true true 0x81 0x18
  restart
  long_divider

-- `main`, from a power-on state of the registers and of the uninitialised locals.
pub main : Spi → ℕ → ℕ → ℕ
unfolding body power_on
main s rd resp =
    let r =
      body (record { bench = power_on dut s; model = tt; rd = rd; resp = resp; fail_count = 0 }) in
    exit_status (tt, r.1)

-- The test bench passes whatever the registers and the uninitialised locals hold at power-on.
pub spi_main_passes : (s : Spi) (rd resp : ℕ) → main s rd resp ≡ 0
unfolding main step
spi_main_passes s rd resp = refl
