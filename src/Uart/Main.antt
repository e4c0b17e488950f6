-- ===== src/Uart/Main.antt =====
-- `main` of blocks/uart/dv/sim_main.cpp.
use riscv_soc.Base.{ℕ, ◌%◌, Bool, not, ◌&&◌, ◌==◌, ◌≡◌, refl}
use riscv_soc.Harness.{Test, ◌>>=◌, ◌>>◌, check, get, exit_status, tick, write, read, power_on}
use riscv_soc.Uart.{Uart, dut, resp_okay, step}
use riscv_soc.Uart.Capture.{Captured, capture_byte}

-- The lambda `read_busy`; it has locals of its own for the word and the response.
read_busy : ℕ → ℕ → Test Uart (Unit {0}) Bool
unfolding read
read_busy rd resp s =
    let (ok, t) = read dut 0x4 (record s { rd = rd; resp = resp }) in
    (t.rd % 2 == 1, record t { rd = s.rd; resp = s.resp })

-- `got = capture_byte(&stop_ok)` with the default time limit.
capture : Test Uart (Unit {0}) Captured
unfolding capture_byte
capture s = let c = capture_byte 200 s.bench in (c, record s { bench = c.bench })

-- Three clocks.
settle : Test Uart (Unit {0}) (Unit {0})
unfolding tick
settle = do tick dut; tick dut; tick dut

body : ℕ → ℕ → Test Uart (Unit {0}) (Unit {0})
unfolding read_busy capture settle tick write
body rd resp = do
  busy ← read_busy rd resp
  check (not busy)
  ok ← write dut 0x0 0x41 0xF
  s ← get
  check (ok && s.resp == resp_okay)
  tick dut
  tick dut
  busy' ← read_busy rd resp
  check busy'
  c ← capture
  check (c.byte == 0x41)
  check c.stop_ok
  settle
  busy'' ← read_busy rd resp
  check (not busy'')
  ok' ← write dut 0x0 0xA5 0xF
  c' ← capture
  check (c'.byte == 0xA5)
  check c'.stop_ok
  settle
  still ← read_busy rd resp
  check (not still)
  first ← write dut 0x0 0x11 0xF
  second ← write dut 0x0 0x22 0xF
  c'' ← capture
  check (c''.byte == 0x11)
  settle
  queued ← read_busy rd resp
  check (not queued)

-- `main`, from a power-on state of the registers and of the uninitialised locals: `resp` in `main`,
-- `rd` and `resp` in `read_busy`.
pub main : Uart → ℕ → ℕ → ℕ → ℕ
unfolding body power_on
main s resp busy_rd busy_resp = exit_status (
    body busy_rd busy_resp
      (record { bench = power_on dut s; model = tt; rd = 0; resp = resp; fail_count = 0 }))

-- The test bench passes whatever the registers and the uninitialised locals hold at power-on.
pub uart_main_passes : (s : Uart) (resp busy_rd busy_resp : ℕ) → main s resp busy_rd busy_resp ≡ 0
unfolding main step
uart_main_passes s resp busy_rd busy_resp = refl
