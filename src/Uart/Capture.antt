-- ===== src/Uart/Capture.antt =====
-- The lambda `capture_byte` of blocks/uart/dv/sim_main.cpp.
pub mod Frame
use riscv_soc.Base.{ℕ, zero, suc, ◌+◌, ◌*◌, ◌^◌, Bool, true, false, if◌then◌else◌, bit_or}
use riscv_soc.Axi.Pins.{Bench}
use riscv_soc.Axi.Bfm.{clock}
use riscv_soc.Uart.{Uart, dut}

-- `n` calls of `bfm.clock()`.
unfoldable pub clocks : ℕ → Bench Uart → Bench Uart
unfolding clock
clocks zero b = b
clocks (suc n) b = clocks n (clock dut b)

-- `for (; i < timeout && dut->tx; i++) bfm.clock();`
unfoldable pub await_start : ℕ → Bench Uart → Bench Uart
unfolding clock
await_start zero b = b
await_start (suc left) b = elim b.state.tx [ true ↦ await_start left (clock dut b) | false ↦ b ]

pub record Sampled : Type 0 where
  pub bench : Bench Uart
  pub byte : ℕ

-- The loop over the data bits, from bit `i` on.
unfoldable pub sample_bits : ℕ → ℕ → Sampled → Sampled
unfolding clocks
sample_bits zero i v = v
sample_bits (suc left) i v =
    let b = clocks 4 v.bench in
    sample_bits left (suc i)
      (record { bench = b; byte = if b.state.tx then bit_or v.byte (2 ^ i) else v.byte })

pub record Captured : Type 0 where
  pub bench : Bench Uart
  pub byte : ℕ
  pub stop_ok : Bool

unfoldable pub capture_byte : ℕ → Bench Uart → Captured
unfolding await_start clocks sample_bits
capture_byte timeout b =
    let v = sample_bits 8 0 (record { bench = clocks 2 (await_start timeout b); byte = 0 }) in
    let e = clocks 4 v.bench in record { bench = e; byte = v.byte; stop_ok = e.state.tx }
