-- ===== src/Spi/Transfer.antt =====
-- The lambda `run_transfer` of blocks/spi/dv/sim_main.cpp.
pub mod Exchange
use riscv_soc.Base.{ℕ, zero, suc, ◌+◌, ◌*◌, Bool, true, false, bit, test_bit, ◌≡◌, refl}
use riscv_soc.Harness.{Sim, Test, ◌>>=◌, ◌>>◌, write, read}
use riscv_soc.Spi.{Spi, dut}

-- `dut->slave_cpol = …; dut->slave_cpha = …; dut->slave_preload = …;`.
abbrev pub prepare : Bool → Bool → ℕ → Test Spi (Unit {0}) (Unit {0})
prepare cpol cpha slave_tx s = (
  tt,
  record s {
    bench = record s.bench {
      state = record s.bench.state {
        slave_cpol = cpol;
        slave_cpha = cpha;
        slave_preload = slave_tx;
      };
    };
  },
)

-- `for (int i = 0; i < timeout_cycles; i++)` with `left` rounds to go.
unfoldable pub await_done : ℕ → Test Spi (Unit {0}) Bool
unfolding read
await_done zero s = (false, s)
await_done (suc left) s =
    let (ok, t) = read dut 0x10 s in
    elim (test_bit t.rd 1) [ true ↦ (true, t) | false ↦ await_done left t ]

unfoldable pub run_transfer : ℕ → Bool → Bool → ℕ → ℕ → Test Spi (Unit {0}) Bool
unfolding write await_done
run_transfer timeout cpol cpha master_tx slave_tx =
    prepare cpol cpha slave_tx
    >> write dut 0x8 master_tx 0xF
    >> write dut 0x0 (1 + 2 * bit cpol + 4 * bit cpha) 0xF
    >> await_done timeout
