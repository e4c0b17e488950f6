-- ===== src/Sram/Main.antt =====
-- `main` of blocks/sram/dv/sim_main.cpp.
use riscv_soc.Base.{ℕ, ◌&&◌, ◌==◌, ◌≡◌, refl, merge_bytes}
use riscv_soc.Harness.{Test, ◌>>=◌, ◌>>◌, check, get, exit_status, write, read, power_on}
use riscv_soc.Sram.{Sram, dut, resp_okay, step}

-- A write, and the check of its success.
write_ok : ℕ → ℕ → ℕ → Test Sram (Unit {0}) (Unit {0})
unfolding write
write_ok addr word strb = do
  ok ← write dut addr word strb
  s ← get
  check (ok && s.resp == resp_okay)

-- A read, and the check of the word.
read_gives : ℕ → ℕ → Test Sram (Unit {0}) (Unit {0})
unfolding read
read_gives addr word = do ok ← read dut addr; s ← get; check (ok && s.rd == word)

body : Test Sram (Unit {0}) (Unit {0})
unfolding write_ok read_gives write read
body = do
  write_ok 0x0000_0000 0x1234_5678 0xF
  ok ← read dut 0x0000_0000
  s ← get
  check (ok && (s.rd == 0x1234_5678 && s.resp == resp_okay))
  ok' ← write dut 0x0000_0004 0xCAFE_BABE 0xF
  read_gives 0x0000_0000 0x1234_5678
  read_gives 0x0000_0004 0xCAFE_BABE
  write_ok 0x0000_0000 0x0000_00FF 0x1
  read_gives 0x0000_0000 0x1234_56FF
  ok'' ← write dut 0x0001_FFFC 0xFEED_FACE 0xF
  read_gives 0x0001_FFFC 0xFEED_FACE

-- `main`, from a power-on state of the memory, the registers and the locals `rd` and `resp`.
pub main : Sram → ℕ → ℕ → ℕ
unfolding body power_on
main s rd resp =
    exit_status
      (body (record { bench = power_on dut s; model = tt; rd = rd; resp = resp; fail_count = 0 }))

-- The test bench passes whatever the memory, the registers and the uninitialised locals hold at
-- power-on.
pub sram_main_passes : (s : Sram) (rd resp : ℕ) → main s rd resp ≡ 0
unfolding main step merge_bytes
sram_main_passes s rd resp = refl
