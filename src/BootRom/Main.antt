-- ===== src/BootRom/Main.antt =====
-- `main` of blocks/boot_rom/dv/sim_main.cpp.
use riscv_soc.Base.{ℕ, ◌*◌, ◌&&◌, ◌==◌, ◌≡◌, List, [], ◌∷◌, get_or}
use riscv_soc.Harness.{Test, ◌>>=◌, ◌>>◌, check, get, for_from, exit_status, write, read, power_on}
use riscv_soc.BootRom.{BootRom, dut, resp_okay, resp_slverr, step}

abbrev expected : List ℕ
expected = 0xAAAA_0001 ∷ 0xBBBB_0002 ∷ 0xCCCC_0003 ∷ 0xDDDD_0004 ∷ []

body : Test BootRom (Unit {0}) (Unit {0})
unfolding write read
body = do
  for_from 4 0 (λ i. do
    ok ← read dut (i * 4)
    s ← get
    check (ok && (s.rd == get_or expected i 0 && s.resp == resp_okay)))
  ok ← write dut 0x0000_0000 0xFFFF_FFFF 0xF
  check ok
  s ← get
  check (s.resp == resp_slverr)
  ok' ← read dut 0x0000_0000
  t ← get
  check (ok' && t.rd == 0xAAAA_0001)

-- `main`, from a power-on state of the memory, the registers and the locals `rd` and `resp`.
pub main : BootRom → ℕ → ℕ → ℕ
unfolding body power_on
main s rd resp =
    exit_status
      (body (record { bench = power_on dut s; model = tt; rd = rd; resp = resp; fail_count = 0 }))

-- The test bench passes if `$readmemh` has loaded the four words of its hex file, whatever else
-- the memory, the registers and the uninitialised locals hold.
pub boot_rom_main_passes :
    (s : BootRom) (rd resp : ℕ)
    → s.mem 0 ≡ 0xAAAA_0001
    → s.mem 1 ≡ 0xBBBB_0002
    → s.mem 2 ≡ 0xCCCC_0003
    → s.mem 3 ≡ 0xDDDD_0004
    → main s rd resp ≡ 0
unfolding main step
boot_rom_main_passes s rd resp a b c d = rw (a, b, c, d)
