-- ===== src/Xbar/Main.antt =====
-- `main` of blocks/axi_lite_xbar/dv/sim_main.cpp.
pub mod Passes
use riscv_soc.Base.{ℕ, suc, ◌-◌, Bool, true, false, not, ◌&&◌, ◌==◌, List, [], ◌∷◌, all_ones}
use riscv_soc.Axi.Pins.{idle_pins}
use riscv_soc.Harness.{Test, ◌>>=◌, ◌>>◌, check, get, exit_status, write, read, power_on}
use riscv_soc.Xbar.{resp_okay, resp_slverr, resp_decerr}
use riscv_soc.Xbar.Fake.{Fake}
use riscv_soc.Xbar.Top.{Top}
use riscv_soc.Xbar.Raw.{Side, Raw, dut, eval, clk_edge, raw, raw_check, drive0, drive1}
use riscv_soc.Xbar.Raw.{request, withdraw, spin_until, in_time}

abbrev pub XbarTest : Type 0
XbarTest = Test Side (Unit {0}) (Unit {0})

-- A write that is answered with `expected`.
unfoldable pub write_gets : ℕ → ℕ → ℕ → XbarTest
unfolding write
write_gets addr word expected = do
  ok ← write dut addr word 0xF
  s ← get
  check (ok && s.resp == expected)

-- A read that yields `word`.
unfoldable pub read_gets : ℕ → ℕ → XbarTest
unfolding read
read_gets addr word = do ok ← read dut addr; s ← get; check (ok && s.rd == word)

-- The write and the read of one peripheral.
unfoldable pub region : ℕ → ℕ → XbarTest
unfolding write_gets read_gets
region addr word = do write_gets addr word resp_okay; read_gets addr word

-- Checks 1 to 9.
unfoldable pub regions : XbarTest
unfolding write read read_gets region
regions = do
  ok ← write dut 0x0000_0000 0xAAAA_0001 0xF
  s ← get
  check ok
  check (s.resp == resp_okay)
  read_ok ← read dut 0x0000_0000
  t ← get
  check read_ok
  check (t.rd == 0xAAAA_0001)
  check (t.resp == resp_okay)
  ram_ok ← write dut 0x1000_0000 0xBBBB_0002 0xF
  check ram_ok
  read_gets 0x1000_0004 0
  read_gets 0x1000_0000 0xBBBB_0002
  uart_ok ← write dut 0x4000_2000 0xCCCC_0003 0xF
  check uart_ok
  read_gets 0x4000_2000 0xCCCC_0003
  region 0x4000_0000 0x1111_0004
  region 0x4000_1000 0x2222_0005
  region 0x4000_3000 0x3333_0006
  region 0x4000_4000 0x4444_0007
  region 0x4000_5000 0x5555_0008
  region 0x4000_6000 0x6666_0009
  read_gets 0x0000_0000 0xAAAA_0001

-- A transaction, then the three checks of completion, response and pulses since `irq0`.
unfoldable pub counted : ℕ → Test Side (Unit {0}) Bool → ℕ → XbarTest
counted pulses transaction expected = do
  before ← get
  ok ← transaction
  s ← get
  check ok
  check (s.resp == expected)
  check (s.bench.state.decerr_irq_pulses - before.bench.state.decerr_irq_pulses == pulses)

-- A read of the diagnostic window: completion, response and word.
unfoldable pub csr_gets : ℕ → ℕ → XbarTest
unfolding read
csr_gets addr word = do
  ok ← read dut addr
  s ← get
  check ok
  check (s.resp == resp_okay)
  check (s.rd == word)

-- Checks 10 to 10c.
unfoldable pub misses : XbarTest
unfolding counted csr_gets read_gets write read
misses = do
  counted 1 (write dut 0x5000_0000 0xDEAD_DEAD 0xF) resp_decerr
  before ← get
  counted 1 (read dut 0x5000_0000) resp_decerr
  csr_gets 0x4000_7000 0x5000_0000
  csr_gets 0x4000_7004 0x5000_0000
  s ← get
  check (s.bench.state.decerr_irq_pulses - before.bench.state.decerr_irq_pulses == 1)
  counted 0 (write dut 0x4000_7000 0xFFFF_FFFF 0xF) resp_slverr
  read_gets 0x4000_7000 0x5000_0000
  counted 1 (read dut 0x4000_8000) resp_decerr
  read_gets 0x4000_7004 0x4000_8000
  read_gets 0x1000_0000 0xBBBB_0002
  read_gets 0x4000_0000 0x1111_0004

abbrev granted0 : Raw → Bool
granted0 r = r.seen0.awready

abbrev granted1 : Raw → Bool
granted1 r = r.seen1.awready

abbrev answered0 : Raw → Bool
answered0 r = r.seen0.bvalid

abbrev answered1 : Raw → Bool
answered1 r = r.seen1.bvalid

-- Check 11: both masters ask in the same cycle.
unfoldable pub contention : XbarTest
unfolding raw eval clk_edge spin_until
contention = raw (do
  drive0 (request 0x0000_0000 0xAAAA_1111)
  drive1 (request 0x1000_0000 0xBBBB_2222)
  eval
  raw_check granted0
  raw_check (λ r. not (granted1 r))
  spin_until answered0
  raw_check (in_time answered0)
  clk_edge
  drive0 withdraw
  spin_until granted1
  raw_check (in_time granted1)
  spin_until answered1
  raw_check (in_time answered1)
  clk_edge
  drive1 withdraw)

-- `for (auto& t : second_pass)`.
unfoldable pub complement_pass : List (ℕ × ℕ) → XbarTest
unfolding region
complement_pass [] s = (tt, s)
complement_pass ((addr, word) ∷ rows) s =
    let t = (region addr word >> region addr (all_ones - word)) s in complement_pass rows t.1

abbrev second_pass : List (ℕ × ℕ)
second_pass =
    (0x4000_0000, all_ones - 0x1111_0004)
    ∷ (0x4000_1000, all_ones - 0x2222_0005)
    ∷ (0x4000_2000, all_ones - 0xCCCC_0003)
    ∷ (0x4000_3000, all_ones - 0x3333_0006)
    ∷ (0x4000_4000, all_ones - 0x4444_0007)
    ∷ (0x4000_5000, all_ones - 0x5555_0008)
    ∷ (0x4000_6000, all_ones - 0x6666_0009)
    ∷ []

-- The last block: master 1 writes once more.
unfoldable pub s1_again : XbarTest
unfolding raw clk_edge spin_until
s1_again = raw (do
  drive1 (request 0x1000_0004 0x5555_DDDD)
  spin_until answered1
  raw_check (in_time answered1)
  clk_edge
  drive1 withdraw)

unfoldable pub body : XbarTest
unfolding regions misses contention complement_pass s1_again read_gets
body = do
  regions
  misses
  contention
  read_gets 0x0000_0000 0xAAAA_1111
  read_gets 0x1000_0000 0xBBBB_2222
  complement_pass second_pass
  s1_again

-- `main`, from a power-on state of the design and of the locals `rd` and `resp`.
unfoldable pub main : Top Fake → ℕ → ℕ → ℕ
unfolding body power_on
main t rd resp = exit_status (
    body (record {
      bench = power_on dut (record { s1 = idle_pins; top = t; decerr_irq_pulses = 0 });
      model = tt;
      rd = rd;
      resp = resp;
      fail_count = 0;
    }))
