-- ===== src/Watchdog/Model/Agree.antt =====
-- The software model beside the registers of the watchdog, over the transactions of its bench.
use riscv_soc.Base.{ℕ, true, false, ◌≡◌, sym, List, [], ◌∷◌, arith}
use mathlib.Core.Path.{subst}
use riscv_soc.Axi.Pins.{Bench, IsIdle}
use riscv_soc.Axi.Bfm.{write, read}
use riscv_soc.Axi.Bfm.Ready.{write_single, read_single, written_state, read_state}
use riscv_soc.Watchdog.Rtl.{Watchdog, step, dut, resp_okay}
use riscv_soc.Watchdog.Rtl.Ready.{dut-IsReady}
use riscv_soc.Watchdog.Model.{Model, after_call, after_enable, after_kick, after_clear}

-- The transactions that `main` makes: it reads TIMEOUT, KICK and STATUS, writes TIMEOUT back to
-- the value it has, starts and kicks the watchdog, and clears WARNING.
pub data Call : Type 0 where
  read_timeout read_kick read_status write_timeout enable kick clear_status : Call

-- The registers hold what the model says; `irq_pulse` and `status_reset_req` are output pins.
pub record Agree (timeout : ℕ) (m : Model) (s : Watchdog) : Type 0 where
  pub enabled : s.ctrl_en ≡ m.model_en
  pub counts : s.count ≡ m.model_count
  pub warns : s.status_warning ≡ m.model_warning
  pub requests : s.status_reset_req ≡ m.model_reset_req
  pub pulses : s.irq_pulse ≡ m.model_irq_pulse
  pub timeout_is : s.timeout_reg ≡ timeout
  pub restart_low : m.model_restart_this_cycle ≡ false
  pub clear_low : m.model_status_clear_this_cycle ≡ false

module _ (timeout : ℕ) where
  pub on_bench : Call → ℕ → ℕ → Bench Watchdog → Bench Watchdog
  on_bench read_timeout rd resp b = (read dut 200 0x4 rd resp b).bench
  on_bench read_kick rd resp b = (read dut 200 0x8 rd resp b).bench
  on_bench read_status rd resp b = (read dut 200 0xC rd resp b).bench
  on_bench write_timeout rd resp b = (write dut 200 0x4 timeout 0xF resp b).bench
  on_bench enable rd resp b = (write dut 200 0x0 0x1 0xF resp b).bench
  on_bench kick rd resp b = (write dut 200 0x8 0xFFFF_FFFF 0xF resp b).bench
  on_bench clear_status rd resp b = (write dut 200 0xC 0x1 0xF resp b).bench

  pub on_model : Call → Model → Model
  on_model enable m = after_enable timeout m
  on_model kick m = after_kick timeout m
  on_model clear_status m = after_clear timeout m
  on_model read_timeout m = after_call timeout m
  on_model read_kick m = after_call timeout m
  on_model read_status m = after_call timeout m
  on_model write_timeout m = after_call timeout m

  -- The model matches the registers, and the bus is idle.
  abbrev pub Tracks : Model → Bench Watchdog → Type 0
  Tracks m b = Agree timeout m b.state × IsIdle b.pins

  after_read :
      (addr rd resp : ℕ) (m : Model) (b : Bench Watchdog)
      → IsIdle b.pins
      → Agree timeout m (read_state dut addr b)
      → Tracks m (read dut 200 addr rd resp b).bench
  after_read addr rd resp m b i a =
      subst (λ r. Tracks m r.bench)
        (sym (read_single dut dut-IsReady 199 addr rd resp b i.out_of_reset)) (a, ground arith)

  after_write :
      (addr word resp : ℕ) (m : Model) (b : Bench Watchdog)
      → IsIdle b.pins
      → Agree timeout m (written_state dut addr word 0xF b)
      → Tracks m (write dut 200 addr word 0xF resp b).bench
  after_write addr word resp m b i a =
      subst (λ w. Tracks m w.bench)
        (sym (write_single dut dut-IsReady 199 addr word 0xF resp b i.out_of_reset))
        (a, ground arith)

  -- One transaction keeps the model and the registers in step and leaves the bus idle.
  pub on_bench-Tracks :
      (c : Call) (rd resp : ℕ) (m : Model) (b : Bench Watchdog)
      → Tracks m b
      → Tracks (on_model c m) (on_bench c rd resp b)
  unfolding on_bench on_model step after_call after_enable after_kick after_clear
  on_bench-Tracks read_timeout rd resp m b (a, i) = after_read 0x4 rd resp _ b i (ground arith)
  on_bench-Tracks read_kick rd resp m b (a, i) = after_read 0x8 rd resp _ b i (ground arith)
  on_bench-Tracks read_status rd resp m b (a, i) = after_read 0xC rd resp _ b i (ground arith)
  on_bench-Tracks write_timeout rd resp m b (a, i) =
      after_write 0x4 timeout resp _ b i (ground arith)
  on_bench-Tracks enable rd resp m b (a, i) = after_write 0x0 0x1 resp _ b i (ground arith)
  on_bench-Tracks kick rd resp m b (a, i) = after_write 0x8 0xFFFF_FFFF resp _ b i (ground arith)
  on_bench-Tracks clear_status rd resp m b (a, i) = after_write 0xC 0x1 resp _ b i (ground arith)

  pub on_bench_all : List Call → ℕ → ℕ → Bench Watchdog → Bench Watchdog
  on_bench_all [] rd resp b = b
  on_bench_all (c ∷ cs) rd resp b = on_bench_all cs rd resp (on_bench c rd resp b)

  pub on_model_all : List Call → Model → Model
  on_model_all [] m = m
  on_model_all (c ∷ cs) m = on_model_all cs (on_model c m)

  -- What a read reports: success, OKAY, and a word.
  abbrev pub Reports : ℕ → Bench Watchdog → ℕ → ℕ → ℕ → Type 0
  Reports addr b rd resp word =
      let r = read dut 200 addr rd resp b in
      (r.ok ≡ true) × (r.last_resp ≡ resp_okay) × (r.out_data ≡ word)
