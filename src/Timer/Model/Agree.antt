-- ===== src/Timer/Model/Agree.antt =====
-- The software model beside the registers of the timer, over the transactions of the test bench.
use riscv_soc.Base.{ℕ, true, false, ◌&&◌, ◌==◌, bit, ◌≡◌, refl, sym, List, [], ◌∷◌, arith}
use mathlib.Core.Path.{subst}
use riscv_soc.Axi.Pins.{Bench, IsIdle}
use riscv_soc.Axi.Bfm.{write, read}
use riscv_soc.Axi.Bfm.Ready.{write_single, read_single, written_state, read_state}
use riscv_soc.Timer.Rtl.{Timer, step, dut, resp_okay}
use riscv_soc.Timer.Rtl.Ready.{dut-IsReady}
use riscv_soc.Timer.Model.{Model, after_call, after_enable, after_disable, after_clear}

-- The transactions that `main` makes: it reads COUNT, RELOAD and STATUS, writes RELOAD back to
-- the value it has, starts and stops the timer, and clears EXPIRED.
pub data Call : Type 0 where
  read_reload read_count read_status write_reload enable disable clear_status : Call

-- The registers hold what the model says.
pub record Agree (reload : ℕ) (m : Model) (s : Timer) : Type 0 where
  pub enabled : s.ctrl_en ≡ m.model_en
  pub counts : s.count ≡ m.model_count
  pub expired : s.status_expired ≡ m.model_expired
  pub reloads : s.reload_reg ≡ reload
  pub flag_low : m.model_write_ctrl_en_this_cycle ≡ false

module _ (reload : ℕ) where
  pub on_bench : Call → ℕ → ℕ → Bench Timer → Bench Timer
  on_bench read_reload rd resp b = (read dut 200 0x4 rd resp b).bench
  on_bench read_count rd resp b = (read dut 200 0x8 rd resp b).bench
  on_bench read_status rd resp b = (read dut 200 0xC rd resp b).bench
  on_bench write_reload rd resp b = (write dut 200 0x4 reload 0xF resp b).bench
  on_bench enable rd resp b = (write dut 200 0x0 0x1 0xF resp b).bench
  on_bench disable rd resp b = (write dut 200 0x0 0x0 0xF resp b).bench
  on_bench clear_status rd resp b = (write dut 200 0xC 0x1 0xF resp b).bench

  pub on_model : Call → Model → Model
  on_model enable m = after_enable reload m
  on_model disable m = after_disable reload m
  on_model clear_status m = after_clear reload m
  on_model read_reload m = after_call reload m
  on_model read_count m = after_call reload m
  on_model read_status m = after_call reload m
  on_model write_reload m = after_call reload m

  -- EXPIRED is not cleared in the very cycle in which the timer expires.
  abbrev pub IsClearOf : Call → Model → Type 0
  IsClearOf clear_status m = (m.model_en && m.model_count == 0) ≡ false
  IsClearOf enable m = Unit {0}
  IsClearOf _ m = Unit {0}

  -- The model matches the registers, and the bus is idle.
  abbrev pub Tracks : Model → Bench Timer → Type 0
  Tracks m b = Agree reload m b.state × IsIdle b.pins

  after_read :
      (addr rd resp : ℕ) (m : Model) (b : Bench Timer)
      → IsIdle b.pins
      → Agree reload m (read_state dut addr b)
      → Tracks m (read dut 200 addr rd resp b).bench
  after_read addr rd resp m b i a =
      subst (λ r. Tracks m r.bench)
        (sym (read_single dut dut-IsReady 199 addr rd resp b i.out_of_reset)) (a, ground arith)

  after_write :
      (addr word resp : ℕ) (m : Model) (b : Bench Timer)
      → IsIdle b.pins
      → Agree reload m (written_state dut addr word 0xF b)
      → Tracks m (write dut 200 addr word 0xF resp b).bench
  after_write addr word resp m b i a =
      subst (λ w. Tracks m w.bench)
        (sym (write_single dut dut-IsReady 199 addr word 0xF resp b i.out_of_reset))
        (a, ground arith)

  -- One transaction keeps the model and the registers in step and leaves the bus idle, unless it
  -- clears EXPIRED in the very cycle in which the timer expires.
  pub on_bench-Tracks :
      (c : Call) (rd resp : ℕ) (m : Model) (b : Bench Timer)
      → Tracks m b
      → IsClearOf c m
      → Tracks (on_model c m) (on_bench c rd resp b)
  unfolding on_bench on_model step after_call after_enable after_disable after_clear
  on_bench-Tracks read_reload rd resp m b (a, i) c = after_read 0x4 rd resp _ b i (ground arith)
  on_bench-Tracks read_count rd resp m b (a, i) c = after_read 0x8 rd resp _ b i (ground arith)
  on_bench-Tracks read_status rd resp m b (a, i) c = after_read 0xC rd resp _ b i (ground arith)
  on_bench-Tracks write_reload rd resp m b (a, i) c =
      after_write 0x4 reload resp _ b i (ground arith)
  on_bench-Tracks enable rd resp m b (a, i) c = after_write 0x0 0x1 resp _ b i (ground arith)
  on_bench-Tracks disable rd resp m b (a, i) c = after_write 0x0 0x0 resp _ b i (ground arith)
  on_bench-Tracks clear_status rd resp m b (a, i) c = after_write 0xC 0x1 resp _ b i (ground arith)

  pub on_bench_all : List Call → ℕ → ℕ → Bench Timer → Bench Timer
  on_bench_all [] rd resp b = b
  on_bench_all (c ∷ cs) rd resp b = on_bench_all cs rd resp (on_bench c rd resp b)

  pub on_model_all : List Call → Model → Model
  on_model_all [] m = m
  on_model_all (c ∷ cs) m = on_model_all cs (on_model c m)

  abbrev pub AllClear : List Call → Model → Type 0
  AllClear [] m = Unit {0}
  AllClear (c ∷ cs) m = IsClearOf c m × AllClear cs (on_model c m)

  on_bench_all-Tracks :
      (cs : List Call) (rd resp : ℕ) (m : Model) (b : Bench Timer)
      → Tracks m b
      → AllClear cs m
      → Tracks (on_model_all cs m) (on_bench_all cs rd resp b)
  unfolding on_bench_all on_model_all
  on_bench_all-Tracks [] rd resp m b t c = t
  on_bench_all-Tracks (k ∷ cs) rd resp m b t c =
      on_bench_all-Tracks cs rd resp (on_model k m) (on_bench k rd resp b)
        (on_bench-Tracks k rd resp m b t c.0) c.1

  -- What a read reports: success, OKAY, and a word.
  abbrev pub Reports : ℕ → Bench Timer → ℕ → ℕ → ℕ → Type 0
  Reports addr b rd resp word =
      let r = read dut 200 addr rd resp b in
      (r.ok ≡ true) × (r.last_resp ≡ resp_okay) × (r.out_data ≡ word)

  reports :
      (addr rd resp word : ℕ) (b : Bench Timer)
      → IsIdle b.pins
      → (read_state dut addr b).s_rresp ≡ resp_okay
      → (read_state dut addr b).s_rdata ≡ word
      → Reports addr b rd resp word
  reports addr rd resp word b i okay shows =
      subst (λ r. (r.ok ≡ true) × (r.last_resp ≡ resp_okay) × (r.out_data ≡ word))
        (sym (read_single dut dut-IsReady 199 addr rd resp b i.out_of_reset)) (refl, okay, shows)

  -- From an idle bus and registers that agree with the software model, RELOAD among them, and after
  -- any sequence of the seven transactions that `main` makes, which are a read of RELOAD, COUNT or
  -- STATUS, a write to RELOAD of the value it has, a write of 1 or of 0 to CTRL and a write of 1 to
  -- STATUS, if no write to STATUS falls on a cycle in which the timer expires: a read of RELOAD, COUNT
  -- or STATUS succeeds and delivers what the software model predicts for it.
  pub reads-predicted :
      (cs : List Call) (rd resp : ℕ) (m : Model) (b : Bench Timer)
      → Tracks m b
      → AllClear cs m
      → let n = on_model_all cs m in
        let e = on_bench_all cs rd resp b in
        Reports 0x4 e rd resp reload
        × Reports 0x8 e rd resp n.model_count
        × Reports 0xC e rd resp (bit n.model_expired)
  unfolding step
  reads-predicted cs rd resp m b t c =
      let (a, i) = on_bench_all-Tracks cs rd resp m b t c in
      let e = on_bench_all cs rd resp b in
      (
        reports 0x4 rd resp reload e i (ground arith) (ground arith),
        reports 0x8 rd resp (on_model_all cs m).model_count e i (ground arith) (ground arith),
        reports 0xC rd resp (bit (on_model_all cs m).model_expired) e i (ground arith)
            (ground arith),
      )

  -- If the transaction that clears EXPIRED falls on the cycle in which the timer expires, the
  -- register stays set and the software model says that it is clear.
  pub clear_at_expiry :
      (rd resp : ℕ) (m : Model) (b : Bench Timer)
      → Tracks m b
      → m.model_en ≡ true
      → m.model_count ≡ 0
      → ((on_bench clear_status rd resp b).state.status_expired ≡ true)
        × ((on_model clear_status m).model_expired ≡ false)
  unfolding on_bench on_model step after_clear
  clear_at_expiry rd resp m b (a, i) en zero_count = (
    subst (λ w. w.bench.state.status_expired ≡ true)
        (sym (write_single dut dut-IsReady 199 0xC 0x1 0xF resp b i.out_of_reset)) (ground arith),
    ground arith,
  )
