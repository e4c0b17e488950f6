-- ===== src/BootRom/ReadOnly.antt =====
-- Writes to the boot ROM, and reads after them.
use riscv_soc.Base.{ℕ, true, ◌≡◌, refl, sym, ap, ◌∙◌, arith}
use mathlib.Core.Path.{subst}
use riscv_soc.Axi.Pins.{Bench, IsIdle}
use riscv_soc.Axi.Bfm.{write, read}
use riscv_soc.Axi.Bfm.Ready.{IsReady, write_single, read_single}
use riscv_soc.BootRom.{BootRom, word_index, resp_okay, resp_slverr, step, dut}

pub dut-IsReady : IsReady dut
unfolding step
dut-IsReady = record {
  awready_on = λ p s. refl;
  wready_on = λ p s. refl;
  arready_on = λ p s. refl;
  answers_write = λ p s r a w. ground arith;
  answers_read = λ p s r a. ground arith;
}

-- A write completes with SLVERR, leaves every word of the memory as it was, and leaves the bus idle.
pub write_rejected :
    (addr word strb resp : ℕ) (b : Bench BootRom)
    → IsIdle b.pins
    → let w = write dut 200 addr word strb resp b in
      (w.ok ≡ true)
      × (w.last_resp ≡ resp_slverr)
      × (w.bench.state.mem ≡ b.state.mem)
      × IsIdle w.bench.pins
unfolding step
write_rejected addr word strb resp b h =
    subst
      (λ w.
        (w.ok ≡ true)
        × (w.last_resp ≡ resp_slverr)
        × (w.bench.state.mem ≡ b.state.mem)
        × IsIdle w.bench.pins)
      (sym (write_single dut dut-IsReady 199 addr word strb resp b h.out_of_reset))
      (refl, ground arith, ground arith, ground arith)

read-word :
    (addr rd resp : ℕ) (b : Bench BootRom)
    → IsIdle b.pins
    → let r = read dut 200 addr rd resp b in
      (r.ok ≡ true) × (r.last_resp ≡ resp_okay) × (r.out_data ≡ b.state.mem (word_index addr))
unfolding step
read-word addr rd resp b h =
    subst
      (λ r.
        (r.ok ≡ true) × (r.last_resp ≡ resp_okay) × (r.out_data ≡ b.state.mem (word_index addr)))
      (sym (read_single dut dut-IsReady 199 addr rd resp b h.out_of_reset))
      (refl, ground arith, ground arith)

-- From an idle bus a write of anything anywhere completes with SLVERR, and a later read delivers,
-- with OKAY, the word that the memory held before the write.
pub read-write_rejected :
    (addr word strb addr' rd resp : ℕ) (b : Bench BootRom)
    → IsIdle b.pins
    → let w = write dut 200 addr word strb resp b in
      let r = read dut 200 addr' rd w.last_resp w.bench in
      (w.ok ≡ true)
      × (w.last_resp ≡ resp_slverr)
      × (r.ok ≡ true)
      × (r.last_resp ≡ resp_okay)
      × (r.out_data ≡ b.state.mem (word_index addr'))
read-write_rejected addr word strb addr' rd resp b h =
    let w = write dut 200 addr word strb resp b in
    let (ok, err, kept, idle) = write_rejected addr word strb resp b h in
    let (ok', okay, shown) = read-word addr' rd w.last_resp w.bench idle in
    (ok, err, ok', okay, shown ∙ ap (λ m. m (word_index addr')) kept)
