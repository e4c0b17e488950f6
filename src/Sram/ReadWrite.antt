-- ===== src/Sram/ReadWrite.antt =====
-- What is read from the memory after a write.
use riscv_soc.Base.{ℕ, true, ◌==◌, if◌then◌else◌, ◌≡◌, refl, sym, merge_bytes, arith}
use mathlib.Core.Path.{subst}
use riscv_soc.Axi.Pins.{Bench, IsIdle}
use riscv_soc.Axi.Bfm.{write, read}
use riscv_soc.Axi.Bfm.Ready.{IsReady, write_single, read_single}
use riscv_soc.Sram.{Sram, word_index, resp_okay, step, dut}

pub dut-IsReady : IsReady dut
unfolding step
dut-IsReady = record {
  awready_on = λ p s. refl;
  wready_on = λ p s. refl;
  arready_on = λ p s. refl;
  answers_write = λ p s r a w. ground arith;
  answers_read = λ p s r a. ground arith;
}

-- What a write of a word leaves in the memory, and how it ends.
abbrev pub Stores : ℕ → ℕ → ℕ → ℕ → Bench Sram → Type 0
Stores addr word strb resp b =
    let w = write dut 200 addr word strb resp b in
    (w.ok ≡ true)
    × (w.last_resp ≡ resp_okay)
    × IsIdle w.bench.pins
    × ((i : ℕ)
        → w.bench.state.mem i ≡ (
            if i == word_index addr
            then merge_bytes strb word (b.state.mem (word_index addr))
            else b.state.mem i))

pub write-Stores :
    (addr word strb resp : ℕ) (b : Bench Sram) → IsIdle b.pins → Stores addr word strb resp b
unfolding step
write-Stores addr word strb resp b h =
    subst
      (λ w.
        (w.ok ≡ true)
        × (w.last_resp ≡ resp_okay)
        × IsIdle w.bench.pins
        × ((i : ℕ)
            → w.bench.state.mem i ≡ (
                if i == word_index addr
                then merge_bytes strb word (b.state.mem (word_index addr))
                else b.state.mem i)))
      (sym (write_single dut dut-IsReady 199 addr word strb resp b h.out_of_reset))
      (refl, ground arith, ground arith, λ i. ground arith)

-- A read delivers the addressed word and changes nothing in the memory.
pub read-word :
    (addr rd resp : ℕ) (b : Bench Sram)
    → IsIdle b.pins
    → let r = read dut 200 addr rd resp b in
      (r.ok ≡ true)
      × (r.last_resp ≡ resp_okay)
      × (r.out_data ≡ b.state.mem (word_index addr))
      × (r.bench.state.mem ≡ b.state.mem)
unfolding step
read-word addr rd resp b h =
    subst
      (λ r.
        (r.ok ≡ true)
        × (r.last_resp ≡ resp_okay)
        × (r.out_data ≡ b.state.mem (word_index addr))
        × (r.bench.state.mem ≡ b.state.mem))
      (sym (read_single dut dut-IsReady 199 addr rd resp b h.out_of_reset))
      (refl, ground arith, ground arith, ground arith)

-- From an idle bus a write and a later read both succeed with OKAY, and the read delivers, if both
-- addresses select the same word, the old word with the strobed bytes replaced, and otherwise the
-- word that was there before the write.
pub read-write :
    (addr word strb addr' rd resp : ℕ) (b : Bench Sram)
    → IsIdle b.pins
    → let w = write dut 200 addr word strb resp b in
      let r = read dut 200 addr' rd w.last_resp w.bench in
      (w.ok ≡ true)
      × (w.last_resp ≡ resp_okay)
      × (r.ok ≡ true)
      × (r.last_resp ≡ resp_okay)
      × (r.out_data ≡ (
          if word_index addr' == word_index addr
          then merge_bytes strb word (b.state.mem (word_index addr))
          else b.state.mem (word_index addr')))
read-write addr word strb addr' rd resp b h =
    let w = write dut 200 addr word strb resp b in
    let (ok, okay, idle, stored) = write-Stores addr word strb resp b h in
    let (ok', okay', shown, kept) = read-word addr' rd w.last_resp w.bench idle in
    (ok, okay, ok', okay', rw shown (stored (word_index addr')))
