-- ===== src/Aes/Regs/Bus.antt =====
-- Writes and reads of the registers of blocks/aes/rtl/aes.v through the bus functional model.
use riscv_soc.Base.{ℕ, true}
use riscv_soc.Base.{◌≡◌, refl, sym, ap, arith}
use mathlib.Core.Path.{subst}
use riscv_soc.Axi.Pins.{Pins, Bench, IsIdle}
use riscv_soc.Axi.Bfm
use riscv_soc.Axi.Bfm.Ready.{IsReady, write_single, read_single}
use riscv_soc.Harness.{Sim, write, read}
use riscv_soc.Aes.Regs.{Aes, dut, step, edge, outs, read_reg, offset}

pub dut-IsReady : IsReady dut
unfolding step outs edge
dut-IsReady = record {
  awready_on = λ p s. refl;
  wready_on = λ p s. refl;
  arready_on = λ p s. refl;
  answers_write = λ p s r a w. ground arith;
  answers_read = λ p s r a. ground arith;
}

-- The bus is idle between two transactions, and the registers have a property.
pub record On (P : Aes → Type 0) (s : Sim Aes (Unit {0})) : Type 0 where
  pub idle : IsIdle s.bench.pins
  pub holds : P s.bench.state

-- The registers after the one edge of a write.
abbrev pub after_write : ℕ → ℕ → Bench Aes → Aes
after_write addr word b = edge (Bfm.write_start dut addr word 0xF b).pins b.state

abbrev pub after_read : ℕ → Bench Aes → Aes
after_read addr b = edge (Bfm.read_start dut addr b).pins b.state

step-eq : (p : Pins) (s : Aes) → p.resetn ≡ true → step p s ≡ edge p s
unfolding step
step-eq p s e = rw e refl

pub write-On :
    (P : Aes → Type 0) (addr word : ℕ) (s : Sim Aes (Unit {0}))
    → IsIdle s.bench.pins
    → P (after_write addr word s.bench)
    → On P (write dut addr word 0xF s).1
unfolding write Bfm.write
write-On P addr word s i h =
    let p = (Bfm.write_start dut addr word 0xF s.bench).pins in
    let now = subst P (sym (step-eq p s.bench.state i.out_of_reset)) h in
    subst (λ (w : Bfm.Written Aes). On P (record s { bench = w.bench; resp = w.last_resp }))
      (sym (write_single dut dut-IsReady 199 addr word 0xF s.resp s.bench i.out_of_reset))
      (record {
        idle = record {
          out_of_reset = i.out_of_reset;
          awvalid_low = refl;
          wvalid_low = refl;
          arvalid_low = i.arvalid_low;
        };
        holds = now;
      })

pub read-On :
    (P : Aes → Type 0) (addr : ℕ) (s : Sim Aes (Unit {0}))
    → IsIdle s.bench.pins
    → P (after_read addr s.bench)
    → On P (read dut addr s).1 × ((read dut addr s).1.rd ≡ read_reg (offset addr) s.bench.state)
unfolding read Bfm.read outs edge
read-On P addr s i h =
    let p = (Bfm.read_start dut addr s.bench).pins in
    let e = step-eq p s.bench.state i.out_of_reset in
    subst
      (λ (r : Bfm.Read Aes).
        On P (record s { bench = r.bench; rd = r.out_data; resp = r.last_resp })
        × (r.out_data ≡ read_reg (offset addr) s.bench.state))
      (sym (read_single dut dut-IsReady 199 addr s.rd s.resp s.bench i.out_of_reset))
      (
        record {
          idle = record {
            out_of_reset = i.out_of_reset;
            awvalid_low = i.awvalid_low;
            wvalid_low = i.wvalid_low;
            arvalid_low = refl;
          };
          holds = subst P (sym e) h;
        },
        ap (λ (a : Aes). a.s_rdata) e,
      )
