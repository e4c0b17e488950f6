-- ===== src/Spi/Transfer/Exchange.antt =====
-- The bytes of master and slave in a transfer.
use riscv_soc.Base.{ℕ, ◌/◌, ◌%◌, ◌^◌, Bool, true, false, bit, test_bit, ◌==◌, ◌≡◌, refl, sym}
use riscv_soc.Base.{to_bits, to_number, arith, ap, ◌∙◌}
use mathlib.Core.Path.{subst}
use riscv_soc.Axi.Pins.{Bench, IsIdle}
use riscv_soc.Harness.{Sim}
use riscv_soc.Spi.{Spi, idle, step}
use riscv_soc.Spi.Transfer.{run_transfer}

-- Between two transfers, with DIVIDER = 4.
pub record IsQuiet (b : Bench Spi) : Type 0 where
  pub pins_idle : IsIdle b.pins
  pub divides : b.state.master.divider_reg ≡ 4
  pub not_running : b.state.master.state ≡ idle
  pub not_busy : b.state.master.busy ≡ false
  pub deselected : b.state.master.cs_n ≡ true
  pub was_deselected : b.state.slave.cs_n_prev ≡ true

abbrev quiet_form : Bench Spi → Bench Spi
quiet_form b = record {
  pins = record b.pins { resetn = true; awvalid = false; wvalid = false; arvalid = false };
  state = record b.state {
    master = record b.state.master { divider_reg = 4; state = idle; busy = false; cs_n = true };
    slave = record b.state.slave { cs_n_prev = true };
  };
}

quiet_form-eq : (b : Bench Spi) → IsQuiet b → quiet_form b ≡ b
quiet_form-eq b q = λ i. record {
  pins = record b.pins {
    resetn = sym q.pins_idle.out_of_reset i;
    awvalid = sym q.pins_idle.awvalid_low i;
    wvalid = sym q.pins_idle.wvalid_low i;
    arvalid = sym q.pins_idle.arvalid_low i;
  };
  state = record b.state {
    master = record b.state.master {
      divider_reg = sym q.divides i;
      state = sym q.not_running i;
      busy = sym q.not_busy i;
      cs_n = sym q.deselected i;
    };
    slave = record b.state.slave { cs_n_prev = sym q.was_deselected i };
  };
}

quiet_of : {b : Bench Spi} → quiet_form b ≡ b → IsQuiet b
quiet_of {b = b} e = subst IsQuiet e (record {
  pins_idle = record {
    out_of_reset = refl;
    awvalid_low = refl;
    wvalid_low = refl;
    arvalid_low = refl;
  };
  divides = refl;
  not_running = refl;
  not_busy = refl;
  deselected = refl;
  was_deselected = refl;
})

-- What a transfer leaves: its result, RXDATA, the byte of the slave, and a quiet bench.
pub record Exchanged (mtx stx : ℕ) (r : Bool × Sim Spi (Unit {0})) : Type 0 where
  pub completes : r.0 ≡ true
  pub master_received : to_number r.1.bench.state.master.rxdata_reg ≡ stx % 256
  pub slave_received : to_number r.1.bench.state.slave.received ≡ mtx % 256
  pub quiet : IsQuiet r.1.bench

bit_of : (n : ℕ) → bit (n % 2 == 1) ≡ n % 2
bit_of n = ground arith

bit_at : (x i n : ℕ) → x / 2 ^ i ≡ n → bit (test_bit x i) ≡ n % 2
bit_at x i n h = bit_of (x / 2 ^ i) ∙ ap (λ m. m % 2) h

to_number-to_bits : (x : ℕ) → to_number (to_bits 8 x) ≡ x % 256
to_number-to_bits x = omega (
  arith,
  bit_at x 0 x (omega arith),
  bit_at x 1 (x / 2) refl,
  bit_at x 2 (x / 4) refl,
  bit_at x 3 (x / 8) refl,
  bit_at x 4 (x / 16) refl,
  bit_at x 5 (x / 32) refl,
  bit_at x 6 (x / 64) refl,
  bit_at x 7 (x / 128) refl,
)

abbrev transfer : Bool → Bool → ℕ → ℕ → Sim Spi (Unit {0}) → Bool × Sim Spi (Unit {0})
transfer cpol cpha mtx stx s = run_transfer 2000 cpol cpha mtx stx s

form_bits :
    (cpol cpha : Bool) (mtx stx : ℕ) (s : Sim Spi (Unit {0}))
    → let r = transfer cpol cpha mtx stx (record s { bench = quiet_form s.bench }) in
      (r.0 ≡ true)
      × (r.1.bench.state.master.rxdata_reg ≡ to_bits 8 stx)
      × (r.1.bench.state.slave.received ≡ to_bits 8 mtx)
      × (quiet_form r.1.bench ≡ r.1.bench)
unfolding run_transfer step
form_bits false false mtx stx s = (refl, refl, refl, refl)
form_bits false true mtx stx s = (refl, refl, refl, refl)
form_bits true false mtx stx s = (refl, refl, refl, refl)
form_bits true true mtx stx s = (refl, refl, refl, refl)

form-Exchanged :
    (cpol cpha : Bool) (mtx stx : ℕ) (s : Sim Spi (Unit {0}))
    → Exchanged mtx stx (transfer cpol cpha mtx stx (record s { bench = quiet_form s.bench }))
form-Exchanged cpol cpha mtx stx s =
    let f = form_bits cpol cpha mtx stx s in
    record {
      completes = f.0;
      master_received = ap to_number f.1 ∙ to_number-to_bits stx;
      slave_received = ap to_number f.2 ∙ to_number-to_bits mtx;
      quiet = quiet_of f.3;
    }

-- In each of the four modes and from a quiet bench with DIVIDER = 4, `run_transfer` with its default
-- time limit completes: RXDATA holds the byte that the slave was to send, the slave has received the
-- byte written to TXDATA, and the bench is quiet again.
pub run_transfer-Exchanged :
    (cpol cpha : Bool) (mtx stx : ℕ) (s : Sim Spi (Unit {0}))
    → IsQuiet s.bench
    → Exchanged mtx stx (run_transfer 2000 cpol cpha mtx stx s)
run_transfer-Exchanged cpol cpha mtx stx s q =
    subst (λ b. Exchanged mtx stx (run_transfer 2000 cpol cpha mtx stx (record s { bench = b })))
      (quiet_form-eq s.bench q) (form-Exchanged cpol cpha mtx stx s)
