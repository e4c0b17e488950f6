-- ===== src/DmaRam/Store.antt =====
-- What `write_burst` leaves in the memory.
use riscv_soc.Base.{ℕ, Bool, true, false, List, [], ◌∷◌, update, merge_bytes, length}
use riscv_soc.Base.{◌≡◌, refl}
use mathlib.Core.Path.{subst}
use riscv_soc.DmaRam.{w_idle, w_burst, r_idle, word_index, next_index, dec_beats}
use riscv_soc.DmaRam.Burst.{RamBench, Beat, clock, write_beats, write_burst, write_response}
use riscv_soc.DmaRam.Burst.{write_address}
use riscv_soc.DmaRam.Quiet.{IsQuiet, quiet_form, quiet_form-eq, quiet_form-IsQuiet}

-- The memory after a burst from word `i` on.
abbrev pub store_beats : List Beat → ℕ → (ℕ → ℕ) → ℕ → ℕ
store_beats [] i mem = mem
store_beats (x ∷ xs) i mem =
    store_beats xs (next_index i) (update mem i (merge_bytes x.strobe x.word (mem i)))

-- In the data phase of a write burst, and waiting for the response to be taken.
write_phase : RamBench → RamBench
write_phase b = record {
  pins = record b.pins {
    resetn = true;
    awvalid = false;
    bready = false;
    arvalid = false;
    rready = false;
  };
  ram = record b.ram { w_state = w_burst; s_bvalid = false; r_state = r_idle; s_rvalid = false };
}

response_phase : RamBench → RamBench
response_phase b = record {
  pins = record b.pins {
    resetn = true;
    awvalid = false;
    bready = false;
    arvalid = false;
    rready = false;
  };
  ram = record b.ram {
    w_state = w_idle;
    s_bvalid = true;
    s_bresp = 0;
    r_state = r_idle;
    s_rvalid = false;
  };
}

-- One beat that is not the last.
beat : Beat → RamBench → RamBench
unfolding write_phase clock
beat x b = clock (record (write_phase b) {
  pins = record (write_phase b).pins {
    wvalid = true;
    wdata = x.word;
    wstrb = x.strobe;
    wlast = false;
  };
})

write_beats_lem :
    (x : Beat) (xs : List Beat) (b : RamBench)
    → let c = write_beats (x ∷ xs) (write_phase b) in
      (c.ram.mem ≡ store_beats (x ∷ xs) b.ram.w_word_idx b.ram.mem) × (response_phase c ≡ c)
unfolding write_beats write_phase response_phase beat merge_bytes
write_beats_lem x [] b = (refl, refl)
write_beats_lem x (y ∷ ys) b = write_beats_lem y ys (beat x b)

-- What a write burst leaves.
pub record BurstStored (addr : ℕ) (xs : List Beat) (mem : ℕ → ℕ) (r : Bool × RamBench)
    : Type 0 where
  pub reports_ok : r.0 ≡ true
  pub stored : r.1.ram.mem ≡ store_beats xs (word_index addr) mem
  pub quiet : IsQuiet r.1

responded :
    (addr : ℕ) (xs : List Beat) (mem : ℕ → ℕ) (c : RamBench)
    → c.ram.mem ≡ store_beats xs (word_index addr) mem
    → response_phase c ≡ c
    → BurstStored addr xs mem (write_response c)
unfolding write_response response_phase quiet_form
responded addr xs mem c m e =
    subst
      (λ d.
        d.ram.mem ≡ store_beats xs (word_index addr) mem
        → BurstStored addr xs mem (write_response d))
      e
      (λ k. record {
        reports_ok = refl;
        stored = k;
        quiet = quiet_form-IsQuiet (write_response (response_phase c)).1;
      })
      m

-- The bench when the write address has been taken.
addressed : ℕ → ℕ → RamBench → RamBench
unfolding write_address quiet_form
addressed addr len b = write_address addr len (quiet_form b)

form_stored :
    (addr : ℕ) (x : Beat) (xs : List Beat) (b : RamBench)
    → BurstStored addr (x ∷ xs) b.ram.mem (write_burst addr (x ∷ xs) (quiet_form b))
unfolding write_burst write_phase quiet_form addressed
form_stored addr x xs b =
    let a = addressed addr (dec_beats (length (x ∷ xs))) b in
    let l = write_beats_lem x xs a in
    responded addr (x ∷ xs) b.ram.mem (write_beats (x ∷ xs) (write_phase a)) l.0 l.1

-- From a quiet bench a write burst of at least one beat succeeds with OKAY, leaves the bench quiet,
-- and the memory holds what the strobed beats one after the other make of it, from the addressed
-- word on and around its end.
pub write_burst-stores :
    (addr : ℕ) (x : Beat) (xs : List Beat) (b : RamBench)
    → IsQuiet b
    → BurstStored addr (x ∷ xs) b.ram.mem (write_burst addr (x ∷ xs) b)
unfolding quiet_form
write_burst-stores addr x xs b h =
    subst (λ d. BurstStored addr (x ∷ xs) d.ram.mem (write_burst addr (x ∷ xs) d))
      (quiet_form-eq b h) (form_stored addr x xs b)
