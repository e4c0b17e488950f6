-- ===== src/DmaRam/Load.antt =====
-- What `read_burst` delivers.
use riscv_soc.Base.{ℕ, zero, suc, ◌+◌, ◌<◌, ◌≤◌, Bool, true, false, List, [], ◌∷◌}
use riscv_soc.Base.{not, ◌&&◌, ◌≡◌, refl, sym, ap, arith}
use mathlib.Core.Path.{subst}
use riscv_soc.DmaRam.{w_idle, r_burst, word_index, next_index, dec_beats}
use riscv_soc.DmaRam.Burst.{RamBench, clock, read_beats, read_burst, read_address}
use riscv_soc.DmaRam.Quiet.{IsQuiet, quiet_form, quiet_form-eq, quiet_form-IsQuiet}

-- The words of `n` beats from word `i` on.
abbrev pub loaded : ℕ → ℕ → (ℕ → ℕ) → List ℕ
loaded zero i mem = []
loaded (suc n) i mem = mem i ∷ loaded n (next_index i) mem

-- In the data phase of a read burst with `k` beats to follow the one that is shown, if `shown`.
read_phase : Bool → ℕ → RamBench → RamBench
read_phase shown k b = record {
  pins = record b.pins {
    resetn = true;
    awvalid = false;
    wvalid = false;
    bready = false;
    arvalid = false;
    rready = true;
  };
  ram = record b.ram {
    w_state = w_idle;
    s_bvalid = false;
    r_state = r_burst;
    r_beats_left = k;
    s_rvalid = shown;
    s_rlast = not shown && b.ram.s_rlast;
  };
}

-- `dut->s_rready = 0;`
abbrev pub lower_rready : RamBench → RamBench
lower_rready b = record b { pins = record b.pins { rready = false } }

-- What a read loop delivers, and that the bench is quiet when `rready` goes down after it.
pub record BurstLoaded (out : List ℕ) (mem : ℕ → ℕ) (r : List ℕ × RamBench) : Type 0 where
  pub delivered : r.0 ≡ out
  pub kept : r.1.ram.mem ≡ mem
  pub quiet : IsQuiet (lower_rready r.1)

dec_beats-suc : (k : ℕ) → k < 256 → dec_beats (suc k) ≡ k
dec_beats-suc k h = omega arith

-- The registers after an edge that shows a beat.
shown_next : RamBench → RamBench
shown_next b = record b {
  ram = record b.ram {
    s_rdata = b.ram.mem b.ram.r_word_idx;
    s_rresp = 0;
    r_word_idx = next_index b.ram.r_word_idx;
  };
}

clock-read_phase :
    (shown : Bool) (k : ℕ) (b : RamBench)
    → suc k < 256
    → clock (read_phase shown (suc k) b) ≡ read_phase true k (shown_next b)
unfolding clock read_phase shown_next
clock-read_phase false k b h = ground (arith, dec_beats-suc k (omega arith))
clock-read_phase true k b h = ground (arith, dec_beats-suc k (omega arith))

push-BurstLoaded :
    (x : ℕ) (out : List ℕ) (mem : ℕ → ℕ) (r : List ℕ × RamBench)
    → BurstLoaded out mem r
    → BurstLoaded (x ∷ out) mem (x ∷ r.0, r.1)
push-BurstLoaded x out mem r h = record {
  delivered = ap (λ xs. x ∷ xs) h.delivered;
  kept = h.kept;
  quiet = h.quiet;
}

read_beats_lem :
    (k left : ℕ) (b : RamBench)
    → k < 256
    → k + 2 ≤ left
    → BurstLoaded
        (b.ram.s_rdata ∷ loaded (suc k) b.ram.r_word_idx b.ram.mem)
        b.ram.mem
        (read_beats left (read_phase true k b))
unfolding read_beats read_phase shown_next quiet_form
read_beats_lem k zero b h l = absurd (omega arith)
read_beats_lem k (suc zero) b h l = absurd (omega arith)
read_beats_lem zero (suc (suc left)) b h l = record {
  delivered = refl;
  kept = refl;
  quiet = quiet_form-IsQuiet (lower_rready (read_beats 2 (read_phase true 0 b)).1);
}
read_beats_lem (suc k) (suc (suc left)) b h l =
    let c = shown_next b in
    let r = read_beats_lem k (suc left) c (omega arith) (omega arith) in
    push-BurstLoaded b.ram.s_rdata (loaded (suc (suc k)) b.ram.r_word_idx b.ram.mem) b.ram.mem
      (read_beats (suc left) (clock (read_phase true (suc k) b)))
      (subst
        (λ d.
          BurstLoaded (loaded (suc (suc k)) b.ram.r_word_idx b.ram.mem) b.ram.mem
            (read_beats (suc left) d))
        (sym (clock-read_phase true k b h)) r)

first_beats_lem :
    (k left : ℕ) (b : RamBench)
    → k < 256
    → k + 3 ≤ left
    → BurstLoaded
        (loaded (suc k) b.ram.r_word_idx b.ram.mem)
        b.ram.mem
        (read_beats left (read_phase false k b))
unfolding read_beats read_phase shown_next quiet_form
first_beats_lem k zero b h l = absurd (omega arith)
first_beats_lem k (suc zero) b h l = absurd (omega arith)
first_beats_lem zero (suc (suc left)) b h l = record {
  delivered = refl;
  kept = refl;
  quiet = quiet_form-IsQuiet (lower_rready (read_beats 2 (read_phase false 0 b)).1);
}
first_beats_lem (suc k) (suc (suc left)) b h l =
    subst
      (λ d.
        BurstLoaded (loaded (suc (suc k)) b.ram.r_word_idx b.ram.mem) b.ram.mem
          (read_beats (suc left) d))
      (sym (clock-read_phase false k b h))
      (read_beats_lem k (suc left) (shown_next b) (omega arith) (omega arith))

form_loaded :
    (addr n : ℕ) (b : RamBench)
    → 1 ≤ n
    → n ≤ 256
    → BurstLoaded
        (loaded n (word_index addr) b.ram.mem)
        b.ram.mem
        (read_burst addr n (quiet_form b))
unfolding read_burst read_address read_phase quiet_form
form_loaded addr zero b l h = absurd (omega arith)
form_loaded addr (suc k) b l h =
    let r =
      subst
        (λ j.
          BurstLoaded (loaded (suc k) (word_index addr) b.ram.mem) b.ram.mem
            (read_beats 500 (read_address addr j (quiet_form b))))
        (sym (dec_beats-suc k (omega arith)))
        (first_beats_lem k 500 (read_address addr k (quiet_form b)) (omega arith) (omega arith)) in
    record { delivered = r.delivered; kept = r.kept; quiet = r.quiet }

-- From a quiet bench a read burst of 1 to 256 beats delivers the words of the memory from the
-- addressed one on and around its end, in order and all of them before its time limit, leaves the
-- memory alone and the bench quiet.
pub read_burst-loads :
    (addr n : ℕ) (b : RamBench)
    → IsQuiet b
    → 1 ≤ n
    → n ≤ 256
    → BurstLoaded (loaded n (word_index addr) b.ram.mem) b.ram.mem (read_burst addr n b)
unfolding quiet_form
read_burst-loads addr n b q l h =
    subst (λ d. BurstLoaded (loaded n (word_index addr) d.ram.mem) d.ram.mem (read_burst addr n d))
      (quiet_form-eq b q) (form_loaded addr n b l h)
