-- ===== src/DmaRam/Beats.antt =====
-- How the read channel treats a beat that the master is not ready for.
use riscv_soc.Base.{ℕ, zero, suc, true, false, not, ◌&&◌, ◌≡◌, arith}
use riscv_soc.DmaRam.{RamPins, Ram, r_burst, r_idle, step, edge, read_path, write_edge}

-- Edges with the same pins.
abbrev pub edges : RamPins → ℕ → Ram → Ram
edges q zero s = s
edges q (suc n) s = edges q n (step q s)

-- An idle channel that is asked for nothing.
rest :
    (q : RamPins) (s : Ram)
    → q.resetn ≡ true
    → q.arvalid ≡ false
    → s.r_state ≡ r_idle
    → ((step q s).s_rvalid ≡ false) × ((step q s).r_state ≡ r_idle)
unfolding step edge read_path write_edge
rest q s e a i = ground arith

rests :
    (q : RamPins) (n : ℕ) (s : Ram)
    → q.resetn ≡ true
    → q.arvalid ≡ false
    → s.r_state ≡ r_idle
    → ((edges q (suc n) s).s_rvalid ≡ false) × ((edges q (suc n) s).r_state ≡ r_idle)
rests q zero s e a i = rest q s e a i
rests q (suc n) s e a i = rests q n (step q s) e a (rest q s e a i).1

-- Out of reset, with the master not ready for read data.
pub record IsStalled (p : RamPins) : Type 0 where
  pub out_of_reset : p.resetn ≡ true
  pub not_ready : p.rready ≡ false

-- A beat that is shown and not taken is held if more beats follow it.
pub beat_held :
    (p : RamPins) (s : Ram)
    → IsStalled p
    → s.r_state ≡ r_burst
    → s.s_rvalid ≡ true
    → ((step p s).s_rvalid ≡ true)
      × ((step p s).s_rdata ≡ s.s_rdata)
      × ((step p s).s_rlast ≡ s.s_rlast)
      × ((step p s).r_beats_left ≡ s.r_beats_left)
unfolding step
beat_held p s h e v = ground arith

-- Out of reset, the last beat of a burst, whether or not others came before it, is shown on the edge at
-- which the one before it, if there is one, is taken, and the channel is idle from then on. It is
-- shown for one edge only: if from then on the master is not ready for it and asks for no other burst,
-- with the same levels on its pins at every edge, it is withdrawn at the next edge, and the channel
-- stays idle and shows nothing.
pub last_beat_withdrawn :
    (p q : RamPins) (s : Ram) (n : ℕ)
    → p.resetn ≡ true
    → (s.s_rvalid && not p.rready) ≡ false
    → IsStalled q
    → q.arvalid ≡ false
    → s.r_state ≡ r_burst
    → s.r_beats_left ≡ 0
    → let t = step p s in
      (t.s_rvalid ≡ true)
      × (t.s_rlast ≡ true)
      × (t.s_rdata ≡ s.mem s.r_word_idx)
      × (t.r_state ≡ r_idle)
      × ((edges q (suc n) t).s_rvalid ≡ false)
      × ((edges q (suc n) t).r_state ≡ r_idle)
unfolding step edge read_path write_edge
last_beat_withdrawn p q s n hp taken hq na e l =
    let t = step p s in
    let shown : (t.s_rvalid ≡ true)
        × (t.s_rlast ≡ true)
        × (t.s_rdata ≡ s.mem s.r_word_idx)
        × (t.r_state ≡ r_idle) =
      ground arith in
    let after = rests q n t hq.out_of_reset na shown.3 in
    (shown.0, shown.1, shown.2, shown.3, after.0, after.1)
