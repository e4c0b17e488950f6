-- ===== src/Axi/Bfm/Frame.antt =====
-- What `AxiLiteBfm` does to any design at all: clock edges, as many as the time limit allows.
use riscv_soc.Base.{
  ℕ, zero, suc, ◌≤◌, Bool, true, false, ◌≡◌, refl, ap, inl, inr, ◌&&◌, arith, Bool-cases, and_left,
  and_right,
}
use riscv_soc.Axi.Pins.{Pins, Dut, Bench}
use riscv_soc.Axi.Bfm.{
  WriteVars, ReadVars, write_finished, read_finished, write_loop, read_loop, write_cycle,
  read_cycle, write, read,
}
use riscv_soc.Axi.Bfm.Loop.{
  write_loop_of_finished, read_loop_of_finished, write_loop_of_unfinished, read_loop_of_unfinished,
}

-- `k` rising edges lead from one register state to another.
pub data Edges {S : Type 0} (d : Dut S) : ℕ → S → S → Type 0 where
  here : {s : S} → Edges d zero s s
  edge : {k : ℕ} {s t : S} (p : Pins) → Edges d k (d.step p s) t → Edges d (suc k) s t

-- The result `t` is reached within `n` edges, and after exactly `n` if the transaction failed.
abbrev pub Within : {S : Type 0} → Dut S → ℕ → S → S → Bool → Type 0
Within d n s t ok = (k : ℕ) × (k ≤ n) × Edges d k s t × (ok ≡ false → k ≡ n)

module _ {S : Type 0} (d : Dut S) where
  write_loop-Within :
      (n : ℕ) (v : WriteVars S)
      → Within d n v.bench.state
          (write_loop d n v).bench.state
          (write_finished d (write_loop d n v))
  unfolding write_loop write_cycle
  write_loop-Within zero v = (0, omega arith, here, λ _. refl)
  write_loop-Within (suc n) v = elim (Bool-cases (write_finished d v)) [
    | inl e ↦ rw (write_loop_of_finished d (suc n) v e) (0, omega arith, here, λ f. cc)
    | inr e ↦
        let (k, le, es, all) = write_loop-Within n (write_cycle d v) in
        rw (write_loop_of_unfinished d n v e)
          (suc k, omega arith, edge v.bench.pins es, λ f. ap suc (all f))
  ]

  read_loop-Within :
      (n : ℕ) (v : ReadVars S)
      → Within d n v.bench.state (read_loop d n v).bench.state (read_finished d (read_loop d n v))
  unfolding read_loop read_cycle
  read_loop-Within zero v = (0, omega arith, here, λ _. refl)
  read_loop-Within (suc n) v = elim (Bool-cases (read_finished d v)) [
    | inl e ↦ rw (read_loop_of_finished d (suc n) v e) (0, omega arith, here, λ f. cc)
    | inr e ↦
        let (k, le, es, all) = read_loop-Within n (read_cycle d v) in
        rw (read_loop_of_unfinished d n v e)
          (suc k, omega arith, edge v.bench.pins es, λ f. ap suc (all f))
  ]

  -- For every design, a write advances it by at most `timeout` clock edges, and by exactly that
  -- many when it reports failure.
  pub write-Within :
      (timeout addr word strb resp : ℕ) (b : Bench S)
      → let w = write d timeout addr word strb resp b in Within d timeout b.state w.bench.state w.ok
  unfolding write
  write-Within timeout addr word strb resp b = write_loop-Within timeout _

  -- For every design, a read advances it by at most `timeout` clock edges, and by exactly that
  -- many when it reports failure.
  pub read-Within :
      (timeout addr word resp : ℕ) (b : Bench S)
      → let r = read d timeout addr word resp b in Within d timeout b.state r.bench.state r.ok
  unfolding read
  read-Within timeout addr word resp b = read_loop-Within timeout _

  -- The responses and words that a design can show, as a contract that its edges keep.
  module _ {ℓ κ} (Inv : S → Type ℓ) (keep : (p : Pins) (s : S) → Inv s → Inv (d.step p s))
      (Good : ℕ → Type κ) where
    module _
        (shows : (p : Pins) (s : S)
          → Inv s
          → (d.outs p s).bvalid ≡ true
          → Good (d.outs p s).bresp) where
      write_cycle-Good :
          (v : WriteVars S)
          → Inv v.bench.state
          → (v.b_done ≡ true → Good v.last_resp)
          → (write_cycle d v).b_done ≡ true
          → Good (write_cycle d v).last_resp
      unfolding write_cycle
      write_cycle-Good v i g =
          let p = v.bench.pins in
          let s = d.step p v.bench.state in
          elim (Bool-cases ((d.outs p s).bvalid && p.bready)) [
            | inl e ↦ rw e λ _. shows p s (keep p v.bench.state i) (and_left _ _ e)
            | inr e ↦ rw e g
          ]

      write_loop-Good :
          (n : ℕ) (v : WriteVars S)
          → Inv v.bench.state
          → (v.b_done ≡ true → Good v.last_resp)
          → write_finished d (write_loop d n v) ≡ true
          → Good (write_loop d n v).last_resp
      unfolding write_loop write_cycle
      write_loop-Good zero v i g f = g (and_right _ _ (and_right v.aw_done _ f))
      write_loop-Good (suc n) v i g f = elim (Bool-cases (write_finished d v)) [
        | inl e ↦
            rw (write_loop_of_finished d (suc n) v e) (g (and_right _ _ (and_right v.aw_done _ e)))
        | inr e ↦ rw (write_loop_of_unfinished d n v e) (
            write_loop-Good n (write_cycle d v) (keep v.bench.pins v.bench.state i)
              (write_cycle-Good v i g) (rw (write_loop_of_unfinished d n v e) at f))
      ]

      -- If every response that the design shows while an invariant of its edges holds is `Good`,
      -- then the response that a successful write reports is `Good`.
      pub write-Good :
          (timeout addr word strb resp : ℕ) (b : Bench S)
          → let w = write d timeout addr word strb resp b in
            Inv b.state → w.ok ≡ true → Good w.last_resp
      unfolding write
      write-Good timeout addr word strb resp b i ok = write_loop-Good timeout _ i (λ e. cc) ok
