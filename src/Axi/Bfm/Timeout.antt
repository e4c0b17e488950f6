-- ===== src/Axi/Bfm/Timeout.antt =====
-- `AxiLiteBfm` against a slave that does not answer.
use riscv_soc.Base.{ℕ, zero, suc, false, ◌≡◌, refl, arith}
use riscv_soc.Axi.Pins.{Pins, Dut, Bench}
use riscv_soc.Axi.Bfm.{
  WriteVars, ReadVars, write_loop, read_loop, write_cycle, read_cycle, write, read, write_start,
  read_start,
}
use riscv_soc.Axi.Bfm.Loop.{write_loop_of_unfinished, read_loop_of_unfinished}

module _ {S : Type 0} (d : Dut S) where
  module _ (silent : (p : Pins) (s : S) → (d.outs p s).bvalid ≡ false) where
    silent_loop :
        (n : ℕ) (v : WriteVars S)
        → v.b_done ≡ false
        → ((write_loop d n v).b_done ≡ false) × ((write_loop d n v).last_resp ≡ v.last_resp)
    unfolding write_loop write_cycle
    silent_loop zero v h = (h, refl)
    silent_loop (suc n) v h = rw (write_loop_of_unfinished d n v (ground arith)) (
        let e = silent v.bench.pins (d.step v.bench.pins v.bench.state) in
        let (b, r) = silent_loop n (write_cycle d v) (rw e h) in (b, rw r (rw e refl)))

    -- A write to a slave that never raises `bvalid` reports failure, leaves the caller's response
    -- byte alone, and lowers `bready`.
    pub write_silent :
        (timeout addr word strb resp : ℕ) (b : Bench S)
        → let w = write d timeout addr word strb resp b in
          (w.ok ≡ false) × (w.last_resp ≡ resp) × (w.bench.pins.bready ≡ false)
    unfolding write
    write_silent timeout addr word strb resp b =
        let (undone, r) =
          silent_loop timeout
            (record {
              bench = write_start d addr word strb b;
              aw_done = false;
              w_done = false;
              b_done = false;
              last_resp = resp;
            })
            refl in
        (ground (arith, undone), r, refl)

  module _ (silent : (p : Pins) (s : S) → (d.outs p s).rvalid ≡ false) where
    silent_read_loop :
        (n : ℕ) (v : ReadVars S)
        → v.r_done ≡ false
        → ((read_loop d n v).r_done ≡ false)
          × ((read_loop d n v).last_resp ≡ v.last_resp)
          × ((read_loop d n v).out_data ≡ v.out_data)
    unfolding read_loop read_cycle
    silent_read_loop zero v h = (h, refl, refl)
    silent_read_loop (suc n) v h = rw (read_loop_of_unfinished d n v (ground arith)) (
        let e = silent v.bench.pins (d.step v.bench.pins v.bench.state) in
        let (b, r, o) = silent_read_loop n (read_cycle d v) (rw e h) in
        (b, rw r (rw e refl), rw o (rw e refl)))

    -- A read of a slave that never raises `rvalid` reports failure, leaves the caller's word and
    -- response byte alone, and lowers `rready`.
    pub read_silent :
        (timeout addr word resp : ℕ) (b : Bench S)
        → let r = read d timeout addr word resp b in
          (r.ok ≡ false)
          × (r.last_resp ≡ resp)
          × (r.out_data ≡ word)
          × (r.bench.pins.rready ≡ false)
    unfolding read
    read_silent timeout addr word resp b =
        let (undone, r, o) =
          silent_read_loop timeout
            (record {
              bench = read_start d addr b;
              ar_done = false;
              r_done = false;
              out_data = word;
              last_resp = resp;
            })
            refl in
        (ground (arith, undone), r, o, refl)
