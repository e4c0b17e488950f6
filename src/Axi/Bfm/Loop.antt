-- ===== src/Axi/Bfm/Loop.antt =====
-- The two loops of `AxiLiteBfm`, one round at a time.
use riscv_soc.Base.{ℕ, zero, suc, true, false, ◌≡◌, refl, arith}
use riscv_soc.Axi.Pins.{Dut}
use riscv_soc.Axi.Bfm.{
  WriteVars, ReadVars, write_finished, read_finished, write_loop, read_loop, write_cycle,
  read_cycle,
}

module _ {S : Type 0} (d : Dut S) where
  pub write_loop_of_finished :
      (n : ℕ) (v : WriteVars S) → write_finished d v ≡ true → write_loop d n v ≡ v
  unfolding write_loop
  write_loop_of_finished zero v h = refl
  write_loop_of_finished (suc n) v h = ground arith

  pub read_loop_of_finished :
      (n : ℕ) (v : ReadVars S) → read_finished d v ≡ true → read_loop d n v ≡ v
  unfolding read_loop
  read_loop_of_finished zero v h = refl
  read_loop_of_finished (suc n) v h = ground arith

  pub write_loop_of_unfinished :
      (n : ℕ) (v : WriteVars S)
      → write_finished d v ≡ false
      → write_loop d (suc n) v ≡ write_loop d n (write_cycle d v)
  unfolding write_loop
  write_loop_of_unfinished n v h = rw (h, write_loop) refl

  pub read_loop_of_unfinished :
      (n : ℕ) (v : ReadVars S)
      → read_finished d v ≡ false
      → read_loop d (suc n) v ≡ read_loop d n (read_cycle d v)
  unfolding read_loop
  read_loop_of_unfinished n v h = rw (h, read_loop) refl
