-- ===== src/Aes/Core/Agree.antt =====
-- The round transformations of blocks/aes/rtl/aes_core.v beside those of the reference model.
use riscv_soc.Base.{ℕ, ◌*◌, ◌%◌, bit_xor, Bool-cases, inl, inr, if◌then◌else◌}
use riscv_soc.Base.{List, test_bit, ◌≡◌, refl, sym, ◌∙◌, xor-mod256}
use riscv_soc.Aes.Gf.{init_tables, xtime, mul9, mul11, mul13, mul14}
use riscv_soc.Aes.Package.{tables-init_tables}
use riscv_soc.Aes.Ref.{
  Column, Block, look, on_bytes, on_columns, sum4, sub_bytes, inv_sub_bytes, shift_rows,
  inv_shift_rows, mix_column, mix_columns, inv_mix_column, inv_mix_columns, add_word, add_round_key,
}
use riscv_soc.Aes.KeyExpand.Rounds.{words_at}
use riscv_soc.Aes.Core.Round.{
  aes_sub_bytes, aes_inv_sub_bytes, aes_shift_rows, aes_inv_shift_rows, aes_xtime, aes_mix_column,
  aes_mix_columns, aes_inv_mix_column, aes_inv_mix_columns, xor_key, enc_round_next, enc_final_next,
  dec_round_next, dec_final_next,
}

aes_xtime-eq : (a : ℕ) → aes_xtime a ≡ xtime a
unfolding aes_xtime xtime
aes_xtime-eq a = elim (Bool-cases (test_bit a 7)) [
  | inl e ↦
      (λ i. if e i then bit_xor (a * 2 % 256) 0x1B else a * 2 % 256)
      ∙ (sym (xor-mod256 (a * 2) 0x1B)
          ∙ sym (λ i. (if e i then bit_xor (a * 2) 0x1B else a * 2) % 256))
  | inr e ↦
      (λ i. if e i then bit_xor (a * 2 % 256) 0x1B else a * 2 % 256)
      ∙ sym (λ i. (if e i then bit_xor (a * 2) 0x1B else a * 2) % 256)
]

same_xtime : aes_xtime ≡ xtime
same_xtime i a = aes_xtime-eq a i

-- The columns over any multiplication by 2.
module _ (double : ℕ → ℕ) where
  mixed : Column → Column
  mixed s = record {
    r0 = sum4 (double s.r0) (bit_xor (double s.r1) s.r1) s.r2 s.r3;
    r1 = sum4 s.r0 (double s.r1) (bit_xor (double s.r2) s.r2) s.r3;
    r2 = sum4 s.r0 s.r1 (double s.r2) (bit_xor (double s.r3) s.r3);
    r3 = sum4 (bit_xor (double s.r0) s.r0) s.r1 s.r2 (double s.r3);
  }

  abbrev times8 : ℕ → ℕ
  times8 a = double (double (double a))

  abbrev times9 : ℕ → ℕ
  times9 a = bit_xor (times8 a) a

  abbrev times11 : ℕ → ℕ
  times11 a = bit_xor (bit_xor (times8 a) (double a)) a

  abbrev times13 : ℕ → ℕ
  times13 a = bit_xor (bit_xor (times8 a) (double (double a))) a

  abbrev times14 : ℕ → ℕ
  times14 a = bit_xor (bit_xor (times8 a) (double (double a))) (double a)

  unmixed : Column → Column
  unmixed s = record {
    r0 = sum4 (times14 s.r0) (times11 s.r1) (times13 s.r2) (times9 s.r3);
    r1 = sum4 (times9 s.r0) (times14 s.r1) (times11 s.r2) (times13 s.r3);
    r2 = sum4 (times13 s.r0) (times9 s.r1) (times14 s.r2) (times11 s.r3);
    r3 = sum4 (times11 s.r0) (times13 s.r1) (times9 s.r2) (times14 s.r3);
  }

aes_mix_column-eq : (s : Column) → aes_mix_column s ≡ mix_column s
unfolding mixed aes_mix_column mix_column
aes_mix_column-eq s i = mixed (same_xtime i) s

aes_inv_mix_column-eq : (s : Column) → aes_inv_mix_column s ≡ inv_mix_column s
unfolding unmixed aes_inv_mix_column inv_mix_column mul9 mul11 mul13 mul14
aes_inv_mix_column-eq s i = unmixed (same_xtime i) s

aes_mix_columns-eq : (s : Block) → aes_mix_columns s ≡ mix_columns s
unfolding aes_mix_columns mix_columns
aes_mix_columns-eq s i = on_columns (λ c. aes_mix_column-eq c i) s

aes_inv_mix_columns-eq : (s : Block) → aes_inv_mix_columns s ≡ inv_mix_columns s
unfolding aes_inv_mix_columns inv_mix_columns
aes_inv_mix_columns-eq s i = on_columns (λ c. aes_inv_mix_column-eq c i) s

aes_sub_bytes-eq : (s : Block) → aes_sub_bytes s ≡ sub_bytes init_tables s
unfolding aes_sub_bytes sub_bytes
aes_sub_bytes-eq s i = on_columns (on_bytes (look (tables-init_tables.0 i))) s

aes_inv_sub_bytes-eq : (s : Block) → aes_inv_sub_bytes s ≡ inv_sub_bytes init_tables s
unfolding aes_inv_sub_bytes inv_sub_bytes
aes_inv_sub_bytes-eq s i = on_columns (on_bytes (look (tables-init_tables.1 i))) s

pub xor_key-eq : (w : List ℕ) (r : ℕ) (s : Block) → xor_key s (words_at w r) ≡ add_round_key w r s
unfolding xor_key add_round_key add_word
xor_key-eq w r s = refl

-- The wires of a round, for each key of a schedule, are the round of the reference model, in both
-- directions, and so are those of the last round.
pub rounds-agree :
    (w : List ℕ) (r : ℕ) (s : Block)
    → let k = words_at w r in
      (enc_round_next s k ≡ add_round_key w r (mix_columns (shift_rows (sub_bytes init_tables s))))
      × (enc_final_next s k ≡ add_round_key w r (shift_rows (sub_bytes init_tables s)))
      × (dec_round_next s k
          ≡ inv_mix_columns (add_round_key w r (inv_sub_bytes init_tables (inv_shift_rows s))))
      × (dec_final_next s k ≡ add_round_key w r (inv_sub_bytes init_tables (inv_shift_rows s)))
unfolding enc_round_next enc_final_next dec_round_next dec_final_next aes_shift_rows
    aes_inv_shift_rows shift_rows inv_shift_rows xor_key add_round_key add_word
rounds-agree w r s = (
  λ i. add_round_key w r (aes_mix_columns-eq (shift_rows (aes_sub_bytes-eq s i)) i),
  λ i. add_round_key w r (shift_rows (aes_sub_bytes-eq s i)),
  λ i. aes_inv_mix_columns-eq (add_round_key w r (aes_inv_sub_bytes-eq (inv_shift_rows s) i)) i,
  λ i. add_round_key w r (aes_inv_sub_bytes-eq (inv_shift_rows s) i),
)
