-- ===== src/Aes/Ref/MixInverse.antt =====
-- `mix_columns` and `inv_mix_columns` of the reference model, factor by factor.
use riscv_soc.Base.{◌==◌, ◌≡◌, refl, ◌∙◌, true, all_below, all_equal}
use riscv_soc.Aes.Gf.{xtime, mul9, mul11, mul13, mul14}
use riscv_soc.Aes.Gf.Linear.{mul9-IsLinear, mul11-IsLinear, mul13-IsLinear, mul14-IsLinear}
use riscv_soc.Aes.Ref.{
  Column, Block, sum4, mul3, mix_column, inv_mix_column, mix_columns, inv_mix_columns,
}
use riscv_soc.Aes.Ref.Sums.{IsByteColumn, mixed_row, only_0, only_1, only_2, only_3}

table_00 :
    all_below 256 (λ x. sum4 (mul14 (xtime x)) (mul11 x) (mul13 x) (mul9 (mul3 x)) == x) ≡ true
unfolding all_below mul14 mul11 mul13 mul9
table_00 = refl

table_01 :
    all_below 256 (λ x. sum4 (mul14 (mul3 x)) (mul11 (xtime x)) (mul13 x) (mul9 x) == 0) ≡ true
unfolding all_below mul14 mul11 mul13 mul9
table_01 = refl

table_02 :
    all_below 256 (λ x. sum4 (mul14 x) (mul11 (mul3 x)) (mul13 (xtime x)) (mul9 x) == 0) ≡ true
unfolding all_below mul14 mul11 mul13 mul9
table_02 = refl

table_03 :
    all_below 256 (λ x. sum4 (mul14 x) (mul11 x) (mul13 (mul3 x)) (mul9 (xtime x)) == 0) ≡ true
unfolding all_below mul14 mul11 mul13 mul9
table_03 = refl

table_10 :
    all_below 256 (λ x. sum4 (mul9 (xtime x)) (mul14 x) (mul11 x) (mul13 (mul3 x)) == 0) ≡ true
unfolding all_below mul14 mul11 mul13 mul9
table_10 = refl

table_11 :
    all_below 256 (λ x. sum4 (mul9 (mul3 x)) (mul14 (xtime x)) (mul11 x) (mul13 x) == x) ≡ true
unfolding all_below mul14 mul11 mul13 mul9
table_11 = refl

table_12 :
    all_below 256 (λ x. sum4 (mul9 x) (mul14 (mul3 x)) (mul11 (xtime x)) (mul13 x) == 0) ≡ true
unfolding all_below mul14 mul11 mul13 mul9
table_12 = refl

table_13 :
    all_below 256 (λ x. sum4 (mul9 x) (mul14 x) (mul11 (mul3 x)) (mul13 (xtime x)) == 0) ≡ true
unfolding all_below mul14 mul11 mul13 mul9
table_13 = refl

table_20 :
    all_below 256 (λ x. sum4 (mul13 (xtime x)) (mul9 x) (mul14 x) (mul11 (mul3 x)) == 0) ≡ true
unfolding all_below mul14 mul11 mul13 mul9
table_20 = refl

table_21 :
    all_below 256 (λ x. sum4 (mul13 (mul3 x)) (mul9 (xtime x)) (mul14 x) (mul11 x) == 0) ≡ true
unfolding all_below mul14 mul11 mul13 mul9
table_21 = refl

table_22 :
    all_below 256 (λ x. sum4 (mul13 x) (mul9 (mul3 x)) (mul14 (xtime x)) (mul11 x) == x) ≡ true
unfolding all_below mul14 mul11 mul13 mul9
table_22 = refl

table_23 :
    all_below 256 (λ x. sum4 (mul13 x) (mul9 x) (mul14 (mul3 x)) (mul11 (xtime x)) == 0) ≡ true
unfolding all_below mul14 mul11 mul13 mul9
table_23 = refl

table_30 :
    all_below 256 (λ x. sum4 (mul11 (xtime x)) (mul13 x) (mul9 x) (mul14 (mul3 x)) == 0) ≡ true
unfolding all_below mul14 mul11 mul13 mul9
table_30 = refl

table_31 :
    all_below 256 (λ x. sum4 (mul11 (mul3 x)) (mul13 (xtime x)) (mul9 x) (mul14 x) == 0) ≡ true
unfolding all_below mul14 mul11 mul13 mul9
table_31 = refl

table_32 :
    all_below 256 (λ x. sum4 (mul11 x) (mul13 (mul3 x)) (mul9 (xtime x)) (mul14 x) == 0) ≡ true
unfolding all_below mul14 mul11 mul13 mul9
table_32 = refl

table_33 :
    all_below 256 (λ x. sum4 (mul11 x) (mul13 x) (mul9 (mul3 x)) (mul14 (xtime x)) == x) ≡ true
unfolding all_below mul14 mul11 mul13 mul9
table_33 = refl

inv_row0 : (s : Column) → IsByteColumn s → (inv_mix_column (mix_column s)).r0 ≡ s.r0
unfolding inv_mix_column
inv_row0 s h =
    mixed_row mul14 mul11 mul13 mul9 mul14-IsLinear mul11-IsLinear mul13-IsLinear mul9-IsLinear s h
    ∙ rw
        (
          all_equal 256 (λ x. sum4 (mul14 (xtime x)) (mul11 x) (mul13 x) (mul9 (mul3 x))) (λ x. x)
              s.r0 table_00 h.b0,
          all_equal 256 (λ x. sum4 (mul14 (mul3 x)) (mul11 (xtime x)) (mul13 x) (mul9 x)) (λ x. 0)
              s.r1 table_01 h.b1,
          all_equal 256 (λ x. sum4 (mul14 x) (mul11 (mul3 x)) (mul13 (xtime x)) (mul9 x)) (λ x. 0)
              s.r2 table_02 h.b2,
          all_equal 256 (λ x. sum4 (mul14 x) (mul11 x) (mul13 (mul3 x)) (mul9 (xtime x))) (λ x. 0)
              s.r3 table_03 h.b3,
        )
        (only_0 s.r0)

inv_row1 : (s : Column) → IsByteColumn s → (inv_mix_column (mix_column s)).r1 ≡ s.r1
unfolding inv_mix_column
inv_row1 s h =
    mixed_row mul9 mul14 mul11 mul13 mul9-IsLinear mul14-IsLinear mul11-IsLinear mul13-IsLinear s h
    ∙ rw
        (
          all_equal 256 (λ x. sum4 (mul9 (xtime x)) (mul14 x) (mul11 x) (mul13 (mul3 x))) (λ x. 0)
              s.r0 table_10 h.b0,
          all_equal 256 (λ x. sum4 (mul9 (mul3 x)) (mul14 (xtime x)) (mul11 x) (mul13 x)) (λ x. x)
              s.r1 table_11 h.b1,
          all_equal 256 (λ x. sum4 (mul9 x) (mul14 (mul3 x)) (mul11 (xtime x)) (mul13 x)) (λ x. 0)
              s.r2 table_12 h.b2,
          all_equal 256 (λ x. sum4 (mul9 x) (mul14 x) (mul11 (mul3 x)) (mul13 (xtime x))) (λ x. 0)
              s.r3 table_13 h.b3,
        )
        (only_1 s.r1)

inv_row2 : (s : Column) → IsByteColumn s → (inv_mix_column (mix_column s)).r2 ≡ s.r2
unfolding inv_mix_column
inv_row2 s h =
    mixed_row mul13 mul9 mul14 mul11 mul13-IsLinear mul9-IsLinear mul14-IsLinear mul11-IsLinear s h
    ∙ rw
        (
          all_equal 256 (λ x. sum4 (mul13 (xtime x)) (mul9 x) (mul14 x) (mul11 (mul3 x))) (λ x. 0)
              s.r0 table_20 h.b0,
          all_equal 256 (λ x. sum4 (mul13 (mul3 x)) (mul9 (xtime x)) (mul14 x) (mul11 x)) (λ x. 0)
              s.r1 table_21 h.b1,
          all_equal 256 (λ x. sum4 (mul13 x) (mul9 (mul3 x)) (mul14 (xtime x)) (mul11 x)) (λ x. x)
              s.r2 table_22 h.b2,
          all_equal 256 (λ x. sum4 (mul13 x) (mul9 x) (mul14 (mul3 x)) (mul11 (xtime x))) (λ x. 0)
              s.r3 table_23 h.b3,
        )
        (only_2 s.r2)

inv_row3 : (s : Column) → IsByteColumn s → (inv_mix_column (mix_column s)).r3 ≡ s.r3
unfolding inv_mix_column
inv_row3 s h =
    mixed_row mul11 mul13 mul9 mul14 mul11-IsLinear mul13-IsLinear mul9-IsLinear mul14-IsLinear s h
    ∙ rw
        (
          all_equal 256 (λ x. sum4 (mul11 (xtime x)) (mul13 x) (mul9 x) (mul14 (mul3 x))) (λ x. 0)
              s.r0 table_30 h.b0,
          all_equal 256 (λ x. sum4 (mul11 (mul3 x)) (mul13 (xtime x)) (mul9 x) (mul14 x)) (λ x. 0)
              s.r1 table_31 h.b1,
          all_equal 256 (λ x. sum4 (mul11 x) (mul13 (mul3 x)) (mul9 (xtime x)) (mul14 x)) (λ x. 0)
              s.r2 table_32 h.b2,
          all_equal 256 (λ x. sum4 (mul11 x) (mul13 x) (mul9 (mul3 x)) (mul14 (xtime x))) (λ x. x)
              s.r3 table_33 h.b3,
        )
        (only_3 s.r3)

inv_mix_column-mix_column : (s : Column) → IsByteColumn s → inv_mix_column (mix_column s) ≡ s
inv_mix_column-mix_column s h = λ i. record {
  r0 = inv_row0 s h i;
  r1 = inv_row1 s h i;
  r2 = inv_row2 s h i;
  r3 = inv_row3 s h i;
}

-- Sixteen bytes.
pub record IsByteBlock (s : Block) : Type 0 where
  pub k0 : IsByteColumn s.c0
  pub k1 : IsByteColumn s.c1
  pub k2 : IsByteColumn s.c2
  pub k3 : IsByteColumn s.c3

-- For every block of bytes, `inv_mix_columns` undoes `mix_columns`.
pub inv_mix_columns-mix_columns : (s : Block) → IsByteBlock s → inv_mix_columns (mix_columns s) ≡ s
unfolding inv_mix_columns mix_columns
inv_mix_columns-mix_columns s h = λ i. record {
  c0 = inv_mix_column-mix_column s.c0 h.k0 i;
  c1 = inv_mix_column-mix_column s.c1 h.k1 i;
  c2 = inv_mix_column-mix_column s.c2 h.k2 i;
  c3 = inv_mix_column-mix_column s.c3 h.k3 i;
}
