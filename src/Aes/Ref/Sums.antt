-- ===== src/Aes/Ref/Sums.antt =====
-- Linear maps on the sums of `mix_columns`, row by row.
use riscv_soc.Base.{ℕ, ◌<◌, bit_xor, ◌≡◌, refl, ◌∙◌, ap, xor_swap, xor-zero, zero-xor, xor-lt}
use riscv_soc.Aes.Gf.{xtime}
use riscv_soc.Aes.Gf.Linear.{IsLinear, xtime-IsLinear, mul3-IsLinear}
use riscv_soc.Aes.Ref.{Column, sum4, mul3, mix_column}

pub sum4-lt : (a b c d : ℕ) → a < 256 → b < 256 → c < 256 → d < 256 → sum4 a b c d < 256
sum4-lt a b c d ha hb hc hd =
    xor-lt 8 (bit_xor (bit_xor a b) c) d (xor-lt 8 (bit_xor a b) c (xor-lt 8 a b ha hb) hc) hd

-- A linear map goes through a sum.
pub linear-sum4 :
    (f : ℕ → ℕ)
    → IsLinear f
    → (a b c d : ℕ) → a < 256
    → b < 256
    → c < 256
    → d < 256
    → f (sum4 a b c d) ≡ sum4 (f a) (f b) (f c) (f d)
linear-sum4 f p a b c d ha hb hc hd =
    let hab = xor-lt 8 a b ha hb in
    rw (p.respects (bit_xor (bit_xor a b) c) d (xor-lt 8 (bit_xor a b) c hab hc) hd)
      (rw (p.respects (bit_xor a b) c hab hc) (rw (p.respects a b ha hb) refl))

sum4-xor :
    (a b c d e f g h : ℕ)
    → bit_xor (sum4 a b c d) (sum4 e f g h)
      ≡ sum4 (bit_xor a e) (bit_xor b f) (bit_xor c g) (bit_xor d h)
sum4-xor a b c d e f g h =
    xor_swap (bit_xor (bit_xor a b) c) d (bit_xor (bit_xor e f) g) h
    ∙ ap (λ x. bit_xor x (bit_xor d h))
        (xor_swap (bit_xor a b) c (bit_xor e f) g
          ∙ ap (λ x. bit_xor x (bit_xor c g)) (xor_swap a b e f))

-- The sum of the rows of a square is the sum of its columns.
sum4-transpose :
    (a0 a1 a2 a3 b0 b1 b2 b3 c0 c1 c2 c3 d0 d1 d2 d3 : ℕ)
    → sum4 (sum4 a0 a1 a2 a3) (sum4 b0 b1 b2 b3) (sum4 c0 c1 c2 c3) (sum4 d0 d1 d2 d3)
      ≡ sum4 (sum4 a0 b0 c0 d0) (sum4 a1 b1 c1 d1) (sum4 a2 b2 c2 d2) (sum4 a3 b3 c3 d3)
sum4-transpose a0 a1 a2 a3 b0 b1 b2 b3 c0 c1 c2 c3 d0 d1 d2 d3 =
    ap (λ x. bit_xor (bit_xor x (sum4 c0 c1 c2 c3)) (sum4 d0 d1 d2 d3))
      (sum4-xor a0 a1 a2 a3 b0 b1 b2 b3)
    ∙ (ap (λ x. bit_xor x (sum4 d0 d1 d2 d3))
          (sum4-xor (bit_xor a0 b0) (bit_xor a1 b1) (bit_xor a2 b2) (bit_xor a3 b3) c0 c1 c2 c3)
        ∙ sum4-xor (bit_xor (bit_xor a0 b0) c0) (bit_xor (bit_xor a1 b1) c1)
            (bit_xor (bit_xor a2 b2) c2) (bit_xor (bit_xor a3 b3) c3) d0 d1 d2 d3)

-- Four bytes.
pub record IsByteColumn (c : Column) : Type 0 where
  pub b0 : c.r0 < 256
  pub b1 : c.r1 < 256
  pub b2 : c.r2 < 256
  pub b3 : c.r3 < 256

-- One row of `inv_mix_column`, with linear maps for its factors, applied to a mixed column: the sum
-- over the bytes of what each of them contributes.
pub mixed_row :
    (f0 f1 f2 f3 : ℕ → ℕ)
    → IsLinear f0
    → IsLinear f1
    → IsLinear f2
    → IsLinear f3
    → (s : Column) → IsByteColumn s
    → let m = mix_column s in
      sum4 (f0 m.r0) (f1 m.r1) (f2 m.r2) (f3 m.r3)
      ≡ sum4
          (sum4 (f0 (xtime s.r0)) (f1 s.r0) (f2 s.r0) (f3 (mul3 s.r0)))
          (sum4 (f0 (mul3 s.r1)) (f1 (xtime s.r1)) (f2 s.r1) (f3 s.r1))
          (sum4 (f0 s.r2) (f1 (mul3 s.r2)) (f2 (xtime s.r2)) (f3 s.r2))
          (sum4 (f0 s.r3) (f1 s.r3) (f2 (mul3 s.r3)) (f3 (xtime s.r3)))
unfolding mix_column
mixed_row f0 f1 f2 f3 p0 p1 p2 p3 s h =
    let x = xtime-IsLinear.is_byte in
    let t = mul3-IsLinear.is_byte in
    rw
      (
        linear-sum4 f0 p0 (xtime s.r0) (mul3 s.r1) s.r2 s.r3 (x s.r0 h.b0) (t s.r1 h.b1) h.b2 h.b3,
        linear-sum4 f1 p1 s.r0 (xtime s.r1) (mul3 s.r2) s.r3 h.b0 (x s.r1 h.b1) (t s.r2 h.b2) h.b3,
        linear-sum4 f2 p2 s.r0 s.r1 (xtime s.r2) (mul3 s.r3) h.b0 h.b1 (x s.r2 h.b2) (t s.r3 h.b3),
        linear-sum4 f3 p3 (mul3 s.r0) s.r1 s.r2 (xtime s.r3) (t s.r0 h.b0) h.b1 h.b2 (x s.r3 h.b3),
      )
      (sum4-transpose (f0 (xtime s.r0)) (f0 (mul3 s.r1)) (f0 s.r2) (f0 s.r3) (f1 s.r0)
        (f1 (xtime s.r1)) (f1 (mul3 s.r2)) (f1 s.r3) (f2 s.r0) (f2 s.r1) (f2 (xtime s.r2))
        (f2 (mul3 s.r3)) (f3 (mul3 s.r0)) (f3 s.r1) (f3 s.r2) (f3 (xtime s.r3)))

pub only_0 : (x : ℕ) → sum4 x 0 0 0 ≡ x
only_0 x = simp xor-zero

pub only_1 : (x : ℕ) → sum4 0 x 0 0 ≡ x
only_1 x = simp (xor-zero, zero-xor)

pub only_2 : (x : ℕ) → sum4 0 0 x 0 ≡ x
only_2 x = simp (xor-zero, zero-xor)

pub only_3 : (x : ℕ) → sum4 0 0 0 x ≡ x
only_3 x = simp (xor-zero, zero-xor)
