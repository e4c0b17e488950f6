-- ===== src/Aes/Gf/Linear.antt =====
-- The constant factors of blocks/aes/dv/diff_sim_main.cpp as linear maps over exclusive or.
use riscv_soc.Base.{
  ℕ, ◌<◌, bit_xor, ◌==◌, ◌≡◌, refl, true, all_below, all_below_sound, all_equal, xor_swap, xor-lt,
  arith,
}
use riscv_soc.Aes.Gf.{xtime, mul9, mul11, mul13, mul14}

-- A map of bytes to bytes that respects exclusive or.
pub record IsLinear (f : ℕ → ℕ) : Type 0 where
  pub respects : (a b : ℕ) → a < 256 → b < 256 → f (bit_xor a b) ≡ bit_xor (f a) (f b)
  pub is_byte : (a : ℕ) → a < 256 → f a < 256

xtime_table :
    all_below 256 (λ a. all_below 256 (λ b. xtime (bit_xor a b) == bit_xor (xtime a) (xtime b)))
    ≡ true
unfolding all_below xtime
xtime_table = refl

xtime-respects : (a b : ℕ) → a < 256 → b < 256 → xtime (bit_xor a b) ≡ bit_xor (xtime a) (xtime b)
xtime-respects a b h k =
    all_equal 256 (λ c. xtime (bit_xor a c)) (λ c. bit_xor (xtime a) (xtime c)) b
      (all_below_sound 256 _ a xtime_table h) k

xtime-is_byte : (a : ℕ) → a < 256 → xtime a < 256
unfolding xtime
xtime-is_byte a h = omega arith

pub xtime-IsLinear : IsLinear xtime
xtime-IsLinear = record { respects = xtime-respects; is_byte = xtime-is_byte }

pub id-IsLinear : IsLinear (λ x. x)
id-IsLinear = record { respects = λ a b h k. refl; is_byte = λ a h. h }

pub compose-IsLinear : (f g : ℕ → ℕ) → IsLinear f → IsLinear g → IsLinear (λ x. f (g x))
compose-IsLinear f g p q = record {
  respects =
      λ a b h k. rw (q.respects a b h k) (p.respects (g a) (g b) (q.is_byte a h) (q.is_byte b k));
  is_byte = λ a h. p.is_byte (g a) (q.is_byte a h);
}

pub sum-IsLinear : (f g : ℕ → ℕ) → IsLinear f → IsLinear g → IsLinear (λ x. bit_xor (f x) (g x))
sum-IsLinear f g p q = record {
  respects =
      λ a b h k. rw (p.respects a b h k, q.respects a b h k) (xor_swap (f a) (f b) (g a) (g b));
  is_byte = λ a h. xor-lt 8 (f a) (g a) (p.is_byte a h) (q.is_byte a h);
}

x4-IsLinear : IsLinear (λ x. xtime (xtime x))
x4-IsLinear = compose-IsLinear xtime xtime xtime-IsLinear xtime-IsLinear

x8-IsLinear : IsLinear (λ x. xtime (xtime (xtime x)))
x8-IsLinear = compose-IsLinear xtime (λ x. xtime (xtime x)) xtime-IsLinear x4-IsLinear

pub mul3-IsLinear : IsLinear (λ x. bit_xor (xtime x) x)
mul3-IsLinear = sum-IsLinear xtime (λ x. x) xtime-IsLinear id-IsLinear

pub mul9-IsLinear : IsLinear mul9
unfolding mul9
mul9-IsLinear = sum-IsLinear (λ x. xtime (xtime (xtime x))) (λ x. x) x8-IsLinear id-IsLinear

pub mul11-IsLinear : IsLinear mul11
unfolding mul11
mul11-IsLinear =
    sum-IsLinear (λ x. bit_xor (xtime (xtime (xtime x))) (xtime x)) (λ x. x)
      (sum-IsLinear (λ x. xtime (xtime (xtime x))) xtime x8-IsLinear xtime-IsLinear) id-IsLinear

pub mul13-IsLinear : IsLinear mul13
unfolding mul13
mul13-IsLinear =
    sum-IsLinear (λ x. bit_xor (xtime (xtime (xtime x))) (xtime (xtime x))) (λ x. x)
      (sum-IsLinear (λ x. xtime (xtime (xtime x))) (λ x. xtime (xtime x)) x8-IsLinear x4-IsLinear)
      id-IsLinear

pub mul14-IsLinear : IsLinear mul14
unfolding mul14
mul14-IsLinear =
    sum-IsLinear (λ x. bit_xor (xtime (xtime (xtime x))) (xtime (xtime x))) xtime
      (sum-IsLinear (λ x. xtime (xtime (xtime x))) (λ x. xtime (xtime x)) x8-IsLinear x4-IsLinear)
      xtime-IsLinear
