-- ===== src/Base/Xor.antt =====
-- Laws of `bit_xor` for all numbers, from the recursion on binary digits that it stands for.
use Prim.Native.Nat.{
  ℕ, zero, suc, ◌+◌, ◌*◌, ◌/◌, ◌%◌, ◌^◌, ◌≤◌, ◌<◌, bit_xor, digits, bit_xor-bitwise, differ,
}
use mathlib.Core.Path.{◌≡◌, refl, sym, ◌∙◌}
use native.Mathlib.Nat.{pow-suc}
use native.Mathlib.Omega.{arith}

module _ (z : ℕ → ℕ) (f : ℕ → ℕ → ℕ) where
  -- Enough fuel is as good as any.
  digits_enough : (n m a b : ℕ) → a ≤ n → a ≤ m → digits z f n a b ≡ digits z f m a b
  digits_enough zero zero a b p q = refl
  digits_enough zero (suc m) zero b p q = refl
  digits_enough zero (suc m) (suc a) b p q = absurd (omega arith)
  digits_enough (suc n) zero zero b p q = refl
  digits_enough (suc n) zero (suc a) b p q = absurd (omega arith)
  digits_enough (suc n) (suc m) zero b p q = refl
  digits_enough (suc n) (suc m) (suc a) b p q =
      rw (digits_enough n m (suc a / 2) (b / 2) (omega arith) (omega arith))

-- The exclusive or of two digits.
digit_xor : ℕ → ℕ → ℕ
digit_xor x y = (x + y) % 2

differ_digits : (x y : ℕ) → x < 2 → y < 2 → differ x y ≡ digit_xor x y
unfolding digit_xor
differ_digits zero zero h k = refl
differ_digits zero (suc zero) h k = refl
differ_digits (suc zero) zero h k = refl
differ_digits (suc zero) (suc zero) h k = refl
differ_digits zero (suc (suc y)) h k = absurd (omega arith)
differ_digits (suc zero) (suc (suc y)) h k = absurd (omega arith)
differ_digits (suc (suc x)) y h k = absurd (omega arith)

pub zero-xor : (b : ℕ) → bit_xor 0 b ≡ b
zero-xor b = bit_xor-bitwise 0 b

-- One step of the recursion: the lowest digit.
pub xor_step : (a b : ℕ) → bit_xor a b ≡ bit_xor (a / 2) (b / 2) * 2 + (a % 2 + b % 2) % 2
unfolding digit_xor
xor_step zero b = omega (arith, zero-xor b, zero-xor (b / 2))
xor_step (suc a) b = omega (
  arith,
  bit_xor-bitwise (suc a) b,
  bit_xor-bitwise (suc a / 2) (b / 2),
  differ_digits (suc a % 2) (b % 2) (omega arith) (omega arith),
  digits_enough (λ y. y) differ a (suc a / 2) (suc a / 2) (b / 2) (omega arith) (omega arith),
)

pub xor-half : (a b : ℕ) → bit_xor a b / 2 ≡ bit_xor (a / 2) (b / 2)
xor-half a b = omega (arith, xor_step a b)

pub xor-low : (a b : ℕ) → bit_xor a b % 2 ≡ (a % 2 + b % 2) % 2
xor-low a b = omega (arith, xor_step a b)

-- The laws hold for numbers up to any bound, hence for all.
xor_comm_below : (n a b : ℕ) → a ≤ n → b ≤ n → bit_xor a b ≡ bit_xor b a
xor_comm_below zero zero zero h k = refl
xor_comm_below zero zero (suc b) h k = absurd (omega arith)
xor_comm_below zero (suc a) b h k = absurd (omega arith)
xor_comm_below (suc n) a b h k = omega (
  arith,
  xor_step a b,
  xor_step b a,
  xor_comm_below n (a / 2) (b / 2) (omega arith) (omega arith),
)

pub xor_comm : (a b : ℕ) → bit_xor a b ≡ bit_xor b a
xor_comm a b = xor_comm_below (a + b) a b (omega arith) (omega arith)

pub xor-zero : (a : ℕ) → bit_xor a 0 ≡ a
xor-zero a = omega (arith, xor_comm a 0, zero-xor a)

xor_self_below : (n a : ℕ) → a ≤ n → bit_xor a a ≡ 0
xor_self_below zero zero h = refl
xor_self_below zero (suc a) h = absurd (omega arith)
xor_self_below (suc n) a h = omega (arith, xor_step a a, xor_self_below n (a / 2) (omega arith))

pub xor_self : (a : ℕ) → bit_xor a a ≡ 0
xor_self a = xor_self_below a a (omega arith)

xor_assoc_below :
    (n a b c : ℕ) → a ≤ n → b ≤ n → c ≤ n → bit_xor (bit_xor a b) c ≡ bit_xor a (bit_xor b c)
xor_assoc_below zero zero zero zero h k l = refl
xor_assoc_below zero zero zero (suc c) h k l = absurd (omega arith)
xor_assoc_below zero zero (suc b) c h k l = absurd (omega arith)
xor_assoc_below zero (suc a) b c h k l = absurd (omega arith)
xor_assoc_below (suc n) a b c h k l =
    rw (xor_step (bit_xor a b) c, xor_step a (bit_xor b c))
      (rw (xor-half a b, xor-half b c, xor-low a b, xor-low b c)
        (omega (
          arith,
          xor_assoc_below n (a / 2) (b / 2) (c / 2) (omega arith) (omega arith) (omega arith),
        )))

pub xor_assoc : (a b c : ℕ) → bit_xor (bit_xor a b) c ≡ bit_xor a (bit_xor b c)
xor_assoc a b c = xor_assoc_below (a + b + c) a b c (omega arith) (omega arith) (omega arith)

-- Masking twice with the same word gives the word back.
pub xor_cancel : (a k : ℕ) → bit_xor (bit_xor a k) k ≡ a
xor_cancel a k = rw (xor_assoc a k k, xor_self k) (xor-zero a)

-- A middle exchange.
pub xor_swap :
    (a b c d : ℕ) → bit_xor (bit_xor a b) (bit_xor c d) ≡ bit_xor (bit_xor a c) (bit_xor b d)
xor_swap a b c d =
    rw (xor_assoc a b (bit_xor c d), xor_assoc a c (bit_xor b d))
      (rw (← xor_assoc b c d, ← xor_assoc c b d, xor_comm b c) refl)

-- The digits of the operands bound those of the result.
pub xor-lt : (k a b : ℕ) → a < 2 ^ k → b < 2 ^ k → bit_xor a b < 2 ^ k
xor-lt zero zero zero h l = omega arith
xor-lt zero zero (suc b) h l = absurd (omega arith)
xor-lt zero (suc a) b h l = absurd (omega arith)
xor-lt (suc k) a b h l =
    let e = pow-suc 2 k in
    omega (arith, xor_step a b, e, xor-lt k (a / 2) (b / 2) (omega (arith, e)) (omega (arith, e)))

-- The lowest digits of an exclusive or are that of the lowest digits: from `n` values to `m`, which
-- are twice as many.
mod_double :
    (n m : ℕ)
    → ((x : ℕ) → x % m ≡ x / 2 % n * 2 + x % 2)
    → ((x : ℕ) → x % m / 2 ≡ x / 2 % n)
    → ((x : ℕ) → x % m % 2 ≡ x % 2)
    → ((a b : ℕ) → bit_xor a b % n ≡ bit_xor (a % n) (b % n))
    → (a b : ℕ) → bit_xor a b % m ≡ bit_xor (a % m) (b % m)
mod_double n m split half low h a b =
    split (bit_xor a b)
    ∙ ((λ i. xor-half a b i % n * 2 + xor-low a b i)
        ∙ ((λ i. h (a / 2) (b / 2) i * 2 + (a % 2 + b % 2) % 2)
            ∙ sym (
                xor_step (a % m) (b % m) ∙ λ i.
                bit_xor (half a i) (half b i) * 2 + (low a i + low b i) % 2)))

xor-mod2 : (a b : ℕ) → bit_xor a b % 2 ≡ bit_xor (a % 2) (b % 2)
xor-mod2 a b =
    let none : (x : ℕ) → x % 2 / 2 ≡ 0 = λ x. omega arith in
    let top : bit_xor (a % 2 / 2) (b % 2 / 2) ≡ bit_xor 0 0 = λ i. bit_xor (none a i) (none b i) in
    omega (arith, xor-low a b, xor_step (a % 2) (b % 2), top, zero-xor 0)

xor-mod16 : (a b : ℕ) → bit_xor a b % 16 ≡ bit_xor (a % 16) (b % 16)
xor-mod16 =
    mod_double 8 16 (λ x. omega arith) (λ x. omega arith) (λ x. omega arith)
      (mod_double 4 8 (λ x. omega arith) (λ x. omega arith) (λ x. omega arith)
        (mod_double 2 4 (λ x. omega arith) (λ x. omega arith) (λ x. omega arith) xor-mod2))

-- The lowest byte of an exclusive or.
pub xor-mod256 : (a b : ℕ) → bit_xor a b % 256 ≡ bit_xor (a % 256) (b % 256)
xor-mod256 =
    mod_double 128 256 (λ x. omega arith) (λ x. omega arith) (λ x. omega arith)
      (mod_double 64 128 (λ x. omega arith) (λ x. omega arith) (λ x. omega arith)
        (mod_double 32 64 (λ x. omega arith) (λ x. omega arith) (λ x. omega arith)
          (mod_double 16 32 (λ x. omega arith) (λ x. omega arith) (λ x. omega arith) xor-mod16)))
