-- ===== src/Aes/Gf.antt =====
-- The field arithmetic and the tables of `aes_ref`: `gmul`, `init_tables`, `xtime`, `mul9` to
-- `mul14`. A `uint8_t` is a number below 256, and what is stored in one is taken modulo 256.
pub mod Linear
pub mod Tabled
use riscv_soc.Base.{
  ℕ, zero, suc, ◌+◌, ◌*◌, ◌/◌, ◌%◌, ◌^◌, bit_or, bit_xor, true, false, ◌==◌, if◌then◌else◌, List,
  [], ◌∷◌, map, get_or, set, replicate, range_from, test_bit,
}

abbrev pub u8 : ℕ → ℕ
u8 x = x % 256

-- The loop of `gmul` with `left` rounds to go.
unfoldable pub gmul_loop : ℕ → ℕ → ℕ → ℕ → ℕ
gmul_loop zero a b p = p
gmul_loop (suc left) a b p =
    gmul_loop left (if test_bit a 7 then bit_xor (u8 (a * 2)) 0x1B else u8 (a * 2)) (b / 2)
      (if test_bit b 0 then bit_xor p a else p)

unfoldable pub gmul : ℕ → ℕ → ℕ
unfolding gmul_loop
gmul a b = gmul_loop 8 a b 0

-- The inner loop that fills `inv[a]`: the first `b` from 1 on with a product of 1, else 0.
unfoldable pub find_inv : ℕ → ℕ → ℕ → ℕ
unfolding gmul
find_inv zero a b = 0
find_inv (suc left) a b = elim (gmul a b == 1) [ true ↦ b | false ↦ find_inv left a (suc b) ]

unfoldable pub inv_of : ℕ → ℕ
unfolding find_inv
inv_of a = if a == 0 then 0 else find_inv 255 a 1

-- Bit `i` of the affine transform.
abbrev affine_bit : ℕ → ℕ → ℕ
affine_bit b i =
    bit_xor
      (bit_xor
        (bit_xor
          (bit_xor (bit_xor (b / 2 ^ i % 2) (b / 2 ^ ((i + 4) % 8) % 2))
            (b / 2 ^ ((i + 5) % 8) % 2))
          (b / 2 ^ ((i + 6) % 8) % 2))
        (b / 2 ^ ((i + 7) % 8) % 2))
      (0x63 / 2 ^ i % 2)

unfoldable pub affine : ℕ → ℕ → ℕ → ℕ → ℕ
affine zero i b r = r
affine (suc left) i b r = affine left (suc i) b (bit_or r (affine_bit b i * 2 ^ i))

pub record Tables : Type 0 where
  pub sbox : List ℕ
  pub inv_sbox : List ℕ
  pub rcon : List ℕ

unfoldable pub make_sbox : List ℕ
unfolding inv_of affine
make_sbox = map (λ a. affine 8 0 (inv_of a) 0) (range_from 0 256)

-- `for (int a = 0; a < 256; a++) inv_sbox[sbox[a]] = a`, from index `a` on.
unfoldable pub invert : List ℕ → ℕ → List ℕ → List ℕ
invert [] a acc = acc
invert (s ∷ ss) a acc = invert ss (suc a) (set acc s a)

-- `rcon[i] = r; r = gmul(r, 2)`.
unfoldable pub make_rcon : ℕ → ℕ → List ℕ
unfolding gmul
make_rcon zero r = []
make_rcon (suc left) r = r ∷ make_rcon left (gmul r 0x02)

unfoldable pub init_tables : Tables
unfolding make_sbox invert make_rcon
init_tables = record {
  sbox = make_sbox;
  inv_sbox = invert make_sbox 0 (replicate 256 0);
  rcon = 0x00 ∷ make_rcon 10 0x01;
}

unfoldable pub xtime : ℕ → ℕ
xtime a = u8 (if test_bit a 7 then bit_xor (a * 2) 0x1B else a * 2)

unfoldable pub mul9 : ℕ → ℕ
unfolding xtime
mul9 a = let x2 = xtime a in let x4 = xtime x2 in let x8 = xtime x4 in bit_xor x8 a

unfoldable pub mul11 : ℕ → ℕ
unfolding xtime
mul11 a = let x2 = xtime a in let x4 = xtime x2 in let x8 = xtime x4 in bit_xor (bit_xor x8 x2) a

unfoldable pub mul13 : ℕ → ℕ
unfolding xtime
mul13 a = let x2 = xtime a in let x4 = xtime x2 in let x8 = xtime x4 in bit_xor (bit_xor x8 x4) a

unfoldable pub mul14 : ℕ → ℕ
unfolding xtime
mul14 a = let x2 = xtime a in let x4 = xtime x2 in let x8 = xtime x4 in bit_xor (bit_xor x8 x4) x2
