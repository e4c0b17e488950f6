-- ===== src/Base/Words.antt =====
-- Machine words: `uint8_t`, `uint32_t` and Verilog vectors as native numbers below a power of two.
use Prim.Native.Nat.{ℕ, ◌+◌, ◌-◌, ◌*◌, ◌/◌, ◌%◌, ◌^◌, ◌<◌}
use mathlib.Core.Path.{◌≡◌}
use mathlib.Core.Bool.{Bool}
use native.Mathlib.Omega.{arith}
use riscv_soc.Base.Tests.{◌==◌, if◌then◌else◌}

-- 32'hFFFFFFFF.
abbrev pub all_ones : ℕ
all_ones = 0xFFFF_FFFF

-- `x - 1` on 32 bits, which wraps at 0.
abbrev pub dec32 : ℕ → ℕ
dec32 x = (x + 2 ^ 32 - 1) % 2 ^ 32

-- Bit `i` of a word.
abbrev pub test_bit : ℕ → ℕ → Bool
test_bit x i = x / 2 ^ i % 2 == 1

-- Byte `i` of a word, 0 the lowest.
abbrev pub byte_at : ℕ → ℕ → ℕ
byte_at x i = x / 2 ^ (8 * i) % 256

-- `if (s_wstrb[i]) mem[idx][8*i+7:8*i] <= s_wdata[8*i+7:8*i]` for the four bytes of a word.
unfoldable pub merge_bytes : ℕ → ℕ → ℕ → ℕ
merge_bytes strb word old =
    byte_at (if test_bit strb 0 then word else old) 0
    + byte_at (if test_bit strb 1 then word else old) 1 * 2 ^ 8
    + byte_at (if test_bit strb 2 then word else old) 2 * 2 ^ 16
    + byte_at (if test_bit strb 3 then word else old) 3 * 2 ^ 24

-- A write with all strobes replaces the word.
pub merge_all : (word old : ℕ) → word < 2 ^ 32 → merge_bytes 0xF word old ≡ word
unfolding merge_bytes
merge_all word old h = omega arith

-- Byte `i` of a merged word is that of the word that strobe `i` selects.
pub byte_at-merge :
    (strb word old : ℕ)
    → let m = merge_bytes strb word old in
      (byte_at m 0 ≡ byte_at (if test_bit strb 0 then word else old) 0)
      × (byte_at m 1 ≡ byte_at (if test_bit strb 1 then word else old) 1)
      × (byte_at m 2 ≡ byte_at (if test_bit strb 2 then word else old) 2)
      × (byte_at m 3 ≡ byte_at (if test_bit strb 3 then word else old) 3)
unfolding merge_bytes
byte_at-merge strb word old = omega arith

-- One place of a memory is written.
abbrev pub update : (ℕ → ℕ) → ℕ → ℕ → ℕ → ℕ
update mem i v j = if j == i then v else mem j

-- Writing the value that is there changes nothing.
pub update-eq : (mem : ℕ → ℕ) (k v : ℕ) → mem k ≡ v → (j : ℕ) → update mem k v j ≡ mem j
update-eq mem k v h j = ground (arith, h)
