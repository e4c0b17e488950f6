-- ===== src/Base/Vectors.antt =====
-- Verilog vectors bit by bit, the lowest first: shift registers.
use Prim.Native.Nat.{ℕ, zero, suc, ◌+◌, ◌*◌}
use mathlib.Core.Bool.{Bool, false}
use mathlib.Core.List.{List, [], ◌∷◌, ◌++◌}
use riscv_soc.Base.Tests.{bit}
use riscv_soc.Base.Words.{test_bit}

abbrev pub Bits : Type 0
Bits = List Bool

-- The low `width` bits of a number.
abbrev pub bits_from : ℕ → ℕ → ℕ → Bits
bits_from zero first x = []
bits_from (suc width) first x = test_bit x first ∷ bits_from width (suc first) x

abbrev pub to_bits : ℕ → ℕ → Bits
to_bits width x = bits_from width 0 x

abbrev pub to_number : Bits → ℕ
to_number [] = 0
to_number (b ∷ bs) = bit b + 2 * to_number bs

-- `r[0]`.
abbrev pub low_bit : Bits → Bool
low_bit [] = false
low_bit (b ∷ bs) = b

-- `{tdi, r[width-1:1]}`.
abbrev pub shift_in : Bool → Bits → Bits
shift_in tdi [] = []
shift_in tdi (b ∷ bs) = bs ++ (tdi ∷ [])
