-- ===== src/Aes/Core/Round.antt =====
-- The round transformations of blocks/aes/rtl/aes_core.v: `byte_at(s, i)` is byte `i % 4` of column
-- `i / 4`.
use riscv_soc.Base.{ℕ, ◌*◌, ◌%◌, bit_xor, if◌then◌else◌, test_bit}
use riscv_soc.Aes.Package.{sbox_fwd, sbox_inv}
use riscv_soc.Aes.Ref.{Column, Block, byte_of, look, on_bytes, on_columns}
use riscv_soc.Aes.KeyExpand.{RoundKey}

unfoldable pub aes_sub_bytes : Block → Block
aes_sub_bytes s = on_columns (on_bytes (look sbox_fwd)) s

unfoldable pub aes_inv_sub_bytes : Block → Block
aes_inv_sub_bytes s = on_columns (on_bytes (look sbox_inv)) s

unfoldable pub aes_shift_rows : Block → Block
aes_shift_rows s = record {
  c0 = record { r0 = s.c0.r0; r1 = s.c1.r1; r2 = s.c2.r2; r3 = s.c3.r3 };
  c1 = record { r0 = s.c1.r0; r1 = s.c2.r1; r2 = s.c3.r2; r3 = s.c0.r3 };
  c2 = record { r0 = s.c2.r0; r1 = s.c3.r1; r2 = s.c0.r2; r3 = s.c1.r3 };
  c3 = record { r0 = s.c3.r0; r1 = s.c0.r1; r2 = s.c1.r2; r3 = s.c2.r3 };
}

unfoldable pub aes_inv_shift_rows : Block → Block
aes_inv_shift_rows s = record {
  c0 = record { r0 = s.c0.r0; r1 = s.c3.r1; r2 = s.c2.r2; r3 = s.c1.r3 };
  c1 = record { r0 = s.c1.r0; r1 = s.c0.r1; r2 = s.c3.r2; r3 = s.c2.r3 };
  c2 = record { r0 = s.c2.r0; r1 = s.c1.r1; r2 = s.c0.r2; r3 = s.c3.r3 };
  c3 = record { r0 = s.c3.r0; r1 = s.c2.r1; r2 = s.c1.r2; r3 = s.c0.r3 };
}

unfoldable pub aes_xtime : ℕ → ℕ
aes_xtime a = if test_bit a 7 then bit_xor (a * 2 % 256) 0x1B else a * 2 % 256

abbrev aes_gmul2 : ℕ → ℕ
aes_gmul2 a = aes_xtime a

abbrev aes_gmul3 : ℕ → ℕ
aes_gmul3 a = bit_xor (aes_xtime a) a

abbrev x4 : ℕ → ℕ
x4 a = aes_xtime (aes_xtime a)

abbrev x8 : ℕ → ℕ
x8 a = aes_xtime (x4 a)

abbrev aes_gmul9 : ℕ → ℕ
aes_gmul9 a = bit_xor (x8 a) a

abbrev aes_gmul11 : ℕ → ℕ
aes_gmul11 a = bit_xor (bit_xor (x8 a) (aes_xtime a)) a

abbrev aes_gmul13 : ℕ → ℕ
aes_gmul13 a = bit_xor (bit_xor (x8 a) (x4 a)) a

abbrev aes_gmul14 : ℕ → ℕ
aes_gmul14 a = bit_xor (bit_xor (x8 a) (x4 a)) (aes_xtime a)

abbrev xor4 : ℕ → ℕ → ℕ → ℕ → ℕ
xor4 a b c d = bit_xor (bit_xor (bit_xor a b) c) d

unfoldable pub aes_mix_column : Column → Column
unfolding aes_xtime
aes_mix_column s = record {
  r0 = xor4 (aes_gmul2 s.r0) (aes_gmul3 s.r1) s.r2 s.r3;
  r1 = xor4 s.r0 (aes_gmul2 s.r1) (aes_gmul3 s.r2) s.r3;
  r2 = xor4 s.r0 s.r1 (aes_gmul2 s.r2) (aes_gmul3 s.r3);
  r3 = xor4 (aes_gmul3 s.r0) s.r1 s.r2 (aes_gmul2 s.r3);
}

unfoldable pub aes_inv_mix_column : Column → Column
unfolding aes_xtime
aes_inv_mix_column s = record {
  r0 = xor4 (aes_gmul14 s.r0) (aes_gmul11 s.r1) (aes_gmul13 s.r2) (aes_gmul9 s.r3);
  r1 = xor4 (aes_gmul9 s.r0) (aes_gmul14 s.r1) (aes_gmul11 s.r2) (aes_gmul13 s.r3);
  r2 = xor4 (aes_gmul13 s.r0) (aes_gmul9 s.r1) (aes_gmul14 s.r2) (aes_gmul11 s.r3);
  r3 = xor4 (aes_gmul11 s.r0) (aes_gmul13 s.r1) (aes_gmul9 s.r2) (aes_gmul14 s.r3);
}

unfoldable pub aes_mix_columns : Block → Block
unfolding aes_mix_column
aes_mix_columns s = on_columns aes_mix_column s

unfoldable pub aes_inv_mix_columns : Block → Block
unfolding aes_inv_mix_column
aes_inv_mix_columns s = on_columns aes_inv_mix_column s

abbrev xor_column : Column → ℕ → Column
xor_column c w = record {
  r0 = bit_xor c.r0 (byte_of w 3);
  r1 = bit_xor c.r1 (byte_of w 2);
  r2 = bit_xor c.r2 (byte_of w 1);
  r3 = bit_xor c.r3 (byte_of w 0);
}

-- The exclusive or of a block with a round key.
unfoldable pub xor_key : Block → RoundKey → Block
xor_key s k = record {
  c0 = xor_column s.c0 k.w0;
  c1 = xor_column s.c1 k.w1;
  c2 = xor_column s.c2 k.w2;
  c3 = xor_column s.c3 k.w3;
}

unfoldable pub enc_round_next : Block → RoundKey → Block
unfolding aes_mix_columns aes_shift_rows aes_sub_bytes xor_key
enc_round_next s rk = xor_key (aes_mix_columns (aes_shift_rows (aes_sub_bytes s))) rk

unfoldable pub enc_final_next : Block → RoundKey → Block
unfolding aes_shift_rows aes_sub_bytes xor_key
enc_final_next s rk = xor_key (aes_shift_rows (aes_sub_bytes s)) rk

unfoldable pub dec_round_next : Block → RoundKey → Block
unfolding aes_inv_mix_columns aes_inv_shift_rows aes_inv_sub_bytes xor_key
dec_round_next s rk = aes_inv_mix_columns (xor_key (aes_inv_sub_bytes (aes_inv_shift_rows s)) rk)

unfoldable pub dec_final_next : Block → RoundKey → Block
unfolding aes_inv_shift_rows aes_inv_sub_bytes xor_key
dec_final_next s rk = xor_key (aes_inv_sub_bytes (aes_inv_shift_rows s)) rk
