-- ===== src/Aes/Ref.antt =====
-- The cipher of `aes_ref`: the key schedule, the round transformations, `encrypt`, `decrypt`.
pub mod Sums
pub mod MixInverse
pub mod Inverse
pub mod Schedule
use riscv_soc.Base.{
  ℕ, zero, suc, ◌+◌, ◌-◌, ◌*◌, ◌/◌, ◌%◌, ◌^◌, bit_xor, ◌==◌, if◌then◌else◌, List, [], ◌∷◌, ◌++◌,
  get_or,
}
use riscv_soc.Aes.Gf.{Tables, xtime, mul9, mul11, mul13, mul14}

-- Four bytes `S(s, 0, c)` to `S(s, 3, c)`.
pub record Column : Type 0 where
  pub r0 : ℕ
  pub r1 : ℕ
  pub r2 : ℕ
  pub r3 : ℕ

-- The sixteen bytes of a `Block`: the byte `s[r + 4*c]` is row `r` of column `c`.
pub record Block : Type 0 where
  pub c0 : Column
  pub c1 : Column
  pub c2 : Column
  pub c3 : Column

-- Byte `i` of a word, 3 the highest: `(word >> 8*i) & 0xFF`.
abbrev pub byte_of : ℕ → ℕ → ℕ
byte_of word i = word / 2 ^ (8 * i) % 256

-- `(a << 24) | (b << 16) | (c << 8) | d` of four bytes, which do not overlap.
abbrev pub pack : ℕ → ℕ → ℕ → ℕ → ℕ
pack a b c d = a * 2 ^ 24 + b * 2 ^ 16 + c * 2 ^ 8 + d

abbrev pub look : List ℕ → ℕ → ℕ
look table i = get_or table i 0

abbrev pub column_word : Column → ℕ
column_word c = pack c.r0 c.r1 c.r2 c.r3

module _ (t : Tables) where
  -- `RotWord`, `SubWord` and the round constant.
  unfoldable pub schedule_core : ℕ → ℕ → ℕ
  schedule_core i temp =
      let rotated = temp * 2 ^ 8 % 2 ^ 32 + temp / 2 ^ 24 in
      let substituted =
        pack (look t.sbox (byte_of rotated 3)) (look t.sbox (byte_of rotated 2))
          (look t.sbox (byte_of rotated 1)) (look t.sbox (byte_of rotated 0)) in
      bit_xor substituted (look t.rcon (i / 4) * 2 ^ 24)

  unfoldable pub next_word : ℕ → List ℕ → ℕ
  unfolding schedule_core
  next_word i w =
      let temp = look w (i - 1) in
      bit_xor (look w (i - 4)) (if i % 4 == 0 then schedule_core i temp else temp)

  -- `for (int i = 4; i < 44; i++)`, with `left` words to go.
  unfoldable pub expand : ℕ → ℕ → List ℕ → List ℕ
  unfolding next_word
  expand zero i w = w
  expand (suc left) i w = expand left (suc i) (w ++ next_word i w ∷ [])

  unfoldable pub key_expansion : Block → List ℕ
  unfolding expand
  key_expansion key =
      expand 40 4
        (column_word key.c0 ∷ column_word key.c1 ∷ column_word key.c2 ∷ column_word key.c3 ∷ [])

abbrev pub on_columns : (Column → Column) → Block → Block
on_columns f s = record { c0 = f s.c0; c1 = f s.c1; c2 = f s.c2; c3 = f s.c3 }

abbrev pub on_bytes : (ℕ → ℕ) → Column → Column
on_bytes f c = record { r0 = f c.r0; r1 = f c.r1; r2 = f c.r2; r3 = f c.r3 }

unfoldable pub sub_bytes : Tables → Block → Block
sub_bytes t s = on_columns (on_bytes (look t.sbox)) s

unfoldable pub inv_sub_bytes : Tables → Block → Block
inv_sub_bytes t s = on_columns (on_bytes (look t.inv_sbox)) s

-- Row `r` of column `c` comes from column `(c + r) % 4`.
unfoldable pub shift_rows : Block → Block
shift_rows t = record {
  c0 = record { r0 = t.c0.r0; r1 = t.c1.r1; r2 = t.c2.r2; r3 = t.c3.r3 };
  c1 = record { r0 = t.c1.r0; r1 = t.c2.r1; r2 = t.c3.r2; r3 = t.c0.r3 };
  c2 = record { r0 = t.c2.r0; r1 = t.c3.r1; r2 = t.c0.r2; r3 = t.c1.r3 };
  c3 = record { r0 = t.c3.r0; r1 = t.c0.r1; r2 = t.c1.r2; r3 = t.c2.r3 };
}

-- Row `r` of column `c` comes from column `(c - r + 4) % 4`.
unfoldable pub inv_shift_rows : Block → Block
inv_shift_rows t = record {
  c0 = record { r0 = t.c0.r0; r1 = t.c3.r1; r2 = t.c2.r2; r3 = t.c1.r3 };
  c1 = record { r0 = t.c1.r0; r1 = t.c0.r1; r2 = t.c3.r2; r3 = t.c2.r3 };
  c2 = record { r0 = t.c2.r0; r1 = t.c1.r1; r2 = t.c0.r2; r3 = t.c3.r3 };
  c3 = record { r0 = t.c3.r0; r1 = t.c2.r1; r2 = t.c1.r2; r3 = t.c0.r3 };
}

-- `a ^ b ^ c ^ d`.
abbrev pub sum4 : ℕ → ℕ → ℕ → ℕ → ℕ
sum4 a b c d = bit_xor (bit_xor (bit_xor a b) c) d

-- `xtime(a) ^ a`.
abbrev pub mul3 : ℕ → ℕ
mul3 a = bit_xor (xtime a) a

unfoldable pub mix_column : Column → Column
mix_column s = record {
  r0 = sum4 (xtime s.r0) (mul3 s.r1) s.r2 s.r3;
  r1 = sum4 s.r0 (xtime s.r1) (mul3 s.r2) s.r3;
  r2 = sum4 s.r0 s.r1 (xtime s.r2) (mul3 s.r3);
  r3 = sum4 (mul3 s.r0) s.r1 s.r2 (xtime s.r3);
}

unfoldable pub mix_columns : Block → Block
unfolding mix_column
mix_columns s = on_columns mix_column s

unfoldable pub inv_mix_column : Column → Column
inv_mix_column s = record {
  r0 = sum4 (mul14 s.r0) (mul11 s.r1) (mul13 s.r2) (mul9 s.r3);
  r1 = sum4 (mul9 s.r0) (mul14 s.r1) (mul11 s.r2) (mul13 s.r3);
  r2 = sum4 (mul13 s.r0) (mul9 s.r1) (mul14 s.r2) (mul11 s.r3);
  r3 = sum4 (mul11 s.r0) (mul13 s.r1) (mul9 s.r2) (mul14 s.r3);
}

unfoldable pub inv_mix_columns : Block → Block
unfolding inv_mix_column
inv_mix_columns s = on_columns inv_mix_column s

unfoldable pub add_word : ℕ → Column → Column
add_word word c = record {
  r0 = bit_xor c.r0 (byte_of word 3);
  r1 = bit_xor c.r1 (byte_of word 2);
  r2 = bit_xor c.r2 (byte_of word 1);
  r3 = bit_xor c.r3 (byte_of word 0);
}

unfoldable pub add_round_key : List ℕ → ℕ → Block → Block
unfolding add_word
add_round_key w round s = record {
  c0 = add_word (look w (4 * round)) s.c0;
  c1 = add_word (look w (4 * round + 1)) s.c1;
  c2 = add_word (look w (4 * round + 2)) s.c2;
  c3 = add_word (look w (4 * round + 3)) s.c3;
}

module _ (t : Tables) (w : List ℕ) where
  -- `for (int round = 1; round <= 9; round++)`, with `left` rounds to go.
  unfoldable pub encrypt_rounds : ℕ → ℕ → Block → Block
  unfolding sub_bytes shift_rows mix_columns add_round_key
  encrypt_rounds zero round s = s
  encrypt_rounds (suc left) round s =
      encrypt_rounds left (suc round)
        (add_round_key w round (mix_columns (shift_rows (sub_bytes t s))))

  -- `for (int round = 9; round >= 1; round--)`.
  unfoldable pub decrypt_rounds : ℕ → Block → Block
  unfolding inv_sub_bytes inv_shift_rows inv_mix_columns add_round_key
  decrypt_rounds zero s = s
  decrypt_rounds (suc round) s =
      decrypt_rounds round
        (inv_mix_columns (add_round_key w (suc round) (inv_sub_bytes t (inv_shift_rows s))))

unfoldable pub encrypt : Tables → Block → Block → Block
unfolding key_expansion encrypt_rounds sub_bytes shift_rows add_round_key
encrypt t pt key =
    let w = key_expansion t key in
    let s = encrypt_rounds t w 9 1 (add_round_key w 0 pt) in
    add_round_key w 10 (shift_rows (sub_bytes t s))

unfoldable pub decrypt : Tables → Block → Block → Block
unfolding key_expansion decrypt_rounds inv_sub_bytes inv_shift_rows add_round_key
decrypt t ct key =
    let w = key_expansion t key in
    let s = decrypt_rounds t w 9 (add_round_key w 10 ct) in
    add_round_key w 0 (inv_sub_bytes t (inv_shift_rows s))
