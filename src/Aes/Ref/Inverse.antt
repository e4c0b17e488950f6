-- ===== src/Aes/Ref/Inverse.antt =====
-- `encrypt` and `decrypt` of the reference model, step by step.
use riscv_soc.Base.{ℕ, zero, suc, ◌+◌, ◌*◌, ◌≡◌, refl, ◌∙◌, ap, List, xor_cancel, xor-lt, arith}
use riscv_soc.Aes.Gf.{Tables, init_tables}
use riscv_soc.Aes.Gf.Tabled.{IsInvertible, init_tables-IsInvertible}
use riscv_soc.Aes.Gf.Linear.{xtime-IsLinear, mul3-IsLinear}
use riscv_soc.Aes.Ref.Sums.{IsByteColumn, sum4-lt}
use riscv_soc.Aes.Ref.MixInverse.{IsByteBlock, inv_mix_columns-mix_columns}
use riscv_soc.Aes.Ref.{
  Column, Block, byte_of, look, on_bytes, sub_bytes, inv_sub_bytes, shift_rows, inv_shift_rows,
  mix_column, mix_columns, inv_mix_columns, add_word, add_round_key, key_expansion, encrypt_rounds,
  decrypt_rounds, encrypt, decrypt,
}

pub inv_shift_rows-shift_rows : (s : Block) → inv_shift_rows (shift_rows s) ≡ s
unfolding inv_shift_rows shift_rows
inv_shift_rows-shift_rows s = refl

shift_rows-IsByteBlock : (s : Block) → IsByteBlock s → IsByteBlock (shift_rows s)
unfolding shift_rows
shift_rows-IsByteBlock s h = omega arith

add_word-add_word : (word : ℕ) (c : Column) → add_word word (add_word word c) ≡ c
unfolding add_word
add_word-add_word word c = λ i. record {
  r0 = xor_cancel c.r0 (byte_of word 3) i;
  r1 = xor_cancel c.r1 (byte_of word 2) i;
  r2 = xor_cancel c.r2 (byte_of word 1) i;
  r3 = xor_cancel c.r3 (byte_of word 0) i;
}

-- Adding a round key twice gives the block back.
add_round_key_cancel :
    (w : List ℕ) (round : ℕ) (s : Block) → add_round_key w round (add_round_key w round s) ≡ s
unfolding add_round_key
add_round_key_cancel w round s = λ i. record {
  c0 = add_word-add_word (look w (4 * round)) s.c0 i;
  c1 = add_word-add_word (look w (4 * round + 1)) s.c1 i;
  c2 = add_word-add_word (look w (4 * round + 2)) s.c2 i;
  c3 = add_word-add_word (look w (4 * round + 3)) s.c3 i;
}

add_word-IsByteColumn : (word : ℕ) (c : Column) → IsByteColumn c → IsByteColumn (add_word word c)
unfolding add_word
add_word-IsByteColumn word c h = record {
  b0 = xor-lt 8 c.r0 (byte_of word 3) h.b0 (omega arith);
  b1 = xor-lt 8 c.r1 (byte_of word 2) h.b1 (omega arith);
  b2 = xor-lt 8 c.r2 (byte_of word 1) h.b2 (omega arith);
  b3 = xor-lt 8 c.r3 (byte_of word 0) h.b3 (omega arith);
}

add_round_key-IsByteBlock :
    (w : List ℕ) (round : ℕ) (s : Block) → IsByteBlock s → IsByteBlock (add_round_key w round s)
unfolding add_round_key
add_round_key-IsByteBlock w round s h = record {
  k0 = add_word-IsByteColumn _ s.c0 h.k0;
  k1 = add_word-IsByteColumn _ s.c1 h.k1;
  k2 = add_word-IsByteColumn _ s.c2 h.k2;
  k3 = add_word-IsByteColumn _ s.c3 h.k3;
}

mix_column-IsByteColumn : (c : Column) → IsByteColumn c → IsByteColumn (mix_column c)
unfolding mix_column
mix_column-IsByteColumn c h =
    let x = xtime-IsLinear.is_byte in
    let t = mul3-IsLinear.is_byte in
    record {
      b0 = sum4-lt _ _ c.r2 c.r3 (x c.r0 h.b0) (t c.r1 h.b1) h.b2 h.b3;
      b1 = sum4-lt c.r0 _ _ c.r3 h.b0 (x c.r1 h.b1) (t c.r2 h.b2) h.b3;
      b2 = sum4-lt c.r0 c.r1 _ _ h.b0 h.b1 (x c.r2 h.b2) (t c.r3 h.b3);
      b3 = sum4-lt _ c.r1 c.r2 _ (t c.r0 h.b0) h.b1 h.b2 (x c.r3 h.b3);
    }

mix_columns-IsByteBlock : (s : Block) → IsByteBlock s → IsByteBlock (mix_columns s)
unfolding mix_columns
mix_columns-IsByteBlock s h = record {
  k0 = mix_column-IsByteColumn s.c0 h.k0;
  k1 = mix_column-IsByteColumn s.c1 h.k1;
  k2 = mix_column-IsByteColumn s.c2 h.k2;
  k3 = mix_column-IsByteColumn s.c3 h.k3;
}

module _ (t : Tables) (good : IsInvertible t) where
  sub_column :
      (c : Column) → IsByteColumn c → on_bytes (look t.inv_sbox) (on_bytes (look t.sbox) c) ≡ c
  sub_column c h = λ i. record {
    r0 = good.undoes c.r0 h.b0 i;
    r1 = good.undoes c.r1 h.b1 i;
    r2 = good.undoes c.r2 h.b2 i;
    r3 = good.undoes c.r3 h.b3 i;
  }

  sub_column-IsByteColumn : (c : Column) → IsByteColumn c → IsByteColumn (on_bytes (look t.sbox) c)
  sub_column-IsByteColumn c h = record {
    b0 = good.is_byte c.r0 h.b0;
    b1 = good.is_byte c.r1 h.b1;
    b2 = good.is_byte c.r2 h.b2;
    b3 = good.is_byte c.r3 h.b3;
  }

  inv_sub_bytes-sub_bytes : (s : Block) → IsByteBlock s → inv_sub_bytes t (sub_bytes t s) ≡ s
  unfolding inv_sub_bytes sub_bytes
  inv_sub_bytes-sub_bytes s h = λ i. record {
    c0 = sub_column s.c0 h.k0 i;
    c1 = sub_column s.c1 h.k1 i;
    c2 = sub_column s.c2 h.k2 i;
    c3 = sub_column s.c3 h.k3 i;
  }

  sub_bytes-IsByteBlock : (s : Block) → IsByteBlock s → IsByteBlock (sub_bytes t s)
  unfolding sub_bytes
  sub_bytes-IsByteBlock s h = record {
    k0 = sub_column-IsByteColumn s.c0 h.k0;
    k1 = sub_column-IsByteColumn s.c1 h.k1;
    k2 = sub_column-IsByteColumn s.c2 h.k2;
    k3 = sub_column-IsByteColumn s.c3 h.k3;
  }

  -- The two steps that every round begins with, and their inverse.
  abbrev scramble : Block → Block
  scramble s = shift_rows (sub_bytes t s)

  unscramble-scramble :
      (s : Block) → IsByteBlock s → inv_sub_bytes t (inv_shift_rows (scramble s)) ≡ s
  unscramble-scramble s h =
      ap (inv_sub_bytes t) (inv_shift_rows-shift_rows (sub_bytes t s)) ∙ inv_sub_bytes-sub_bytes s h

  scramble-IsByteBlock : (s : Block) → IsByteBlock s → IsByteBlock (scramble s)
  scramble-IsByteBlock s h = shift_rows-IsByteBlock (sub_bytes t s) (sub_bytes-IsByteBlock s h)

  module _ (w : List ℕ) where
    abbrev round_of : ℕ → Block → Block
    round_of round s = add_round_key w round (mix_columns (scramble s))

    -- The rounds of `encrypt`, last round first.
    encrypt_rounds_last :
        (n first : ℕ) (s : Block)
        → encrypt_rounds t w (suc n) first s ≡ round_of (n + first) (encrypt_rounds t w n first s)
    unfolding encrypt_rounds
    encrypt_rounds_last zero first s =
        let e : first ≡ 0 + first = omega arith in ap (λ r. round_of r s) e
    encrypt_rounds_last (suc n) first s =
        let e : n + suc first ≡ suc n + first = omega arith in
        encrypt_rounds_last n (suc first) (round_of first s)
        ∙ ap (λ r. round_of r (encrypt_rounds t w (suc n) first s)) e

    encrypt_rounds-IsByteBlock :
        (n first : ℕ) (s : Block) → IsByteBlock s → IsByteBlock (encrypt_rounds t w n first s)
    unfolding encrypt_rounds
    encrypt_rounds-IsByteBlock zero first s h = h
    encrypt_rounds-IsByteBlock (suc n) first s h =
        encrypt_rounds-IsByteBlock n (suc first) (round_of first s) (
          add_round_key-IsByteBlock w first (mix_columns (scramble s))
            (mix_columns-IsByteBlock (scramble s) (scramble-IsByteBlock s h)))

    -- The rounds of `decrypt` undo those of `encrypt`, between the scrambles.
    decrypt_rounds-encrypt_rounds :
        (n : ℕ) (s : Block)
        → IsByteBlock s
        → decrypt_rounds t w n (scramble (encrypt_rounds t w n 1 s)) ≡ scramble s
    unfolding decrypt_rounds encrypt_rounds
    decrypt_rounds-encrypt_rounds zero s h = refl
    decrypt_rounds-encrypt_rounds (suc n) s h =
        let x = encrypt_rounds t w n 1 s in
        let xb = encrypt_rounds-IsByteBlock n 1 s h in
        let sb = scramble-IsByteBlock x xb in
        let last : encrypt_rounds t w (suc n) 1 s ≡ round_of (suc n) x =
          encrypt_rounds_last n 1 s ∙ ap (λ r. round_of r x) (omega arith) in
        ap
          (λ y. decrypt_rounds t w n (
            inv_mix_columns
              (add_round_key w (suc n) (inv_sub_bytes t (inv_shift_rows (scramble y))))))
          last
        ∙ (ap (λ y. decrypt_rounds t w n (inv_mix_columns (add_round_key w (suc n) y)))
              (unscramble-scramble (round_of (suc n) x) (
                add_round_key-IsByteBlock w (suc n) (mix_columns (scramble x))
                  (mix_columns-IsByteBlock (scramble x) sb)))
            ∙ (ap (λ y. decrypt_rounds t w n (inv_mix_columns y))
                  (add_round_key_cancel w (suc n) (mix_columns (scramble x)))
                ∙ (ap (decrypt_rounds t w n) (inv_mix_columns-mix_columns (scramble x) sb)
                    ∙ decrypt_rounds-encrypt_rounds n s h)))

  -- Under tables that are inverse to one another, decryption undoes encryption.
  decrypt-encrypt_of : (pt key : Block) → IsByteBlock pt → decrypt t (encrypt t pt key) key ≡ pt
  unfolding decrypt encrypt
  decrypt-encrypt_of pt key h =
      let w = key_expansion t key in
      let s = add_round_key w 0 pt in
      let sb = add_round_key-IsByteBlock w 0 pt h in
      ap (λ y. add_round_key w 0 (inv_sub_bytes t (inv_shift_rows (decrypt_rounds t w 9 y))))
        (add_round_key_cancel w 10 (scramble (encrypt_rounds t w 9 1 s)))
      ∙ (ap (λ y. add_round_key w 0 (inv_sub_bytes t (inv_shift_rows y)))
            (decrypt_rounds-encrypt_rounds w 9 s sb)
          ∙ (ap (add_round_key w 0) (unscramble-scramble s sb) ∙ add_round_key_cancel w 0 pt))

-- With the tables of `init_tables`, `decrypt` gives back every block of sixteen bytes that
-- `encrypt` has encrypted under the same key, whatever the key is.
pub decrypt-encrypt :
    (pt key : Block) → IsByteBlock pt → decrypt init_tables (encrypt init_tables pt key) key ≡ pt
decrypt-encrypt pt key h = decrypt-encrypt_of init_tables init_tables-IsInvertible pt key h

-- An encrypted block is sixteen bytes.
pub encrypt-IsByteBlock :
    (pt key : Block) → IsByteBlock pt → IsByteBlock (encrypt init_tables pt key)
unfolding encrypt
encrypt-IsByteBlock pt key h =
    let good = init_tables-IsInvertible in
    let w = key_expansion init_tables key in
    add_round_key-IsByteBlock w 10 _ (
      scramble-IsByteBlock init_tables good _
        (encrypt_rounds-IsByteBlock init_tables good w 9 1 _ (add_round_key-IsByteBlock w 0 pt h)))
