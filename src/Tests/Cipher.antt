-- ===== src/Tests/Cipher.antt =====
-- The reference cipher on the vectors of FIPS-197 that `main` of blocks/aes/dv/diff_sim_main.cpp
-- checks first, and its theorems at concrete inputs.
use riscv_soc.Aes.KeyExpand.{ExpandIn, st_idle, step}
use riscv_soc.Aes.KeyExpand.Refines.{edges, key_words, IsExpanded, edges-key_expansion}
use riscv_soc.Aes.Ref.{key_expansion}
use riscv_soc.Base.{Bool, false}
use riscv_soc.Aes.KeyExpand.{RoundKey, KeyExpand, st_expand}
use riscv_soc.Base.{true, ℕ, ◌≡◌, refl, arith}
use riscv_soc.Aes.Gf.{xtime, mul9, mul11, mul13, mul14, init_tables}
use riscv_soc.Aes.Ref.{Column, Block, encrypt, decrypt}
use riscv_soc.Aes.Ref.MixInverse.{IsByteBlock}
use riscv_soc.Aes.Ref.Inverse.{decrypt-encrypt}

abbrev column : ℕ → ℕ → ℕ → ℕ → Column
column a b c d = record { r0 = a; r1 = b; r2 = c; r3 = d }

abbrev key : Block
key = record {
  c0 = column 0x2b 0x7e 0x15 0x16;
  c1 = column 0x28 0xae 0xd2 0xa6;
  c2 = column 0xab 0xf7 0x15 0x88;
  c3 = column 0x09 0xcf 0x4f 0x3c;
}

abbrev plaintext : Block
plaintext = record {
  c0 = column 0x32 0x43 0xf6 0xa8;
  c1 = column 0x88 0x5a 0x30 0x8d;
  c2 = column 0x31 0x31 0x98 0xa2;
  c3 = column 0xe0 0x37 0x07 0x34;
}

abbrev ciphertext : Block
ciphertext = record {
  c0 = column 0x39 0x25 0x84 0x1d;
  c1 = column 0x02 0xdc 0x09 0xfb;
  c2 = column 0xdc 0x11 0x85 0x97;
  c3 = column 0x19 0x6a 0x0b 0x32;
}

appendix_b : encrypt init_tables plaintext key ≡ ciphertext
unfolding encrypt init_tables xtime
appendix_b = refl

appendix_b_back : decrypt init_tables ciphertext key ≡ plaintext
unfolding decrypt init_tables mul9 mul11 mul13 mul14
appendix_b_back = refl

plaintext-IsByteBlock : IsByteBlock plaintext
plaintext-IsByteBlock = omega arith

decrypt-encrypt_example : decrypt init_tables (encrypt init_tables plaintext key) key ≡ plaintext
decrypt-encrypt_example = decrypt-encrypt plaintext key plaintext-IsByteBlock

abbrev zero_key : RoundKey
zero_key = record { w0 = 0; w1 = 0; w2 = 0; w3 = 0 }

abbrev expanding : KeyExpand
expanding = record { state = st_expand; round_idx = 7; rk = λ i. zero_key; done = true }

abbrev some_key : Block
some_key = record {
  c0 = column 0x2B 0x7E 0x15 0x16;
  c1 = column 0x28 0xAE 0xD2 0xA6;
  c2 = column 0xAB 0xF7 0x15 0x88;
  c3 = column 0x09 0xCF 0x4F 0x3C;
}

abbrev start_pins : Bool → ExpandIn
start_pins start = record { resetn = true; start = start; key_in = key_words some_key }

abbrev waiting : KeyExpand
waiting = record { state = st_idle; round_idx = 0; rk = λ i. zero_key; done = false }

edges-key_expansion_example :
    IsExpanded
      (key_expansion init_tables some_key)
      (edges 10 (start_pins false) (step (start_pins true) waiting))
edges-key_expansion_example =
    edges-key_expansion some_key (start_pins true) (start_pins false) waiting (omega arith) refl
      refl refl refl refl
