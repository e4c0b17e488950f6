-- ===== src/Aes/KeyExpand/Main.antt =====
-- blocks/aes/dv/key_expand_sim_main.cpp: `get_round_key` and `main`.
use riscv_soc.Base.{ℕ, zero, suc, Bool, true, false, ◌&&◌, ◌==◌, if◌then◌else◌, ◌≡◌, refl}
use riscv_soc.Base.{List, [], ◌∷◌, ◌++◌}
use riscv_soc.Aes.Ref.{byte_of}
use riscv_soc.Aes.KeyExpand.{RoundKey, KeyExpand, ExpandIn, step}

pub record ExpandBench : Type 0 where
  pub pins : ExpandIn
  pub design : KeyExpand

unfoldable pub clock : ExpandBench → ExpandBench
unfolding step
clock b = record b { design = step b.pins b.design }

-- The four bytes of a word, the highest first.
abbrev bytes_of : ℕ → List ℕ
bytes_of w = byte_of w 3 ∷ byte_of w 2 ∷ byte_of w 1 ∷ byte_of w 0 ∷ []

-- Word `3 - w` of `rk[i]` is `round_keys[4 * i + w]`, and its bytes go to `out[12 - 4 * w]` on.
abbrev pub get_round_key : KeyExpand → ℕ → List ℕ
get_round_key s i =
    let k = s.rk i in bytes_of k.w0 ++ (bytes_of k.w1 ++ (bytes_of k.w2 ++ bytes_of k.w3))

-- `strcmp` of two keys in hexadecimal: they agree if their bytes do.
abbrev same_bytes : List ℕ → List ℕ → Bool
same_bytes [] [] = true
same_bytes [] (y ∷ ys) = false
same_bytes (x ∷ xs) [] = false
same_bytes (x ∷ xs) (y ∷ ys) = x == y && same_bytes xs ys

-- `while (!dut->done && timeout < 100)` with `left` rounds to go.
unfoldable pub await_done : ℕ → ExpandBench → ExpandBench
unfolding clock
await_done zero b = b
await_done (suc left) b = elim b.design.done [ true ↦ b | false ↦ await_done left (clock b) ]

-- The key, and the reset and the start of the expansion.
abbrev key : RoundKey
key = record { w0 = 0x0001_0203; w1 = 0x0405_0607; w2 = 0x0809_0A0B; w3 = 0x0C0D_0E0F }

abbrev drive : Bool → Bool → RoundKey → ExpandBench → ExpandBench
drive resetn start k b = record b { pins = record { resetn = resetn; start = start; key_in = k } }

-- The bench when `main` begins: `start` is low, `key_in` has any value.
abbrev powered : RoundKey → KeyExpand → ExpandBench
powered before s = record {
  pins = record { resetn = false; start = false; key_in = before };
  design = s;
}

unfoldable pub reset_design : RoundKey → ExpandBench → ExpandBench
unfolding clock
reset_design before b = clock (drive true false before (clock (clock (drive false false before b))))

unfoldable pub expand_key : RoundKey → KeyExpand → ExpandBench
unfolding clock await_done reset_design
expand_key before s =
    let ready = reset_design before (powered before s) in
    await_done 100 (drive true false key (clock (drive true true key ready)))

-- The eleven keys of FIPS-197.
expected : List (List ℕ)
expected =
    (0x00 ∷ 0x01 ∷ 0x02 ∷ 0x03 ∷ 0x04 ∷ 0x05 ∷ 0x06 ∷ 0x07 ∷ 0x08 ∷ 0x09 ∷ 0x0A ∷ 0x0B ∷ 0x0C ∷ 0x0D
      ∷ 0x0E ∷ 0x0F ∷ [])
    ∷ (0xD6 ∷ 0xAA ∷ 0x74 ∷ 0xFD ∷ 0xD2 ∷ 0xAF ∷ 0x72 ∷ 0xFA ∷ 0xDA ∷ 0xA6 ∷ 0x78 ∷ 0xF1 ∷ 0xD6
        ∷ 0xAB ∷ 0x76 ∷ 0xFE ∷ [])
    ∷ (0xB6 ∷ 0x92 ∷ 0xCF ∷ 0x0B ∷ 0x64 ∷ 0x3D ∷ 0xBD ∷ 0xF1 ∷ 0xBE ∷ 0x9B ∷ 0xC5 ∷ 0x00 ∷ 0x68
        ∷ 0x30 ∷ 0xB3 ∷ 0xFE ∷ [])
    ∷ (0xB6 ∷ 0xFF ∷ 0x74 ∷ 0x4E ∷ 0xD2 ∷ 0xC2 ∷ 0xC9 ∷ 0xBF ∷ 0x6C ∷ 0x59 ∷ 0x0C ∷ 0xBF ∷ 0x04
        ∷ 0x69 ∷ 0xBF ∷ 0x41 ∷ [])
    ∷ (0x47 ∷ 0xF7 ∷ 0xF7 ∷ 0xBC ∷ 0x95 ∷ 0x35 ∷ 0x3E ∷ 0x03 ∷ 0xF9 ∷ 0x6C ∷ 0x32 ∷ 0xBC ∷ 0xFD
        ∷ 0x05 ∷ 0x8D ∷ 0xFD ∷ [])
    ∷ (0x3C ∷ 0xAA ∷ 0xA3 ∷ 0xE8 ∷ 0xA9 ∷ 0x9F ∷ 0x9D ∷ 0xEB ∷ 0x50 ∷ 0xF3 ∷ 0xAF ∷ 0x57 ∷ 0xAD
        ∷ 0xF6 ∷ 0x22 ∷ 0xAA ∷ [])
    ∷ (0x5E ∷ 0x39 ∷ 0x0F ∷ 0x7D ∷ 0xF7 ∷ 0xA6 ∷ 0x92 ∷ 0x96 ∷ 0xA7 ∷ 0x55 ∷ 0x3D ∷ 0xC1 ∷ 0x0A
        ∷ 0xA3 ∷ 0x1F ∷ 0x6B ∷ [])
    ∷ (0x14 ∷ 0xF9 ∷ 0x70 ∷ 0x1A ∷ 0xE3 ∷ 0x5F ∷ 0xE2 ∷ 0x8C ∷ 0x44 ∷ 0x0A ∷ 0xDF ∷ 0x4D ∷ 0x4E
        ∷ 0xA9 ∷ 0xC0 ∷ 0x26 ∷ [])
    ∷ (0x47 ∷ 0x43 ∷ 0x87 ∷ 0x35 ∷ 0xA4 ∷ 0x1C ∷ 0x65 ∷ 0xB9 ∷ 0xE0 ∷ 0x16 ∷ 0xBA ∷ 0xF4 ∷ 0xAE
        ∷ 0xBF ∷ 0x7A ∷ 0xD2 ∷ [])
    ∷ (0x54 ∷ 0x99 ∷ 0x32 ∷ 0xD1 ∷ 0xF0 ∷ 0x85 ∷ 0x57 ∷ 0x68 ∷ 0x10 ∷ 0x93 ∷ 0xED ∷ 0x9C ∷ 0xBE
        ∷ 0x2C ∷ 0x97 ∷ 0x4E ∷ [])
    ∷ (0x13 ∷ 0x11 ∷ 0x1D ∷ 0x7F ∷ 0xE3 ∷ 0x94 ∷ 0x4A ∷ 0x17 ∷ 0xF3 ∷ 0x07 ∷ 0xA7 ∷ 0x8B ∷ 0x4D
        ∷ 0x2B ∷ 0x30 ∷ 0xC5 ∷ [])
    ∷ []

-- `fail_count` after the loop over the round keys from `i` on.
count_mismatches : ℕ → List (List ℕ) → KeyExpand → ℕ
count_mismatches i [] s = 0
count_mismatches i (k ∷ ks) s =
    let rest = count_mismatches (suc i) ks s in
    if same_bytes (get_round_key s i) k then rest else suc rest

-- The exit status.
pub main : RoundKey → KeyExpand → ℕ
unfolding expand_key expected count_mismatches
main before s =
    let b = expand_key before s in
    if b.design.done then (if count_mismatches 0 expected b.design == 0 then 0 else 1) else 1

-- The test bench passes whatever the registers and `key_in` hold at power-on.
pub key_expand_main_passes : (before : RoundKey) (s : KeyExpand) → main before s ≡ 0
unfolding main step
key_expand_main_passes before s = refl
