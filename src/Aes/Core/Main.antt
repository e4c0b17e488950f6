-- ===== src/Aes/Core/Main.antt =====
-- `main` of blocks/aes/dv/core_sim_main.cpp. A string of 32 hexadecimal digits is the block of its
-- sixteen bytes, and two strings agree if their bytes do.
use riscv_soc.Base.{ℕ, zero, suc, Bool, true, false, ◌&&◌, ◌==◌, if◌then◌else◌, ◌≡◌, refl}
use riscv_soc.Base.{Option, none, some}
use riscv_soc.Harness.{◌>>=◌, ◌>>◌}
use riscv_soc.Aes.Ref.{Column, Block, column_word}
use riscv_soc.Aes.KeyExpand.{RoundKey, step}
use riscv_soc.Aes.Core.Round.{
  xor_key, enc_round_next, enc_final_next, dec_round_next, dec_final_next,
}
use riscv_soc.Aes.Core.{Core, CoreIn, core_step, column_of, bytes_of, words_of}

-- The locals of `main`.
pub record CoreSim : Type 0 where
  pub pins : CoreIn
  pub design : Core
  pub fail_count : ℕ

abbrev pub CoreTest : Type 0 → Type 0
CoreTest A = CoreSim → A × CoreSim

unfoldable pub clock : CoreSim → CoreSim
unfolding core_step
clock s = record s { design = core_step s.pins s.design }

-- `w[3 - i]` of the source is word `i` here.
unfoldable pub bytes_to_words : Block → RoundKey
bytes_to_words b = record {
  w0 = column_word b.c0;
  w1 = column_word b.c1;
  w2 = column_word b.c2;
  w3 = column_word b.c3;
}

unfoldable pub words_to_bytes : RoundKey → Block
words_to_bytes w = record {
  c0 = column_of w.w0;
  c1 = column_of w.w1;
  c2 = column_of w.w2;
  c3 = column_of w.w3;
}

abbrev same_column : Column → Column → Bool
same_column a b = a.r0 == b.r0 && (a.r1 == b.r1 && (a.r2 == b.r2 && a.r3 == b.r3))

unfoldable pub same_block : Block → Block → Bool
same_block a b =
    same_column a.c0 b.c0
    && (same_column a.c1 b.c1 && (same_column a.c2 b.c2 && same_column a.c3 b.c3))

-- `while (!dut->done && timeout < 200)` with `left` rounds to go.
unfoldable pub await_done : ℕ → CoreSim → CoreSim
unfolding clock
await_done zero s = s
await_done (suc left) s = elim s.design.done [ true ↦ s | false ↦ await_done left (clock s) ]

-- The lambda `run_block`; `none` is "TIMEOUT".
unfoldable pub run_block : Block → Block → Bool → CoreTest (Option Block)
unfolding clock await_done bytes_to_words words_to_bytes
run_block key input encdec s =
    let started = clock (record s {
      pins = record s.pins {
        key_in = bytes_to_words key;
        data_in = bytes_to_words input;
        encdec = encdec;
        start = true;
      };
    }) in
    let t = await_done 200 (record started { pins = record started.pins { start = false } }) in
    (if t.design.done then some (words_to_bytes t.design.data_out) else none, t)

-- `check(what, got == expected)`.
unfoldable pub check_block : Option Block → Block → CoreTest (Unit {0})
unfolding same_block
check_block none expected s = (tt, record s { fail_count = suc s.fail_count })
check_block (some got) expected s = (
  tt,
  record s { fail_count = if same_block got expected then s.fail_count else suc s.fail_count },
)

abbrev pub hex : ℕ → ℕ → ℕ → ℕ → Block
hex a b c d = record { c0 = column_of a; c1 = column_of b; c2 = column_of c; c3 = column_of d }

-- One vector: it is encrypted, and the expected ciphertext is decrypted.
unfoldable pub vector : Block → Block → Block → CoreTest (Unit {0})
unfolding run_block check_block
vector key pt ct_expected = run_block key pt false >>= λ ct.
    check_block ct ct_expected >> run_block key ct_expected true >>= λ pt2. check_block pt2 pt

abbrev set_resetn : Bool → CoreSim → CoreSim
set_resetn level s = record s { pins = record s.pins { resetn = level } }

unfoldable pub reset_core : CoreTest (Unit {0})
unfolding clock
reset_core s = (tt, clock (set_resetn true (clock (clock (set_resetn false s)))))

abbrev pub fips_b_key : Block
fips_b_key = hex 0x2b7e_1516 0x28ae_d2a6 0xabf7_1588 0x09cf_4f3c

abbrev pub fips_b_pt : Block
fips_b_pt = hex 0x3243_f6a8 0x885a_308d 0x3131_98a2 0xe037_0734

abbrev pub fips_b_ct : Block
fips_b_ct = hex 0x3925_841d 0x02dc_09fb 0xdc11_8597 0x196a_0b32

abbrev pub fips_c_key : Block
fips_c_key = hex 0x0001_0203 0x0405_0607 0x0809_0a0b 0x0c0d_0e0f

abbrev pub fips_c_pt : Block
fips_c_pt = hex 0x0011_2233 0x4455_6677 0x8899_aabb 0xccdd_eeff

abbrev pub fips_c_ct : Block
fips_c_ct = hex 0x69c4_e0d8 0x6a7b_0430 0xd8cd_b780 0x70b4_c55a

-- `main`, from a power-on state of the registers and of the pins that it does not drive at once.
unfoldable pub main : CoreIn → Core → ℕ
unfolding reset_core vector
main pins core =
    let t =
      (reset_core >> vector fips_b_key fips_b_pt fips_b_ct >> vector fips_c_key fips_c_pt fips_c_ct)
        (record { pins = record pins { start = false }; design = core; fail_count = 0 }) in
    if t.1.fail_count == 0 then 0 else 1

-- The test bench passes whatever the registers and the data pins hold at power-on.
pub core_main_passes : (pins : CoreIn) (core : Core) → main pins core ≡ 0
unfolding main step bytes_of words_of xor_key enc_round_next enc_final_next dec_round_next
    dec_final_next
core_main_passes pins core = refl
