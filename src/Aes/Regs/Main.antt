-- ===== src/Aes/Regs/Main.antt =====
-- `main` of blocks/aes/dv/sim_main.cpp. A string of 32 hexadecimal digits is the block of its
-- sixteen bytes, and four result words agree with it if they are its words.
use riscv_soc.Base.{ℕ, zero, suc, ◌+◌, ◌*◌, Bool, true, false, ◌&&◌, ◌==◌, bit, test_bit}
use riscv_soc.Base.{List, [], ◌∷◌, ◌≡◌, refl}
use riscv_soc.Harness.{Test, ◌>>=◌, ◌>>◌, check, get, exit_status, write, read, power_on}
use riscv_soc.Aes.Ref.{Block, column_word}
use riscv_soc.Aes.KeyExpand.{RoundKey}
use riscv_soc.Aes.KeyExpand
use riscv_soc.Aes.Core.{core_step, bytes_of, words_of}
use riscv_soc.Aes.Core.Round.{
  xor_key, enc_round_next, enc_final_next, dec_round_next, dec_final_next,
}
use riscv_soc.Aes.Core.Main.{
  hex, fips_b_key, fips_b_pt, fips_b_ct, fips_c_key, fips_c_pt, fips_c_ct,
}
use riscv_soc.Aes.Chain.{chain_step, core_in, finished_data, finished_iv}
use riscv_soc.Aes.Chain.Main.{pt_hex, expected_cbc_ct, pairs}
use riscv_soc.Aes.Regs.{Aes, dut, step, outs}

abbrev pub AesTest : Type 0 → Type 0
AesTest A = Test Aes (Unit {0}) A

abbrev pub done : AesTest (Unit {0})
done s = (tt, s)

-- `for (int w = 0; w < 4; w++) bfm.write(first + 4*w, word_at(b, w), 0xF, &resp)`.
unfoldable pub write_block : ℕ → Block → AesTest (Unit {0})
unfolding write
write_block first b = do
  w0 ← write dut first (column_word b.c0) 0xF
  w1 ← write dut (first + 4) (column_word b.c1) 0xF
  w2 ← write dut (first + 8) (column_word b.c2) 0xF
  w3 ← write dut (first + 12) (column_word b.c3) 0xF
  done

-- A read into a local of its own: `rd` keeps its value.
unfoldable pub read_word : ℕ → AesTest ℕ
unfolding read
read_word addr s = let r = read dut addr s in (r.1.rd, record r.1 { rd = s.rd })

-- The four result words.
unfoldable pub read_result : AesTest RoundKey
unfolding read_word
read_result = do
  w0 ← read_word 0x30
  w1 ← read_word 0x34
  w2 ← read_word 0x38
  w3 ← read_word 0x3C
  λ s. (record { w0 = w0; w1 = w1; w2 = w2; w3 = w3 }, s)

-- STATUS is read until DONE is set, `left` times at most; the result is whether it was seen.
unfoldable pub poll : ℕ → AesTest Bool
unfolding read
poll zero s = (false, s)
poll (suc left) s =
    let r = read dut 0x4 s in
    elim (test_bit r.1.rd 1) [ true ↦ (true, r.1) | false ↦ poll left r.1 ]

-- The lambda `run_block`.
unfoldable pub run_block : Block → Block → Bool → AesTest RoundKey
unfolding write_block write poll read_result
run_block key input encdec = do
  write_block 0x10 key
  write_block 0x20 input
  started ← write dut 0x0 (1 + 2 * bit encdec) 0xF
  finished ← poll 400
  words ← read_result
  cleared ← write dut 0x4 0x2 0xF
  λ s. (words, s)

unfoldable pub same_words : RoundKey → Block → Bool
same_words k b =
    k.w0 == column_word b.c0
    && (k.w1 == column_word b.c1 && (k.w2 == column_word b.c2 && k.w3 == column_word b.c3))

-- One FIPS-197 vector in both directions.
unfoldable pub vector : Block → Block → Block → AesTest (Unit {0})
unfolding run_block same_words
vector key pt ct_expected = do
  ct ← run_block key pt false
  check (same_words ct ct_expected)
  pt2 ← run_block key ct_expected true
  check (same_words pt2 pt)

-- KEY registers read back as 0.
unfoldable pub key_hidden : AesTest (Unit {0})
unfolding write read
key_hidden = do w ← write dut 0x10 0xDEAD_BEEF 0xF; r ← read dut 0x10; s ← get; check (s.rd == 0)

abbrev all_f : Block
all_f = hex 0xFFFF_FFFF 0xFFFF_FFFF 0xFFFF_FFFF 0xFFFF_FFFF

-- A second START while the accelerator is busy.
unfoldable pub no_queue : AesTest (Unit {0})
unfolding write_block write read poll read_result same_words
no_queue = do
  write_block 0x10 fips_c_key
  write_block 0x20 fips_c_pt
  started ← write dut 0x0 0x1 0xF
  status ← read dut 0x4
  s ← get
  check (test_bit s.rd 0)
  write_block 0x20 all_f
  again ← write dut 0x0 0x1 0xF
  finished ← poll 400
  check finished
  ct ← read_result
  check (same_words ct fips_c_ct)
  cleared ← write dut 0x4 0x2 0xF
  done

-- One block in CBC mode.
unfoldable pub cbc_block : Block → Block → AesTest (Unit {0})
unfolding write_block write poll read_result same_words
cbc_block input expected = do
  write_block 0x20 input
  started ← write dut 0x0 0x5 0xF
  finished ← poll 400
  check finished
  ct ← read_result
  check (same_words ct expected)
  cleared ← write dut 0x4 0x2 0xF
  done

-- The loop over the four blocks.
unfoldable pub cbc_blocks : List (Block × Block) → AesTest (Unit {0})
unfolding cbc_block
cbc_blocks [] s = (tt, s)
cbc_blocks ((input, expected) ∷ rows) s = cbc_blocks rows (cbc_block input expected s).1

abbrev cbc_iv : Block
cbc_iv = hex 0x0001_0203 0x0405_0607 0x0809_0a0b 0x0c0d_0e0f

unfoldable pub body : AesTest (Unit {0})
unfolding vector key_hidden no_queue write_block write cbc_blocks
body = do
  vector fips_b_key fips_b_pt fips_b_ct
  vector fips_c_key fips_c_pt fips_c_ct
  key_hidden
  no_queue
  write_block 0x10 fips_b_key
  write_block 0x40 cbc_iv
  loaded ← write dut 0x0 0x10 0xF
  cbc_blocks (pairs pt_hex expected_cbc_ct)

-- `main`, from a power-on state of the registers and of the locals `rd` and `resp`.
unfoldable pub main : Aes → ℕ → ℕ → ℕ
unfolding body power_on
main s rd resp =
    exit_status
      (body (record { bench = power_on dut s; model = tt; rd = rd; resp = resp; fail_count = 0 }))

-- The test bench of the accelerator passes whatever the registers and the uninitialised locals hold
-- at power-on.
pub aes_main_passes : (s : Aes) (rd resp : ℕ) → main s rd resp ≡ 0
unfolding main step outs chain_step core_in finished_data finished_iv core_step bytes_of words_of
    xor_key enc_round_next enc_final_next dec_round_next dec_final_next KeyExpand.step
aes_main_passes s rd resp = refl
