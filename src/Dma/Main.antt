-- ===== src/Dma/Main.antt =====
-- `main` of blocks/dma/dv/dma_engine_sim_main.cpp.
pub mod Passes
use riscv_soc.Base.{ℕ, zero, suc, ◌+◌, Bool, true, false, ◌&&◌, ◌==◌, if◌then◌else◌}
use riscv_soc.Base.{List, [], ◌∷◌, ◌≡◌, refl}
use riscv_soc.Axi.Pins.{idle_pins}
use riscv_soc.Harness.{Sim, Test, ◌>>=◌, ◌>>◌, check, exit_status, write, power_on}
use riscv_soc.Aes.Ref.{Block}
use riscv_soc.Aes.KeyExpand
use riscv_soc.Aes.Core.{core_step, bytes_of, words_of}
use riscv_soc.Aes.Core.Round.{
  xor_key, enc_round_next, enc_final_next, dec_round_next, dec_final_next,
}
use riscv_soc.Aes.Core.Main.{hex, fips_b_key, fips_c_key, fips_c_pt, fips_c_ct}
use riscv_soc.Aes.Chain.{chain_step, core_in, finished_data, finished_iv}
use riscv_soc.Aes.Chain.Main.{pt_hex, expected_cbc_ct, expected_ctr_ct, cbc_iv, ctr_iv}
use riscv_soc.DmaRam.Main.{low_pins}
use riscv_soc.Dma.Top.{Top, TestOuts}
use riscv_soc.Dma.Bench.{
  DmaTest, dut, done, write_block_to_ram, read_block_is, write_words, run_dma, side_step, side_outs,
}

abbrev all_zero : Block
all_zero = hex 0 0 0 0

abbrev all_ones : Block
all_ones = hex 0xFFFF_FFFF 0xFFFF_FFFF 0xFFFF_FFFF 0xFFFF_FFFF

-- The loop that preloads blocks from an address on.
unfoldable pub preload : ℕ → List Block → DmaTest (Unit {0})
unfolding write_block_to_ram
preload addr [] s = (tt, s)
preload addr (b ∷ bs) s = preload (addr + 16) bs (write_block_to_ram addr b s).1

-- The loop that reads blocks back and checks them.
unfoldable pub check_blocks : ℕ → List Block → DmaTest (Unit {0})
unfolding read_block_is
check_blocks addr [] s = (tt, s)
check_blocks addr (b ∷ bs) s =
    let r = read_block_is addr b s in check_blocks (addr + 16) bs (check r.0 r.1).1

unfoldable pub cbc_encrypt : DmaTest (Unit {0})
unfolding preload run_dma check_blocks
cbc_encrypt = do
  preload 0x000 pt_hex
  ok ← run_dma 0x000 0x100 4 fips_b_key cbc_iv false 1
  check ok
  check_blocks 0x100 expected_cbc_ct

unfoldable pub ctr : DmaTest (Unit {0})
unfolding preload run_dma check_blocks
ctr = do
  preload 0x200 pt_hex
  ok ← run_dma 0x200 0x300 4 fips_b_key ctr_iv false 2
  check ok
  check_blocks 0x300 expected_ctr_ct

unfoldable pub cbc_decrypt : DmaTest (Unit {0})
unfolding run_dma check_blocks
cbc_decrypt = do
  ok ← run_dma 0x100 0x400 4 fips_b_key cbc_iv true 1
  check ok
  check_blocks 0x400 pt_hex

unfoldable pub ecb : DmaTest (Unit {0})
unfolding write_block_to_ram run_dma check_blocks
ecb = do
  write_block_to_ram 0x500 fips_c_pt
  ok ← run_dma 0x500 0x600 1 fips_c_key all_ones false 0
  check ok
  check_blocks 0x600 (fips_c_ct ∷ [])

unfoldable pub register_bits : DmaTest (Unit {0})
unfolding write_words write
register_bits = do
  write_words 0x14 (hex 0xFFFE_FDFC 0xFBFA_F9F8 0xF7F6_F5F4 0xF3F2_F1F0)
  write_words 0x24 all_zero
  write_words 0x14 all_zero
  write_words 0x24 all_ones
  write_words 0x24 all_zero
  a ← write dut 0x08 0xFFFF_FFFF 0xF
  b ← write dut 0x0C 0xFFFF_FFFF 0xF
  c ← write dut 0x10 0xFFFF_FFFF 0xF
  d ← write dut 0x08 0x0000_0000 0xF
  e ← write dut 0x0C 0x0000_0000 0xF
  f ← write dut 0x10 0x0000_0000 0xF
  done

unfoldable pub body : DmaTest (Unit {0})
unfolding cbc_encrypt ctr cbc_decrypt ecb register_bits
body = do cbc_encrypt; ctr; cbc_decrypt; ecb; register_bits

-- `main`, from a power-on state of the design, of what its outputs show, and of the locals `rd` and
-- `resp`.
unfoldable pub main : Top → TestOuts → ℕ → ℕ → ℕ
unfolding body power_on
main s seen rd resp = exit_status (
    body (record {
      bench = power_on dut (record { test = low_pins; top = s; seen = seen });
      model = tt;
      rd = rd;
      resp = resp;
      fail_count = 0;
    }))
