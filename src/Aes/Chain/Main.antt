-- ===== src/Aes/Chain/Main.antt =====
-- `main` of blocks/aes/dv/chain_sim_main.cpp. A string of 32 hexadecimal digits is the block of its
-- sixteen bytes.
pub mod Passes
use riscv_soc.Base.{ℕ, zero, suc, Bool, true, false, if◌then◌else◌, ◌==◌, List, [], ◌∷◌}
use riscv_soc.Harness.{◌>>=◌, ◌>>◌}
use riscv_soc.Aes.Ref.{Column, Block, column_word}
use riscv_soc.Aes.KeyExpand.{RoundKey}
use riscv_soc.Aes.Core.{column_of}
use riscv_soc.Aes.Core.Main.{bytes_to_words, words_to_bytes, same_block, hex}
use riscv_soc.Aes.Chain.{Chain, ChainIn, chain_step}

-- The locals of `main`.
pub record ChainSim : Type 0 where
  pub pins : ChainIn
  pub design : Chain
  pub fail_count : ℕ

abbrev pub ChainTest : Type 0 → Type 0
ChainTest A = ChainSim → A × ChainSim

unfoldable pub clock : ChainSim → ChainSim
clock s = record s { design = chain_step s.pins s.design }

abbrev pub check : Bool → ChainTest (Unit {0})
check cond s = (tt, record s { fail_count = if cond then s.fail_count else suc s.fail_count })

-- The lambda `load_iv`.
unfoldable pub load_iv : Block → ChainTest (Unit {0})
unfolding clock bytes_to_words
load_iv iv s =
    let t =
      clock (record s { pins = record s.pins { iv_in = bytes_to_words iv; load_iv = true } }) in
    (tt, record t { pins = record t.pins { load_iv = false } })

-- `while (!dut->done && timeout < 200)` with `left` rounds to go.
unfoldable pub await_done : ℕ → ChainSim → ChainSim
unfolding clock
await_done zero s = s
await_done (suc left) s = elim s.design.done_reg [ true ↦ s | false ↦ await_done left (clock s) ]

abbrev pub start_block : Block → Bool → ℕ → ChainSim → ChainSim
start_block input encdec mode s = record s {
  pins = record s.pins {
    data_in = bytes_to_words input;
    encdec = encdec;
    mode = mode;
    start = true;
  };
}

abbrev pub stop : ChainSim → ChainSim
stop s = record s { pins = record s.pins { start = false } }

-- The lambda `run_block`.
unfoldable pub run_block : Block → Bool → ℕ → ChainTest Block
unfolding clock await_done bytes_to_words words_to_bytes
run_block input encdec mode s =
    let t = await_done 200 (stop (clock (start_block input encdec mode s))) in
    (words_to_bytes t.design.data_out_reg, t)

-- `run_block` for one block after the other.
unfoldable pub run_blocks : List Block → Bool → ℕ → ChainTest (List Block)
unfolding run_block
run_blocks [] encdec mode s = ([], s)
run_blocks (b ∷ bs) encdec mode s =
    let r = run_block b encdec mode s in
    let rest = run_blocks bs encdec mode r.1 in (r.0 ∷ rest.0, rest.1)

-- A loop over four blocks: each is run and compared with what is expected. It yields the blocks.
unfoldable pub run_checked : List (Block × Block) → Bool → ℕ → ChainTest (List Block)
unfolding run_block same_block
run_checked [] encdec mode s = ([], s)
run_checked ((b, expected) ∷ rows) encdec mode s =
    let r = run_block b encdec mode s in
    let c = check (same_block r.0 expected) r.1 in
    let rest = run_checked rows encdec mode c.1 in (r.0 ∷ rest.0, rest.1)

abbrev pub pairs : List Block → List Block → List (Block × Block)
pairs [] bs = []
pairs (a ∷ xs) [] = []
pairs (a ∷ xs) (b ∷ bs) = (a, b) ∷ pairs xs bs

abbrev pub pt_hex : List Block
pt_hex =
    hex 0x6bc1_bee2 0x2e40_9f96 0xe93d_7e11 0x7393_172a
    ∷ hex 0xae2d_8a57 0x1e03_ac9c 0x9eb7_6fac 0x45af_8e51
    ∷ hex 0x30c8_1c46 0xa35c_e411 0xe5fb_c119 0x1a0a_52ef
    ∷ hex 0xf69f_2445 0xdf4f_9b17 0xad2b_417b 0xe66c_3710
    ∷ []

abbrev pub expected_cbc_ct : List Block
expected_cbc_ct =
    hex 0x7649_abac 0x8119_b246 0xcee9_8e9b 0x12e9_197d
    ∷ hex 0x5086_cb9b 0x5072_19ee 0x95db_113a 0x9176_78b2
    ∷ hex 0x73be_d6b8 0xe3c1_743b 0x7116_e69e 0x2222_9516
    ∷ hex 0x3ff1_caa1 0x681f_ac09 0x120e_ca30 0x7586_e1a7
    ∷ []

abbrev pub expected_ctr_ct : List Block
expected_ctr_ct =
    hex 0x874d_6191 0xb620_e326 0x1bef_6864 0x990d_b6ce
    ∷ hex 0x9806_f66b 0x7970_fdff 0x8617_187b 0xb9ff_fdff
    ∷ hex 0x5ae4_df3e 0xdbd5_d35e 0x5b4f_0902 0x0db0_3eab
    ∷ hex 0x1e03_1dda 0x2fbe_03d1 0x7921_70a0 0xf300_9cee
    ∷ []

abbrev pub cbc_iv : Block
cbc_iv = hex 0x0001_0203 0x0405_0607 0x0809_0a0b 0x0c0d_0e0f

abbrev pub ctr_iv : Block
ctr_iv = hex 0xf0f1_f2f3 0xf4f5_f6f7 0xf8f9_fafb 0xfcfd_feff

abbrev set_pins : (ChainIn → ChainIn) → ChainTest (Unit {0})
set_pins f s = (tt, record s { pins = f s.pins })

-- `clock();` as a statement.
abbrev pub tick : ChainTest (Unit {0})
tick s = (tt, clock s)

abbrev key : Block
key = hex 0x2b7e_1516 0x28ae_d2a6 0xabf7_1588 0x09cf_4f3c

-- Encryption of the four blocks from an initial vector, and decryption of what came out.
unfoldable pub there_and_back : Block → ℕ → List Block → ChainTest (Unit {0})
unfolding load_iv run_checked
there_and_back iv mode expected =
    load_iv iv >> run_checked (pairs pt_hex expected) false mode >>= λ ct.
    load_iv iv >> run_checked (pairs ct pt_hex) true mode >>= λ pt s. (tt, s)

unfoldable pub body : ChainTest (Unit {0})
unfolding there_and_back clock bytes_to_words
body =
    set_pins (λ p. record p { resetn = false })
    >> tick
    >> tick
    >> set_pins (λ p. record p { resetn = true })
    >> tick
    >> set_pins (λ p. record p { key_in = bytes_to_words key })
    >> there_and_back cbc_iv 1 expected_cbc_ct
    >> there_and_back ctr_iv 2 expected_ctr_ct

-- `main`, from a power-on state of the registers and of the data pins.
unfoldable pub main : ChainIn → Chain → ℕ
unfolding body
main pins chain =
    let s : ChainSim = record {
      pins = record pins { start = false; load_iv = false };
      design = chain;
      fail_count = 0;
    } in
    if (body s).1.fail_count == 0 then 0 else 1
