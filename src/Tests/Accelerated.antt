-- ===== src/Tests/Accelerated.antt =====
-- The AES accelerator at concrete inputs.
use riscv_soc.Base.{ℕ, Bool, true, false, ◌%◌, [], ◌∷◌, List, ◌≡◌, refl, arith}
use riscv_soc.Aes.Gf.{init_tables}
use riscv_soc.Aes.Ref.{Block, decrypt}
use riscv_soc.Aes.KeyExpand.{KeyExpand}
use riscv_soc.Aes.KeyExpand
use riscv_soc.Aes.Core.{Core, CoreIn, core_step, words_of}
use riscv_soc.Aes.Core
use riscv_soc.Aes.Core.Main.{fips_b_key, fips_b_pt, fips_c_pt, fips_c_key}
use riscv_soc.Aes.Core.Rounds.{Due}
use riscv_soc.Aes.Core.Refines.{core-ref}
use riscv_soc.Aes.Chain.{Chain, ChainIn, chain_step, mode_cbc, mode_ctr}
use riscv_soc.Aes.Chain
use riscv_soc.Aes.Chain.Due.{IsFreeChain, DueChain, cipher, mode_input, mode_output, mode_next}
use riscv_soc.Aes.Chain.Refines.{chain-modes}
use riscv_soc.Aes.Chain.RoundTrip.{run_blocks-run_blocks}
use riscv_soc.Aes.Chain.Main.{ChainSim, load_iv, run_blocks}
use riscv_soc.Aes.Regs.{Aes, zero_words}
use riscv_soc.Aes.Regs.Diff
use riscv_soc.Aes.Regs.Main as RegsMain
use riscv_soc.Aes.Regs.Main.{aes_main_passes}
use riscv_soc.Aes.Regs.Agree.{diff_main_passes}

abbrev core : Core.CoreState → Core
core st = record {
  state = st;
  encdec_reg = true;
  rnum = 3;
  data_reg = fips_c_pt;
  busy = false;
  done = false;
  data_out = zero_words;
  key_expand = record {
    state = KeyExpand.st_idle;
    round_idx = 5;
    rk = λ i. zero_words;
    done = false;
  };
}

abbrev core_pins : Bool → CoreIn
core_pins encdec = record {
  resetn = true;
  start = true;
  encdec = encdec;
  key_in = words_of fips_b_key;
  data_in = words_of fips_b_pt;
}

core-ref_example :
    Due 21
      (words_of (decrypt init_tables fips_b_pt fips_b_key))
      (core_step (core_pins true) (core Core.st_idle))
core-ref_example =
    core-ref fips_b_key fips_b_pt (core_pins true) (core Core.st_idle) (omega arith) (omega arith)
      refl refl refl refl (record { core_idle = refl; expand_idle = refl })

abbrev chain : Chain.ChainState → Core.CoreState → Chain
chain st core_st = record {
  state = st;
  mode_reg = 3;
  encdec_reg = true;
  data_in_reg = zero_words;
  iv_reg = record { w0 = 1; w1 = 2; w2 = 3; w3 = 0xFFFF_FFFF };
  data_out_reg = zero_words;
  done_reg = true;
  core = core core_st;
}

abbrev chain_pins : Bool → ℕ → ChainIn
chain_pins start mode = record {
  resetn = true;
  load_iv = false;
  iv_in = zero_words;
  start = start;
  encdec = true;
  mode = mode;
  key_in = words_of fips_b_key;
  data_in = record { w0 = 0x1234_5678; w1 = 0; w2 = 7; w3 = 0xFFFF_FFFF };
}

abbrev chain-IsFreeChain : IsFreeChain (chain Chain.st_idle Core.st_idle)
chain-IsFreeChain = record {
  chain_idle = refl;
  core_free = record { core_idle = refl; expand_idle = refl };
}

chain-modes_example :
    let p = chain_pins true mode_cbc in
    let s = chain Chain.st_idle Core.st_idle in
    let c = cipher fips_b_key true (mode_input mode_cbc true s.iv_reg p.data_in) in
    DueChain 22
      (mode_output mode_cbc true s.iv_reg p.data_in c)
      (mode_next mode_cbc true s.iv_reg p.data_in c)
      (chain_step p s)
chain-modes_example =
    chain-modes fips_b_key (chain_pins true mode_cbc) (chain Chain.st_idle Core.st_idle)
      (omega arith)
      (record { l0 = omega arith; l1 = omega arith; l2 = omega arith; l3 = omega arith })
      (record { l0 = omega arith; l1 = omega arith; l2 = omega arith; l3 = omega arith }) refl refl
      refl refl chain-IsFreeChain

abbrev chain_sim : ChainSim
chain_sim = record {
  pins = chain_pins false 0;
  design = chain Chain.st_idle Core.st_idle;
  fail_count = 0;
}

abbrev message : List Block
message = fips_b_pt ∷ fips_c_pt ∷ fips_b_pt ∷ []

run_blocks-run_blocks_example :
    let there = run_blocks message false mode_ctr (load_iv fips_c_key chain_sim).1 in
    (run_blocks there.0 true mode_ctr (load_iv fips_c_key there.1).1).0 ≡ message
run_blocks-run_blocks_example =
    run_blocks-run_blocks fips_b_key fips_c_key mode_ctr message chain_sim (omega arith)
      (omega arith) (omega arith, (omega arith, (omega arith, tt)))
      (record {
        out_of_reset = refl;
        no_load = refl;
        no_start = refl;
        keyed = refl;
        free = chain-IsFreeChain;
      })

-- At power-on the accelerator is in the middle of a round, and DONE is set.
abbrev powered : Aes
powered = record {
  key_reg = zero_words;
  data_reg = zero_words;
  iv_reg = zero_words;
  encdec_reg = true;
  mode_reg = 2;
  status_done = true;
  irq_pulse = true;
  s_bvalid = true;
  s_bresp = 3;
  s_rvalid = true;
  s_rdata = 77;
  s_rresp = 2;
  chain = chain Chain.st_core Core.st_round;
}

aes_main_passes_example : RegsMain.main powered 5 3 ≡ 0
aes_main_passes_example = aes_main_passes powered 5 3

-- Bytes that count up.
abbrev counting : ℕ → ℕ
counting i = i % 256

diff_main_passes_example : Diff.main counting powered 5 3 ≡ 0
diff_main_passes_example = diff_main_passes counting (λ i. omega arith) powered 5 3
