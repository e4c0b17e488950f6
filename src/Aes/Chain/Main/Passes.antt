-- ===== src/Aes/Chain/Main/Passes.antt =====
-- The run of `main` of blocks/aes/dv/chain_sim_main.cpp.
use riscv_soc.Base.{◌≡◌, refl}
use riscv_soc.Aes.KeyExpand.{step}
use riscv_soc.Aes.Core.{core_step, bytes_of, words_of}
use riscv_soc.Aes.Core.Round.{
  xor_key, enc_round_next, enc_final_next, dec_round_next, dec_final_next,
}
use riscv_soc.Aes.Chain.{Chain, ChainIn, chain_step, core_in, finished_data, finished_iv}
use riscv_soc.Aes.Chain.Main.{main}

-- The test bench of the modes passes whatever the registers and the data pins hold at power-on.
pub chain_main_passes : (pins : ChainIn) (chain : Chain) → main pins chain ≡ 0
unfolding main chain_step core_in finished_data finished_iv core_step bytes_of words_of xor_key
    enc_round_next enc_final_next dec_round_next dec_final_next step
chain_main_passes pins chain = refl
