-- ===== src/Dma/Main/Passes.antt =====
-- Evaluation of `main` of blocks/dma/dv/dma_engine_sim_main.cpp.
use riscv_soc.Base.{ℕ, ◌≡◌, refl}
use riscv_soc.Aes.KeyExpand
use riscv_soc.Aes.Core.{core_step, bytes_of, words_of}
use riscv_soc.Aes.Core.Round.{
  xor_key, enc_round_next, enc_final_next, dec_round_next, dec_final_next,
}
use riscv_soc.Aes.Chain.{chain_step, core_in, finished_data, finished_iv}
use riscv_soc.Dma.Top.{Top, TestOuts}
use riscv_soc.Dma.Bench.{side_step, side_outs}
use riscv_soc.Dma.Main.{main}

-- The test bench of the engine passes whatever the registers, the memory and the uninitialised
-- locals hold at power-on.
pub engine_main_passes : (s : Top) (seen : TestOuts) (rd resp : ℕ) → main s seen rd resp ≡ 0
unfolding main side_step side_outs chain_step core_in finished_data finished_iv core_step bytes_of
    words_of xor_key enc_round_next enc_final_next dec_round_next dec_final_next KeyExpand.step
engine_main_passes s seen rd resp = refl
