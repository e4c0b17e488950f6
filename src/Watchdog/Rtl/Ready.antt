-- ===== src/Watchdog/Rtl/Ready.antt =====
-- The watchdog as a slave of the bus functional model.
use riscv_soc.Base.{refl, arith}
use riscv_soc.Axi.Bfm.Ready.{IsReady}
use riscv_soc.Watchdog.Rtl.{step, dut}

pub dut-IsReady : IsReady dut
unfolding step
dut-IsReady = record {
  awready_on = λ p s. refl;
  wready_on = λ p s. refl;
  arready_on = λ p s. refl;
  answers_write = λ p s r a w. ground arith;
  answers_read = λ p s r a. ground arith;
}
