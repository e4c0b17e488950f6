-- ===== src/Tests/Tapping.antt =====
-- The JTAG controller at concrete inputs.
use riscv_soc.Base.{◌%◌, true, ◌==◌, ◌≡◌}
use riscv_soc.Jtag.Tap.{Tap}
use riscv_soc.Jtag.Tap.Main.{main}
use riscv_soc.Jtag.Tap.Main.Passes.{tap_main_passes}

abbrev powered : Tap
powered = record { resetn = true; tms = true; state_r = 9 }

tap_main_passes_example : main (λ i. i % 3 == 1) powered ≡ 0
tap_main_passes_example = tap_main_passes (λ i. i % 3 == 1) powered
