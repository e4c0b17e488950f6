-- ===== src/Xbar/Main/Passes.antt =====
-- The run of `main` of blocks/axi_lite_xbar/dv/sim_main.cpp.
use riscv_soc.Base.{ℕ, update, update-eq, ◌≡◌, refl}
use mathlib.Core.Path.{subst}
use riscv_soc.Xbar.{decode_addr, select}
use riscv_soc.Xbar.Fake.{Fake, fake_step, fake_outs}
use riscv_soc.Xbar.Raw.{tick_rise, side_outs}
use riscv_soc.Xbar.Top.{Top}
use riscv_soc.Xbar.Main.{main}

abbrev clear_ram : Top Fake → Fake
clear_ram t = record t.slaves.ram { mem = update t.slaves.ram.mem 1 0 }

cleared : Top Fake → Top Fake
cleared t = record t { slaves = record t.slaves { ram = clear_ram t } }

cleared_form : (t : Top Fake) (rd resp : ℕ) → main (cleared t) rd resp ≡ 0
unfolding cleared main tick_rise side_outs fake_step fake_outs decode_addr select
cleared_form t rd resp = refl

-- A memory whose word 1 is 0 is the same with 0 written there.
cleared-eq : (t : Top Fake) → t.slaves.ram.mem 1 ≡ 0 → cleared t ≡ t
unfolding cleared
cleared-eq t h = λ i. record t {
  slaves = record t.slaves {
    ram = record t.slaves.ram { mem = λ j. update-eq t.slaves.ram.mem 1 0 h j i };
  };
}

-- The test bench of the crossbar passes from every power-on state of the crossbar and of the nine
-- slaves in which word 1 of the RAM is 0, whatever the uninitialised locals hold: one of its checks
-- reads that word before it is written.
pub xbar_main_passes : (t : Top Fake) (rd resp : ℕ) → t.slaves.ram.mem 1 ≡ 0 → main t rd resp ≡ 0
xbar_main_passes t rd resp h =
    subst (λ u. main u rd resp ≡ 0) (cleared-eq t h) (cleared_form t rd resp)
