-- ===== src/Jtag/Chain/Passes.antt =====
-- Runs of the two test benches of the JTAG chain.
use riscv_soc.Base.{ℕ, zero, suc, Bool, true, false, [], ◌∷◌, ◌≡◌, refl, length, get_or, ap}
use riscv_soc.Base.{arith}
use mathlib.Core.Path.{subst}
use riscv_soc.Base.{Bits}
use riscv_soc.Jtag.Chain.Top.{Chain}
use riscv_soc.Jtag.Chain.Main.{slow_main, fast_main}

-- The power-on contents of the registers that are shifted out before anything is written to them
-- have their width.
pub record IsSized (c : Chain) : Type 0 where
  pub addr_width : length c.dtm.addr_reg ≡ 32
  pub data_width : length c.dtm.data_reg ≡ 32

tabulate : ℕ → (ℕ → Bool) → Bits
tabulate zero f = []
tabulate (suc n) f = f 0 ∷ tabulate n (λ i. f (suc i))

tabulate-get_or : (n : ℕ) (bs : Bits) → length bs ≡ n → tabulate n (λ i. get_or bs i false) ≡ bs
unfolding tabulate
tabulate-get_or zero [] h = refl
tabulate-get_or zero (b ∷ bs) h = absurd (omega arith)
tabulate-get_or (suc n) [] h = absurd (omega arith)
tabulate-get_or (suc n) (b ∷ bs) h = ap (λ cs. b ∷ cs) (tabulate-get_or n bs (omega arith))

-- A power-on state by the values that the test benches look at.
with_values : Bool → Bool → Bits → Bits → Chain → Chain
with_values clk resp_ok addr word c = record c {
  clk = clk;
  clk_side = record c.clk_side { resp_ok = resp_ok };
  dtm = record c.dtm { addr_reg = addr; data_reg = word };
}

slow_run :
    (clk resp_ok : Bool) (f g : ℕ → Bool) (c : Chain)
    → slow_main (with_values clk resp_ok (tabulate 32 f) (tabulate 32 g) c) ≡ 0
unfolding slow_main with_values tabulate
slow_run false false f g c = refl
slow_run false true f g c = refl
slow_run true false f g c = refl
slow_run true true f g c = refl

fast_run :
    (clk resp_ok : Bool) (f g : ℕ → Bool) (c : Chain)
    → fast_main (with_values clk resp_ok (tabulate 32 f) (tabulate 32 g) c) ≡ 0
unfolding fast_main with_values tabulate
fast_run false false f g c = refl
fast_run false true f g c = refl
fast_run true false f g c = refl
fast_run true true f g c = refl

abbrev values_of : Chain → Chain
values_of c =
    with_values c.clk c.clk_side.resp_ok (tabulate 32 (λ i. get_or c.dtm.addr_reg i false))
      (tabulate 32 (λ i. get_or c.dtm.data_reg i false)) c

values_of-eq : (c : Chain) → IsSized c → values_of c ≡ c
unfolding with_values
values_of-eq c h = λ i. record c {
  dtm = record c.dtm {
    addr_reg = tabulate-get_or 32 c.dtm.addr_reg h.addr_width i;
    data_reg = tabulate-get_or 32 c.dtm.data_reg h.data_width i;
  };
}

-- With `tck` slower than `clk` the test bench passes from every power-on state whose address and
-- data registers are 32 bits wide, whatever the slave's memory and all other registers hold.
pub slow_main_passes : (c : Chain) → IsSized c → slow_main c ≡ 0
slow_main_passes c h =
    subst (λ d. slow_main d ≡ 0) (values_of-eq c h)
      (slow_run c.clk c.clk_side.resp_ok (λ i. get_or c.dtm.addr_reg i false)
        (λ i. get_or c.dtm.data_reg i false) c)

-- With `tck` faster than `clk` the test bench passes from the same power-on states.
pub fast_main_passes : (c : Chain) → IsSized c → fast_main c ≡ 0
fast_main_passes c h =
    subst (λ d. fast_main d ≡ 0) (values_of-eq c h)
      (fast_run c.clk c.clk_side.resp_ok (λ i. get_or c.dtm.addr_reg i false)
        (λ i. get_or c.dtm.data_reg i false) c)
