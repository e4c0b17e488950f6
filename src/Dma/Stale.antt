-- ===== src/Dma/Stale.antt =====
-- The wait for AWREADY of the lambda `ram_write_burst` of blocks/dma/dv/dma_engine_sim_main.cpp.
use riscv_soc.Base.{ℕ, zero, suc, Bool, true, false, ◌&&◌, ◌≡◌, refl, sym, arith}
use mathlib.Core.Path.{subst}
use riscv_soc.Axi.Pins.{Pins}
use riscv_soc.DmaRam
use riscv_soc.DmaRam.{write_edge, write_path, w_idle, w_burst}
use riscv_soc.Dma.Top.{top_step, test_outs, ram_pins}
use riscv_soc.Dma.Bench.{Side, DmaSim, side_step, clock, await, address_taken}

-- The address is on the test port, and no word.
pub record IsOffered (s : DmaSim) : Type 0 where
  pub out_of_reset : s.bench.pins.resetn ≡ true
  pub address : s.bench.state.test.awvalid ≡ true
  pub no_word : s.bench.state.test.wvalid ≡ false
  pub unseen : s.bench.state.seen.ram_awready ≡ false

-- At the edge the memory takes the address, and its AWREADY is low when the outputs are evaluated.
side_step-unseen :
    (p : Pins) (s : Side)
    → p.resetn ≡ true
    → s.test.awvalid ≡ true
    → s.test.wvalid ≡ false
    → (side_step p s).seen.ram_awready ≡ false
unfolding side_step top_step test_outs ram_pins DmaRam.step DmaRam.edge write_edge write_path
side_step-unseen p s e a w = ground arith

clock-IsOffered : (s : DmaSim) → IsOffered s → IsOffered (clock s)
unfolding clock side_step
clock-IsOffered s h = record {
  out_of_reset = h.out_of_reset;
  address = h.address;
  no_word = h.no_word;
  unseen = side_step-unseen s.bench.pins s.bench.state h.out_of_reset h.address h.no_word;
}

-- `n` turns of the clock.
abbrev pub turns : ℕ → DmaSim → DmaSim
turns zero s = s
turns (suc n) s = turns n (clock s)

abbrev pick : DmaSim → DmaSim → Bool → DmaSim
pick s t b = elim b [ true ↦ s | false ↦ t ]

-- The loop in which `ram_write_burst` waits for AWREADY always runs to its limit, whatever the engine
-- and the memory are doing: the port shows AWREADY only after the edge that has taken the address.
pub address_never_seen :
    (left : ℕ) (s : DmaSim) → IsOffered s → await left address_taken s ≡ turns left s
unfolding await
address_never_seen zero s h = refl
address_never_seen (suc left) s h =
    subst (λ b. pick s (await left address_taken (clock s)) b ≡ turns left (clock s))
      (λ i. sym h.address i && sym h.unseen i)
      (address_never_seen left (clock s) (clock-IsOffered s h))
