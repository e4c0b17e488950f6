-- ===== src/Tests/Bursts.antt =====
-- The burst memory at concrete inputs.
use riscv_soc.Base.{ℕ, Bool, true, false, [], ◌∷◌, ◌≡◌, refl, arith}
use riscv_soc.DmaRam.{Ram, RamPins, w_idle, r_idle, r_burst, RState, step}
use riscv_soc.DmaRam.Burst.{RamBench, write_burst, read_burst}
use riscv_soc.DmaRam.RoundTrip.{full_beats, read_burst-write_burst}
use riscv_soc.DmaRam.Beats.{edges, last_beat_withdrawn}
use riscv_soc.DmaRam.Main.{low_pins}

abbrev ram_with : RState → Bool → ℕ → Ram
ram_with r shown left = record {
  mem = λ i. 0;
  w_state = w_idle;
  w_word_idx = 0;
  w_beats_left = 0;
  s_bvalid = false;
  s_bresp = 0;
  r_state = r;
  r_word_idx = 0;
  r_beats_left = left;
  s_rvalid = shown;
  s_rdata = 7;
  s_rresp = 0;
  s_rlast = false;
}

abbrev out_of_reset_pins : RamPins
out_of_reset_pins = record low_pins { resetn = true }

abbrev bench : RamBench
bench = record { pins = out_of_reset_pins; ram = ram_with r_idle false 0 }

-- Two words on both sides of the end of the memory.
read_burst-write_burst_example :
    (read_burst 0x1FFC 2 (write_burst 0x1FFC (full_beats (0xCAFE ∷ 0xF00D ∷ [])) bench).1).0
    ≡ 0xCAFE ∷ 0xF00D ∷ []
read_burst-write_burst_example =
    read_burst-write_burst 0x1FFC 0xCAFE (0xF00D ∷ []) bench
      (record {
        out_of_reset = refl;
        no_aw = refl;
        no_w = refl;
        no_b = refl;
        no_ar = refl;
        no_r = refl;
        writes_idle = refl;
        no_response = refl;
        reads_idle = refl;
        no_data = refl;
      })
      (omega arith) (omega arith, (omega arith, tt))

-- The master takes the beat before the last one, and then stops.
last_beat_withdrawn_example :
    let s = ram_with r_burst true 0 in
    let p = record out_of_reset_pins { rready = true } in
    let t = step p s in
    (t.s_rvalid ≡ true)
    × (t.s_rlast ≡ true)
    × (t.s_rdata ≡ s.mem s.r_word_idx)
    × (t.r_state ≡ r_idle)
    × ((edges out_of_reset_pins 4 t).s_rvalid ≡ false)
    × ((edges out_of_reset_pins 4 t).r_state ≡ r_idle)
last_beat_withdrawn_example =
    last_beat_withdrawn (record out_of_reset_pins { rready = true }) out_of_reset_pins
      (ram_with r_burst true 0) 3 refl refl (record { out_of_reset = refl; not_ready = refl }) refl
      refl refl
