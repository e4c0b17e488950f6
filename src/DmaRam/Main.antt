-- ===== src/DmaRam/Main.antt =====
-- `main` of blocks/dma/dv/dma_ram_sim_main.cpp.
use riscv_soc.Base.{ℕ, suc, Bool, true, false, ◌&&◌, ◌==◌, if◌then◌else◌, List, [], ◌∷◌}
use riscv_soc.Base.{length, get_or, update, update-eq, ◌≡◌, refl}
use mathlib.Core.Path.{subst}
use riscv_soc.Harness.{◌>>=◌, ◌>>◌}
use riscv_soc.DmaRam.{RamPins, Ram}
use riscv_soc.DmaRam.Burst
use riscv_soc.DmaRam.Burst.{RamBench, Beat, clock}

-- The locals of `main`.
pub record RamSim : Type 0 where
  pub bench : RamBench
  pub fail_count : ℕ

abbrev pub RamTest : Type 0 → Type 0
RamTest A = RamSim → A × RamSim

abbrev check : Bool → RamTest (Unit {0})
check cond s = (tt, record s { fail_count = if cond then s.fail_count else suc s.fail_count })

unfoldable pub write_burst : ℕ → List Beat → RamTest Bool
unfolding Burst.write_burst
write_burst addr xs s = let r = Burst.write_burst addr xs s.bench in (r.0, record s { bench = r.1 })

unfoldable pub read_burst : ℕ → ℕ → RamTest (List ℕ)
unfolding Burst.read_burst
read_burst addr n s = let r = Burst.read_burst addr n s.bench in (r.0, record s { bench = r.1 })

-- `resetn = 0; clock(); clock(); resetn = 1; clock();`.
unfoldable pub reset_ram : RamTest (Unit {0})
unfolding clock
reset_ram s =
    let level = λ (r : Bool) (b : RamBench). record b { pins = record b.pins { resetn = r } } in
    (tt, record s { bench = clock (level true (clock (clock (level false s.bench)))) })

abbrev beat : ℕ → ℕ → Beat
beat word strobe = record { word = word; strobe = strobe }

-- `for (int i = 0; i < 4 && i < rd.size(); i++) check(rd[i] == words[i])`.
abbrev check_words : List ℕ → List ℕ → RamTest (Unit {0})
check_words [] ws s = (tt, s)
check_words (r ∷ rs) [] s = (tt, s)
check_words (r ∷ rs) (w ∷ ws) s = check_words rs ws (check (r == w) s).1

-- `rd.size() == n && rd[0] == word`.
abbrev starts : ℕ → ℕ → List ℕ → Bool
starts n word rd = length rd == n && get_or rd 0 0 == word

four_beats : RamTest (Unit {0})
unfolding write_burst read_burst
four_beats =
    write_burst 0x0 (
      beat 0x1111_1111 0xF
      ∷ beat 0x2222_2222 0xF
      ∷ beat 0x3333_3333 0xF
      ∷ beat 0x4444_4444 0xF
      ∷ [])
    >>= λ ok. check ok >> read_burst 0x0 4 >>= λ rd.
        check (length rd == 4)
        >> check_words rd (0x1111_1111 ∷ 0x2222_2222 ∷ 0x3333_3333 ∷ 0x4444_4444 ∷ [])

-- A single beat is written, read back and compared.
one_beat : ℕ → Beat → ℕ → RamTest (Unit {0})
unfolding write_burst read_burst
one_beat addr x expected =
    write_burst addr (x ∷ []) >> read_burst addr 1 >>= λ rd. check (starts 1 expected rd)

back_to_back : RamTest (Unit {0})
unfolding write_burst read_burst
back_to_back =
    write_burst 0x30 (beat 0x9999_9999 0xF ∷ beat 0x8888_8888 0xF ∷ [])
    >> read_burst 0x30 2
    >>= λ rd_new.
        check (starts 2 0x9999_9999 rd_new && get_or rd_new 1 0 == 0x8888_8888)
        >> read_burst 0x0 1
        >>= λ rd_old. check (starts 1 0x1111_1111 rd_old)

body : RamTest (Unit {0})
unfolding reset_ram four_beats one_beat back_to_back
body =
    reset_ram
    >> four_beats
    >> one_beat 0x10 (beat 0xAABB_CCDD 0x5) 0x00BB_00DD
    >> one_beat 0x20 (beat 0xDEAD_BEEF 0xF) 0xDEAD_BEEF
    >> back_to_back

-- The input pins when `main` begins.
abbrev pub low_pins : RamPins
low_pins = record {
  resetn = false;
  awvalid = false;
  awaddr = 0;
  awlen = 0;
  wvalid = false;
  wdata = 0;
  wstrb = 0;
  wlast = false;
  bready = false;
  arvalid = false;
  araddr = 0;
  arlen = 0;
  rready = false;
}

-- From a power-on state of the design; the result is the exit status.
pub main : Ram → ℕ
unfolding body
main s =
    let t = (body (record { bench = record { pins = low_pins; ram = s }; fail_count = 0 })).1 in
    if t.fail_count == 0 then 0 else 1

clear_form : Ram → Ram
clear_form s = record s { mem = update s.mem 4 0 }

main_form : (s : Ram) → main (clear_form s) ≡ 0
unfolding main clear_form
main_form s = refl

-- A memory whose word 4 is 0 is the same with 0 written there.
clear_form-eq : (s : Ram) → s.mem 4 ≡ 0 → clear_form s ≡ s
unfolding clear_form
clear_form-eq s h = λ i. record s { mem = λ j. update-eq s.mem 4 0 h j i }

-- The test bench passes from every power-on state in which word 4 of the memory is 0, whatever the
-- rest of the memory and the registers hold: one of its checks expects two bytes of that word to be
-- 0.
pub dma_ram_main_passes : (s : Ram) → s.mem 4 ≡ 0 → main s ≡ 0
dma_ram_main_passes s h = subst (λ r. main r ≡ 0) (clear_form-eq s h) (main_form s)
