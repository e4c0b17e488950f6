-- ===== src/DmaRam/RoundTrip.antt =====
-- `write_burst` and then `read_burst` of blocks/dma/dv/dma_ram_sim_main.cpp.
use riscv_soc.Base.{ℕ, zero, suc, ◌+◌, ◌%◌, ◌^◌, ◌<◌, ◌≤◌, List, [], ◌∷◌, length}
use riscv_soc.Base.{update, merge_bytes, merge_all, ◌≡◌, refl, ap, ◌∙◌, arith}
use riscv_soc.DmaRam.{word_index, next_index, size_words}
use riscv_soc.DmaRam.Burst.{RamBench, Beat, write_burst, read_burst}
use riscv_soc.DmaRam.Quiet.{IsQuiet}
use riscv_soc.DmaRam.Store.{store_beats, write_burst-stores}
use riscv_soc.DmaRam.Load.{loaded, read_burst-loads}

-- Beats with all four strobes up.
abbrev pub full_beats : List ℕ → List Beat
full_beats [] = []
full_beats (w ∷ ws) = record { word = w; strobe = 0xF } ∷ full_beats ws

abbrev pub AllWords : List ℕ → Type 0
AllWords [] = Unit {0}
AllWords (w ∷ ws) = (w < 2 ^ 32) × AllWords ws

update-other : (mem : ℕ → ℕ) (i j v : ℕ) → (i ≡ j → ⊥) → update mem i v j ≡ mem j
update-other mem i j v h = ground (arith, h)

update-same : (mem : ℕ → ℕ) (i v : ℕ) → update mem i v i ≡ v
update-same mem i v = ground arith

-- Beats that end before the word at distance `d` do not touch it.
store_beats-keeps :
    (ws : List ℕ) (i d j : ℕ) (mem : ℕ → ℕ)
    → i < size_words
    → length ws ≤ d
    → d < size_words
    → (i + d) % size_words ≡ j
    → store_beats (full_beats ws) i mem j ≡ mem j
store_beats-keeps [] i d j mem hi l h e = refl
store_beats-keeps (w ∷ ws) i zero j mem hi l h e = absurd (omega arith)
store_beats-keeps (w ∷ ws) i (suc d) j mem hi l h e =
    let v = merge_bytes 0xF w (mem i) in
    store_beats-keeps ws (next_index i) d j (update mem i v) (omega arith) (omega arith)
      (omega arith) (omega arith)
    ∙ update-other mem i j v (λ k. omega arith)

loaded-store_beats :
    (ws : List ℕ) (i : ℕ) (mem : ℕ → ℕ)
    → i < size_words
    → length ws ≤ size_words
    → AllWords ws
    → loaded (length ws) i (store_beats (full_beats ws) i mem) ≡ ws
loaded-store_beats [] i mem hi l a = refl
loaded-store_beats (w ∷ ws) i mem hi l a =
    let v = merge_bytes 0xF w (mem i) in
    let first =
      store_beats-keeps ws (next_index i) 2047 i (update mem i v) (omega arith) (omega arith)
        (omega arith) (omega arith)
      ∙ update-same mem i v
      ∙ merge_all w (mem i) a.0 in
    let others =
      loaded-store_beats ws (next_index i) (update mem i v) (omega arith) (omega arith) a.1 in
    λ k. first k ∷ others k

-- From a quiet bench, words of 32 bits, 1 to 256 of them, that are written in one burst come back
-- unchanged and in order when a read burst of that length from the same address follows.
pub read_burst-write_burst :
    (addr w : ℕ) (ws : List ℕ) (b : RamBench)
    → IsQuiet b
    → length (w ∷ ws) ≤ 256
    → AllWords (w ∷ ws)
    → (read_burst addr (length (w ∷ ws)) (write_burst addr (full_beats (w ∷ ws)) b).1).0 ≡ w ∷ ws
read_burst-write_burst addr w ws b q l a =
    let s = write_burst-stores addr (record { word = w; strobe = 0xF }) (full_beats ws) b q in
    let c = (write_burst addr (full_beats (w ∷ ws)) b).1 in
    let r = read_burst-loads addr (length (w ∷ ws)) c s.quiet (omega arith) l in
    r.delivered
    ∙ ap (λ m. loaded (length (w ∷ ws)) (word_index addr) m) s.stored
    ∙ loaded-store_beats (w ∷ ws) (word_index addr) b.ram.mem (omega arith) (omega arith) a
