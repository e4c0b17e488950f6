-- ===== src/Aes/Chain/RoundTrip.antt =====
-- Messages through the lambdas `load_iv` and `run_block` of blocks/aes/dv/chain_sim_main.cpp.
use riscv_soc.Base.{ℕ, zero, suc, ◌≤◌, Bool, true, false, ◌&&◌}
use riscv_soc.Base.{◌≡◌, refl, sym, ap, ◌∙◌, arith, List, [], ◌∷◌, map}
use mathlib.Core.Path.{subst}
use riscv_soc.Aes.Ref.{Block}
use riscv_soc.Aes.Ref.MixInverse.{IsByteBlock}
use riscv_soc.Aes.KeyExpand.{RoundKey}
use riscv_soc.Aes.KeyExpand.Rounds.{IsWords}
use riscv_soc.Aes.Core.{bytes_of, words_of}
use riscv_soc.Aes.Core.Main.{bytes_to_words}
use riscv_soc.Aes.Core.Refines.{bytes_of-words_of}
use riscv_soc.Aes.Chain.{Chain, ChainIn, chain_step, core_in, is_idle, st_idle}
use riscv_soc.Aes.Chain.Due.{IsFreeChain, DueChain, core_rests}
use riscv_soc.Aes.Chain.Refines.{chain-modes, words_of-bytes_of, bytes_of-IsByteBlock}
use riscv_soc.Aes.Chain.Messages.{
  block_out, block_next, message, AllWords, block_next-IsWords, message-AllWords, message-message,
}
use riscv_soc.Aes.Chain.Main.{
  ChainSim, clock, load_iv, await_done, run_block, run_blocks, start_block, stop,
}

-- Between two blocks: out of reset, with the key on its port.
pub record IsReady (key : Block) (s : ChainSim) : Type 0 where
  pub out_of_reset : s.pins.resetn ≡ true
  pub no_load : s.pins.load_iv ≡ false
  pub no_start : s.pins.start ≡ false
  pub keyed : s.pins.key_in ≡ words_of key
  pub free : IsFreeChain s.design

-- What a run leaves: the output and the vector, and the pins as they were.
record Delivered (out iv : RoundKey) (pins : ChainIn) (t : ChainSim) : Type 0 where
  output : t.design.data_out_reg ≡ out
  vector : t.design.iv_reg ≡ iv
  free : IsFreeChain t.design
  kept : t.pins ≡ pins

abbrev pick : ChainSim → ChainSim → Bool → ChainSim
pick s t d = elim d [ true ↦ s | false ↦ t ]

-- Enough rounds for what is due.
await_done-Delivered :
    (n left : ℕ) (out iv : RoundKey) (s : ChainSim)
    → n ≤ left
    → s.pins.resetn ≡ true
    → s.pins.load_iv ≡ false
    → DueChain n out iv s.design
    → Delivered out iv s.pins (await_done left s)
unfolding await_done DueChain clock
await_done-Delivered zero zero out iv s l r z due = record {
  output = due.1;
  vector = due.2;
  free = due.3;
  kept = refl;
}
await_done-Delivered zero (suc left) out iv s l r z due =
    subst (λ d. Delivered out iv s.pins (pick s (await_done left (clock s)) d)) (sym due.0)
      (record { output = due.1; vector = due.2; free = due.3; kept = refl })
await_done-Delivered (suc n) zero out iv s l r z due = absurd (omega arith)
await_done-Delivered (suc n) (suc left) out iv s l r z due =
    subst (λ d. Delivered out iv s.pins (pick s (await_done left (clock s)) d)) (sym due.0)
      (await_done-Delivered n left out iv (clock s) (omega arith) r z (due.2 s.pins r z))

pub words_of-IsWords : (b : Block) → IsByteBlock b → IsWords (words_of b)
unfolding words_of
words_of-IsWords b h = record {
  l0 = omega (arith, h.k0);
  l1 = omega (arith, h.k1);
  l2 = omega (arith, h.k2);
  l3 = omega (arith, h.k3);
}

-- One call of `run_block`.
run_block-IsReady :
    (key input : Block) (encdec : Bool) (mode : ℕ) (s : ChainSim)
    → IsByteBlock key
    → IsByteBlock input
    → IsWords s.design.iv_reg
    → IsReady key s
    → let r = run_block input encdec mode s in
      let iv = s.design.iv_reg in
      (r.0 ≡ bytes_of (block_out key mode encdec iv (words_of input)))
      × (r.1.design.iv_reg ≡ block_next key mode encdec iv (words_of input))
      × IsReady key r.1
unfolding run_block clock words_of bytes_of
run_block-IsReady key input encdec mode s bk bi vw h =
    let begun = start_block input encdec mode s in
    let due =
      chain-modes key begun.pins s.design bk (words_of-IsWords input bi) vw h.out_of_reset refl
        h.no_load h.keyed h.free in
    let d =
      await_done-Delivered 22 200 _ _ (stop (clock begun)) (omega arith) h.out_of_reset h.no_load
        due in
    (
      ap bytes_of d.output,
      d.vector,
      record {
        out_of_reset = ap (λ (p : ChainIn). p.resetn) d.kept ∙ h.out_of_reset;
        no_load = ap (λ (p : ChainIn). p.load_iv) d.kept ∙ h.no_load;
        no_start = ap (λ (p : ChainIn). p.start) d.kept;
        keyed = ap (λ (p : ChainIn). p.key_in) d.kept ∙ h.keyed;
        free = d.free;
      },
    )

abbrev pub AllBytes : List Block → Type 0
AllBytes [] = Unit
AllBytes (b ∷ bs) = IsByteBlock b × AllBytes bs

run_blocks-message :
    (key : Block) (bs : List Block) (encdec : Bool) (mode : ℕ) (iv : RoundKey) (s : ChainSim)
    → IsByteBlock key
    → AllBytes bs
    → s.design.iv_reg ≡ iv
    → IsWords iv
    → IsReady key s
    → let r = run_blocks bs encdec mode s in
      (r.0 ≡ map bytes_of (message key mode encdec iv (map words_of bs))) × IsReady key r.1
unfolding run_blocks
run_blocks-message key [] encdec mode iv s bk bb e vw h = (refl, h)
run_blocks-message key (b ∷ bs) encdec mode iv s bk bb e vw h =
    let w = words_of b in
    let x = run_block-IsReady key b encdec mode s bk bb.0 (subst IsWords (sym e) vw) h in
    let y =
      run_blocks-message key bs encdec mode (block_next key mode encdec iv w)
        (run_block b encdec mode s).1 bk bb.1 (x.1 ∙ ap (λ v. block_next key mode encdec v w) e)
        (block_next-IsWords key mode encdec iv w vw (words_of-IsWords b bb.0)) x.2 in
    ((λ i. (x.0 ∙ ap (λ v. bytes_of (block_out key mode encdec v w)) e) i ∷ y.0 i), y.1)

load_step :
    (p : ChainIn) (s : Chain)
    → p.resetn ≡ true
    → p.load_iv ≡ true
    → p.start ≡ false
    → s.state ≡ st_idle
    → ((chain_step p s).iv_reg ≡ p.iv_in) × ((chain_step p s).state ≡ st_idle)
unfolding chain_step
load_step p s e l t h = ground arith

-- Loading a vector.
load_iv-IsReady :
    (key iv : Block) (s : ChainSim)
    → IsReady key s
    → let t = (load_iv iv s).1 in (t.design.iv_reg ≡ words_of iv) × IsReady key t
unfolding load_iv clock words_of core_in chain_step
load_iv-IsReady key iv s h =
    let pins = record s.pins { iv_in = bytes_to_words iv; load_iv = true } in
    let f = load_step pins s.design h.out_of_reset refl h.no_start h.free.chain_idle in
    let quiet : (core_in pins s.design).start ≡ false =
      λ i. is_idle (h.free.chain_idle i) && h.no_start i in
    (
      f.0,
      record {
        out_of_reset = h.out_of_reset;
        no_load = refl;
        no_start = h.no_start;
        keyed = h.keyed;
        free = record {
          chain_idle = f.1;
          core_free =
              core_rests (core_in pins s.design) s.design.core h.out_of_reset quiet
                h.free.core_free;
        };
      },
    )

map-words_of : (ws : List RoundKey) → AllWords ws → map words_of (map bytes_of ws) ≡ ws
map-words_of [] h = refl
map-words_of (w ∷ ws) h = λ i. words_of-bytes_of w h.0 i ∷ map-words_of ws h.1 i

map-bytes_of : (bs : List Block) → AllBytes bs → map bytes_of (map words_of bs) ≡ bs
map-bytes_of [] h = refl
map-bytes_of (b ∷ bs) h = λ i. bytes_of-words_of b h.0 i ∷ map-bytes_of bs h.1 i

map-AllWords : (bs : List Block) → AllBytes bs → AllWords (map words_of bs)
map-AllWords [] h = tt
map-AllWords (b ∷ bs) h = (words_of-IsWords b h.0, map-AllWords bs h.1)

map-AllBytes : (ws : List RoundKey) → AllBytes (map bytes_of ws)
map-AllBytes [] = tt
map-AllBytes (w ∷ ws) = (bytes_of-IsByteBlock w, map-AllBytes ws)

-- In every mode, ECB, CBC and CTR, and for every key, vector and message of blocks of sixteen bytes:
-- the blocks that `run_block` yields after `load_iv` when it encrypts the message, run again after
-- another `load_iv` of the same vector to be decrypted, yield the message.
pub run_blocks-run_blocks :
    (key iv : Block) (mode : ℕ) (bs : List Block) (s : ChainSim)
    → IsByteBlock key
    → IsByteBlock iv
    → AllBytes bs
    → IsReady key s
    → let there = run_blocks bs false mode (load_iv iv s).1 in
      (run_blocks there.0 true mode (load_iv iv there.1).1).0 ≡ bs
run_blocks-run_blocks key iv mode bs s bk bi bb h =
    let v = words_of iv in
    let vw = words_of-IsWords iv bi in
    let ws = map words_of bs in
    let c = message key mode false v ws in
    let a = load_iv-IsReady key iv s h in
    let s1 = (load_iv iv s).1 in
    let there = run_blocks bs false mode s1 in
    let x = run_blocks-message key bs false mode v s1 bk bb a.0 vw a.1 in
    let b = load_iv-IsReady key iv there.1 x.1 in
    let y =
      run_blocks-message key (map bytes_of c) true mode v (load_iv iv there.1).1 bk (map-AllBytes c)
        b.0 vw b.1 in
    ap (λ l. (run_blocks l true mode (load_iv iv there.1).1).0) x.0
    ∙ y.0
    ∙ ap (λ l. map bytes_of (message key mode true v l))
        (map-words_of c (message-AllWords key mode v ws (map-AllWords bs bb)))
    ∙ ap (λ l. map bytes_of l) (message-message key mode v ws vw (map-AllWords bs bb))
    ∙ map-bytes_of bs bb
