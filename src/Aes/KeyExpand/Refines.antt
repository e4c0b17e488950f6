-- ===== src/Aes/KeyExpand/Refines.antt =====
-- The runs of blocks/aes/rtl/aes_key_expand.v beside `key_expansion` of the reference model.
use riscv_soc.Base.{ℕ, zero, suc, ◌+◌, ◌-◌, ◌%◌, ◌<◌, ◌≤◌, ◌==◌, if◌then◌else◌}
use riscv_soc.Base.{
  Bool-cases, ==_iff, inl, inr, true, false, List, [], ◌∷◌, ◌≡◌, refl, sym, ap, ◌∙◌, arith,
}
use mathlib.Core.Path.{subst}
use riscv_soc.Aes.Gf.{init_tables}
use riscv_soc.Aes.Ref.{Block, column_word, key_expansion}
use riscv_soc.Aes.Ref.MixInverse.{IsByteBlock}
use riscv_soc.Aes.Ref.Schedule.{Follows, expand-Follows, expand-keeps}
use riscv_soc.Aes.KeyExpand.{RoundKey, KeyExpand, ExpandIn, st_idle, st_expand, next_key, step}
use riscv_soc.Aes.KeyExpand.Rounds.{words_at, IsWords, words_at-next_key, next_key-IsWords}

unfoldable pub edges : ℕ → ExpandIn → KeyExpand → KeyExpand
unfolding step
edges zero p s = s
edges (suc n) p s = edges n p (step p s)

-- What the four words of `key_in` are for a key of sixteen bytes.
abbrev pub key_words : Block → RoundKey
key_words key = record {
  w0 = column_word key.c0;
  w1 = column_word key.c1;
  w2 = column_word key.c2;
  w3 = column_word key.c3;
}

-- Between the rounds: `q` is the last round key that is there.
pub record IsExpanding (w : List ℕ) (q : ℕ) (s : KeyExpand) : Type 0 where
  pub expands : s.state ≡ st_expand
  pub next_round : s.round_idx ≡ suc q
  pub unfinished : s.done ≡ false
  pub holds : (i : ℕ) → i ≤ q → s.rk i ≡ words_at w i

-- After the last round.
pub record IsExpanded (w : List ℕ) (s : KeyExpand) : Type 0 where
  pub finished : s.done ≡ true
  pub holds : (i : ℕ) → i ≤ 10 → s.rk i ≡ words_at w i

index : (q : ℕ) {n : ℕ} → q < 10 → n ≡ suc q → (n + 15) % 16 ≡ q
index q h e = omega arith

step_rk :
    (p : ExpandIn) (s : KeyExpand) (q i : ℕ)
    → p.resetn ≡ true
    → s.state ≡ st_expand
    → s.round_idx ≡ suc q
    → q < 10
    → (step p s).rk i ≡ (if i == suc q then next_key (suc q) (s.rk q) else s.rk i)
unfolding step
step_rk p s q i r e n h = ground (arith, ap s.rk (index q h n))

step_state :
    (p : ExpandIn) (s : KeyExpand) (q : ℕ)
    → p.resetn ≡ true
    → s.state ≡ st_expand
    → s.round_idx ≡ suc q
    → q < 9
    → ((step p s).state ≡ st_expand)
      × ((step p s).round_idx ≡ suc (suc q))
      × ((step p s).done ≡ false)
unfolding step
step_state p s q r e n h = ground arith

step_done :
    (p : ExpandIn) (s : KeyExpand)
    → p.resetn ≡ true
    → s.state ≡ st_expand
    → s.round_idx ≡ 10
    → ((step p s).done ≡ true) × ((step p s).state ≡ st_idle)
unfolding step
step_done p s r e n = ground arith

step_start :
    (p : ExpandIn) (s : KeyExpand)
    → p.resetn ≡ true
    → p.start ≡ true
    → s.state ≡ st_idle
    → ((step p s).state ≡ st_expand)
      × ((step p s).round_idx ≡ 1)
      × ((step p s).done ≡ false)
      × ((step p s).rk 0 ≡ p.key_in)
unfolding step
step_start p s r t e = ground arith

module _ (w : List ℕ) (f : (n : ℕ) → 4 ≤ n → n < 44 → Follows init_tables w n)
    (b : IsWords (words_at w 0)) where
  words_at-IsWords : (r : ℕ) → r ≤ 10 → IsWords (words_at w r)
  words_at-IsWords zero h = b
  words_at-IsWords (suc q) h =
      let k = words_at-IsWords q (omega arith) in
      subst IsWords (sym (words_at-next_key w q f (omega arith) k.l3))
        (next_key-IsWords (suc q) (words_at w q) (omega arith) k)

  -- A round puts the next round key into its place.
  step-holds :
      (p : ExpandIn) (s : KeyExpand) (q : ℕ)
      → p.resetn ≡ true
      → q < 10
      → IsExpanding w q s
      → (i : ℕ) → i ≤ suc q
      → (step p s).rk i ≡ words_at w i
  step-holds p s q r h e i l =
      let k = words_at-IsWords q (omega arith) in
      let n = words_at-next_key w q f h k.l3 in
      let m = ap (λ j. next_key (suc q) j) (e.holds q (omega arith)) in
      step_rk p s q i r e.expands e.next_round h ∙ elim (Bool-cases (i == suc q)) [
        | inl y ↦
            ap (λ c. if c then next_key (suc q) (s.rk q) else s.rk i) y
            ∙ (m ∙ (sym n ∙ ap (λ j. words_at w j) (sym ((==_iff i (suc q)).0 y))))
        | inr y ↦
            ap (λ c. if c then next_key (suc q) (s.rk q) else s.rk i) y ∙ e.holds i (ground arith)
      ]

  pub step-IsExpanding :
      (p : ExpandIn) (s : KeyExpand) (q : ℕ)
      → p.resetn ≡ true
      → q < 9
      → IsExpanding w q s
      → IsExpanding w (suc q) (step p s)
  step-IsExpanding p s q r h e =
      let t = step_state p s q r e.expands e.next_round h in
      record {
        expands = t.0;
        next_round = t.1;
        unfinished = t.2;
        holds = step-holds p s q r (omega arith) e;
      }

  pub step-IsExpanded :
      (p : ExpandIn) (s : KeyExpand)
      → p.resetn ≡ true
      → IsExpanding w 9 s
      → IsExpanded w (step p s) × ((step p s).state ≡ st_idle)
  step-IsExpanded p s r e =
      let t = step_done p s r e.expands e.next_round in
      (record { finished = t.0; holds = step-holds p s 9 r (omega arith) e }, t.1)

  edges-IsExpanded :
      (left : ℕ) (p : ExpandIn) (s : KeyExpand) (q : ℕ)
      → p.resetn ≡ true
      → q + suc left ≡ 10
      → IsExpanding w q s
      → IsExpanded w (edges (suc left) p s)
  unfolding edges
  edges-IsExpanded zero p s q r h e =
      let l : q ≡ 9 = omega arith in (step-IsExpanded p s r (subst (λ k. IsExpanding w k s) l e)).0
  edges-IsExpanded (suc left) p s q r h e =
      edges-IsExpanded left p (step p s) (suc q) r (omega arith)
        (step-IsExpanding p s q r (omega arith) e)

is_zero : (i : ℕ) → i ≤ 0 → 0 ≡ i
is_zero i l = omega arith

pub schedule-Follows :
    (key : Block) (n : ℕ) → 4 ≤ n → n < 44 → Follows init_tables (key_expansion init_tables key) n
unfolding key_expansion
schedule-Follows key n l h =
    expand-Follows init_tables 40 (n - 4) 4 n
      (column_word key.c0 ∷ column_word key.c1 ∷ column_word key.c2 ∷ column_word key.c3 ∷ []) refl
      (omega arith) (omega arith) (omega arith)

schedule_first : (key : Block) → words_at (key_expansion init_tables key) 0 ≡ key_words key
unfolding key_expansion
schedule_first key =
    let w =
      column_word key.c0 ∷ column_word key.c1 ∷ column_word key.c2 ∷ column_word key.c3 ∷ [] in
    λ i. record {
      w0 = expand-keeps init_tables 40 4 w 0 (omega arith) i;
      w1 = expand-keeps init_tables 40 4 w 1 (omega arith) i;
      w2 = expand-keeps init_tables 40 4 w 2 (omega arith) i;
      w3 = expand-keeps init_tables 40 4 w 3 (omega arith) i;
    }

key_words-IsWords : (key : Block) → IsByteBlock key → IsWords (key_words key)
key_words-IsWords key b = record {
  l0 = ground (arith, b);
  l1 = ground (arith, b);
  l2 = ground (arith, b);
  l3 = ground (arith, b);
}

-- The edge that starts the expansion.
pub start-IsExpanding :
    (key : Block) (p : ExpandIn) (s : KeyExpand)
    → p.resetn ≡ true
    → p.start ≡ true
    → p.key_in ≡ key_words key
    → s.state ≡ st_idle
    → IsExpanding (key_expansion init_tables key) 0 (step p s)
start-IsExpanding key p s r t k e =
    let u = step_start p s r t e in
    record {
      expands = u.0;
      next_round = u.1;
      unfinished = u.2;
      holds = λ i l.
          subst (λ j. (step p s).rk j ≡ words_at (key_expansion init_tables key) j) (is_zero i l)
            (u.3 ∙ (k ∙ sym (schedule_first key)));
    }

-- The first round key is the key.
pub schedule-IsWords :
    (key : Block) → IsByteBlock key → IsWords (words_at (key_expansion init_tables key) 0)
schedule-IsWords key b = subst IsWords (sym (schedule_first key)) (key_words-IsWords key b)

-- For every key of sixteen bytes and whatever the other registers hold: an idle design that is
-- started with the key has, ten edges later, raised `done` and holds in `rk[0]` to `rk[10]` the
-- eleven round keys of the reference model's `key_expansion`.
pub edges-key_expansion :
    (key : Block) (p q : ExpandIn) (s : KeyExpand)
    → IsByteBlock key
    → p.resetn ≡ true
    → p.start ≡ true
    → p.key_in ≡ key_words key
    → q.resetn ≡ true
    → s.state ≡ st_idle
    → IsExpanded (key_expansion init_tables key) (edges 10 q (step p s))
edges-key_expansion key p q s b rp tp kp rq e =
    edges-IsExpanded (key_expansion init_tables key) (schedule-Follows key) (schedule-IsWords key b)
      9 q (step p s) 0 rq refl (start-IsExpanding key p s rp tp kp e)
