-- ===== src/Aes/Ref/Schedule.antt =====
-- The key schedule of the reference model as a recurrence on its words.
use riscv_soc.Base.{ℕ, zero, suc, ◌+◌, ◌-◌, ◌%◌, ◌<◌, ◌≤◌, bit_xor, ◌==◌, if◌then◌else◌}
use riscv_soc.Base.{List, [], ◌∷◌, ◌++◌, length, ◌≡◌, refl, sym, ap, ◌∙◌, arith}
use mathlib.Core.Path.{subst}
use riscv_soc.Aes.Gf.{Tables}
use riscv_soc.Aes.Ref.{look, schedule_core, next_word, expand}

look-append : (xs ys : List ℕ) (i : ℕ) → i < length xs → look (xs ++ ys) i ≡ look xs i
look-append [] ys i h = absurd (omega arith)
look-append (x ∷ xs) ys zero h = refl
look-append (x ∷ xs) ys (suc i) h = look-append xs ys i (omega arith)

look-last : (xs : List ℕ) (y : ℕ) → look (xs ++ y ∷ []) (length xs) ≡ y
look-last [] y = refl
look-last (x ∷ xs) y = look-last xs y

length-snoc : (xs : List ℕ) (y : ℕ) → length (xs ++ y ∷ []) ≡ suc (length xs)
length-snoc [] y = refl
length-snoc (x ∷ xs) y = ap suc (length-snoc xs y)

module _ (t : Tables) where
  -- The word `n` from the words `n - 4` and `n - 1`.
  unfoldable pub next_from : ℕ → ℕ → ℕ → ℕ
  next_from n before last = bit_xor before (if n % 4 == 0 then schedule_core t n last else last)

  pub expand-keeps :
      (left i : ℕ) (w : List ℕ) (j : ℕ) → j < length w → look (expand t left i w) j ≡ look w j
  unfolding expand
  expand-keeps zero i w j h = refl
  expand-keeps (suc left) i w j h =
      let l = length-snoc w (next_word t i w) in
      expand-keeps left (suc i) (w ++ next_word t i w ∷ []) j (omega (arith, l))
      ∙ look-append w (next_word t i w ∷ []) j h

  -- The words that are there before word `i` is put on are there in the end.
  kept :
      (left i : ℕ) (w : List ℕ) (j : ℕ)
      → j < length w
      → look (expand t left (suc i) (w ++ next_word t i w ∷ [])) j ≡ look w j
  kept left i w j h =
      expand-keeps left (suc i) (w ++ next_word t i w ∷ []) j
        (omega (arith, length-snoc w (next_word t i w)))
      ∙ look-append w (next_word t i w ∷ []) j h

  put_on :
      (left i : ℕ) (w : List ℕ)
      → length w ≡ i
      → look (expand t left (suc i) (w ++ next_word t i w ∷ [])) i ≡ next_word t i w
  put_on left i w e =
      expand-keeps left (suc i) (w ++ next_word t i w ∷ []) i
        (omega (arith, length-snoc w (next_word t i w)))
      ∙ (ap (λ j. look (w ++ next_word t i w ∷ []) j) (sym e) ∙ look-last w (next_word t i w))

  -- In the list `w` the word `n` follows from the one before it and the fourth before it.
  abbrev pub Follows : List ℕ → ℕ → Type 0
  Follows w n = look w n ≡ next_from n (look w (n - 4)) (look w (n - 1))

  pub expand-Follows :
      (left d i n : ℕ) (w : List ℕ)
      → length w ≡ i
      → 4 ≤ i
      → d < left
      → d + i ≡ n
      → Follows (expand t left i w) n
  unfolding expand next_from next_word
  expand-Follows zero d i n w e f h k = absurd (omega arith)
  expand-Follows (suc left) zero i n w e f h k =
      subst (λ m. Follows (expand t left (suc i) (w ++ next_word t i w ∷ [])) m) (omega arith)
        (put_on left i w e
          ∙ sym (λ k.
            next_from i (kept left i w (i - 4) (omega arith) k)
              (kept left i w (i - 1) (omega arith) k)))
  expand-Follows (suc left) (suc d) i n w e f h k =
      expand-Follows left d (suc i) n (w ++ next_word t i w ∷ [])
        (omega (arith, length-snoc w (next_word t i w))) (omega arith) (omega arith) (omega arith)
