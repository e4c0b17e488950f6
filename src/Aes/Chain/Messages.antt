-- ===== src/Aes/Chain/Messages.antt =====
-- Messages in the modes of NIST SP 800-38A over the reference model's cipher, word by word.
use riscv_soc.Base.{ℕ, Bool, true, false, not, ◌&&◌, ◌==◌}
use riscv_soc.Base.{if◌then◌else◌, ◌≡◌, refl, ap, ◌∙◌, arith, xor_cancel}
use riscv_soc.Base.{if_keeps, List, [], ◌∷◌}
use riscv_soc.Aes.Gf.{init_tables}
use riscv_soc.Aes.Ref.{Block, encrypt, decrypt}
use riscv_soc.Aes.Ref.Inverse.{decrypt-encrypt, encrypt-IsByteBlock}
use riscv_soc.Aes.KeyExpand.{RoundKey}
use riscv_soc.Aes.KeyExpand.Rounds.{IsWords}
use riscv_soc.Aes.Core.{bytes_of, words_of}
use riscv_soc.Aes.Core.Refines.{bytes_of-words_of}
use riscv_soc.Aes.Chain.{mode_cbc, mode_ctr, xor_words, inc128}
use riscv_soc.Aes.Chain.Due.{cipher, mode_input, mode_output, mode_next}
use riscv_soc.Aes.Chain.Refines.{
  words_of-bytes_of, bytes_of-IsByteBlock, xor_words-IsWords, mode_dir,
}

abbrev pub AllWords : List RoundKey → Type 0
AllWords [] = Unit
AllWords (d ∷ ds) = IsWords d × AllWords ds

module _ (key : Block) where
  -- One block: the answer of the cipher, the output and the next vector.
  abbrev pub answer : ℕ → Bool → RoundKey → RoundKey → RoundKey
  answer mode encdec iv d = cipher key (mode_dir mode encdec) (mode_input mode encdec iv d)

  abbrev pub block_out : ℕ → Bool → RoundKey → RoundKey → RoundKey
  block_out mode encdec iv d = mode_output mode encdec iv d (answer mode encdec iv d)

  abbrev pub block_next : ℕ → Bool → RoundKey → RoundKey → RoundKey
  block_next mode encdec iv d = mode_next mode encdec iv d (answer mode encdec iv d)

  -- Block after block, from the vector `iv`.
  abbrev pub message : ℕ → Bool → RoundKey → List RoundKey → List RoundKey
  message mode encdec iv [] = []
  message mode encdec iv (d ∷ ds) =
      block_out mode encdec iv d ∷ message mode encdec (block_next mode encdec iv d) ds

  -- An encryption yields words of 32 bits.
  pub cipher-IsWords : (w : RoundKey) → IsWords (cipher key false w)
  unfolding cipher words_of
  cipher-IsWords w =
      let b = encrypt-IsByteBlock (bytes_of w) key (bytes_of-IsByteBlock w) in
      record {
        l0 = omega (arith, b.k0);
        l1 = omega (arith, b.k1);
        l2 = omega (arith, b.k2);
        l3 = omega (arith, b.k3);
      }

  cipher-cipher : (w : RoundKey) → IsWords w → cipher key true (cipher key false w) ≡ w
  unfolding cipher
  cipher-cipher w h =
      let pt = bytes_of w in
      let pb = bytes_of-IsByteBlock w in
      ap (λ b. words_of (decrypt init_tables b key))
        (bytes_of-words_of (encrypt init_tables pt key) (encrypt-IsByteBlock pt key pb))
      ∙ ap words_of (decrypt-encrypt pt key pb)
      ∙ words_of-bytes_of w h

  xor_words_cancel : (a k : RoundKey) → xor_words (xor_words a k) k ≡ a
  xor_words_cancel a k i = record {
    w0 = xor_cancel a.w0 k.w0 i;
    w1 = xor_cancel a.w1 k.w1 i;
    w2 = xor_cancel a.w2 k.w2 i;
    w3 = xor_cancel a.w3 k.w3 i;
  }

  -- The mode by its two tests.
  module _ (cbc ctr : Bool) where
    abbrev input_of : Bool → RoundKey → RoundKey → RoundKey
    input_of encdec iv d = if cbc && not encdec then xor_words d iv else if ctr then iv else d

    abbrev answer_of : Bool → RoundKey → RoundKey → RoundKey
    answer_of encdec iv d = cipher key (if ctr then false else encdec) (input_of encdec iv d)

    abbrev out_of : Bool → RoundKey → RoundKey → RoundKey
    out_of encdec iv d =
        let c = answer_of encdec iv d in
        if cbc then (if encdec then xor_words c iv else c) else if ctr then xor_words d c else c

    abbrev next_of : Bool → RoundKey → RoundKey → RoundKey
    next_of encdec iv d =
        let c = answer_of encdec iv d in
        if cbc then (if encdec then d else c) else if ctr then inc128 iv else iv

  back_of :
      (cbc ctr : Bool) (iv d : RoundKey)
      → (cbc && ctr) ≡ false
      → IsWords iv
      → IsWords d
      → let c = out_of cbc ctr false iv d in
        (out_of cbc ctr true iv c ≡ d) × (next_of cbc ctr true iv c ≡ next_of cbc ctr false iv d)
  back_of true true iv d e hv hd = ground arith
  back_of true false iv d e hv hd = (
    ap (λ x. xor_words x iv) (cipher-cipher (xor_words d iv) (xor_words-IsWords d iv hd hv))
        ∙ xor_words_cancel d iv,
    refl,
  )
  back_of false true iv d e hv hd = (xor_words_cancel d (cipher key false iv), refl)
  back_of false false iv d e hv hd = (cipher-cipher d hd, refl)

  exclusive : (mode : ℕ) → (mode == mode_cbc && mode == mode_ctr) ≡ false
  exclusive mode = ground arith

  -- One block there and back, in every mode.
  block_back :
      (mode : ℕ) (iv d : RoundKey)
      → IsWords iv
      → IsWords d
      → let c = block_out mode false iv d in
        (block_out mode true iv c ≡ d) × (block_next mode true iv c ≡ block_next mode false iv d)
  unfolding mode_input mode_output mode_next
  block_back mode iv d = back_of (mode == mode_cbc) (mode == mode_ctr) iv d (exclusive mode)

  inc128-IsWords : (a : RoundKey) → IsWords (inc128 a)
  unfolding inc128
  inc128-IsWords a = record {
    l0 = omega arith;
    l1 = omega arith;
    l2 = omega arith;
    l3 = omega arith;
  }

  answer-IsWords : (mode : ℕ) (iv d : RoundKey) → IsWords (answer mode false iv d)
  answer-IsWords mode iv d =
      let x = mode_input mode false iv d in
      if_keeps (λ e. IsWords (cipher key e x)) (mode == mode_ctr) (cipher-IsWords x)
        (cipher-IsWords x)

  -- Encryption in a mode keeps to words of 32 bits.
  pub block_out-IsWords :
      (mode : ℕ) (iv d : RoundKey) → IsWords d → IsWords (block_out mode false iv d)
  unfolding mode_output
  block_out-IsWords mode iv d hd =
      let c = answer-IsWords mode iv d in
      if_keeps IsWords (mode == mode_cbc) c
        (if_keeps IsWords (mode == mode_ctr) (xor_words-IsWords d _ hd c) c)

  pub block_next-IsWords :
      (mode : ℕ) (encdec : Bool) (iv d : RoundKey)
      → IsWords iv
      → IsWords d
      → IsWords (block_next mode encdec iv d)
  unfolding mode_next
  block_next-IsWords mode false iv d hv hd =
      if_keeps IsWords (mode == mode_cbc) (answer-IsWords mode iv d)
        (if_keeps IsWords (mode == mode_ctr) (inc128-IsWords iv) hv)
  block_next-IsWords mode true iv d hv hd =
      if_keeps IsWords (mode == mode_cbc) hd
        (if_keeps IsWords (mode == mode_ctr) (inc128-IsWords iv) hv)

  pub message-AllWords :
      (mode : ℕ) (iv : RoundKey) (ds : List RoundKey)
      → AllWords ds
      → AllWords (message mode false iv ds)
  message-AllWords mode iv [] h = tt
  message-AllWords mode iv (d ∷ ds) h =
      (block_out-IsWords mode iv d h.0, message-AllWords mode (block_next mode false iv d) ds h.1)

  -- Under one vector, decryption in a mode gives back every message that was encrypted in it.
  pub message-message :
      (mode : ℕ) (iv : RoundKey) (ds : List RoundKey)
      → IsWords iv
      → AllWords ds
      → message mode true iv (message mode false iv ds) ≡ ds
  message-message mode iv [] hv h = refl
  message-message mode iv (d ∷ ds) hv h =
      let b = block_back mode iv d hv h.0 in
      let v = block_next mode false iv d in
      (λ i. b.0 i ∷ message mode true (b.1 i) (message mode false v ds))
      ∙ ap (λ rest. d ∷ rest)
          (message-message mode v ds (block_next-IsWords mode false iv d hv h.0) h.1)
