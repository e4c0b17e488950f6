-- ===== src/Aes/Core/Rounds.antt =====
-- The rounds of blocks/aes/rtl/aes_core.v, one edge after the other, beside the loops of `encrypt`
-- and `decrypt` of the reference model.
use riscv_soc.Base.{ℕ, zero, suc, ◌+◌, ◌%◌, ◌≤◌, ◌<◌, Bool, true, false, ◌==◌}
use riscv_soc.Base.{if◌then◌else◌, List, ◌≡◌, refl, ap, ◌∙◌, arith}
use riscv_soc.Aes.Gf.{init_tables}
use riscv_soc.Aes.Ref.{
  Block, encrypt_rounds, decrypt_rounds, sub_bytes, inv_sub_bytes, shift_rows, inv_shift_rows,
  add_round_key,
}
use riscv_soc.Aes.KeyExpand
use riscv_soc.Aes.KeyExpand.{RoundKey, KeyExpand, ExpandIn}
use riscv_soc.Aes.KeyExpand.Rounds.{words_at}
use riscv_soc.Aes.Core.Round.{enc_round_next, enc_final_next, dec_round_next, dec_final_next}
use riscv_soc.Aes.Core.Agree.{rounds-agree}
use riscv_soc.Aes.Core.{
  CoreState, st_idle, st_round, st_final, Core, CoreIn, core_step, is_idle, words_of,
}

-- No operation is under way, in the core and in its key schedule.
pub record IsFree (s : Core) : Type 0 where
  pub core_idle : s.state ≡ st_idle
  pub expand_idle : s.key_expand.state ≡ KeyExpand.st_idle

-- The block `out` is due in `n` edges out of reset, whatever the other pins are until then: `done`
-- is low before and high at the last of them, when the core is free again.
unfoldable pub Due : ℕ → RoundKey → Core → Type 0
Due zero out s = (s.done ≡ true) × (s.data_out ≡ out) × IsFree s
Due (suc n) out s =
    (s.done ≡ false)
    × (is_idle s.state ≡ false)
    × ((p : CoreIn) → p.resetn ≡ true → Due n out (core_step p s))

module _ (w : List ℕ) where
  -- In the rounds: the schedule is complete, and `b` is the block before the round `r`.
  pub record Rounding (st : CoreState) (decrypting : Bool) (r : ℕ) (b : Block) (s : Core)
      : Type 0 where
    pub phase : s.state ≡ st
    pub direction : s.encdec_reg ≡ decrypting
    pub round : s.rnum ≡ r
    pub block : s.data_reg ≡ b
    pub waiting : s.done ≡ false
    pub rests : s.key_expand.state ≡ KeyExpand.st_idle
    pub keys : (i : ℕ) → i ≤ 10 → s.key_expand.rk i ≡ words_at w i

  pub keys_kept :
      (p : CoreIn) (s : Core) (i : ℕ)
      → p.resetn ≡ true
      → is_idle s.state ≡ false
      → s.key_expand.state ≡ KeyExpand.st_idle
      → ((core_step p s).key_expand.rk i ≡ s.key_expand.rk i)
        × ((core_step p s).key_expand.state ≡ KeyExpand.st_idle)
  unfolding core_step KeyExpand.step
  keys_kept p s i r h e = ground arith

  -- The edge of the last round.
  final_step :
      (decrypting : Bool) (r : ℕ) (b : Block) (p : CoreIn) (s : Core)
      → p.resetn ≡ true
      → Rounding st_final decrypting r b s
      → let t = core_step p s in
        let k = s.key_expand.rk r in
        (t.done ≡ true)
        × (t.state ≡ st_idle)
        × (t.data_out ≡ words_of (if decrypting then dec_final_next b k else enc_final_next b k))
  unfolding core_step
  final_step decrypting r b p s e h = ground (arith, h)

  final-Due :
      (decrypting : Bool) (r : ℕ) (b out : Block) (s : Core)
      → r ≤ 10
      → (if decrypting then dec_final_next b (words_at w r) else enc_final_next b (words_at w r))
        ≡ out
      → Rounding st_final decrypting r b s
      → Due 1 (words_of out) s
  unfolding Due
  final-Due decrypting r b out s l q h = (
    h.waiting,
    ap is_idle h.phase,
    λ p e.
        let f = final_step decrypting r b p s e h in
        let k = keys_kept p s r e (ap is_idle h.phase) h.rests in
        let last =
          λ (key : RoundKey). if decrypting then dec_final_next b key else enc_final_next b key in
        (
          f.0,
          f.2 ∙ ap (λ key. words_of (last key)) (h.keys r l) ∙ ap words_of q,
          record { core_idle = f.1; expand_idle = k.1 },
        ),
  )

  -- An edge of the rounds 1 to 9, in either direction.
  round_step :
      (decrypting : Bool) (r : ℕ) (b : Block) (p : CoreIn) (s : Core)
      → p.resetn ≡ true
      → Rounding st_round decrypting r b s
      → let t = core_step p s in
        let k = s.key_expand.rk r in
        let last = r == (if decrypting then 1 else 9) in
        (t.done ≡ false)
        × (t.encdec_reg ≡ decrypting)
        × (t.state ≡ (if last then st_final else st_round))
        × (t.rnum ≡ (
            if decrypting
            then (if r == 1 then 0 else (r + 15) % 16)
            else (if r == 9 then 10 else (r + 1) % 16)))
        × (t.data_reg ≡ (if decrypting then dec_round_next b k else enc_round_next b k))
  unfolding core_step
  round_step decrypting r b p s e h = ground (arith, h)

  next_round :
      (decrypting : Bool) (r next : ℕ) (b c : Block) (st : CoreState) (p : CoreIn) (s : Core)
      → p.resetn ≡ true
      → r ≤ 10
      → (if r == (if decrypting then 1 else 9) then st_final else st_round) ≡ st
      → (if decrypting
          then (if r == 1 then 0 else (r + 15) % 16)
          else (if r == 9 then 10 else (r + 1) % 16))
        ≡ next
      → (if decrypting then dec_round_next b (words_at w r) else enc_round_next b (words_at w r))
        ≡ c
      → Rounding st_round decrypting r b s
      → Rounding st decrypting next c (core_step p s)
  next_round decrypting r next b c st p s e l x y z h =
      let f = round_step decrypting r b p s e h in
      let mid =
        λ (key : RoundKey). if decrypting then dec_round_next b key else enc_round_next b key in
      record {
        phase = f.2 ∙ x;
        direction = f.1;
        round = f.3 ∙ y;
        block = f.4 ∙ ap mid (h.keys r l) ∙ z;
        waiting = f.0;
        rests = (keys_kept p s r e (ap is_idle h.phase) h.rests).1;
        keys = λ i m. (keys_kept p s i e (ap is_idle h.phase) h.rests).0 ∙ h.keys i m;
      }

  unfoldable pub last_encrypt : Block → Block
  last_encrypt b = add_round_key w 10 (shift_rows (sub_bytes init_tables b))

  unfoldable pub last_decrypt : Block → Block
  last_decrypt b = add_round_key w 0 (inv_sub_bytes init_tables (inv_shift_rows b))

  pub encrypt-Due :
      (left r : ℕ) (b : Block) (s : Core)
      → r + left ≡ 9
      → Rounding st_round false r b s
      → Due
          (suc (suc left))
          (words_of (last_encrypt (encrypt_rounds init_tables w (suc left) r b)))
          s
  unfolding Due encrypt_rounds last_encrypt
  encrypt-Due zero r b s h ph = (
    ph.waiting,
    ap is_idle ph.phase,
    λ p e. final-Due false 10 _ _ _ (omega arith) (rounds-agree w 10 _).1 (
        next_round false r 10 b _ st_final p s e (omega arith) (ground arith) (ground arith)
          (rounds-agree w r b).0 ph),
  )
  encrypt-Due (suc left) r b s h ph = (
    ph.waiting,
    ap is_idle ph.phase,
    λ p e. encrypt-Due left (suc r) _ (core_step p s) (omega arith) (
        next_round false r (suc r) b _ st_round p s e (omega arith) (ground arith) (ground arith)
          (rounds-agree w r b).0 ph),
  )

  pub decrypt-Due :
      (r : ℕ) (b : Block) (s : Core)
      → r < 9
      → Rounding st_round true (suc r) b s
      → Due (suc (suc r)) (words_of (last_decrypt (decrypt_rounds init_tables w (suc r) b))) s
  unfolding Due decrypt_rounds last_decrypt
  decrypt-Due zero b s h ph = (
    ph.waiting,
    ap is_idle ph.phase,
    λ p e.
        final-Due true 0 _ _ _ (omega arith) (rounds-agree w 0 _).3 (
          next_round true 1 0 b _ st_final p s e (omega arith) refl refl (rounds-agree w 1 b).2 ph),
  )
  decrypt-Due (suc r) b s h ph = (
    ph.waiting,
    ap is_idle ph.phase,
    λ p e. decrypt-Due r _ (core_step p s) (omega arith) (
        next_round true (suc (suc r)) (suc r) b _ st_round p s e (omega arith) (ground arith)
          (ground arith) (rounds-agree w (suc (suc r)) b).2 ph),
  )
