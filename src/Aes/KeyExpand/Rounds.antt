-- ===== src/Aes/KeyExpand/Rounds.antt =====
-- One round of the key schedule in the design and in the reference model.
use riscv_soc.Base.{ℕ, suc, ◌+◌, ◌-◌, ◌*◌, ◌/◌, ◌%◌, ◌^◌, ◌<◌, ◌≤◌, bit_xor, ◌==◌}
use riscv_soc.Base.{true, List, ◌≡◌, refl, sym, ap, ◌∙◌, arith}
use riscv_soc.Base.{ltb, ltb→lt, all_below_sound, all_below, all_equal, xor_assoc, xor_comm, xor-lt}
use riscv_soc.Aes.Gf.{init_tables}
use riscv_soc.Aes.Package.{sbox_fwd, tables-init_tables}
use riscv_soc.Aes.Ref.{look, byte_of, pack, schedule_core}
use riscv_soc.Aes.Ref.Schedule.{next_from, Follows}
use riscv_soc.Aes.KeyExpand.{RoundKey, next_key, rcon_byte, sub_word, rot_word}

-- Round key `r` in the words of the reference model.
abbrev pub words_at : List ℕ → ℕ → RoundKey
words_at w r = record {
  w0 = look w (4 * r);
  w1 = look w (4 * r + 1);
  w2 = look w (4 * r + 2);
  w3 = look w (4 * r + 3);
}

-- Four words of 32 bits.
pub record IsWords (k : RoundKey) : Type 0 where
  pub l0 : k.w0 < 2 ^ 32
  pub l1 : k.w1 < 2 ^ 32
  pub l2 : k.w2 < 2 ^ 32
  pub l3 : k.w3 < 2 ^ 32

rot_word-eq : (x : ℕ) → x < 2 ^ 32 → x * 2 ^ 8 % 2 ^ 32 + x / 2 ^ 24 ≡ rot_word x
unfolding rot_word
rot_word-eq x l = omega arith

rcon_table : all_below 11 (λ r. look init_tables.rcon r == rcon_byte r) ≡ true
unfolding init_tables rcon_byte all_below
rcon_table = refl

rcon-eq : (r : ℕ) → r < 11 → look init_tables.rcon (4 * r / 4) ≡ rcon_byte r
rcon-eq r h =
    ap (λ i. look init_tables.rcon i) (omega arith)
    ∙ all_equal 11 (λ r. look init_tables.rcon r) rcon_byte r rcon_table h

-- The round function of the schedule.
core-eq :
    (r x : ℕ)
    → r < 11
    → x < 2 ^ 32
    → schedule_core init_tables (4 * r) x ≡ bit_xor (sub_word (rot_word x)) (rcon_byte r * 2 ^ 24)
unfolding schedule_core sub_word
core-eq r x h l = λ i.
    let rotated = rot_word-eq x l i in
    let box = sym tables-init_tables.0 i in
    bit_xor
      (pack (look box (byte_of rotated 3)) (look box (byte_of rotated 2))
        (look box (byte_of rotated 1)) (look box (byte_of rotated 0)))
      (rcon-eq r h i * 2 ^ 24)

from_first :
    (n before last : ℕ)
    → n % 4 ≡ 0
    → next_from init_tables n before last ≡ bit_xor before (schedule_core init_tables n last)
unfolding next_from
from_first n before last h = ground arith

from_other :
    (n before last : ℕ) → 1 ≤ n % 4 → next_from init_tables n before last ≡ bit_xor last before
unfolding next_from
from_other n before last h = ground (arith, xor_comm before last)

module _ (w : List ℕ) (q : ℕ) (f : (n : ℕ) → 4 ≤ n → n < 44 → Follows init_tables w n)
    (h : q < 10) where
  word_first :
      look w (4 * q + 3) < 2 ^ 32
      → look w (4 * suc q)
        ≡ bit_xor
            (bit_xor (look w (4 * q)) (sub_word (rot_word (look w (4 * q + 3)))))
            (rcon_byte (suc q) * 2 ^ 24)
  word_first l =
      let n = 4 * suc q in
      f n (omega arith) (omega arith)
      ∙ (from_first n (look w (n - 4)) (look w (n - 1)) (omega arith)
          ∙ ((λ i. bit_xor (look w (before i)) (schedule_core init_tables n (look w (last i))))
              ∙ (ap (λ x. bit_xor (look w (4 * q)) x)
                    (core-eq (suc q) (look w (4 * q + 3)) (omega arith) l)
                  ∙ sym (
                      xor_assoc (look w (4 * q)) (sub_word (rot_word (look w (4 * q + 3))))
                        (rcon_byte (suc q) * 2 ^ 24)))))
    where
      before : 4 * suc q - 4 ≡ 4 * q
      before = omega arith

      last : 4 * suc q - 1 ≡ 4 * q + 3
      last = omega arith

  word_next :
      (c : ℕ)
      → 1 ≤ c
      → c ≤ 3
      → look w (4 * suc q + c) ≡ bit_xor (look w (4 * suc q + c - 1)) (look w (4 * q + c))
  word_next c l m =
      let n = 4 * suc q + c in
      f n (omega arith) (omega arith)
      ∙ (from_other n (look w (n - 4)) (look w (n - 1)) (omega arith)
          ∙ ap (λ j. bit_xor (look w (n - 1)) (look w j)) (omega arith))

  -- A round key of the reference model follows from the one before it as in the design.
  pub words_at-next_key :
      look w (4 * q + 3) < 2 ^ 32 → words_at w (suc q) ≡ next_key (suc q) (words_at w q)
  unfolding next_key
  words_at-next_key l =
      let e0 = word_first l in
      let e1 =
        word_next 1 (omega arith) (omega arith)
        ∙ ap (λ j. bit_xor (look w j) (look w (4 * q + 1))) (omega arith)
        ∙ ap (λ x. bit_xor x (look w (4 * q + 1))) e0 in
      let e2 =
        word_next 2 (omega arith) (omega arith)
        ∙ ap (λ j. bit_xor (look w j) (look w (4 * q + 2))) (omega arith)
        ∙ ap (λ x. bit_xor x (look w (4 * q + 2))) e1 in
      let e3 =
        word_next 3 (omega arith) (omega arith)
        ∙ ap (λ j. bit_xor (look w j) (look w (4 * q + 3))) (omega arith)
        ∙ ap (λ x. bit_xor x (look w (4 * q + 3))) e2 in
      λ i. record { w0 = e0 i; w1 = e1 i; w2 = e2 i; w3 = e3 i }

sbox_table : all_below 256 (λ a. ltb (look sbox_fwd a) 256) ≡ true
unfolding all_below
sbox_table = refl

sbox-lt : (a : ℕ) → look sbox_fwd (a % 256) < 256
sbox-lt a =
    ltb→lt (look sbox_fwd (a % 256)) 256
      (all_below_sound 256 (λ b. ltb (look sbox_fwd b) 256) (a % 256) sbox_table (omega arith))

rcon_bytes : all_below 11 (λ r. ltb (rcon_byte r) 256) ≡ true
unfolding all_below rcon_byte
rcon_bytes = refl

sub_word-lt : (x : ℕ) → sub_word x < 2 ^ 32
unfolding sub_word
sub_word-lt x = omega (
  arith,
  sbox-lt (x / 2 ^ (8 * 3)),
  sbox-lt (x / 2 ^ (8 * 2)),
  sbox-lt (x / 2 ^ (8 * 1)),
  sbox-lt (x / 2 ^ (8 * 0)),
)

rcon-lt : (r : ℕ) → r < 11 → rcon_byte r * 2 ^ 24 < 2 ^ 32
rcon-lt r h = omega (
  arith,
  ltb→lt (rcon_byte r) 256 (all_below_sound 11 (λ i. ltb (rcon_byte i) 256) r rcon_bytes h),
)

pub next_key-IsWords : (r : ℕ) (k : RoundKey) → r < 11 → IsWords k → IsWords (next_key r k)
unfolding next_key
next_key-IsWords r k h b =
    let s = sub_word (rot_word k.w3) in
    let c = rcon_byte r * 2 ^ 24 in
    let n0 = bit_xor (bit_xor k.w0 s) c in
    let n1 = bit_xor n0 k.w1 in
    let n2 = bit_xor n1 k.w2 in
    let b0 =
      xor-lt 32 (bit_xor k.w0 s) c (xor-lt 32 k.w0 s b.l0 (sub_word-lt (rot_word k.w3)))
        (rcon-lt r h) in
    let b1 = xor-lt 32 n0 k.w1 b0 b.l1 in
    let b2 = xor-lt 32 n1 k.w2 b1 b.l2 in
    record { l0 = b0; l1 = b1; l2 = b2; l3 = xor-lt 32 n2 k.w3 b2 b.l3 }
