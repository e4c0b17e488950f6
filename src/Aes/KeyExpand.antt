-- ===== src/Aes/KeyExpand.antt =====
-- blocks/aes/rtl/aes_key_expand.v: one round key per clock edge.
pub mod Main
pub mod Rounds
pub mod Refines
use riscv_soc.Base.{
  ℕ, ◌+◌, ◌-◌, ◌*◌, ◌/◌, ◌%◌, ◌^◌, bit_xor, Bool, true, false, ◌==◌, if◌then◌else◌,
}
use riscv_soc.Base.{List, [], ◌∷◌, get_or}
use riscv_soc.Aes.Package.{sbox_fwd}
use riscv_soc.Aes.Ref.{byte_of, pack}

-- A 128-bit round key by its words, the highest first.
pub record RoundKey : Type 0 where
  pub w0 : ℕ
  pub w1 : ℕ
  pub w2 : ℕ
  pub w3 : ℕ

pub data ExpandState : Type 0 where
  st_idle st_expand : ExpandState

-- The registers; `rk` has the indices 0 to 10.
pub record KeyExpand : Type 0 where
  pub state : ExpandState
  pub round_idx : ℕ
  pub rk : ℕ → RoundKey
  pub done : Bool

pub record ExpandIn : Type 0 where
  pub resetn : Bool
  pub start : Bool
  pub key_in : RoundKey

rcon_byte : ℕ → ℕ
rcon_byte r =
    get_or (0x00 ∷ 0x01 ∷ 0x02 ∷ 0x04 ∷ 0x08 ∷ 0x10 ∷ 0x20 ∷ 0x40 ∷ 0x80 ∷ 0x1B ∷ 0x36 ∷ []) r 0x00

sub_word : ℕ → ℕ
sub_word w =
    pack (get_or sbox_fwd (byte_of w 3) 0) (get_or sbox_fwd (byte_of w 2) 0)
      (get_or sbox_fwd (byte_of w 1) 0) (get_or sbox_fwd (byte_of w 0) 0)

-- `{w[23:0], w[31:24]}`.
rot_word : ℕ → ℕ
rot_word w = w % 2 ^ 24 * 2 ^ 8 + w / 2 ^ 24 % 2 ^ 8

-- The wires `new_w0` to `new_w3`.
unfoldable pub next_key : ℕ → RoundKey → RoundKey
unfolding rcon_byte sub_word rot_word
next_key r prev =
    let new_w0 = bit_xor (bit_xor prev.w0 (sub_word (rot_word prev.w3))) (rcon_byte r * 2 ^ 24) in
    let new_w1 = bit_xor new_w0 prev.w1 in
    let new_w2 = bit_xor new_w1 prev.w2 in
    record { w0 = new_w0; w1 = new_w1; w2 = new_w2; w3 = bit_xor new_w2 prev.w3 }

abbrev pub put : (ℕ → RoundKey) → ℕ → RoundKey → ℕ → RoundKey
put rk i k j = if j == i then k else rk j

-- The `case (state)`.
expand_case : ExpandIn → ExpandState → KeyExpand → KeyExpand
unfolding next_key
expand_case p st_idle s =
    if p.start
    then record s { rk = put s.rk 0 p.key_in; round_idx = 1; state = st_expand; done = false }
    else record s { done = false }
expand_case p st_expand s =
    let rk = put s.rk s.round_idx (next_key s.round_idx (s.rk ((s.round_idx + 15) % 16))) in
    if s.round_idx == 10
    then record s { rk = rk; done = true; state = st_idle }
    else record s { rk = rk; done = false; round_idx = (s.round_idx + 1) % 16 }

unfoldable pub step : ExpandIn → KeyExpand → KeyExpand
unfolding expand_case
step p s =
    if p.resetn
    then expand_case p s.state s
    else record s { state = st_idle; round_idx = 0; done = false }
