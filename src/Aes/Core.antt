-- ===== src/Aes/Core.antt =====
-- blocks/aes/rtl/aes_core.v, with the multiplications of rtl/aes_pkg.vh: one block in key expansion,
-- ten rounds and an output register. A port of 128 bits is four words, the highest first, and
-- `data_reg` is its sixteen bytes.
pub mod Round
pub mod Main
pub mod Agree
pub mod Rounds
pub mod Refines
use riscv_soc.Base.{
  ℕ, ◌+◌, ◌-◌, ◌*◌, ◌/◌, ◌%◌, ◌^◌, bit_xor, Bool, true, false, not, ◌&&◌, ◌==◌, if◌then◌else◌,
}
use riscv_soc.Aes.Ref.{Column, Block, byte_of, column_word}
use riscv_soc.Aes.KeyExpand
use riscv_soc.Aes.KeyExpand.{RoundKey, KeyExpand}
use riscv_soc.Aes.Core.Round.{
  xor_key, enc_round_next, enc_final_next, dec_round_next, dec_final_next,
}

pub data CoreState : Type 0 where
  st_idle st_keyexp st_round st_final : CoreState

pub record Core : Type 0 where
  pub state : CoreState
  pub encdec_reg : Bool
  pub rnum : ℕ
  pub data_reg : Block
  pub busy : Bool
  pub done : Bool
  pub data_out : RoundKey
  pub key_expand : KeyExpand

pub record CoreIn : Type 0 where
  pub resetn : Bool
  pub start : Bool
  pub encdec : Bool
  pub key_in : RoundKey
  pub data_in : RoundKey

-- The sixteen bytes of a vector, byte 0 the highest, and the vector of sixteen bytes.
abbrev pub column_of : ℕ → Column
column_of w = record { r0 = byte_of w 3; r1 = byte_of w 2; r2 = byte_of w 1; r3 = byte_of w 0 }

unfoldable pub bytes_of : RoundKey → Block
bytes_of k = record {
  c0 = column_of k.w0;
  c1 = column_of k.w1;
  c2 = column_of k.w2;
  c3 = column_of k.w3;
}

unfoldable pub words_of : Block → RoundKey
words_of s = record {
  w0 = column_word s.c0;
  w1 = column_word s.c1;
  w2 = column_word s.c2;
  w3 = column_word s.c3;
}

-- `round_keys[128*rnum +: 128]`.
abbrev pub rk_sel : Core → RoundKey
rk_sel s = s.key_expand.rk s.rnum

abbrev pub is_idle : CoreState → Bool
is_idle st_idle = true
is_idle st_keyexp = false
is_idle st_round = false
is_idle st_final = false

abbrev pub expand_in : CoreIn → Core → KeyExpand.ExpandIn
expand_in p s = record { resetn = p.resetn; start = is_idle s.state && p.start; key_in = p.key_in }

-- The `case (state)`, after `done <= 1'b0`.
unfoldable pub core_case : CoreIn → CoreState → Core → Core
core_case p st_idle s =
    if p.start
    then record s {
      done = false;
      encdec_reg = p.encdec;
      data_reg = bytes_of p.data_in;
      busy = true;
      state = st_keyexp;
    }
    else record s { done = false; busy = false }
core_case p st_keyexp s =
    if s.key_expand.done
    then record s {
      done = false;
      data_reg = xor_key s.data_reg (s.key_expand.rk (if s.encdec_reg then 10 else 0));
      rnum = if s.encdec_reg then 9 else 1;
      state = st_round;
    }
    else record s { done = false }
core_case p st_round s =
    if not s.encdec_reg
    then record s {
      done = false;
      data_reg = enc_round_next s.data_reg (rk_sel s);
      rnum = if s.rnum == 9 then 10 else (s.rnum + 1) % 16;
      state = if s.rnum == 9 then st_final else st_round;
    }
    else record s {
      done = false;
      data_reg = dec_round_next s.data_reg (rk_sel s);
      rnum = if s.rnum == 1 then 0 else (s.rnum + 15) % 16;
      state = if s.rnum == 1 then st_final else st_round;
    }
core_case p st_final s = record s {
  data_out = words_of (
      if s.encdec_reg
      then dec_final_next s.data_reg (rk_sel s)
      else enc_final_next s.data_reg (rk_sel s));
  busy = false;
  done = true;
  state = st_idle;
}

unfoldable pub core_step : CoreIn → Core → Core
unfolding core_case
core_step p s =
    let r =
      if p.resetn
      then core_case p s.state s
      else record s { state = st_idle; busy = false; done = false } in
    record r { key_expand = KeyExpand.step (expand_in p s) s.key_expand }
