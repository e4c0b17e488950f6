-- ===== src/Aes/Chain.antt =====
-- blocks/aes/rtl/aes_chain.v: the modes ECB, CBC and CTR around the core.
pub mod Main
pub mod Due
pub mod Refines
pub mod Messages
pub mod RoundTrip
use riscv_soc.Base.{
  ℕ, ◌+◌, ◌-◌, ◌%◌, ◌^◌, bit_xor, Bool, true, false, not, ◌&&◌, ◌==◌, if◌then◌else◌,
}
use riscv_soc.Aes.KeyExpand.{RoundKey}
use riscv_soc.Aes.Core.{Core, CoreIn, core_step}

abbrev pub mode_ecb : ℕ
mode_ecb = 0

abbrev pub mode_cbc : ℕ
mode_cbc = 1

abbrev pub mode_ctr : ℕ
mode_ctr = 2

pub data ChainState : Type 0 where
  st_idle st_core : ChainState

pub record Chain : Type 0 where
  pub state : ChainState
  pub mode_reg : ℕ
  pub encdec_reg : Bool
  pub data_in_reg : RoundKey
  pub iv_reg : RoundKey
  pub data_out_reg : RoundKey
  pub done_reg : Bool
  pub core : Core

pub record ChainIn : Type 0 where
  pub resetn : Bool
  pub load_iv : Bool
  pub iv_in : RoundKey
  pub start : Bool
  pub encdec : Bool
  pub mode : ℕ
  pub key_in : RoundKey
  pub data_in : RoundKey

-- The exclusive or of two vectors.
abbrev pub xor_words : RoundKey → RoundKey → RoundKey
xor_words a b = record {
  w0 = bit_xor a.w0 b.w0;
  w1 = bit_xor a.w1 b.w1;
  w2 = bit_xor a.w2 b.w2;
  w3 = bit_xor a.w3 b.w3;
}

-- `iv_reg + 128'd1`, with the carry from word to word.
unfoldable pub inc128 : RoundKey → RoundKey
inc128 a =
    let carry3 = if a.w3 == 2 ^ 32 - 1 then 1 else 0 in
    let carry2 = if a.w2 + carry3 == 2 ^ 32 then 1 else 0 in
    let carry1 = if a.w1 + carry2 == 2 ^ 32 then 1 else 0 in
    record {
      w0 = (a.w0 + carry1) % 2 ^ 32;
      w1 = (a.w1 + carry2) % 2 ^ 32;
      w2 = (a.w2 + carry3) % 2 ^ 32;
      w3 = (a.w3 + 1) % 2 ^ 32;
    }

abbrev pub is_idle : ChainState → Bool
is_idle st_idle = true
is_idle st_core = false

unfoldable pub core_data_in : ChainIn → Chain → RoundKey
core_data_in p s =
    if p.mode == mode_cbc && not p.encdec
    then xor_words p.data_in s.iv_reg
    else if p.mode == mode_ctr
    then s.iv_reg
    else p.data_in

unfoldable pub core_in : ChainIn → Chain → CoreIn
unfolding core_data_in
core_in p s = record {
  resetn = p.resetn;
  start = is_idle s.state && p.start;
  encdec = if p.mode == mode_ctr then false else p.encdec;
  key_in = p.key_in;
  data_in = core_data_in p s;
}

-- `data_out_reg` and `iv_reg` when the core is done: `iv` is what `iv_reg` is otherwise.
unfoldable pub finished_data : Chain → RoundKey
finished_data s =
    if s.mode_reg == mode_cbc
    then (if s.encdec_reg then xor_words s.core.data_out s.iv_reg else s.core.data_out)
    else if s.mode_reg == mode_ctr
    then xor_words s.data_in_reg s.core.data_out
    else s.core.data_out

unfoldable pub finished_iv : RoundKey → Chain → RoundKey
unfolding inc128
finished_iv iv s =
    if s.mode_reg == mode_cbc
    then (if s.encdec_reg then s.data_in_reg else s.core.data_out)
    else if s.mode_reg == mode_ctr
    then inc128 s.iv_reg
    else iv

-- The `case (state)`.
unfoldable pub chain_case : ChainIn → ChainState → Chain → Chain
chain_case p st_idle s =
    let iv = if p.load_iv then p.iv_in else s.iv_reg in
    if p.start
    then record s {
      done_reg = false;
      iv_reg = iv;
      mode_reg = p.mode;
      encdec_reg = p.encdec;
      data_in_reg = p.data_in;
      state = st_core;
    }
    else record s { done_reg = false; iv_reg = iv }
chain_case p st_core s =
    let iv = if p.load_iv then p.iv_in else s.iv_reg in
    if s.core.done
    then record s {
      data_out_reg = finished_data s;
      iv_reg = finished_iv iv s;
      done_reg = true;
      state = st_idle;
    }
    else record s { done_reg = false; iv_reg = iv }

unfoldable pub chain_step : ChainIn → Chain → Chain
unfolding chain_case
chain_step p s =
    let r = if p.resetn then chain_case p s.state s else record s {
      state = st_idle;
      done_reg = false;
      iv_reg = record { w0 = 0; w1 = 0; w2 = 0; w3 = 0 };
    } in
    record r { core = core_step (core_in p s) s.core }
