-- ===== src/Aes/Regs.antt =====
-- blocks/aes/rtl/aes.v: the register interface of the accelerator.
pub mod Main
pub mod Edges
pub mod Bus
pub mod Phases
pub mod Diff
pub mod Run
pub mod Agree
use riscv_soc.Base.{ℕ, ◌+◌, ◌*◌, ◌/◌, ◌%◌, ◌^◌, Bool, true, false, not, ◌&&◌, ◌==◌, bit, test_bit}
use riscv_soc.Base.{if◌then◌else◌}
use riscv_soc.Axi.Pins.{Pins, Outs, Dut}
use riscv_soc.Aes.KeyExpand.{RoundKey}
use riscv_soc.Aes.Chain.{Chain, ChainIn, chain_step, is_idle}

abbrev pub resp_okay : ℕ
resp_okay = 0

pub record Aes : Type 0 where
  pub key_reg : RoundKey
  pub data_reg : RoundKey
  pub iv_reg : RoundKey
  pub encdec_reg : Bool
  pub mode_reg : ℕ
  pub status_done : Bool
  pub irq_pulse : Bool
  pub s_bvalid : Bool
  pub s_bresp : ℕ
  pub s_rvalid : Bool
  pub s_rdata : ℕ
  pub s_rresp : ℕ
  pub chain : Chain

-- `addr[6:0]`.
abbrev pub offset : ℕ → ℕ
offset addr = addr % 128

abbrev pub do_write : Pins → Bool
do_write p = p.awvalid && p.wvalid

abbrev pub core_busy : Aes → Bool
core_busy s = not (is_idle s.chain.state)

-- A write to CTRL with bit `i` set, while the accelerator is not busy.
abbrev ctrl_bit : ℕ → Pins → Aes → Bool
ctrl_bit i p s =
    do_write p && (offset p.awaddr == 0x00 && (test_bit p.wdata i && not (core_busy s)))

unfoldable pub do_start : Pins → Aes → Bool
do_start p s = ctrl_bit 0 p s

unfoldable pub do_load_iv : Pins → Aes → Bool
do_load_iv p s = ctrl_bit 4 p s

-- The inputs of `u_chain`.
unfoldable pub chain_in : Pins → Aes → ChainIn
unfolding do_start do_load_iv
chain_in p s = record {
  resetn = p.resetn;
  load_iv = do_load_iv p s;
  iv_in = s.iv_reg;
  start = do_start p s;
  encdec = test_bit p.wdata 1;
  mode = p.wdata / 4 % 4;
  key_in = s.key_reg;
  data_in = s.data_reg;
}

-- A vector of which the word at offset `o`, counted from `first`, is replaced.
unfoldable pub put_word : ℕ → ℕ → ℕ → RoundKey → RoundKey
put_word first o word k = record {
  w0 = if o == first then word else k.w0;
  w1 = if o == first + 4 then word else k.w1;
  w2 = if o == first + 8 then word else k.w2;
  w3 = if o == first + 12 then word else k.w3;
}

-- A register of four words under a write.
unfoldable pub next_vector : ℕ → Pins → RoundKey → RoundKey
unfolding put_word
next_vector first p k = if do_write p then put_word first (offset p.awaddr) p.wdata k else k

-- The word at offset `o` of a vector, counted from `first`, or the next case.
abbrev word_case : ℕ → ℕ → RoundKey → ℕ → ℕ
word_case first o k other =
    if o == first
    then k.w0
    else if o == first + 4
    then k.w1
    else if o == first + 8
    then k.w2
    else if o == first + 12
    then k.w3
    else other

unfoldable pub read_reg : ℕ → Aes → ℕ
read_reg o s =
    if o == 0x00
    then s.mode_reg * 4 + bit s.encdec_reg * 2
    else if o == 0x04
    then bit s.status_done * 2 + bit (core_busy s)
    else word_case 0x30 o s.chain.data_out_reg
        (word_case 0x20 o s.data_reg (word_case 0x40 o s.iv_reg 0))

-- One rising edge out of reset.
unfoldable pub edge : Pins → Aes → Aes
unfolding next_vector read_reg chain_in
edge p s = record {
  irq_pulse = s.chain.done_reg;
  status_done =
      if do_write p && (offset p.awaddr == 0x04 && test_bit p.wdata 1)
      then false
      else if s.chain.done_reg
      then true
      else s.status_done;
  iv_reg = next_vector 0x40 p (if s.chain.done_reg then s.chain.iv_reg else s.iv_reg);
  key_reg = next_vector 0x10 p s.key_reg;
  data_reg = next_vector 0x20 p s.data_reg;
  encdec_reg = if do_start p s then test_bit p.wdata 1 else s.encdec_reg;
  mode_reg = if do_start p s then p.wdata / 4 % 4 else s.mode_reg;
  s_bvalid = do_write p;
  s_bresp = if do_write p then resp_okay else s.s_bresp;
  s_rvalid = p.arvalid;
  s_rdata = if p.arvalid then read_reg (offset p.araddr) s else s.s_rdata;
  s_rresp = if p.arvalid then resp_okay else s.s_rresp;
  chain = chain_step (chain_in p s) s.chain;
}

abbrev pub zero_words : RoundKey
zero_words = record { w0 = 0; w1 = 0; w2 = 0; w3 = 0 }

-- One rising edge in reset: the bus registers keep their values.
unfoldable pub reset : Pins → Aes → Aes
unfolding chain_in
reset p s = record s {
  key_reg = zero_words;
  data_reg = zero_words;
  iv_reg = zero_words;
  status_done = false;
  irq_pulse = false;
  encdec_reg = false;
  mode_reg = 0;
  chain = chain_step (chain_in p s) s.chain;
}

unfoldable pub step : Pins → Aes → Aes
unfolding edge reset
step p s = if p.resetn then edge p s else reset p s

unfoldable pub outs : Pins → Aes → Outs
outs p s = record {
  awready = true;
  wready = true;
  bvalid = s.s_bvalid;
  bresp = s.s_bresp;
  arready = true;
  rvalid = s.s_rvalid;
  rdata = s.s_rdata;
  rresp = s.s_rresp;
}

abbrev pub dut : Dut Aes
dut = record { step = step; outs = outs }
