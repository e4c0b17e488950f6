-- ===== src/DmaRam.antt =====
-- blocks/dma/rtl/dma_ram.v: a burst memory with an AXI4 slave port. AWSIZE and AWBURST, ARSIZE and
-- ARBURST are inputs that it does not read.
pub mod Burst
pub mod Quiet
pub mod Store
pub mod Load
pub mod RoundTrip
pub mod Beats
pub mod Main
use riscv_soc.Base.{ℕ, ◌+◌, ◌*◌, ◌-◌, ◌/◌, ◌%◌, ◌^◌, Bool, true, false, not, ◌&&◌, ◌||◌, ◌==◌}
use riscv_soc.Base.{if◌then◌else◌, update, merge_bytes}

-- SIZE_WORDS, at its default.
abbrev pub size_words : ℕ
size_words = 2048

pub data WState : Type 0 where
  w_idle w_burst : WState

pub data RState : Type 0 where
  r_idle r_burst : RState

pub record RamPins : Type 0 where
  pub resetn : Bool
  pub awvalid : Bool
  pub awaddr : ℕ
  pub awlen : ℕ
  pub wvalid : Bool
  pub wdata : ℕ
  pub wstrb : ℕ
  pub wlast : Bool
  pub bready : Bool
  pub arvalid : Bool
  pub araddr : ℕ
  pub arlen : ℕ
  pub rready : Bool

pub record Ram : Type 0 where
  pub mem : ℕ → ℕ
  pub w_state : WState
  pub w_word_idx : ℕ
  pub w_beats_left : ℕ
  pub s_bvalid : Bool
  pub s_bresp : ℕ
  pub r_state : RState
  pub r_word_idx : ℕ
  pub r_beats_left : ℕ
  pub s_rvalid : Bool
  pub s_rdata : ℕ
  pub s_rresp : ℕ
  pub s_rlast : Bool

abbrev pub awready : Ram → Bool
awready s = elim s.w_state [ w_idle ↦ true | w_burst ↦ false ]

abbrev pub wready : Ram → Bool
wready s = not (awready s)

abbrev pub arready : Ram → Bool
arready s = elim s.r_state [ r_idle ↦ true | r_burst ↦ false ]

-- `addr[ADDR_BITS+1:2]`.
abbrev pub word_index : ℕ → ℕ
word_index addr = addr / 4 % size_words

abbrev pub next_index : ℕ → ℕ
next_index i = (i + 1) % size_words

-- `beats_left - 1` on 8 bits.
abbrev pub dec_beats : ℕ → ℕ
dec_beats n = (n + 2 ^ 8 - 1) % 2 ^ 8

-- `if (s_wstrb[k]) mem[idx][8*k+7:8*k] <= s_wdata[8*k+7:8*k];` for the four bytes.
abbrev pub strobed : RamPins → ℕ → (ℕ → ℕ) → ℕ → ℕ
strobed p i mem = update mem i (merge_bytes p.wstrb p.wdata (mem i))

-- The `case (w_state)`.
unfoldable pub write_path : RamPins → WState → Ram → Ram
unfolding merge_bytes
write_path p w_idle s =
    if p.awvalid
    then record s { w_word_idx = word_index p.awaddr; w_beats_left = p.awlen; w_state = w_burst }
    else s
write_path p w_burst s =
    if p.wvalid
    then (if p.wlast
        then record s {
          mem = strobed p s.w_word_idx s.mem;
          w_word_idx = next_index s.w_word_idx;
          s_bresp = 0;
          s_bvalid = true;
          w_state = w_idle;
        }
        else record s {
          mem = strobed p s.w_word_idx s.mem;
          w_word_idx = next_index s.w_word_idx;
          w_beats_left = dec_beats s.w_beats_left;
        })
    else s

-- The last statement of the write path overrides what the case sets.
unfoldable pub write_edge : RamPins → Ram → Ram
unfolding write_path
write_edge p s =
    let t = write_path p s.w_state s in
    record t { s_bvalid = if s.s_bvalid && p.bready then false else t.s_bvalid }

-- The `case (r_state)`: `s` holds the values before the edge, also of the memory.
unfoldable pub read_path : RamPins → RState → Ram → Ram
read_path p r_idle s =
    if p.arvalid
    then record s {
      s_rvalid = false;
      r_word_idx = word_index p.araddr;
      r_beats_left = p.arlen;
      r_state = r_burst;
    }
    else record s { s_rvalid = false }
read_path p r_burst s =
    if not s.s_rvalid || p.rready
    then (if s.r_beats_left == 0
        then record s {
          s_rdata = s.mem s.r_word_idx;
          s_rresp = 0;
          s_rlast = true;
          s_rvalid = true;
          r_state = r_idle;
        }
        else record s {
          s_rdata = s.mem s.r_word_idx;
          s_rresp = 0;
          s_rlast = false;
          s_rvalid = true;
          r_word_idx = next_index s.r_word_idx;
          r_beats_left = dec_beats s.r_beats_left;
        })
    else s

-- Both `always` blocks out of reset: the read path takes the memory before the edge, the write path
-- moves it on.
unfoldable pub edge : RamPins → Ram → Ram
unfolding write_edge read_path
edge p s =
    let w = write_edge p s in
    record (read_path p s.r_state s) {
      mem = w.mem;
      w_state = w.w_state;
      w_word_idx = w.w_word_idx;
      w_beats_left = w.w_beats_left;
      s_bvalid = w.s_bvalid;
      s_bresp = w.s_bresp;
    }

unfoldable pub step : RamPins → Ram → Ram
unfolding edge
step p s =
    if p.resetn
    then edge p s
    else record s { w_state = w_idle; s_bvalid = false; r_state = r_idle; s_rvalid = false }
