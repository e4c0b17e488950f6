-- ===== src/Spi/Fake.antt =====
-- tb/common/fake_spi_slave.v.
use riscv_soc.Base.{ℕ, zero, suc, ◌+◌, ◌%◌, Bool, true, false, not, ◌&&◌, ◌==◌, same, if◌then◌else◌}
use riscv_soc.Base.{[], ◌∷◌, get_or, Bits, to_bits}

-- The first `n` bits.
abbrev pub low_bits : ℕ → Bits → Bits
low_bits zero bs = []
low_bits (suc n) [] = []
low_bits (suc n) (b ∷ bs) = b ∷ low_bits n bs

-- `{r[width-2:0], b}`.
abbrev pub shift_up : ℕ → Bool → Bits → Bits
shift_up width b bs = low_bits width (b ∷ bs)

pub record Slave : Type 0 where
  pub miso : Bool
  pub received : Bits
  pub xfer_done : Bool
  pub tx_shift : Bits
  pub edge_cnt : ℕ
  pub sclk_prev : Bool
  pub cs_n_prev : Bool

-- The inputs.
pub record Wires : Type 0 where
  pub sclk : Bool
  pub mosi : Bool
  pub cs_n : Bool
  pub cpol : Bool
  pub cpha : Bool
  pub preload : ℕ

-- The shift out, without it and with it.
abbrev shifted : Bool → Slave → Slave
shifted now s =
    if now
    then record s { tx_shift = shift_up 8 false s.tx_shift; miso = get_or s.tx_shift 6 false }
    else s

-- An edge of SCLK, which leads if SCLK has just left its idle level.
seen_edge : Wires → Slave → Slave
seen_edge p s =
    let leading = not (same p.sclk p.cpol) in
    let captures = if leading then not p.cpha else p.cpha in
    let shifts = if leading then p.cpha && not (s.edge_cnt == 0) else not p.cpha in
    record (shifted shifts s) {
      received = if captures then shift_up 8 p.mosi s.received else s.received;
      edge_cnt = (s.edge_cnt + 1) % 32;
      xfer_done = if s.edge_cnt == 15 then true else s.xfer_done;
      sclk_prev = p.sclk;
    }

selected : Wires → Slave → Slave
selected p s = record s {
  tx_shift = to_bits 8 p.preload;
  edge_cnt = 0;
  xfer_done = false;
  miso = get_or (to_bits 8 p.preload) 7 false;
  sclk_prev = p.cpol;
}

-- A rising edge of `clk`; the slave has no reset.
unfoldable pub slave_edge : Wires → Slave → Slave
unfolding seen_edge selected
slave_edge p s =
    record (if s.cs_n_prev && not p.cs_n
      then selected p s
      else if not p.cs_n && not (same p.sclk s.sclk_prev)
      then seen_edge p s
      else s) { cs_n_prev = p.cs_n }
