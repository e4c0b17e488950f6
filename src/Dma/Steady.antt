-- ===== src/Dma/Steady.antt =====
-- The burst port of blocks/dma/rtl/dma_engine.v as an AXI4 master.
use riscv_soc.Base.{ℕ, Bool, true, false, if◌then◌else◌, ◌≡◌, arith}
use riscv_soc.Base.{sym, bit}
use mathlib.Core.Path.{subst}
use riscv_soc.Axi.Pins.{Pins}
use riscv_soc.Dma.{
  Engine, EngineState, reset, st_rd_addr, st_wr_addr, st_wr_data, FromRam, step, edge, engine_edge,
  engine_case, m_wdata, m_wlast,
}

abbrev in_rd_addr : EngineState → Bool
in_rd_addr st_rd_addr = true
in_rd_addr _ = false

abbrev in_wr_addr : EngineState → Bool
in_wr_addr st_wr_addr = true
in_wr_addr _ = false

abbrev in_wr_data : EngineState → Bool
in_wr_data st_wr_data = true
in_wr_data _ = false

-- A channel asks only in its own state, and with the address of the block under way.
pub record IsOrderly (s : Engine) : Type 0 where
  pub aw_state : s.m_awvalid ≡ true → in_wr_addr s.state ≡ true
  pub aw_address : s.m_awvalid ≡ true → s.m_awaddr ≡ s.cur_dst
  pub aw_length : s.m_awvalid ≡ true → s.m_awlen ≡ 3
  pub w_state : s.m_wvalid ≡ true → in_wr_data s.state ≡ true
  pub ar_state : s.m_arvalid ≡ true → in_rd_addr s.state ≡ true
  pub ar_address : s.m_arvalid ≡ true → s.m_araddr ≡ s.cur_src
  pub ar_length : s.m_arvalid ≡ true → s.m_arlen ≡ 3

edge-IsOrderly : (r : FromRam) (p : Pins) (s : Engine) → IsOrderly s → IsOrderly (edge r p s)
unfolding edge engine_edge engine_case
edge-IsOrderly r p s h = record {
  aw_state = ground (arith, h);
  aw_address = ground (arith, h);
  aw_length = ground (arith, h);
  w_state = ground (arith, h);
  ar_state = ground (arith, h);
  ar_address = ground (arith, h);
  ar_length = ground (arith, h);
}

reset-IsOrderly : (p : Pins) (s : Engine) → IsOrderly (reset p s)
unfolding reset
reset-IsOrderly p s = record {
  aw_state = ground arith;
  aw_address = ground arith;
  aw_length = ground arith;
  w_state = ground arith;
  ar_state = ground arith;
  ar_address = ground arith;
  ar_length = ground arith;
}

-- The engine after an edge in reset from any power-on state, and after any further edges, whatever
-- its inputs are.
pub data Reached : Engine → Type 0 where
  after_reset : (r : FromRam) (p : Pins) (s : Engine) → p.resetn ≡ false → Reached (step r p s)
  after_edge : (r : FromRam) (p : Pins) (s : Engine) → Reached s → Reached (step r p s)

branch-IsOrderly :
    (r : FromRam) (p : Pins) (s : Engine) (b : Bool)
    → IsOrderly (edge r p s)
    → IsOrderly (if b then edge r p s else reset p s)
branch-IsOrderly r p s true h = h
branch-IsOrderly r p s false h = reset-IsOrderly p s

Reached-IsOrderly : (s : Engine) → Reached s → IsOrderly s
unfolding step
Reached-IsOrderly _ (after_reset r p s e) =
    subst (λ b. IsOrderly (if b then edge r p s else reset p s)) (sym e) (reset-IsOrderly p s)
Reached-IsOrderly _ (after_edge r p s h) =
    branch-IsOrderly r p s p.resetn (edge-IsOrderly r p s (Reached-IsOrderly s h))

-- The three channels on which the engine is the one that asks.
pub data Channel : Type 0 where
  aw w ar : Channel

unfoldable pub asks : Channel → Engine → Bool
asks aw s = s.m_awvalid
asks w s = s.m_wvalid
asks ar s = s.m_arvalid

unfoldable pub is_ready : Channel → FromRam → Bool
is_ready aw r = r.m_awready
is_ready w r = r.m_wready
is_ready ar r = r.m_arready

-- What stands on the channel: the address and the length of the burst, or the word and WLAST.
unfoldable pub payload : Channel → Engine → ℕ × ℕ
unfolding m_wdata m_wlast
payload aw s = (s.m_awaddr, s.m_awlen)
payload w s = (m_wdata s, bit (m_wlast s))
payload ar s = (s.m_araddr, s.m_arlen)

abbrev Keeps : Channel → FromRam → Pins → Engine → Type 0
Keeps c r p s = (asks c (edge r p s) ≡ true) × (payload c (edge r p s) ≡ payload c s)

edge-Keeps :
    (c : Channel) (r : FromRam) (p : Pins) (s : Engine)
    → IsOrderly s
    → asks c s ≡ true
    → is_ready c r ≡ false
    → Keeps c r p s
unfolding asks is_ready payload edge engine_edge engine_case
edge-Keeps aw r p s h a n = ground (arith, h)
edge-Keeps w r p s h a n = ground (arith, h)
edge-Keeps ar r p s h a n = ground (arith, h)

-- Once the engine asks on a channel of its burst port, it goes on asking, and the address and the
-- length, or the word and WLAST, do not change, at every edge out of reset before the one at which
-- the other side is ready: in every state that it reaches from a reset, whatever its inputs are.
pub channels_steady :
    (c : Channel) (r : FromRam) (p : Pins) (s : Engine)
    → Reached s
    → p.resetn ≡ true
    → asks c s ≡ true
    → is_ready c r ≡ false
    → (asks c (step r p s) ≡ true) × (payload c (step r p s) ≡ payload c s)
unfolding step
channels_steady c r p s h e a n =
    subst
      (λ b.
        let t = if b then edge r p s else reset p s in
        (asks c t ≡ true) × (payload c t ≡ payload c s))
      (sym e) (edge-Keeps c r p s (Reached-IsOrderly s h) a n)
