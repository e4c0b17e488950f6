-- ===== src/Xbar/Granted.antt =====
-- The hold that a master has on the write path of blocks/axi_lite_xbar/rtl/axi_lite_xbar.v, by what
-- passes over the masters' own ports.
use riscv_soc.Base.{Bool, true, false, not, ◌&&◌, ◌||◌, ◌≡◌, arith}
use riscv_soc.Xbar.{Around}
use riscv_soc.Xbar.Write.{
  WState, w_idle, w_issue, w_wait_b, w_resp, WriteSide, w_edge, w_before, w_accept, w_open, w_cur,
  w_grant_eff, w_drive, w_collect, w_present, cur_bready, s0_awready, s1_awready, s0_wready,
  s1_wready, s0_bvalid, s1_bvalid,
}

-- An address or a word of a master is taken at this edge: `true` is master 0, as in `w_grant`.
abbrev pub takes : Bool → Around → WriteSide → Bool
takes true a x = (a.s0.awvalid && s0_awready a.s0 a.s1 x) || (a.s0.wvalid && s0_wready a.s0 a.s1 x)
takes false a x = (a.s1.awvalid && s1_awready a.s0 a.s1 x) || (a.s1.wvalid && s1_wready a.s0 a.s1 x)

-- The master takes its response at this edge.
abbrev pub completes : Bool → Around → WriteSide → Bool
completes true a x = s0_bvalid x && a.s0.bready
completes false a x = s1_bvalid x && a.s1.bready

-- What the master is offered: AWREADY, WREADY or BVALID.
abbrev pub offered : Bool → Around → WriteSide → Bool
offered true a x = s0_awready a.s0 a.s1 x || s0_wready a.s0 a.s1 x || s0_bvalid x
offered false a x = s1_awready a.s0 a.s1 x || s1_wready a.s0 a.s1 x || s1_bvalid x

-- The master's write has begun, and its response is not taken yet.
pub data During (m : Bool) : WriteSide → Type 0 where
  begun : (a : Around) (x : WriteSide) → takes m a x ≡ true → During m (w_edge a x)
  goes_on :
      (a : Around) (x : WriteSide) → During m x → completes m a x ≡ false → During m (w_edge a x)

-- Something of a write is held, or the state machine has it.
abbrev is_held : WState → WriteSide → Bool
is_held w_idle x = x.w_have_aw || x.w_have_w
is_held w_issue x = true
is_held w_wait_b x = true
is_held w_resp x = true

record IsHeldBy (m : Bool) (x : WriteSide) : Type 0 where
  held : is_held x.w_state x ≡ true
  granted : x.w_grant ≡ m

begun-IsHeldBy :
    (m : Bool) (a : Around) (x : WriteSide) → takes m a x ≡ true → IsHeldBy m (w_edge a x)
unfolding w_edge w_before w_accept w_drive w_collect w_present w_cur s0_awready s1_awready s0_wready
    s1_wready w_grant_eff w_open
begun-IsHeldBy true a x h = record { held = ground arith; granted = ground arith }
begun-IsHeldBy false a x h = record { held = ground arith; granted = ground arith }

edge-IsHeldBy :
    (m : Bool) (a : Around) (x : WriteSide)
    → IsHeldBy m x
    → completes m a x ≡ false
    → IsHeldBy m (w_edge a x)
unfolding w_edge w_before w_accept w_drive w_collect w_present cur_bready w_open s0_bvalid s1_bvalid
edge-IsHeldBy true a x h c = record { held = ground (arith, h); granted = ground (arith, h) }
edge-IsHeldBy false a x h c = record { held = ground (arith, h); granted = ground (arith, h) }

During-IsHeldBy : (m : Bool) (x : WriteSide) → During m x → IsHeldBy m x
During-IsHeldBy m _ (begun a x t) = begun-IsHeldBy m a x t
During-IsHeldBy m _ (goes_on a x d c) = edge-IsHeldBy m a x (During-IsHeldBy m x d) c

-- Out of reset, in every cycle after the edge at which the write path takes the address or the word of
-- a write from a master, up to the edge at which that master takes the response, the grant is that
-- master's, and the other master is offered neither AWREADY, WREADY nor BVALID, whatever both masters
-- and the slaves do.
pub grant_locked :
    (m : Bool) (a : Around) (x : WriteSide)
    → During m x
    → (x.w_grant ≡ m) × (offered (not m) a x ≡ false)
unfolding s0_awready s1_awready s0_wready s1_wready w_grant_eff w_open s0_bvalid s1_bvalid
grant_locked true a x d = let h = During-IsHeldBy true x d in (h.granted, ground (arith, h))
grant_locked false a x d = let h = During-IsHeldBy false x d in (h.granted, ground (arith, h))
