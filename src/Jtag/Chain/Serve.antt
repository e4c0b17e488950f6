-- ===== src/Jtag/Chain/Serve.antt =====
-- A request of the `tck` domain in blocks/jtag/rtl/jtag_axi_bridge.v and the slave behind it.
use riscv_soc.Base.{ℕ, zero, suc, Bool, true, false, not, ◌≡◌, refl, sym}
use mathlib.Core.Path.{subst}
use riscv_soc.Jtag.Chain.Slave.{word_of, store}
use riscv_soc.Jtag.Chain.Bridge.{idle}
use riscv_soc.Jtag.Chain.Top.{Chain, clk_edge}

unfoldable pub clk_edges : ℕ → Chain → Chain
unfolding clk_edge
clk_edges zero c = c
clk_edges (suc n) c = clk_edges n (clk_edge c)

-- An idle bridge whose three samples of the toggle agree, and a toggle with the value `toggle`.
pub record IsWaiting (toggle : Bool) (c : Chain) : Type 0 where
  pub out_of_reset : c.resetn ≡ true
  pub is_idle : c.clk_side.state ≡ idle
  pub first_sample : c.clk_side.start_toggle_sync1 ≡ c.clk_side.start_toggle_sync2_d
  pub second_sample : c.clk_side.start_toggle_sync2 ≡ c.clk_side.start_toggle_sync2_d
  pub toggle_is : c.tck_side.start_toggle_tck ≡ toggle

-- A request of the kind `rw`: the toggle differs from the samples.
pub record IsPending (rw : Bool) (c : Chain) : Type 0 where
  pub waiting : IsWaiting (not c.clk_side.start_toggle_sync2_d) c
  pub kind : c.dtm.rw_tck ≡ rw

pending_form : Bool → Bool → Chain → Chain
pending_form rw t c = record c {
  resetn = true;
  dtm = record c.dtm { rw_tck = rw };
  tck_side = record c.tck_side { start_toggle_tck = not t };
  clk_side = record c.clk_side {
    state = idle;
    start_toggle_sync1 = t;
    start_toggle_sync2 = t;
    start_toggle_sync2_d = t;
  };
}

pending_form-eq :
    (rw : Bool) (c : Chain) → IsPending rw c → pending_form rw c.clk_side.start_toggle_sync2_d c ≡ c
unfolding pending_form
pending_form-eq rw c h = λ i. record c {
  resetn = sym h.waiting.out_of_reset i;
  dtm = record c.dtm { rw_tck = sym h.kind i };
  tck_side = record c.tck_side { start_toggle_tck = sym h.waiting.toggle_is i };
  clk_side = record c.clk_side {
    state = sym h.waiting.is_idle i;
    start_toggle_sync1 = sym h.waiting.first_sample i;
    start_toggle_sync2 = sym h.waiting.second_sample i;
  };
}

idle_form : Bool → Chain → Chain
idle_form t c = record c {
  resetn = true;
  tck_side = record c.tck_side { start_toggle_tck = t };
  clk_side = record c.clk_side {
    state = idle;
    start_toggle_sync1 = t;
    start_toggle_sync2 = t;
    start_toggle_sync2_d = t;
  };
}

idle_form-IsWaiting : (t : Bool) (c : Chain) → IsWaiting t (idle_form t c)
unfolding idle_form
idle_form-IsWaiting t c = record {
  out_of_reset = refl;
  is_idle = refl;
  first_sample = refl;
  second_sample = refl;
  toggle_is = refl;
}

-- What five edges of `clk` leave of a served write, and of a served read.
pub record WriteServed (c d : Chain) : Type 0 where
  pub stored : d.slave.mem ≡ store (word_of c.dtm.addr_reg) c.dtm.data_reg c.slave.mem
  pub reports_ok : d.clk_side.resp_ok ≡ true
  pub flips_done : d.clk_side.done_toggle_clk ≡ not c.clk_side.done_toggle_clk
  pub settled : IsWaiting d.clk_side.start_toggle_sync2_d d

pub record ReadServed (c d : Chain) : Type 0 where
  pub delivered : d.clk_side.rdata_reg ≡ c.slave.mem (word_of c.dtm.addr_reg)
  pub kept : d.slave.mem ≡ c.slave.mem
  pub reports_ok : d.clk_side.resp_ok ≡ true
  pub flips_done : d.clk_side.done_toggle_clk ≡ not c.clk_side.done_toggle_clk
  pub settled : IsWaiting d.clk_side.start_toggle_sync2_d d

write_form :
    (t : Bool) (c : Chain)
    → WriteServed (pending_form false t c) (clk_edges 5 (pending_form false t c))
unfolding pending_form idle_form clk_edges
write_form false c = record {
  stored = refl;
  reports_ok = refl;
  flips_done = refl;
  settled = idle_form-IsWaiting true (clk_edges 5 (pending_form false false c));
}
write_form true c = record {
  stored = refl;
  reports_ok = refl;
  flips_done = refl;
  settled = idle_form-IsWaiting false (clk_edges 5 (pending_form false true c));
}

read_form :
    (t : Bool) (c : Chain)
    → ReadServed (pending_form true t c) (clk_edges 5 (pending_form true t c))
unfolding pending_form idle_form clk_edges
read_form false c = record {
  delivered = refl;
  kept = refl;
  reports_ok = refl;
  flips_done = refl;
  settled = idle_form-IsWaiting true (clk_edges 5 (pending_form true false c));
}
read_form true c = record {
  delivered = refl;
  kept = refl;
  reports_ok = refl;
  flips_done = refl;
  settled = idle_form-IsWaiting false (clk_edges 5 (pending_form true true c));
}

-- Five edges of `clk` serve a pending write: the slave's memory changes in the addressed word only,
-- to the written data, OKAY is recorded, the done toggle flips, and the bridge is idle again with
-- all its samples of the start toggle up to date.
pub write_served : (c : Chain) → IsPending false c → WriteServed c (clk_edges 5 c)
write_served c h =
    subst (λ d. WriteServed d (clk_edges 5 d)) (pending_form-eq false c h)
      (write_form c.clk_side.start_toggle_sync2_d c)

-- Five edges of `clk` serve a pending read: the addressed word of the slave's memory is in the
-- bridge's data register, the memory is unchanged, OKAY is recorded, the done toggle flips, and the
-- bridge is idle again with all its samples of the start toggle up to date.
pub read_served : (c : Chain) → IsPending true c → ReadServed c (clk_edges 5 c)
read_served c h =
    subst (λ d. ReadServed d (clk_edges 5 d)) (pending_form-eq true c h)
      (read_form c.clk_side.start_toggle_sync2_d c)
