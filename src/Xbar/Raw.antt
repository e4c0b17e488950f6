-- ===== src/Xbar/Raw.antt =====
-- The parts of blocks/axi_lite_xbar/dv/sim_main.cpp that drive both masters by hand, and the design
-- as the bus functional model of master 0 sees it.
use riscv_soc.Base.{ℕ, zero, suc, ◌+◌, Bool, true, false, ◌&&◌, ltb, bit}
use riscv_soc.Axi.Pins.{Pins, Outs, Dut, Bench}
use riscv_soc.Harness
use riscv_soc.Harness.{Sim}
use riscv_soc.Xbar.Fake.{Fake, fake_slave}
use riscv_soc.Xbar.Top.{Top, top_step, s0_outs, s1_outs, decerr_irq}

-- `xbar_testtop` and the pins of master 1, with the counter that `tick_half` keeps.
pub record Side : Type 0 where
  pub s1 : Pins
  pub top : Top Fake
  pub decerr_irq_pulses : ℕ

-- One rising edge: `dut->clk` goes up and the design is evaluated.
unfoldable pub rise : Pins → Side → Side
unfolding top_step
rise s0 s = record s { top = top_step fake_slave s0.resetn s0 s.s1 s.top }

-- The rising half of `tick_half`, which counts a pulse once.
unfoldable pub tick_rise : Pins → Side → Side
unfolding rise decerr_irq
tick_rise s0 s =
    let t = rise s0 s in
    record t { decerr_irq_pulses = s.decerr_irq_pulses + bit (decerr_irq t.top.xbar) }

unfoldable pub side_outs : Pins → Side → Outs
unfolding s0_outs
side_outs s0 s = s0_outs s0 s.s1 s.top.xbar

-- The design behind the pins `sig`.
abbrev pub dut : Dut Side
dut = record { step = tick_rise; outs = side_outs }

abbrev pub XbarSim : Type 0
XbarSim = Sim Side (Unit {0})

-- Inside a block that drives the masters by hand: the outputs are those of the last `eval`.
pub record Raw : Type 0 where
  pub sim : XbarSim
  pub seen0 : Outs
  pub seen1 : Outs
  pub spins : ℕ

abbrev pub RawTest : Type 0
RawTest = Raw → (Unit {0}) × Raw

unfoldable pub eval : RawTest
unfolding s0_outs s1_outs
eval r =
    let b = r.sim.bench in
    (
      tt,
      record r {
        seen0 = s0_outs b.pins b.state.s1 b.state.top.xbar;
        seen1 = s1_outs b.pins b.state.s1 b.state.top.xbar;
      },
    )

-- `clk_edge`: the clock goes down and up, with an `eval` after each.
unfoldable pub clk_edge : RawTest
unfolding eval rise
clk_edge r =
    let b = r.sim.bench in
    eval (record r { sim = record r.sim { bench = record b { state = rise b.pins b.state } } })

abbrev pub raw_check : (Raw → Bool) → RawTest
raw_check cond r = (tt, record r { sim = (Harness.check (cond r) r.sim).1 })

abbrev pub drive0 : (Pins → Pins) → RawTest
drive0 f r = (
  tt,
  record r { sim = record r.sim { bench = record r.sim.bench { pins = f r.sim.bench.pins } } },
)

abbrev with_s1 : (Pins → Pins) → Bench Side → Bench Side
with_s1 f b = record b { state = record b.state { s1 = f b.state.s1 } }

abbrev pub drive1 : (Pins → Pins) → RawTest
drive1 f r = (tt, record r { sim = record r.sim { bench = with_s1 f r.sim.bench } })

-- `awvalid`, `awaddr`, `wvalid`, `wdata`, `wstrb` and `bready` of one master.
abbrev pub request : ℕ → ℕ → Pins → Pins
request addr word p = record p {
  awvalid = true;
  awaddr = addr;
  wvalid = true;
  wdata = word;
  wstrb = 0xF;
  bready = true;
}

abbrev pub withdraw : Pins → Pins
withdraw p = record p { awvalid = false; wvalid = false }

-- `while (!cond && spins < 200) { clk_edge(); spins++; }` with `left` turns to go.
unfoldable pub spin_loop : ℕ → (Raw → Bool) → Raw → Raw
unfolding clk_edge
spin_loop zero cond r = r
spin_loop (suc left) cond r = elim (cond r) [
  | true ↦ r
  | false ↦ let t = (clk_edge r).1 in spin_loop left cond (record t { spins = suc t.spins })
]

unfoldable pub spin_until : (Raw → Bool) → RawTest
unfolding spin_loop
spin_until cond r = (tt, spin_loop 200 cond (record r { spins = 0 }))

-- The condition holds, and the loop ended because of it.
abbrev pub in_time : (Raw → Bool) → Raw → Bool
in_time cond r = cond r && ltb r.spins 200

-- A block inside `main`. When it begins, no output that it reads before its first `eval` depends
-- on a pin that moved since the last one.
unfoldable pub raw : RawTest → XbarSim → (Unit {0}) × XbarSim
unfolding eval
raw block s =
    let b = s.bench in
    let entry = eval (record {
      sim = s;
      seen0 = side_outs b.pins b.state;
      seen1 = side_outs b.pins b.state;
      spins = 0;
    }) in
    (tt, (block entry.1).1.sim)
