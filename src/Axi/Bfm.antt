-- ===== src/Axi/Bfm.antt =====
-- `AxiLiteBfm` of tb/common/axi_lite_bfm.h: `clock`, `write` and `read`.
pub mod Loop
pub mod Ready
pub mod Frame
pub mod Timeout
use riscv_soc.Base.{ℕ, zero, suc, Bool, true, false, not, ◌&&◌, if◌then◌else◌}
use riscv_soc.Axi.Pins.{Dut, Bench}

-- The locals of `write`, with the byte that `last_resp` points to.
pub record WriteVars (S : Type 0) : Type 0 where
  pub bench : Bench S
  pub aw_done : Bool
  pub w_done : Bool
  pub b_done : Bool
  pub last_resp : ℕ

-- The locals of `read`, with the words that `out_data` and `last_resp` point to.
pub record ReadVars (S : Type 0) : Type 0 where
  pub bench : Bench S
  pub ar_done : Bool
  pub r_done : Bool
  pub out_data : ℕ
  pub last_resp : ℕ

pub record Written (S : Type 0) : Type 0 where
  pub bench : Bench S
  pub ok : Bool
  pub last_resp : ℕ

pub record Read (S : Type 0) : Type 0 where
  pub bench : Bench S
  pub ok : Bool
  pub out_data : ℕ
  pub last_resp : ℕ

module _ {S : Type 0} (d : Dut S) where
  -- Two half ticks: the design sees one rising edge.
  unfoldable pub clock : Bench S → Bench S
  clock b = record b { state = d.step b.pins b.state }

  -- The body of the loop of `write`. All outputs are read after the edge and before a pin moves.
  unfoldable pub write_cycle : WriteVars S → WriteVars S
  unfolding clock
  write_cycle v =
      let b = clock v.bench in
      let o = d.outs b.pins b.state in
      let aw_now = not v.aw_done && o.awready in
      let w_now = not v.w_done && o.wready in
      let b_now = o.bvalid && b.pins.bready in
      record {
        bench = record {
          pins = record b.pins {
            awvalid = if aw_now then false else b.pins.awvalid;
            wvalid = if w_now then false else b.pins.wvalid;
          };
          state = b.state;
        };
        aw_done = if aw_now then true else v.aw_done;
        w_done = if w_now then true else v.w_done;
        b_done = if b_now then true else v.b_done;
        last_resp = if b_now then o.bresp else v.last_resp;
      }

  abbrev pub write_finished : WriteVars S → Bool
  write_finished v = v.aw_done && (v.w_done && v.b_done)

  unfoldable pub write_loop : ℕ → WriteVars S → WriteVars S
  write_loop zero v = v
  write_loop (suc left) v = elim (write_finished v) [
    | true ↦ v
    | false ↦ write_loop left (write_cycle v)
  ]

  abbrev pub write_start : ℕ → ℕ → ℕ → Bench S → Bench S
  write_start addr word strb b = record b {
    pins = record b.pins {
      awvalid = true;
      awaddr = addr;
      wvalid = true;
      wdata = word;
      wstrb = strb;
      bready = true;
    };
  }

  -- What follows the loop: `bready` goes down, and the three flags are the result.
  abbrev pub write_result : WriteVars S → Written S
  write_result v = record {
    bench = record v.bench { pins = record v.bench.pins { bready = false } };
    ok = write_finished v;
    last_resp = v.last_resp;
  }

  unfoldable pub write : ℕ → ℕ → ℕ → ℕ → ℕ → Bench S → Written S
  unfolding write_loop write_cycle
  write timeout addr word strb last_resp b = write_result (
      write_loop timeout (record {
        bench = write_start addr word strb b;
        aw_done = false;
        w_done = false;
        b_done = false;
        last_resp = last_resp;
      }))

  -- The body of the loop of `read`.
  unfoldable pub read_cycle : ReadVars S → ReadVars S
  unfolding clock
  read_cycle v =
      let b = clock v.bench in
      let o = d.outs b.pins b.state in
      let ar_now = not v.ar_done && o.arready in
      let r_now = o.rvalid && b.pins.rready in
      record {
        bench = record {
          pins = record b.pins { arvalid = if ar_now then false else b.pins.arvalid };
          state = b.state;
        };
        ar_done = if ar_now then true else v.ar_done;
        r_done = if r_now then true else v.r_done;
        out_data = if r_now then o.rdata else v.out_data;
        last_resp = if r_now then o.rresp else v.last_resp;
      }

  abbrev pub read_finished : ReadVars S → Bool
  read_finished v = v.ar_done && v.r_done

  unfoldable pub read_loop : ℕ → ReadVars S → ReadVars S
  read_loop zero v = v
  read_loop (suc left) v = elim (read_finished v) [
    | true ↦ v
    | false ↦ read_loop left (read_cycle v)
  ]

  abbrev pub read_start : ℕ → Bench S → Bench S
  read_start addr b = record b {
    pins = record b.pins { arvalid = true; araddr = addr; rready = true };
  }

  abbrev pub read_result : ReadVars S → Read S
  read_result v = record {
    bench = record v.bench { pins = record v.bench.pins { rready = false } };
    ok = read_finished v;
    out_data = v.out_data;
    last_resp = v.last_resp;
  }

  unfoldable pub read : ℕ → ℕ → ℕ → ℕ → Bench S → Read S
  unfolding read_loop read_cycle
  read timeout addr out_data last_resp b = read_result (
      read_loop timeout (record {
        bench = read_start addr b;
        ar_done = false;
        r_done = false;
        out_data = out_data;
        last_resp = last_resp;
      }))
