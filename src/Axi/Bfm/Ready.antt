-- ===== src/Axi/Bfm/Ready.antt =====
-- `AxiLiteBfm` against an always-ready slave with a single-cycle turnaround.
use riscv_soc.Base.{ℕ, suc, true, false, ◌≡◌, refl, ap, ◌∙◌}
use riscv_soc.Axi.Bfm.Loop.{write_loop_of_finished, read_loop_of_finished}
use riscv_soc.Axi.Pins.{Pins, Dut, Bench}
use riscv_soc.Axi.Bfm.{
  WriteVars, ReadVars, write_loop, read_loop, write_cycle, read_cycle, write_result, read_result,
  write, read, write_start, read_start,
}

-- The contract of the slaves of this project: they take an address and a word at once and answer
-- after the same clock edge.
pub record IsReady {S : Type 0} (d : Dut S) : Type 0 where
  pub awready_on : (p : Pins) (s : S) → (d.outs p s).awready ≡ true
  pub wready_on : (p : Pins) (s : S) → (d.outs p s).wready ≡ true
  pub arready_on : (p : Pins) (s : S) → (d.outs p s).arready ≡ true
  pub answers_write :
      (p : Pins) (s : S)
      → p.resetn ≡ true
      → p.awvalid ≡ true
      → p.wvalid ≡ true
      → (d.outs p (d.step p s)).bvalid ≡ true
  pub answers_read :
      (p : Pins) (s : S)
      → p.resetn ≡ true
      → p.arvalid ≡ true
      → (d.outs p (d.step p s)).rvalid ≡ true

module _ {S : Type 0} (d : Dut S) where
  -- The design after the one edge of a write, and after that of a read.
  abbrev pub written_state : ℕ → ℕ → ℕ → Bench S → S
  written_state addr word strb b = d.step (write_start d addr word strb b).pins b.state

  abbrev pub read_state : ℕ → Bench S → S
  read_state addr b = d.step (read_start d addr b).pins b.state

  module _ (r : IsReady d) where
    write_vars : ℕ → ℕ → ℕ → ℕ → Bench S → WriteVars S
    write_vars addr word strb resp b = record {
      bench = write_start d addr word strb b;
      aw_done = false;
      w_done = false;
      b_done = false;
      last_resp = resp;
    }

    read_vars : ℕ → ℕ → ℕ → Bench S → ReadVars S
    read_vars addr word resp b = record {
      bench = read_start d addr b;
      ar_done = false;
      r_done = false;
      out_data = word;
      last_resp = resp;
    }

    write_cycle_once :
        (addr word strb resp : ℕ) (b : Bench S)
        → b.pins.resetn ≡ true
        → write_cycle d (write_vars addr word strb resp b) ≡ record {
          bench = record {
            pins = record b.pins {
              awvalid = false;
              awaddr = addr;
              wvalid = false;
              wdata = word;
              wstrb = strb;
              bready = true;
            };
            state = written_state addr word strb b;
          };
          aw_done = true;
          w_done = true;
          b_done = true;
          last_resp =
              (d.outs (write_start d addr word strb b).pins (written_state addr word strb b)).bresp;
        }
    unfolding write_cycle write_vars
    write_cycle_once addr word strb resp b out_of_reset =
        let p = (write_start d addr word strb b).pins in
        let s = written_state addr word strb b in
        rw (r.awready_on p s, r.wready_on p s, r.answers_write p b.state out_of_reset refl refl)
          refl

    read_cycle_once :
        (addr word resp : ℕ) (b : Bench S)
        → b.pins.resetn ≡ true
        → read_cycle d (read_vars addr word resp b) ≡ record {
          bench = record {
            pins = record b.pins { arvalid = false; araddr = addr; rready = true };
            state = read_state addr b;
          };
          ar_done = true;
          r_done = true;
          out_data = (d.outs (read_start d addr b).pins (read_state addr b)).rdata;
          last_resp = (d.outs (read_start d addr b).pins (read_state addr b)).rresp;
        }
    unfolding read_cycle read_vars
    read_cycle_once addr word resp b out_of_reset =
        let p = (read_start d addr b).pins in
        rw (r.arready_on p (read_state addr b), r.answers_read p b.state out_of_reset refl) refl

    -- A write to a ready slave out of reset takes exactly one clock edge, whatever the time limit
    -- is, reports success and the slave's response, and takes back its valid and ready signals.
    pub write_single :
        (n addr word strb resp : ℕ) (b : Bench S)
        → b.pins.resetn ≡ true
        → write d (suc n) addr word strb resp b ≡ record {
          bench = record {
            pins = record b.pins {
              awvalid = false;
              awaddr = addr;
              wvalid = false;
              wdata = word;
              wstrb = strb;
              bready = false;
            };
            state = written_state addr word strb b;
          };
          ok = true;
          last_resp =
              (d.outs (write_start d addr word strb b).pins (written_state addr word strb b)).bresp;
        }
    unfolding write write_loop write_vars
    write_single n addr word strb resp b out_of_reset = ap (write_result d) (
        ap (write_loop d n) (write_cycle_once addr word strb resp b out_of_reset)
        ∙ write_loop_of_finished d n _ refl)

    -- A read of a ready slave out of reset takes exactly one clock edge, reports success, and
    -- delivers the word and the response that the slave shows after that edge.
    pub read_single :
        (n addr word resp : ℕ) (b : Bench S)
        → b.pins.resetn ≡ true
        → read d (suc n) addr word resp b ≡ record {
          bench = record {
            pins = record b.pins { arvalid = false; araddr = addr; rready = false };
            state = read_state addr b;
          };
          ok = true;
          out_data = (d.outs (read_start d addr b).pins (read_state addr b)).rdata;
          last_resp = (d.outs (read_start d addr b).pins (read_state addr b)).rresp;
        }
    unfolding read read_loop read_vars
    read_single n addr word resp b out_of_reset = ap (read_result d) (
        ap (read_loop d n) (read_cycle_once addr word resp b out_of_reset)
        ∙ read_loop_of_finished d n _ refl)
