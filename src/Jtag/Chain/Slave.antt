-- ===== src/Jtag/Chain/Slave.antt =====
-- tb/common/fake_axi_lite_slave.v: a memory of sixteen words that answers on the next edge. Its
-- response is always OKAY, and it ignores the write strobes.
use riscv_soc.Base.{ℕ, Bool, true, false, ◌&&◌, ◌==◌, if◌then◌else◌, [], ◌∷◌}
use riscv_soc.Base.{Bits, to_number}

pub record Slave : Type 0 where
  pub mem : ℕ → Bits
  pub s_bvalid : Bool
  pub s_rvalid : Bool
  pub s_rdata : Bits

-- The inputs of the slave that it reads.
pub record SlaveIn : Type 0 where
  pub s_awvalid : Bool
  pub s_awaddr : Bits
  pub s_wvalid : Bool
  pub s_wdata : Bits
  pub s_arvalid : Bool
  pub s_araddr : Bits

-- The two responses, and the three ready outputs.
abbrev pub s_resp : ℕ
s_resp = 0

abbrev pub s_ready : Bool
s_ready = true

-- `addr[5:2]`.
unfoldable pub word_of : Bits → ℕ
word_of (b0 ∷ b1 ∷ b2 ∷ b3 ∷ b4 ∷ b5 ∷ bs) = to_number (b2 ∷ b3 ∷ b4 ∷ b5 ∷ [])
word_of bs = 0

unfoldable pub store : ℕ → Bits → (ℕ → Bits) → ℕ → Bits
store i word mem j = if j == i then word else mem j

unfoldable pub slave_edge : Bool → SlaveIn → Slave → Slave
unfolding word_of store
slave_edge resetn p s =
    if resetn
    then record {
      mem = if p.s_awvalid && p.s_wvalid then store (word_of p.s_awaddr) p.s_wdata s.mem else s.mem;
      s_bvalid = p.s_awvalid && p.s_wvalid;
      s_rvalid = p.s_arvalid;
      s_rdata = if p.s_arvalid then s.mem (word_of p.s_araddr) else s.s_rdata;
    }
    else record s { s_bvalid = false; s_rvalid = false }
