-- ===== src/Jtag/Chain/Main.antt =====
-- The checks of dv/jtag_chain_sim_main.cpp and dv/jtag_chain_fast_tck_sim_main.cpp.
use riscv_soc.Base.{ℕ, zero, suc, ◌-◌, true, false, not, ◌==◌, ltb, test_bit}
use riscv_soc.Base.{if◌then◌else◌}
use riscv_soc.Harness.{◌>>=◌, ◌>>◌}
use riscv_soc.Jtag.Chain.Dtm.{ir_idcode, ir_axi_addr, ir_axi_data, ir_axi_ctrl, ir_bypass}
use riscv_soc.Jtag.Chain.Top.{Chain, set_tck, clk_step}
use riscv_soc.Jtag.Chain.Scan.{Sim, Run, check, tap_edge, ir_scan, dr_scan32}
use riscv_soc.Jtag.Chain.Scan.{slow_pace, fast_pace}

-- The locals `status` and `spins` after a polling loop.
pub record Polled : Type 0 where
  pub status : ℕ
  pub spins : ℕ

-- The reset of both domains: four half periods of `tck`, each with a period of `clk`.
unfoldable pub reset_halves : ℕ → Chain → Chain
unfolding set_tck clk_step
reset_halves zero c = c
reset_halves (suc n) c = reset_halves n (clk_step (clk_step (set_tck (not c.tck) c)))

unfoldable pub reset_domains : Chain → Chain
unfolding reset_halves set_tck
reset_domains c =
    let d = record c { resetn = false; tck_resetn = false; tms = true } in
    record (reset_halves 4 (set_tck false d)) { resetn = true; tck_resetn = true }

unfoldable pub reset_both : Run (Unit {0})
unfolding reset_domains
reset_both s = (tt, record s { chain = reset_domains s.chain })

module _ (pace : Sim → Sim) (limit : ℕ) where
  -- `do { status = dr_scan32(0); spins++; } while ((status & 0x1) && spins < limit)`, after `spins`
  -- rounds, when `left` rounds may follow the next one.
  unfoldable pub poll : ℕ → ℕ → Run Polled
  unfolding dr_scan32
  poll zero spins s =
      let (status, t) = dr_scan32 pace 0 s in (record { status = status; spins = suc spins }, t)
  poll (suc left) spins s =
      let (status, t) = dr_scan32 pace 0 s in
      elim (test_bit status 0) [
        | true ↦ poll left (suc spins) t
        | false ↦ (record { status = status; spins = suc spins }, t)
      ]

  -- The poll of the CTRL register, and the two checks of its outcome.
  unfoldable pub await_bridge : Run (Unit {0})
  unfolding poll check
  await_bridge =
      poll (limit - 1) 0 >>= λ p. check (ltb p.spins limit) >> check (test_bit p.status 1)

  unfoldable pub axi_write : ℕ → ℕ → Run (Unit {0})
  unfolding ir_scan dr_scan32 await_bridge
  axi_write addr word =
      ir_scan pace ir_axi_addr
      >> dr_scan32 pace addr
      >> ir_scan pace ir_axi_data
      >> dr_scan32 pace word
      >> ir_scan pace ir_axi_ctrl
      >> dr_scan32 pace 0x1
      >> await_bridge

  unfoldable pub axi_read : ℕ → Run ℕ
  unfolding ir_scan dr_scan32 await_bridge
  axi_read addr =
      ir_scan pace ir_axi_addr
      >> dr_scan32 pace addr
      >> ir_scan pace ir_axi_ctrl
      >> dr_scan32 pace 0x3
      >> await_bridge
      >> ir_scan pace ir_axi_data
      >> dr_scan32 pace 0

  -- `rd = axi_read(addr); check(rd == word)`.
  unfoldable pub read_check : ℕ → ℕ → Run (Unit {0})
  unfolding axi_read check
  read_check addr word = axi_read addr >>= λ rd. check (rd == word)

  -- Reset and the check of IDCODE.
  unfoldable pub identify : Run (Unit {0})
  unfolding reset_both tap_edge ir_scan dr_scan32 check
  identify =
      reset_both
      >> tap_edge pace false false
      >> ir_scan pace ir_idcode
      >> dr_scan32 pace 0
      >>= λ idcode. check (test_bit idcode 0)

  -- Two words, and the first again.
  unfoldable pub two_words : Run (Unit {0})
  unfolding axi_write read_check
  two_words =
      axi_write 0x4 0xCAFE_F00D
      >> read_check 0x4 0xCAFE_F00D
      >> axi_write 0x8 0x1234_5678
      >> read_check 0x8 0x1234_5678
      >> read_check 0x4 0xCAFE_F00D

  -- The third word, of the slow test bench only: `~0xCAFEF00Du`.
  unfoldable pub third_word : Run (Unit {0})
  unfolding axi_write read_check
  third_word = axi_write 0x3C 0x3501_0FF2 >> read_check 0x3C 0x3501_0FF2

  -- BYPASS.
  unfoldable pub bypass : Run (Unit {0})
  unfolding tap_edge ir_scan check
  bypass =
      ir_scan pace ir_bypass
      >> tap_edge pace true false
      >> tap_edge pace false false
      >> tap_edge pace false false
      >> tap_edge pace false true
      >>= λ tdo1. tap_edge pace true false >>= λ tdo2.
          tap_edge pace true false >> tap_edge pace false false >> check (not tdo1) >> check tdo2

-- The locals when `main` begins.
abbrev pub power_on : Chain → Sim
power_on c = record { chain = c; tck_half_counter = 0; fail_count = 0 }

abbrev exit_status : (Unit {0}) × Sim → ℕ
exit_status r = if r.1.fail_count == 0 then 0 else 1

-- `main` of dv/jtag_chain_sim_main.cpp, from a power-on state of the design.
unfoldable pub slow_main : Chain → ℕ
unfolding identify two_words third_word bypass slow_pace
slow_main c = exit_status (
    (identify slow_pace 50
        >> two_words slow_pace 50
        >> third_word slow_pace 50
        >> bypass slow_pace 50)
      (power_on c))

-- `main` of dv/jtag_chain_fast_tck_sim_main.cpp.
unfoldable pub fast_main : Chain → ℕ
unfolding identify two_words bypass fast_pace
fast_main c =
    exit_status
      ((identify fast_pace 200 >> two_words fast_pace 200 >> bypass fast_pace 200) (power_on c))
