-- ===== src/Xbar/Window.antt =====
-- The reads that blocks/axi_lite_xbar/rtl/axi_lite_xbar.v answers itself.
use riscv_soc.Base.{ℕ, true, false, ◌||◌, ◌==◌, ◌≡◌, arith, if◌then◌else◌, test_bit}
use riscv_soc.Xbar.{Around, decode_addr, slave_err, slave_xbar_csr}
use riscv_soc.Xbar.{resp_okay, resp_decerr}
use riscv_soc.Xbar.Read.{
  ReadSide, r_edge, r_before, r_accept, r_cur, r_open, r_arb_s0, r_drive, r_answer, r_present,
  s0_rvalid, s1_rvalid,
}

-- Master 0 presents the address of a read at an open crossbar, and the address decodes to none of
-- the nine slaves. Three edges later master 0 sees RVALID and master 1 does not, whatever master 1
-- and the slaves do. Where the address is unmapped the word is 0 with DECERR and the address is
-- latched; in the diagnostic window the response is OKAY and the word is the last missed read address
-- or, where bit 2 of the address is 0, what the register of the last missed write address holds at
-- the third edge.
pub read_self_answered :
    (waddr1 waddr2 waddr3 : ℕ) (request second third : Around) (x : ReadSide)
    → r_open x ≡ true
    → x.s_rvalid ≡ false
    → request.s0.arvalid ≡ true
    → (decode_addr request.s0.araddr == slave_err
        || decode_addr request.s0.araddr == slave_xbar_csr)
      ≡ true
    → let addr = request.s0.araddr in
      let missed = decode_addr addr == slave_err in
      let latched = if test_bit addr 2 then x.last_decerr_raddr else waddr3 in
      let y = r_edge waddr3 third (r_edge waddr2 second (r_edge waddr1 request x)) in
      (s0_rvalid y ≡ true)
      × (s1_rvalid y ≡ false)
      × (y.s_rdata ≡ (if missed then 0 else latched))
      × (y.s_rresp ≡ (if missed then resp_decerr else resp_okay))
      × (y.last_decerr_raddr ≡ (if missed then addr else x.last_decerr_raddr))
unfolding r_edge r_before r_accept r_cur r_open r_arb_s0 r_drive r_answer r_present s0_rvalid
    s1_rvalid
read_self_answered waddr1 waddr2 waddr3 request second third x free low asks dec = ground arith
