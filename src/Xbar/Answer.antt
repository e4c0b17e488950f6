-- ===== src/Xbar/Answer.antt =====
-- One write through blocks/axi_lite_xbar/rtl/axi_lite_xbar.v from its request to its response.
use riscv_soc.Base.{ℕ, Bool, true, false, ◌||◌, ◌==◌, ◌≡◌, ◌≢◌, refl, arith}
use riscv_soc.Base.{List, [], ◌∷◌, ◌++◌, if◌then◌else◌}
use mathlib.Core.Path.{subst}
use riscv_soc.Axi.Pins.{Pins, Outs}
use riscv_soc.Xbar.{Around, select, decode_addr, no_slave, slave_err, slave_xbar_csr, resp_decerr}
use riscv_soc.Xbar.{resp_slverr}
use riscv_soc.Xbar.Write.{
  WState, w_issue, w_wait_b, w_resp, WriteSide, w_edge, w_before, w_accept, w_cur, w_open, w_arb_s0,
  w_drive, w_collect, w_present, s0_bvalid, s1_bvalid,
}

-- Edges one after the other.
abbrev pub w_run : List Around → WriteSide → WriteSide
w_run [] x = x
w_run (a ∷ rest) x = w_run rest (w_edge a x)

w_run-append :
    (first rest : List Around) (x : WriteSide)
    → w_run (first ++ rest) x ≡ w_run rest (w_run first x)
w_run-append [] rest x = refl
w_run-append (a ∷ first) rest x = w_run-append first rest (w_edge a x)

abbrev pub All {ℓ} : (Around → Type ℓ) → List Around → Type ℓ
All P [] = Unit
All P (a ∷ rest) = P a × All P rest

-- The transaction is in state `st` for slave `sel`, and the grant is master 0's or not.
abbrev pub At : WState → ℕ → Bool → WriteSide → Type 0
At st sel grant x = (x.w_state ≡ st) × (x.w_sel ≡ sel) × (x.w_grant ≡ grant) × (x.s_bvalid ≡ false)

abbrev Fresh : WriteSide → Type 0
Fresh x = (x.w_issued_aw ≡ false) × (x.w_issued_w ≡ false)

abbrev pub slave_of : ℕ → Around → Outs
slave_of sel a = select sel a.slaves no_slave

-- Both channels of a request are presented at an open crossbar.
abbrev pub Requests : Pins → Type 0
Requests p = (p.awvalid ≡ true) × (p.wvalid ≡ true)

-- The selected slave takes neither the address nor the data.
abbrev pub NotReady : ℕ → Around → Type 0
NotReady sel a = ((slave_of sel a).awready ≡ false) × ((slave_of sel a).wready ≡ false)

abbrev pub Ready : ℕ → Around → Type 0
Ready sel a = ((slave_of sel a).awready ≡ true) × ((slave_of sel a).wready ≡ true)

abbrev pub Silent : ℕ → Around → Type 0
Silent sel a = (slave_of sel a).bvalid ≡ false

-- The number of a slave that the crossbar does not answer for.
abbrev pub IsReal : ℕ → Type 0
IsReal sel = (sel ≢ slave_err) × (sel ≢ slave_xbar_csr)

accept_At :
    (a : Around) (x : WriteSide)
    → w_open x ≡ true
    → x.s_bvalid ≡ false
    → Requests a.s0
    → At w_issue (decode_addr a.s0.awaddr) true (w_edge a x) × Fresh (w_edge a x)
unfolding w_edge w_before w_accept w_cur w_open w_arb_s0
accept_At a x h b r = ground arith

stall_At :
    (sel : ℕ) (grant : Bool) (a : Around) (x : WriteSide)
    → IsReal sel
    → NotReady sel a
    → At w_issue sel grant x × Fresh x
    → At w_issue sel grant (w_edge a x) × Fresh (w_edge a x)
unfolding w_edge w_before w_drive w_open
stall_At sel grant a x real n h = ground arith

issue_At :
    (sel : ℕ) (grant : Bool) (a : Around) (x : WriteSide)
    → IsReal sel
    → Ready sel a
    → At w_issue sel grant x
    → At w_wait_b sel grant (w_edge a x)
unfolding w_edge w_before w_drive w_open
issue_At sel grant a x real n h = ground arith

wait_At :
    (sel : ℕ) (grant : Bool) (a : Around) (x : WriteSide)
    → Silent sel a
    → At w_wait_b sel grant x
    → At w_wait_b sel grant (w_edge a x)
unfolding w_edge w_before w_collect w_open
wait_At sel grant a x n h = ground arith

collect_At :
    (sel : ℕ) (grant : Bool) (a : Around) (x : WriteSide)
    → (slave_of sel a).bvalid ≡ true
    → At w_wait_b sel grant x
    → At w_resp sel grant (w_edge a x) × ((w_edge a x).s_bresp ≡ (slave_of sel a).bresp)
unfolding w_edge w_before w_collect w_open
collect_At sel grant a x n h = ground arith

-- The response that the crossbar presents, given what it has collected.
abbrev pub shown_resp : ℕ → ℕ → ℕ
shown_resp sel collected =
    if sel == slave_err
    then resp_decerr
    else if sel == slave_xbar_csr
    then resp_slverr
    else collected

present_At :
    (sel : ℕ) (grant : Bool) (a : Around) (x : WriteSide)
    → At w_resp sel grant x
    → let y = w_edge a x in
      (y.w_grant ≡ grant) × (y.s_bvalid ≡ true) × (y.s_bresp ≡ shown_resp sel x.s_bresp)
unfolding w_edge w_before w_present w_open
present_At sel grant a x h = ground arith

shown_to_s0 :
    (sel resp : ℕ) (a : Around) (x : WriteSide)
    → IsReal sel
    → At w_resp sel true x
    → x.s_bresp ≡ resp
    → let y = w_edge a x in (s0_bvalid y ≡ true) × (s1_bvalid y ≡ false) × (y.s_bresp ≡ resp)
unfolding s0_bvalid s1_bvalid
shown_to_s0 sel resp a x real h e = let p = present_At sel true a x h in ground arith

stalls_At :
    (sel : ℕ) (grant : Bool) (stalls : List Around) (x : WriteSide)
    → IsReal sel
    → All (NotReady sel) stalls
    → At w_issue sel grant x × Fresh x
    → At w_issue sel grant (w_run stalls x) × Fresh (w_run stalls x)
stalls_At sel grant [] x real n h = h
stalls_At sel grant (a ∷ stalls) x real n h =
    stalls_At sel grant stalls (w_edge a x) real n.1 (stall_At sel grant a x real n.0 h)

waits_At :
    (sel : ℕ) (grant : Bool) (waits : List Around) (x : WriteSide)
    → All (Silent sel) waits
    → At w_wait_b sel grant x
    → At w_wait_b sel grant (w_run waits x)
waits_At sel grant [] x n h = h
waits_At sel grant (a ∷ waits) x n h =
    waits_At sel grant waits (w_edge a x) n.1 (wait_At sel grant a x n.0 h)

-- The edges from the request of master 0 to the response.
abbrev pub exchange : Around → List Around → Around → List Around → Around → Around → List Around
exchange request stalls ready waits answer last =
    request ∷ (stalls ++ (ready ∷ (waits ++ (answer ∷ last ∷ []))))

-- Master 0 presents the address and the data of a write at an open crossbar, and the address
-- decodes to a slave. The slave is not ready for any number of edges, then it is, then it gives no
-- response for any number of edges, then it does. Whatever master 1 asks for at each of these edges, at
-- the edge after the one that takes the response master 0 sees BVALID with it, and master 1 sees
-- no BVALID.
pub write_answered :
    (sel : ℕ) (request : Around) (stalls : List Around) (ready : Around) (waits : List Around)
    (answer last : Around) (x : WriteSide)
    → w_open x ≡ true
    → x.s_bvalid ≡ false
    → Requests request.s0
    → decode_addr request.s0.awaddr ≡ sel
    → IsReal sel
    → All (NotReady sel) stalls
    → Ready sel ready
    → All (Silent sel) waits
    → (slave_of sel answer).bvalid ≡ true
    → let y = w_run (exchange request stalls ready waits answer last) x in
      (s0_bvalid y ≡ true) × (s1_bvalid y ≡ false) × (y.s_bresp ≡ (slave_of sel answer).bresp)
unfolding s0_bvalid s1_bvalid
write_answered sel request stalls ready waits answer last x free low asks dec real ns rd ws bv =
    let x1 = w_edge request x in
    let x2 = w_run stalls x1 in
    let x3 = w_edge ready x2 in
    let x4 = w_run waits x3 in
    let h1 = subst (λ k. At w_issue k true x1 × Fresh x1) dec (accept_At request x free low asks) in
    let h2 = stalls_At sel true stalls x1 real ns h1 in
    let h4 = waits_At sel true waits x3 ws (issue_At sel true ready x2 real rd h2.0) in
    let h5 = collect_At sel true answer x4 bv h4 in
    rw w_run-append (
      rw w_run-append
        (shown_to_s0 sel (slave_of sel answer).bresp last (w_edge answer x4) real h5.0 h5.1))

-- Master 0 presents the address and the data of a write at an open crossbar, and the address
-- decodes to none of the nine slaves. Three edges later master 0 sees BVALID, whatever master 1 and
-- the slaves do: with DECERR where the address is unmapped, with SLVERR in the diagnostic window. The
-- interrupt pulses at the first of the three edges only, and only where the address is unmapped,
-- which is then latched.
pub write_refused :
    (request second third : Around) (x : WriteSide)
    → w_open x ≡ true
    → x.s_bvalid ≡ false
    → Requests request.s0
    → (decode_addr request.s0.awaddr == slave_err
        || decode_addr request.s0.awaddr == slave_xbar_csr)
      ≡ true
    → let addr = request.s0.awaddr in
      let missed = decode_addr addr == slave_err in
      let x1 = w_edge request x in
      let x2 = w_edge second x1 in
      let x3 = w_edge third x2 in
      (s0_bvalid x3 ≡ true)
      × (x3.s_bresp ≡ (if missed then resp_decerr else resp_slverr))
      × (x1.decerr_irq_w ≡ missed)
      × (x2.decerr_irq_w ≡ false)
      × (x3.decerr_irq_w ≡ false)
      × (x3.last_decerr_waddr ≡ (if missed then addr else x.last_decerr_waddr))
unfolding w_edge w_before w_accept w_cur w_open w_arb_s0 w_drive w_present s0_bvalid
write_refused request second third x free low asks dec = ground arith
