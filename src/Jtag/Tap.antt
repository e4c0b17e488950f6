-- ===== src/Jtag/Tap.antt =====
-- The IEEE 1149.1 controller: `model_next` of blocks/jtag/dv/tap_sim_main.cpp beside
-- blocks/jtag/rtl/jtag_tap.v, whose register is a number below 16.
pub mod Reset
pub mod Main
use riscv_soc.Base.{ℕ, Bool, true, false, ◌==◌, if◌then◌else◌}

abbrev pub test_logic_reset : ℕ
test_logic_reset = 0

abbrev pub run_test_idle : ℕ
run_test_idle = 1

abbrev pub select_dr_scan : ℕ
select_dr_scan = 2

abbrev pub capture_dr : ℕ
capture_dr = 3

abbrev pub shift_dr : ℕ
shift_dr = 4

abbrev pub exit1_dr : ℕ
exit1_dr = 5

abbrev pub pause_dr : ℕ
pause_dr = 6

abbrev pub exit2_dr : ℕ
exit2_dr = 7

abbrev pub update_dr : ℕ
update_dr = 8

abbrev pub select_ir_scan : ℕ
select_ir_scan = 9

abbrev pub capture_ir : ℕ
capture_ir = 10

abbrev pub shift_ir : ℕ
shift_ir = 11

abbrev pub exit1_ir : ℕ
exit1_ir = 12

abbrev pub pause_ir : ℕ
pause_ir = 13

abbrev pub exit2_ir : ℕ
exit2_ir = 14

abbrev pub update_ir : ℕ
update_ir = 15

-- The software model: `switch (cur)`, each case of which tests `tms`.
unfoldable pub model_next : ℕ → Bool → ℕ
model_next cur tms =
    if cur == test_logic_reset
    then (if tms then test_logic_reset else run_test_idle)
    else if cur == run_test_idle
    then (if tms then select_dr_scan else run_test_idle)
    else if cur == select_dr_scan
    then (if tms then select_ir_scan else capture_dr)
    else if cur == capture_dr
    then (if tms then exit1_dr else shift_dr)
    else if cur == shift_dr
    then (if tms then exit1_dr else shift_dr)
    else if cur == exit1_dr
    then (if tms then update_dr else pause_dr)
    else if cur == pause_dr
    then (if tms then exit2_dr else pause_dr)
    else if cur == exit2_dr
    then (if tms then update_dr else shift_dr)
    else if cur == update_dr
    then (if tms then select_dr_scan else run_test_idle)
    else if cur == select_ir_scan
    then (if tms then test_logic_reset else capture_ir)
    else if cur == capture_ir
    then (if tms then exit1_ir else shift_ir)
    else if cur == shift_ir
    then (if tms then exit1_ir else shift_ir)
    else if cur == exit1_ir
    then (if tms then update_ir else pause_ir)
    else if cur == pause_ir
    then (if tms then exit2_ir else pause_ir)
    else if cur == exit2_ir
    then (if tms then update_ir else shift_ir)
    else if cur == update_ir
    then (if tms then select_dr_scan else run_test_idle)
    else test_logic_reset

-- The function `next_state` of the design.
unfoldable pub next_state : ℕ → Bool → ℕ
next_state cur tms_in =
    if cur == test_logic_reset
    then (if tms_in then test_logic_reset else run_test_idle)
    else if cur == run_test_idle
    then (if tms_in then select_dr_scan else run_test_idle)
    else if cur == select_dr_scan
    then (if tms_in then select_ir_scan else capture_dr)
    else if cur == capture_dr
    then (if tms_in then exit1_dr else shift_dr)
    else if cur == shift_dr
    then (if tms_in then exit1_dr else shift_dr)
    else if cur == exit1_dr
    then (if tms_in then update_dr else pause_dr)
    else if cur == pause_dr
    then (if tms_in then exit2_dr else pause_dr)
    else if cur == exit2_dr
    then (if tms_in then update_dr else shift_dr)
    else if cur == update_dr
    then (if tms_in then select_dr_scan else run_test_idle)
    else if cur == select_ir_scan
    then (if tms_in then test_logic_reset else capture_ir)
    else if cur == capture_ir
    then (if tms_in then exit1_ir else shift_ir)
    else if cur == shift_ir
    then (if tms_in then exit1_ir else shift_ir)
    else if cur == exit1_ir
    then (if tms_in then update_ir else pause_ir)
    else if cur == pause_ir
    then (if tms_in then exit2_ir else pause_ir)
    else if cur == exit2_ir
    then (if tms_in then update_ir else shift_ir)
    else if cur == update_ir
    then (if tms_in then select_dr_scan else run_test_idle)
    else test_logic_reset

-- The pins of the design, its register and its clock: `state_r` after a rising edge of `tck`.
pub record Tap : Type 0 where
  pub resetn : Bool
  pub tms : Bool
  pub state_r : ℕ

unfoldable pub posedge : Tap → Tap
unfolding next_state
posedge d = record d { state_r = if d.resetn then next_state d.state_r d.tms else test_logic_reset }
