-- ===== src/Uart/Capture/Frame.antt =====
-- The bytes sent and the bytes decoded from the serial line.
use riscv_soc.Base.{
  ℕ, ◌%◌, ◌^◌, ◌<◌, true, false, ◌==◌, if◌then◌else◌, bit_or, test_bit, ◌≡◌, refl, sym, ◌∙◌, List,
  [], ◌∷◌, all_below, all_equal,
}
use mathlib.Core.Path.{subst, ap₂}
use riscv_soc.Axi.Pins.{Bench, IsIdle}
use riscv_soc.Axi.Bfm.{write}
use riscv_soc.Uart.{Uart, tx_idle, dut, step}
use riscv_soc.Uart.Capture.{clocks, capture_byte}

-- Nothing is being sent or about to be sent, and the line is high.
pub record IsQuiet (b : Bench Uart) : Type 0 where
  pub pins_idle : IsIdle b.pins
  pub not_sending : b.state.tx_state ≡ tx_idle
  pub not_starting : b.state.do_start_tx ≡ false
  pub line_high : b.state.tx ≡ true

-- The byte that the decoder collects from the eight levels of the data bits.
abbrev or_bit : ℕ → ℕ → ℕ → ℕ
or_bit w i byte = if test_bit w i then bit_or byte (2 ^ i) else byte

abbrev collect : ℕ → ℕ
collect w =
    or_bit w 7
      (or_bit w 6 (or_bit w 5 (or_bit w 4 (or_bit w 3 (or_bit w 2 (or_bit w 1 (or_bit w 0 0)))))))

collect_table : all_below 256 (λ w. collect (w % 256) == w) ≡ true
unfolding all_below
collect_table = refl

-- A quiet bench, field by field.
abbrev quiet_form : Bench Uart → Bench Uart
quiet_form b = record {
  pins = record b.pins { resetn = true; awvalid = false; wvalid = false; arvalid = false };
  state = record b.state { tx_state = tx_idle; do_start_tx = false; tx = true };
}

quiet_form-eq : (b : Bench Uart) → IsQuiet b → quiet_form b ≡ b
quiet_form-eq b q = λ i. record {
  pins = record b.pins {
    resetn = sym q.pins_idle.out_of_reset i;
    awvalid = sym q.pins_idle.awvalid_low i;
    wvalid = sym q.pins_idle.wvalid_low i;
    arvalid = sym q.pins_idle.arvalid_low i;
  };
  state = record b.state {
    tx_state = sym q.not_sending i;
    do_start_tx = sym q.not_starting i;
    tx = sym q.line_high i;
  };
}

abbrev Decodes : ℕ → ℕ → Bench Uart → Type 0
Decodes word resp b =
    let c = capture_byte 200 (write dut 200 0x0 word 0xF resp b).bench in
    (c.byte ≡ collect (word % 256)) × (c.stop_ok ≡ true) × IsQuiet (clocks 3 c.bench)

quiet_form-Decodes : (word resp : ℕ) (b : Bench Uart) → Decodes word resp (quiet_form b)
unfolding capture_byte write step
quiet_form-Decodes word resp b = (
  refl,
  refl,
  record {
    pins_idle = record {
      out_of_reset = refl;
      awvalid_low = refl;
      wvalid_low = refl;
      arvalid_low = refl;
    };
    not_sending = refl;
    not_starting = refl;
    line_high = refl;
  },
)

-- From a quiet bench, a byte that is written to TXDATA is what `capture_byte` decodes from the
-- serial line, with a high stop bit, and three clocks later the bench is quiet again.
pub capture-write :
    (word resp : ℕ) (b : Bench Uart)
    → IsQuiet b
    → word < 256
    → let c = capture_byte 200 (write dut 200 0x0 word 0xF resp b).bench in
      (c.byte ≡ word) × (c.stop_ok ≡ true) × IsQuiet (clocks 3 c.bench)
capture-write word resp b q h =
    let (byte, stop, after) =
      subst (Decodes word resp) (quiet_form-eq b q) (quiet_form-Decodes word resp b) in
    (byte ∙ all_equal 256 (λ w. collect (w % 256)) (λ w. w) word collect_table h, stop, after)

-- Each byte of a message is written, captured and given three clocks to settle.
pub receive : List ℕ → ℕ → Bench Uart → List ℕ
receive [] resp b = []
receive (w ∷ ws) resp b =
    let c = capture_byte 200 (write dut 200 0x0 w 0xF resp b).bench in
    c.byte ∷ receive ws resp (clocks 3 c.bench)

abbrev pub AllBytes : List ℕ → Type 0
AllBytes [] = Unit {0}
AllBytes (w ∷ ws) = (w < 256) × AllBytes ws

-- From a quiet bench, a message of bytes, of any length, arrives unchanged if it is sent byte by byte
-- in this way: the byte is written to TXDATA, `capture_byte` decodes the serial line until the middle
-- of the stop bit, and three more clocks pass before the next write.
pub receive_all :
    (ws : List ℕ) (resp : ℕ) (b : Bench Uart) → IsQuiet b → AllBytes ws → receive ws resp b ≡ ws
unfolding receive
receive_all [] resp b q h = refl
receive_all (w ∷ ws) resp b q h =
    let (byte, stop, after) = capture-write w resp b q h.0 in
    ap₂ ◌∷◌ byte (receive_all ws resp _ after h.1)

abbrev DecodesFirst : ℕ → ℕ → ℕ → Bench Uart → Type 0
DecodesFirst first second resp b =
    let w = write dut 200 0x0 first 0xF resp b in
    let v = write dut 200 0x0 second 0xF w.last_resp w.bench in
    let c = capture_byte 200 v.bench in
    (v.ok ≡ true)
    × (c.byte ≡ collect (first % 256))
    × (c.stop_ok ≡ true)
    × IsQuiet (clocks 3 c.bench)

quiet_form-DecodesFirst :
    (first second resp : ℕ) (b : Bench Uart) → DecodesFirst first second resp (quiet_form b)
unfolding capture_byte write step
quiet_form-DecodesFirst first second resp b = (
  refl,
  refl,
  refl,
  record {
    pins_idle = record {
      out_of_reset = refl;
      awvalid_low = refl;
      wvalid_low = refl;
      arvalid_low = refl;
    };
    not_sending = refl;
    not_starting = refl;
    line_high = refl;
  },
)

-- A second write that follows the first at once is answered like any other, but it is dropped: the
-- line carries the first byte, and then falls quiet.
pub second_write_dropped :
    (first second resp : ℕ) (b : Bench Uart)
    → IsQuiet b
    → first < 256
    → let w = write dut 200 0x0 first 0xF resp b in
      let v = write dut 200 0x0 second 0xF w.last_resp w.bench in
      let c = capture_byte 200 v.bench in
      (v.ok ≡ true) × (c.byte ≡ first) × (c.stop_ok ≡ true) × IsQuiet (clocks 3 c.bench)
second_write_dropped first second resp b q h =
    let (ok, byte, stop, after) =
      subst (DecodesFirst first second resp) (quiet_form-eq b q)
        (quiet_form-DecodesFirst first second resp b) in
    (ok, byte ∙ all_equal 256 (λ w. collect (w % 256)) (λ w. w) first collect_table h, stop, after)
