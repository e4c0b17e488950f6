-- ===== src/Dma/Bench.antt =====
-- The locals and lambdas of `main` of blocks/dma/dv/dma_engine_sim_main.cpp. A pin of the test port
-- that the bench has moved reaches the outputs at the next `eval` only, so the outputs that it reads
-- are those of the last one.
use riscv_soc.Base.{ℕ, zero, suc, ◌+◌, ◌*◌, ◌-◌, Bool, true, false, ◌&&◌, ◌==◌, bit, test_bit}
use riscv_soc.Base.{List, [], ◌∷◌, length, get_or}
use riscv_soc.Axi.Pins.{Pins, Outs, Dut}
use riscv_soc.Harness.{Sim, Test, ◌>>=◌, ◌>>◌, write, read, tick}
use riscv_soc.DmaRam.{RamPins}
use riscv_soc.Aes.Ref.{Block, column_word}
use riscv_soc.Dma.Top.{Top, TestOuts, top_step, test_outs}

-- The design, with the levels of the test port's pins and its outputs at the last `eval`.
pub record Side : Type 0 where
  pub test : RamPins
  pub top : Top
  pub seen : TestOuts

unfoldable pub side_step : Pins → Side → Side
unfolding top_step test_outs
side_step p s = let t = top_step p s.test s.top in record s { top = t; seen = test_outs s.test t }

-- The outputs of the control port depend on no pin.
unfoldable pub side_outs : Pins → Side → Outs
side_outs p s = record {
  awready = true;
  wready = true;
  bvalid = s.top.engine.s_bvalid;
  bresp = s.top.engine.s_bresp;
  arready = true;
  rvalid = s.top.engine.s_rvalid;
  rdata = s.top.engine.s_rdata;
  rresp = s.top.engine.s_rresp;
}

abbrev pub dut : Dut Side
dut = record { step = side_step; outs = side_outs }

abbrev pub DmaSim : Type 0
DmaSim = Sim Side (Unit {0})

abbrev pub DmaTest : Type 0 → Type 0
DmaTest A = Test Side (Unit {0}) A

abbrev pub done : DmaTest (Unit {0})
done s = (tt, s)

-- The lambda `clock`.
unfoldable pub clock : DmaSim → DmaSim
unfolding tick
clock s = (tick dut s).1

-- An assignment to pins of the test port.
abbrev pub drive : (RamPins → RamPins) → DmaSim → DmaSim
drive f s =
    let side = s.bench.state in
    record s { bench = record s.bench { state = record side { test = f side.test } } }

-- `while (!cond && timeout < …) { clock(); timeout++; }` with `left` turns to go.
unfoldable pub await : ℕ → (Side → Bool) → DmaSim → DmaSim
unfolding clock
await zero cond s = s
await (suc left) cond s = elim (cond s.bench.state) [ true ↦ s | false ↦ await left cond (clock s) ]

abbrev pub address_taken : Side → Bool
address_taken s = s.test.awvalid && s.seen.ram_awready

abbrev pub word_taken : Side → Bool
word_taken s = s.test.wvalid && s.seen.ram_wready

abbrev pub read_taken : Side → Bool
read_taken s = s.test.arvalid && s.seen.ram_arready

-- The loop over the words, the last of which goes with `ram_wlast`.
unfoldable pub send_words : List ℕ → DmaSim → DmaSim
unfolding await clock
send_words [] s = s
send_words (word ∷ words) s =
    let s1 =
      drive (λ q. record q { wvalid = true; wdata = word; wstrb = 0xF; wlast = length words == 0 })
        s in
    send_words words (clock (await 50 word_taken s1))

-- The lambda `ram_write_burst`.
unfoldable pub ram_write_burst : ℕ → List ℕ → DmaTest (Unit {0})
unfolding await clock send_words
ram_write_burst addr words s =
    let s1 = drive (λ q. record q { awvalid = true; awaddr = addr; awlen = length words - 1 }) s in
    let s2 = drive (λ q. record q { awvalid = false }) (clock (await 50 address_taken s1)) in
    let s3 = drive (λ q. record q { wvalid = false; bready = true }) (send_words words s2) in
    let s4 = clock (await 50 (λ d. d.seen.ram_bvalid) s3) in
    (tt, drive (λ q. record q { bready = false }) s4)

-- `while (!last_seen && timeout < 500)` with `left` turns to go, and the words from then on.
unfoldable pub receive_words : ℕ → DmaSim → List ℕ × DmaSim
unfolding clock
receive_words zero s = ([], s)
receive_words (suc left) s =
    let d = s.bench.state.seen in
    let t = clock s in
    elim d.ram_rvalid [
      | false ↦ receive_words left t
      | true ↦ elim d.ram_rlast [
        | true ↦ (d.ram_rdata ∷ [], t)
        | false ↦ let rest = receive_words left t in (d.ram_rdata ∷ rest.0, rest.1)
      ]
    ]

-- The lambda `ram_read_burst`.
unfoldable pub ram_read_burst : ℕ → ℕ → DmaTest (List ℕ)
unfolding await clock receive_words
ram_read_burst addr n_beats s =
    let s1 = drive (λ q. record q { arvalid = true; araddr = addr; arlen = n_beats - 1 }) s in
    let s2 =
      drive (λ q. record q { arvalid = false; rready = true }) (clock (await 50 read_taken s1)) in
    let r = receive_words 500 s2 in (r.0, drive (λ q. record q { rready = false }) r.1)

unfoldable pub write_block_to_ram : ℕ → Block → DmaTest (Unit {0})
unfolding ram_write_burst
write_block_to_ram addr b =
    ram_write_burst addr
      (column_word b.c0 ∷ column_word b.c1 ∷ column_word b.c2 ∷ column_word b.c3 ∷ [])

-- The lambda `read_block_hex`, compared with a block. A word that did not arrive counts as 0.
unfoldable pub read_block_is : ℕ → Block → DmaTest Bool
unfolding ram_read_burst
read_block_is addr b s =
    let r = ram_read_burst addr 4 s in
    (
      get_or r.0 0 0 == column_word b.c0
          && (get_or r.0 1 0 == column_word b.c1
              && (get_or r.0 2 0 == column_word b.c2 && get_or r.0 3 0 == column_word b.c3)),
      r.1,
    )

-- `for (int w = 0; w < 4; w++) bfm.write(first + 4*w, word_at(b, w), 0xF, &resp)`.
unfoldable pub write_words : ℕ → Block → DmaTest (Unit {0})
unfolding write
write_words first b = do
  w0 ← write dut first (column_word b.c0) 0xF
  w1 ← write dut (first + 4) (column_word b.c1) 0xF
  w2 ← write dut (first + 8) (column_word b.c2) 0xF
  w3 ← write dut (first + 12) (column_word b.c3) 0xF
  done

-- STATUS is read until DONE is set, which is then cleared, `left` times at most.
unfoldable pub poll : ℕ → DmaTest Bool
unfolding read write
poll zero s = (false, s)
poll (suc left) s =
    let r = read dut 0x04 s in
    elim (test_bit r.1.rd 1) [
      | true ↦ (true, (write dut 0x04 0x2 0xF r.1).1)
      | false ↦ poll left r.1
    ]

-- The lambda `run_dma`.
unfoldable pub run_dma : ℕ → ℕ → ℕ → Block → Block → Bool → ℕ → DmaTest Bool
unfolding write_words write poll
run_dma src dst len key iv encdec mode = do
  write_words 0x14 key
  write_words 0x24 iv
  a ← write dut 0x08 src 0xF
  b ← write dut 0x0C dst 0xF
  c ← write dut 0x10 len 0xF
  started ← write dut 0x00 (1 + bit encdec * 2 + mode * 4) 0xF
  poll 5000
