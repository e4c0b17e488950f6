-- ===== src/DmaRam/Burst.antt =====
-- The lambdas `write_burst` and `read_burst` of blocks/dma/dv/dma_ram_sim_main.cpp.
use riscv_soc.Base.{ℕ, zero, suc, Bool, true, false, ◌&&◌, ◌==◌, List, [], ◌∷◌, length}
use riscv_soc.DmaRam.{RamPins, Ram, step, awready, wready, arready, dec_beats}

pub record RamBench : Type 0 where
  pub pins : RamPins
  pub ram : Ram

-- One word of a burst with its strobe.
pub record Beat : Type 0 where
  pub word : ℕ
  pub strobe : ℕ

unfoldable pub clock : RamBench → RamBench
unfolding step
clock b = record b { ram = step b.pins b.ram }

-- `while (!ready && timeout < 50) { clock(); timeout++; }` with `left` rounds to go.
unfoldable pub wait_until : (RamBench → Bool) → ℕ → RamBench → RamBench
unfolding clock
wait_until ready zero b = b
wait_until ready (suc left) b = elim (ready b) [
  | true ↦ b
  | false ↦ wait_until ready left (clock b)
]

abbrev is_last : List Beat → Bool
is_last [] = true
is_last (x ∷ xs) = false

-- The loop over the words.
unfoldable pub write_beats : List Beat → RamBench → RamBench
unfolding wait_until clock
write_beats [] b = b
write_beats (x ∷ xs) b =
    let c = record b {
      pins = record b.pins { wvalid = true; wdata = x.word; wstrb = x.strobe; wlast = is_last xs };
    } in
    write_beats xs (clock (wait_until (λ d. d.pins.wvalid && wready d.ram) 50 c))

-- The write address handshake.
unfoldable pub write_address : ℕ → ℕ → RamBench → RamBench
unfolding wait_until clock
write_address addr len b =
    let c = record b { pins = record b.pins { awvalid = true; awaddr = addr; awlen = len } } in
    let d = clock (wait_until (λ d. d.pins.awvalid && awready d.ram) 50 c) in
    record d { pins = record d.pins { awvalid = false } }

-- The write response handshake, with its result.
unfoldable pub write_response : RamBench → Bool × RamBench
unfolding wait_until clock
write_response b =
    let c = record b { pins = record b.pins { wvalid = false; bready = true } } in
    let d = wait_until (λ d. d.ram.s_bvalid) 50 c in
    let e = clock d in
    (d.ram.s_bvalid && d.ram.s_bresp == 0, record e { pins = record e.pins { bready = false } })

-- `words.size() - 1` is cut to the eight bits of AWLEN.
unfoldable pub write_burst : ℕ → List Beat → RamBench → Bool × RamBench
unfolding write_address write_beats write_response
write_burst addr xs b =
    write_response (write_beats xs (write_address addr (dec_beats (length xs)) b))

-- The loop of `read_burst` with `left` rounds to go: the words pushed, and the bench after it.
unfoldable pub read_beats : ℕ → RamBench → List ℕ × RamBench
unfolding clock
read_beats zero b = ([], b)
read_beats (suc left) b = elim b.ram.s_rvalid [
  | false ↦ read_beats left (clock b)
  | true ↦ elim b.ram.s_rlast [
    | true ↦ (b.ram.s_rdata ∷ [], clock b)
    | false ↦ let rest = read_beats left (clock b) in (b.ram.s_rdata ∷ rest.0, rest.1)
  ]
]

unfoldable pub read_address : ℕ → ℕ → RamBench → RamBench
unfolding wait_until clock
read_address addr len b =
    let c = record b { pins = record b.pins { arvalid = true; araddr = addr; arlen = len } } in
    let d = clock (wait_until (λ d. d.pins.arvalid && arready d.ram) 50 c) in
    record d { pins = record d.pins { arvalid = false; rready = true } }

unfoldable pub read_burst : ℕ → ℕ → RamBench → List ℕ × RamBench
unfolding read_address read_beats
read_burst addr n_beats b =
    let r = read_beats 500 (read_address addr (dec_beats n_beats) b) in
    (r.0, record r.1 { pins = record r.1.pins { rready = false } })
