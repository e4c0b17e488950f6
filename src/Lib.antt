-- ===== src/Lib.antt =====
-- Verification library of RISCV_SOC: a RISC-V system on chip in Verilog with C++ test benches that
-- run each block under Verilator. A test bench drives the ports of one block, through the bus
-- functional model or bit by bit, follows it with a software model where there is one, counts
-- failed checks and returns 0 if there are none.
--
-- How a block is modelled. The registers of a block are a record, and its `always @(posedge ...)`
-- blocks are one function from the pins and the registers to the registers after the edge: every
-- right side is read before the edge, as nonblocking assignments are. A C++ local is a record field
-- or a `let`, a lambda is a function, a loop is structural recursion on the number of rounds that
-- its bound leaves, and `main` is a function from the power-on state to the exit status. Registers
-- and locals that the source does not initialise are arguments. Numbers are natural numbers, and a
-- 32-bit register that wraps does so explicitly (`dec32`). A data word that is put on a bus port is
-- taken as it is: statements that need it to fit 32 bits or one byte say so.
--
-- Files:
--   Base, Base/*     Boolean tests, lists, 32-bit words, and the laws of exclusive or.
--   Axi/Pins         the ports of a slave, AxiLiteSignals of tb/common/axi_lite_bfm.h.
--   Axi/Bfm          AxiLiteBfm::write and ::read of that file. `timeout_cycles` is the fuel of the
--                    loop, as it is in the source. Axi/Bfm/Ready: slaves that answer at once.
--                    Axi/Bfm/Frame: any slave. Axi/Bfm/Timeout: slaves that never answer.
--   Harness          what the mains on the register bus share, as a state monad.
--   Timer            blocks/timer: Rtl is rtl/timer.v, Model the software model in dv/sim_main.cpp
--                    (Model/Agree: it refines the design), Main the test sequence.
--   Watchdog         blocks/watchdog, in the same three parts; Rtl/Feeding has traffic that kicks
--                    in time as an indexed relation.
--   Aes              blocks/aes. Gf is the field and the tables of namespace aes_ref of
--                    dv/diff_sim_main.cpp, Ref its key expansion, encryption and decryption. Aes/Package
--                    has the tables of rtl/aes_pkg.vh; Aes/KeyExpand is rtl/aes_key_expand.v.
--   Aes/Core         rtl/aes_core.v: Core/Round the round functions (Core/Agree: those of the reference
--                    model), Core/Rounds and Core/Refines the rounds. A 128-bit vector is four words,
--                    and sixteen bytes where the source takes it apart.
--   Aes/Chain        rtl/aes_chain.v: Chain/Due names what a mode owes, Chain/Refines pays it,
--                    Chain/Messages and Chain/RoundTrip are messages of many blocks.
--   Aes/Regs         rtl/aes.v: Regs/Bus and Regs/Edges single transactions, Regs/Phases an operation as
--                    a state machine, Regs/Run a call of rtl_run, Regs/Agree the differential test.
--                    Regs/Diff is main of dv/diff_sim_main.cpp, with the bytes of its random engine as a
--                    parameter. Aes/KeyExpand/Main, Core/Main, Chain/Main and Regs/Main are the other
--                    mains.
--   Jtag/Tap         blocks/jtag: model_next of dv/tap_sim_main.cpp beside rtl/jtag_tap.v; Tap/Main
--                    is its main, with the bits of the random engine as a parameter.
--   Jtag/Chain       rtl/jtag_dtm.v, rtl/jtag_axi_bridge.v and dv/jtag_chain_testtop.v with
--                    tb/common/fake_axi_lite_slave.v: two clocks. Chain/Scan and Chain/Main are the
--                    lambdas and the body of dv/jtag_chain_sim_main.cpp and of
--                    dv/jtag_chain_fast_tck_sim_main.cpp, which differ in the clock ratio; a word is a
--                    list of bits. Chain/Serve: the bridge. Chain/Bypass: the instructions.
--   Sram, BootRom    blocks/sram and blocks/boot_rom, design and test bench.
--   DmaRam           rtl/dma_ram.v of blocks/dma and dv/dma_ram_sim_main.cpp; Burst is its two lambdas,
--                    whose time limits of 50 and 500 cycles are the fuel of the loops.
--   Dma              rtl/dma_engine.v of blocks/dma over Aes/Chain, its registers in Dma/State. Dma/Top is
--                    dv/dma_engine_testtop.v with the memory of DmaRam; Dma/Bench and Dma/Main are
--                    dv/dma_engine_sim_main.cpp: what the bench reads on the test port is what the last
--                    `eval` left there (Dma/Stale). Dma/Steady has the states that the engine reaches as
--                    an indexed relation. Dma/Transfer follows a transfer through the phases of a block:
--                    read, cipher (Transfer/Cipher), write (Transfer/Written), then from block to block
--                    (Transfer/Whole) and from the start to the interrupt (Transfer/Order). A phase
--                    starts in a state of a fixed form, from which its edges are evaluated.
--   Spi              blocks/spi: rtl/spi_master.v with tb/common/fake_spi_slave.v (Spi/Fake), the lambda
--                    run_transfer (Spi/Transfer) and main of dv/sim_main.cpp. Shift registers are lists
--                    of bits.
--   Uart             blocks/uart: design, the decoder capture_byte (Uart/Capture) and main.
--   Xbar             blocks/axi_lite_xbar: the decoder, Write and Read the two paths, Fake and Top the
--                    test top with its slaves, Raw and Main the test bench. Xbar/MemoryMap is
--                    docs/memory_map.md. Xbar/Sound has the states that the write path reaches, and
--                    Xbar/Granted the states during a write of one master, as indexed relations;
--                    Xbar/Answer and Xbar/Window follow one transaction.
--   Tests            each theorem at concrete inputs.
--
-- How they interact. Axi.Bfm takes any record of step and outputs (`Dut`); Timer, Watchdog, Sram,
-- BootRom, Uart, Spi, Aes.Regs and Dma each fill it. Timer, Watchdog, Sram, BootRom and Aes.Regs show the
-- law `IsReady` by which Axi.Bfm.Ready turns a transaction into one step of the design; the others are
-- evaluated. The mains are stated over the whole stack. Jtag/Chain and DmaRam have ports of their own, and
-- Dma has both a register port and a burst port; DmaRam/Store and DmaRam/Load together carry
-- DmaRam/RoundTrip. In the accelerator each layer is stated over the one below: the key schedule and the
-- rounds over Aes.Ref, the modes over the core, the phases of an operation over the modes, the
-- differential test over the phases, and a transfer of the engine over the modes.
--
-- Bounds. A loop of a test bench has the limit that the source gives it (200 cycles of the bus functional
-- model, 400 polls of the accelerator, 5000 of the engine), and runs into it where the source does. An
-- operation of the accelerator takes 22 edges and is polled once per edge; the engine takes 38 edges for a
-- block. The other loops end where their data does.
--
-- Not modelled: the vendored core rtl/core, I2C, the system top with its firmware, scripts and reports; printing, coverage files, and the
-- construction and deletion of the Verilator objects. Unknown values (x) do not occur: Verilator
-- simulates two states.
pub mod Base
pub mod Axi
pub mod Timer
pub mod Watchdog
pub mod Harness
pub mod Aes
pub mod Jtag
pub mod Sram
pub mod BootRom
pub mod DmaRam
pub mod Dma
pub mod Spi
pub mod Uart
pub mod Xbar
mod Tests
