-- ===== src/Tests/Memories.antt =====
-- The memories at concrete inputs.
use riscv_soc.Base.{◌*◌, true, false, ◌==◌, if◌then◌else◌, ◌≡◌, refl, merge_bytes}
use riscv_soc.Axi.Pins.{Pins, Bench, IsIdle, idle_pins}
use riscv_soc.Axi.Bfm.{write, read}
use riscv_soc.Sram.{Sram}
use riscv_soc.Sram
use riscv_soc.Sram.ReadWrite.{read-write}
use riscv_soc.BootRom.{BootRom}
use riscv_soc.BootRom
use riscv_soc.BootRom.ReadOnly.{read-write_rejected}

abbrev quiet : Pins
quiet = record idle_pins { resetn = true }

quiet-IsIdle : IsIdle quiet
quiet-IsIdle = record {
  out_of_reset = refl;
  awvalid_low = refl;
  wvalid_low = refl;
  arvalid_low = refl;
}

abbrev some_sram : Sram
some_sram = record {
  mem = λ i. i * 3;
  s_bvalid = false;
  s_bresp = 0;
  s_rvalid = false;
  s_rdata = 0;
  s_rresp = 0;
}

abbrev sram_bench : Bench Sram
sram_bench = record { pins = quiet; state = some_sram }

read-write_example :
    let w = write Sram.dut 200 0x10 0xFF 0x1 7 sram_bench in
    let r = read Sram.dut 200 0x10 0 w.last_resp w.bench in
    (w.ok ≡ true)
    × (w.last_resp ≡ 0)
    × (r.ok ≡ true)
    × (r.last_resp ≡ 0)
    × (r.out_data ≡ merge_bytes 0x1 0xFF 12)
read-write_example = read-write 0x10 0xFF 0x1 0x10 0 7 sram_bench quiet-IsIdle

abbrev loaded : BootRom
loaded = record {
  mem = λ i.
      if i == 0
      then 0xAAAA_0001
      else if i == 1
      then 0xBBBB_0002
      else if i == 2
      then 0xCCCC_0003
      else if i == 3
      then 0xDDDD_0004
      else 0;
  s_bvalid = false;
  s_bresp = 0;
  s_rvalid = false;
  s_rdata = 0;
  s_rresp = 0;
}

abbrev rom_bench : Bench BootRom
rom_bench = record { pins = quiet; state = loaded }

read-write_rejected_example :
    let w = write BootRom.dut 200 0x4 0xFF 0xF 7 rom_bench in
    let r = read BootRom.dut 200 0x4 0 w.last_resp w.bench in
    (w.ok ≡ true)
    × (w.last_resp ≡ 2)
    × (r.ok ≡ true)
    × (r.last_resp ≡ 0)
    × (r.out_data ≡ 0xBBBB_0002)
read-write_rejected_example = read-write_rejected 0x4 0xFF 0xF 0x4 0 7 rom_bench quiet-IsIdle
