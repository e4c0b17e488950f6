-- ===== src/Dma/Top.antt =====
-- blocks/dma/dv/dma_engine_testtop.v: the engine, the burst memory, and the test port beside the
-- engine's.
use riscv_soc.Base.{ℕ, Bool, false, ◌||◌, if◌then◌else◌}
use riscv_soc.Axi.Pins.{Pins}
use riscv_soc.DmaRam
use riscv_soc.DmaRam.{Ram, RamPins}
use riscv_soc.Dma.{Engine, FromRam, m_wdata, m_wlast}
use riscv_soc.Dma

pub record Top : Type 0 where
  pub engine : Engine
  pub ram : Ram

abbrev pub use_test_port_w : RamPins → Bool
use_test_port_w q = q.awvalid || q.wvalid

abbrev pub use_test_port_r : RamPins → Bool
use_test_port_r q = q.arvalid || q.rready

-- The inputs of `u_ram`, with the pins `q` of the test port.
unfoldable pub ram_pins : Pins → RamPins → Top → RamPins
unfolding m_wdata m_wlast
ram_pins p q s =
    let w = use_test_port_w q in
    let r = use_test_port_r q in
    record {
      resetn = p.resetn;
      awvalid = if w then q.awvalid else s.engine.m_awvalid;
      awaddr = if w then q.awaddr else s.engine.m_awaddr;
      awlen = if w then q.awlen else s.engine.m_awlen;
      wvalid = if w then q.wvalid else s.engine.m_wvalid;
      wdata = if w then q.wdata else m_wdata s.engine;
      wstrb = if w then q.wstrb else 0xF;
      wlast = if w then q.wlast else m_wlast s.engine;
      bready = if w then q.bready else s.engine.m_bready;
      arvalid = if r then q.arvalid else s.engine.m_arvalid;
      araddr = if r then q.araddr else s.engine.m_araddr;
      arlen = if r then q.arlen else s.engine.m_arlen;
      rready = if r then q.rready else s.engine.m_rready;
    }

-- The burst port's inputs of `u_engine`.
unfoldable pub from_ram : RamPins → Top → FromRam
from_ram q s =
    let w = use_test_port_w q in
    let r = use_test_port_r q in
    record {
      m_awready = if w then false else DmaRam.awready s.ram;
      m_wready = if w then false else DmaRam.wready s.ram;
      m_bvalid = if w then false else s.ram.s_bvalid;
      m_arready = if r then false else DmaRam.arready s.ram;
      m_rvalid = if r then false else s.ram.s_rvalid;
      m_rdata = s.ram.s_rdata;
      m_rlast = s.ram.s_rlast;
    }

-- The outputs of the test port.
pub record TestOuts : Type 0 where
  pub ram_awready : Bool
  pub ram_wready : Bool
  pub ram_bvalid : Bool
  pub ram_arready : Bool
  pub ram_rvalid : Bool
  pub ram_rdata : ℕ
  pub ram_rlast : Bool

unfoldable pub test_outs : RamPins → Top → TestOuts
test_outs q s =
    let w = use_test_port_w q in
    let r = use_test_port_r q in
    record {
      ram_awready = if w then DmaRam.awready s.ram else false;
      ram_wready = if w then DmaRam.wready s.ram else false;
      ram_bvalid = if w then s.ram.s_bvalid else false;
      ram_arready = if r then DmaRam.arready s.ram else false;
      ram_rvalid = if r then s.ram.s_rvalid else false;
      ram_rdata = s.ram.s_rdata;
      ram_rlast = s.ram.s_rlast;
    }

unfoldable pub top_step : Pins → RamPins → Top → Top
unfolding Dma.step DmaRam.step ram_pins from_ram
top_step p q s = record {
  engine = Dma.step (from_ram q s) p s.engine;
  ram = DmaRam.step (ram_pins p q s) s.ram;
}
