-- ===== src/Tests/Streaming.antt =====
-- The streaming engine at concrete inputs.
use riscv_soc.Base.{ℕ, zero, suc, Bool, true, false, ◌≡◌, refl}
use riscv_soc.Axi.Pins.{Pins, idle_pins}
use riscv_soc.Aes.KeyExpand
use riscv_soc.Aes.Core
use riscv_soc.Aes.Core.{Core}
use riscv_soc.Aes.Chain
use riscv_soc.Aes.Regs.{zero_words}
use riscv_soc.DmaRam
use riscv_soc.Dma
use riscv_soc.DmaRam.{Ram}
use riscv_soc.DmaRam.Main.{low_pins}
use riscv_soc.Dma.{Engine, EngineState, FromRam, st_wr_data, step, edge}
use riscv_soc.Dma.Steady.{
  aw, is_ready, Reached, after_reset, after_edge, asks, payload, channels_steady,
}
use riscv_soc.Dma.Top.{Top, TestOuts}
use riscv_soc.Dma.Bench.{DmaSim, await, address_taken}
use riscv_soc.Dma.Stale.{turns, address_never_seen}
use riscv_soc.Dma.Main.{main}
use riscv_soc.Dma.Transfer.{tick}
use riscv_soc.Dma.Transfer.Whole.{blocks_run, transferred}
use riscv_soc.Dma.Transfer.Order.{start, ordered, transfer_stores}
use riscv_soc.Aes.Core.{words_of}
use riscv_soc.Aes.Core.Main.{fips_b_key}
use riscv_soc.Base.{arith, ◌%◌}
use riscv_soc.Dma.Main.Passes.{engine_main_passes}

abbrev engine : EngineState → Bool → Engine
engine st level = record {
  src_addr_reg = 0x10;
  dst_addr_reg = 0x20;
  len_reg = 1;
  key_reg = zero_words;
  iv_reg = zero_words;
  status_busy = level;
  status_done = level;
  irq_pulse = level;
  ctrl_mode = 1;
  ctrl_encdec = level;
  state = st;
  cur_src = 0x40;
  cur_dst = 0x50;
  blocks_left = 3;
  beat_cnt = 2;
  rd_block = zero_words;
  wr_block = zero_words;
  chain_load_iv = level;
  chain_start = level;
  m_awvalid = level;
  m_awaddr = 0x77;
  m_awlen = 9;
  m_wvalid = level;
  m_bready = level;
  m_arvalid = level;
  m_araddr = 0x78;
  m_arlen = 8;
  m_rready = level;
  s_bvalid = level;
  s_bresp = 2;
  s_rvalid = level;
  s_rdata = 5;
  s_rresp = 1;
  chain = record {
    state = Chain.st_core;
    mode_reg = 3;
    encdec_reg = true;
    data_in_reg = zero_words;
    iv_reg = zero_words;
    data_out_reg = zero_words;
    done_reg = true;
    core = record {
      state = Core.st_round;
      encdec_reg = true;
      rnum = 3;
      data_reg = Core.bytes_of zero_words;
      busy = false;
      done = false;
      data_out = zero_words;
      key_expand = record {
        state = KeyExpand.st_idle;
        round_idx = 5;
        rk = λ i. zero_words;
        done = false;
      };
    };
  };
}

abbrev memory : Ram
memory = record {
  mem = λ i. 0;
  w_state = DmaRam.w_burst;
  w_word_idx = 3;
  w_beats_left = 2;
  s_bvalid = true;
  s_bresp = 1;
  r_state = DmaRam.r_burst;
  r_word_idx = 7;
  r_beats_left = 3;
  s_rvalid = true;
  s_rdata = 7;
  s_rresp = 3;
  s_rlast = true;
}

abbrev top : Top
top = record { engine = engine st_wr_data true; ram = memory }

abbrev shown : Bool → TestOuts
shown level = record {
  ram_awready = level;
  ram_wready = true;
  ram_bvalid = true;
  ram_arready = true;
  ram_rvalid = true;
  ram_rdata = 6;
  ram_rlast = true;
}

engine_main_passes_example : main top (shown true) 5 3 ≡ 0
engine_main_passes_example = engine_main_passes top (shown true) 5 3

-- After a reset, a start of one block and all that its read and the cipher take, the engine asks for
-- the write.
abbrev bus : Bool → Pins
bus resetn = record idle_pins { resetn = resetn }

abbrev start_pins : Pins
start_pins = record idle_pins {
  resetn = true;
  awvalid = true;
  wvalid = true;
  awaddr = 0;
  wdata = 5;
}

abbrev willing : FromRam
willing = record {
  m_awready = false;
  m_wready = false;
  m_bvalid = false;
  m_arready = true;
  m_rvalid = true;
  m_rdata = 0xABCD;
  m_rlast = true;
}

-- Edges at which the memory is willing to be read.
abbrev edges : ℕ → Engine → Engine
edges zero s = s
edges (suc n) s = edges n (step willing (bus true) s)

abbrev edges-Reached : (n : ℕ) (s : Engine) → Reached s → Reached (edges n s)
edges-Reached zero s h = h
edges-Reached (suc n) s h =
    edges-Reached n (step willing (bus true) s) (after_edge willing (bus true) s h)

abbrev started : Engine
started = step willing start_pins (step willing (bus false) (engine st_wr_data true))

abbrev started-Reached : Reached started
started-Reached =
    after_edge willing start_pins (step willing (bus false) (engine st_wr_data true))
      (after_reset willing (bus false) (engine st_wr_data true) refl)

channels_steady_example :
    let s = edges 29 started in
    let t = step willing (bus true) s in (asks aw t ≡ true) × (payload aw t ≡ payload aw s)
unfolding step edge asks is_ready Chain.chain_step Core.core_step Chain.core_in KeyExpand.step
channels_steady_example =
    channels_steady aw willing (bus true) (edges 29 started)
      (edges-Reached 29 started started-Reached) refl refl refl

abbrev bench : DmaSim
bench = record {
  bench = record {
    pins = bus true;
    state = record {
      test = record low_pins { awvalid = true; awaddr = 0x40; awlen = 3 };
      top = top;
      seen = shown false;
    };
  };
  model = tt;
  rd = 0;
  resp = 0;
  fail_count = 0;
}

address_never_seen_example : await 50 address_taken bench ≡ turns 50 bench
address_never_seen_example =
    address_never_seen 50 bench
      (record { out_of_reset = refl; address = refl; no_word = refl; unseen = refl })

-- Two blocks are ordered in CBC mode, to be decrypted.
abbrev ordering : Top
ordering =
    let e = engine Dma.st_idle false in
    record {
      engine = record e {
        key_reg = words_of fips_b_key;
        len_reg = 2;
        chain = record e.chain {
          state = Chain.st_idle;
          core = record e.chain.core { state = Core.st_idle };
        };
      };
      ram = record memory { mem = λ i. i % 256; w_state = DmaRam.w_idle; r_state = DmaRam.r_idle };
    }

transfer_stores_example :
    let t =
      tick idle_pins low_pins
        (blocks_run idle_pins low_pins 1 (start idle_pins low_pins 7 ordering)) in
    (t.ram.mem ≡ transferred fips_b_key 1 zero_words (ordered 7 ordering))
    × (t.engine.status_done ≡ true)
    × (t.engine.status_busy ≡ false)
    × (t.engine.irq_pulse ≡ true)
transfer_stores_example =
    transfer_stores idle_pins low_pins 7 fips_b_key 1 ordering (omega arith) refl
      (record { l0 = omega arith; l1 = omega arith; l2 = omega arith; l3 = omega arith })
      (λ i. omega arith) refl (omega arith) refl
      (record {
        shape = refl;
        not_busy = refl;
        free = record {
          chain_idle = refl;
          core_free = record { core_idle = refl; expand_idle = refl };
        };
      })
