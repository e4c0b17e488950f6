-- ===== src/Aes/Regs/Phases.antt =====
-- The phases of one operation of blocks/aes/rtl/aes.v: loading, computing, finished.
use riscv_soc.Base.{ℕ, suc, ◌+◌, ◌*◌, ◌%◌, ◌<◌, Bool, true, false, not}
use riscv_soc.Base.{bit, ◌≡◌, ◌≢◌, refl, sym, ap, ◌∙◌, arith}
use mathlib.Core.Path.{subst}
use riscv_soc.Axi.Pins.{Pins, Bench, IsIdle}
use riscv_soc.Axi.Bfm
use riscv_soc.Aes.Ref.{Block}
use riscv_soc.Aes.Ref.MixInverse.{IsByteBlock}
use riscv_soc.Aes.KeyExpand.{RoundKey}
use riscv_soc.Aes.KeyExpand.Rounds.{IsWords}
use riscv_soc.Aes.Core.{words_of}
use riscv_soc.Aes.Chain.{ChainIn, st_idle, chain_step, is_idle}
use riscv_soc.Aes.Chain.Due.{DueChain, cipher, mode_input, mode_output, mode_next}
use riscv_soc.Aes.Chain.Refines.{chain-modes, mode_dir}
use riscv_soc.Aes.Chain.RoundTrip.{words_of-IsWords}
use riscv_soc.Aes.Regs.{Aes, dut, edge, do_start, do_load_iv, chain_in, put_word}
use riscv_soc.Aes.Regs.Bus.{after_write, after_read}
use riscv_soc.Aes.Regs.Edges.{IsCalm, edge-IsCalm}

-- The accelerator is idle and DONE is clear, and the key and data registers are `k` and `d`.
pub record Loaded (k d : RoundKey) (s : Aes) : Type 0 where
  pub calm : IsCalm s
  pub clear : s.status_done ≡ false
  pub key : s.key_reg ≡ k
  pub input : s.data_reg ≡ d

-- The block `out` is due in `n` edges.
pub record Busy (n : ℕ) (out : RoundKey) (s : Aes) : Type 0 where
  pub clear : s.status_done ≡ false
  pub vector : RoundKey
  pub vector_words : IsWords vector
  pub due : DueChain n out vector s.chain

-- DONE is set, and the block `out` is in the result registers.
pub record Finished (out : RoundKey) (s : Aes) : Type 0 where
  pub calm : IsCalm s
  pub set : s.status_done ≡ true
  pub result : s.chain.data_out_reg ≡ out

module _ (b : Bench Aes) (i : IsIdle b.pins) where
  abbrev wpins : ℕ → ℕ → Pins
  wpins addr word = (Bfm.write_start dut addr word 0xF b).pins

  no_start :
      (addr word : ℕ)
      → addr < 128
      → addr ≢ 0
      → (do_start (wpins addr word) b.state ≡ false)
        × (do_load_iv (wpins addr word) b.state ≡ false)
  unfolding do_start do_load_iv
  no_start addr word l z = ground arith

  status_kept :
      (addr word : ℕ)
      → addr < 128
      → addr ≢ 4
      → b.state.chain.done_reg ≡ false
      → (after_write addr word b).status_done ≡ b.state.status_done
  unfolding edge
  status_kept addr word l z q = ground arith

  -- A write to a register that is neither CTRL nor STATUS.
  pub write-Loaded :
      (k d : RoundKey) (addr word : ℕ)
      → addr < 128
      → addr ≢ 0
      → addr ≢ 4
      → Loaded k d b.state
      → Loaded (put_word 0x10 addr word k) (put_word 0x20 addr word d) (after_write addr word b)
  unfolding edge
  write-Loaded k d addr word l z st h =
      let f = no_start addr word l z in
      let c =
        edge-IsCalm (wpins addr word) b.state i.out_of_reset f.0 f.1 h.calm.free
          h.calm.vector_words in
      let low : addr % 128 ≡ addr = omega arith in
      record {
        calm = c.0;
        clear = status_kept addr word l st h.calm.quiet ∙ h.clear;
        key = λ j. put_word 0x10 (low j) word (h.key j);
        input = λ j. put_word 0x20 (low j) word (h.input j);
      }

  -- A read starts nothing.
  abbrev rpins : ℕ → Pins
  rpins addr = (Bfm.read_start dut addr b).pins

  read_quiet :
      (addr : ℕ)
      → (do_start (rpins addr) b.state ≡ false) × (do_load_iv (rpins addr) b.state ≡ false)
  unfolding do_start do_load_iv
  read_quiet addr = ground arith

  -- A read while the block is due.
  pub read-Busy :
      (n : ℕ) (out : RoundKey) (addr : ℕ)
      → Busy (suc n) out b.state
      → Busy n out (after_read addr b)
  unfolding DueChain edge chain_in do_load_iv
  read-Busy n out addr h = record {
    clear = ground (arith, h.due.0, h.clear);
    vector = h.vector;
    vector_words = h.vector_words;
    due = h.due.2 (chain_in (rpins addr) b.state) i.out_of_reset (read_quiet addr).1;
  }

  -- The read at the edge that sets DONE.
  pub read-Finished :
      (out : RoundKey) (addr : ℕ) → Busy 0 out b.state → Finished out (after_read addr b)
  unfolding DueChain edge
  read-Finished out addr h =
      let f = read_quiet addr in
      let c =
        edge-IsCalm (rpins addr) b.state i.out_of_reset f.0 f.1 h.due.3
          (subst IsWords (sym h.due.2) h.vector_words) in
      record { calm = c.0; set = ground (arith, h.due.0); result = c.1 ∙ h.due.1 }

  -- A read after that.
  pub read-keeps :
      (out : RoundKey) (addr : ℕ) → Finished out b.state → Finished out (after_read addr b)
  unfolding edge
  read-keeps out addr h =
      let f = read_quiet addr in
      let c =
        edge-IsCalm (rpins addr) b.state i.out_of_reset f.0 f.1 h.calm.free h.calm.vector_words in
      record { calm = c.0; set = ground (arith, h.calm.quiet, h.set); result = c.1 ∙ h.result }

  -- The write that clears DONE.
  pub clear-Loaded :
      (out : RoundKey)
      → Finished out b.state
      → Loaded b.state.key_reg b.state.data_reg (after_write 0x4 0x2 b)
  unfolding edge put_word
  clear-Loaded out h =
      let f = no_start 0x4 0x2 (omega arith) (λ e. omega arith) in
      let c =
        edge-IsCalm (wpins 0x4 0x2) b.state i.out_of_reset f.0 f.1 h.calm.free
          h.calm.vector_words in
      record { calm = c.0; clear = refl; key = refl; input = refl }

  -- What the write to CTRL puts on the chain.
  abbrev started : Bool → ChainIn
  started encdec = chain_in (wpins 0x0 (1 + 2 * bit encdec)) b.state

  start_wires :
      (encdec : Bool)
      → b.state.chain.state ≡ st_idle
      → ((started encdec).start ≡ true)
        × ((started encdec).load_iv ≡ false)
        × ((started encdec).mode ≡ 0)
        × ((started encdec).encdec ≡ encdec)
  unfolding chain_in do_start do_load_iv
  start_wires false h = (ap (λ x. not (not (is_idle x))) h, refl, refl, refl)
  start_wires true h = (ap (λ x. not (not (is_idle x))) h, refl, refl, refl)

  start_clear :
      (encdec : Bool)
      → b.state.chain.done_reg ≡ false
      → (after_write 0x0 (1 + 2 * bit encdec) b).status_done ≡ b.state.status_done
  unfolding edge
  start_clear encdec q = ground (arith, q)

  module _ (key : Block) (encdec : Bool) where
    -- What is due of the chain that was started, for any mode.
    abbrev DueIn : ℕ → Bool → RoundKey → Type 0
    DueIn mode e d =
        let c = cipher key (mode_dir mode e) (mode_input mode e b.state.chain.iv_reg d) in
        DueChain 22 (mode_output mode e b.state.chain.iv_reg d c)
          (mode_next mode e b.state.chain.iv_reg d c) (chain_step (started encdec) b.state.chain)

  -- The write to CTRL that starts an operation in ECB mode.
  pub start-Busy :
      (key input : Block) (encdec : Bool)
      → IsByteBlock key
      → IsByteBlock input
      → Loaded (words_of key) (words_of input) b.state
      → Busy 22 (cipher key encdec (words_of input)) (after_write 0x0 (1 + 2 * bit encdec) b)
  unfolding edge mode_input mode_output mode_next
  start-Busy key input encdec bk bi h =
      let f = start_wires encdec h.calm.free.chain_idle in
      let c = b.state.chain in
      let dw = subst IsWords (sym h.input) (words_of-IsWords input bi) in
      let due : DueIn key encdec (started encdec).mode (started encdec).encdec b.state.data_reg =
        chain-modes key (started encdec) c bk dw h.calm.vector_words i.out_of_reset f.0 f.1 h.key
          h.calm.free in
      record {
        clear = start_clear encdec h.calm.quiet ∙ h.clear;
        vector = c.iv_reg;
        vector_words = h.calm.vector_words;
        due =
            subst (λ d. DueIn key encdec 0 encdec d) h.input
              (subst (λ e. DueIn key encdec 0 e b.state.data_reg) f.3
                (subst (λ m. DueIn key encdec m (started encdec).encdec b.state.data_reg) f.2 due));
      }
