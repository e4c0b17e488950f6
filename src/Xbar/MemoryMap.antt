-- ===== src/Xbar/MemoryMap.antt =====
-- The windows of docs/memory_map.md against `decode_addr` of
-- blocks/axi_lite_xbar/rtl/axi_lite_xbar.v.
use riscv_soc.Base.{
  ℕ, ◌+◌, ◌*◌, ◌-◌, ◌/◌, ◌%◌, ◌^◌, ◌≤◌, ◌<◌, ◌≡◌, ◌==◌, if◌then◌else◌, refl, ◌∙◌, arith,
}
use riscv_soc.Xbar.{decode_addr, decode_periph, slave_rom, slave_ram}

-- The first address of the window of slave `i`, and its size in bytes.
abbrev pub base : ℕ → ℕ
base i =
    if i == slave_rom
    then 0x0000_0000
    else if i == slave_ram
    then 0x1000_0000
    else 0x4000_0000 + (i - 2) * 0x1000

abbrev pub size : ℕ → ℕ
size i = if i == slave_rom then 0x1_0000 else if i == slave_ram then 0x2_0000 else 0x1000

-- What the decoder looks at.
decode_addr-eq :
    (alias addr : ℕ)
    → alias / 2 ^ 28 ≡ addr / 2 ^ 28
    → alias / 2 ^ 12 % 2 ^ 4 ≡ addr / 2 ^ 12 % 2 ^ 4
    → decode_addr alias ≡ decode_addr addr
unfolding decode_addr
decode_addr-eq alias addr region periph = rw (region, periph) refl

-- Every address in the documented window of slave `i`, one of the nine slaves and the diagnostic
-- window, is decoded to `i`.
pub decode-window :
    (i addr : ℕ) → i < 10 → base i ≤ addr → addr < base i + size i → decode_addr addr ≡ i
unfolding decode_addr decode_periph
decode-window i addr lt low high = ground arith

-- An address that agrees with one in the documented window of slave `i`, the diagnostic window
-- included, in bits 31:28 and in bits 15:12 is decoded to `i`, whatever its bits 27:16 and 11:0 are:
-- outside the documented windows too.
pub decode-alias :
    (i addr alias : ℕ)
    → i < 10
    → base i ≤ addr
    → addr < base i + size i
    → alias / 2 ^ 28 ≡ addr / 2 ^ 28
    → alias / 2 ^ 12 % 2 ^ 4 ≡ addr / 2 ^ 12 % 2 ^ 4
    → decode_addr alias ≡ i
decode-alias i addr alias lt low high region periph =
    decode_addr-eq alias addr region periph ∙ decode-window i addr lt low high
