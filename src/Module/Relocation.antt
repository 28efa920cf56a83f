-- ===== src/Module/Relocation.antt =====
-- `Module_ElfLinkOne` of src/modules/module.c.
use netslugplus.Base.{ℕ, ◌+◌, ◌-◌, ◌*◌, ◌/◌, ◌%◌, ◌^◌, Option, none, some}

-- The relocations of the PowerPC that the loader knows, by the source's names without `R_PPC_`, and
-- all others.
pub data RelocationType : Type 0 where
  addr32 addr24 addr16 addr16_hi addr16_ha addr16_lo addr14 addr14_brtaken addr14_brntaken uaddr32 :
      RelocationType
  uaddr16 rel24 rel14 rel14_brtaken rel14_brntaken rel32 addr30 : RelocationType
  sectoff sectoff_lo sectoff_hi sectoff_ha : RelocationType
  emb_naddr32 emb_naddr16 emb_naddr16_lo emb_naddr16_hi emb_naddr16_ha : RelocationType
  unsupported : RelocationType

-- The field that a relocation fills in.
pub data Field : Type 0 where
  word32 low24 half16 half16_hi half16_ha half16_lo low14 low14_brtaken low14_brntaken low30 : Field

-- A bit pattern of 32 bits.
abbrev pub wrap : ℕ → ℕ
wrap v = v % 2 ^ 32

abbrev pub minus : ℕ → ℕ → ℕ
minus a b = wrap (a + (2 ^ 32 - wrap b))

-- The first `switch`: the value, from the symbol's address, the addend, and the place.
unfoldable pub relocation_value : RelocationType → ℕ → ℕ → ℕ → ℕ → Option ℕ
relocation_value t offset addend destination symbol =
    let absolute = some (wrap (symbol + addend)) in
    let relative = some (minus (symbol + addend) (destination + offset)) in
    let section = some (wrap (offset + addend)) in
    let negated = some (minus addend symbol) in
    elim t [
      | rel24 ↦ relative
      | rel14 ↦ relative
      | rel14_brtaken ↦ relative
      | rel14_brntaken ↦ relative
      | rel32 ↦ relative
      | addr30 ↦ relative
      | sectoff ↦ section
      | sectoff_lo ↦ section
      | sectoff_hi ↦ section
      | sectoff_ha ↦ section
      | emb_naddr32 ↦ negated
      | emb_naddr16 ↦ negated
      | emb_naddr16_lo ↦ negated
      | emb_naddr16_hi ↦ negated
      | emb_naddr16_ha ↦ negated
      | unsupported ↦ none
      | _ ↦ absolute
    ]

-- The second `switch`.
unfoldable pub field_of : RelocationType → Option Field
field_of addr32 = some word32
field_of uaddr32 = some word32
field_of rel32 = some word32
field_of sectoff = some word32
field_of emb_naddr32 = some word32
field_of addr24 = some low24
field_of rel24 = some low24
field_of addr16 = some half16
field_of uaddr16 = some half16
field_of emb_naddr16 = some half16
field_of addr16_hi = some half16_hi
field_of sectoff_hi = some half16_hi
field_of emb_naddr16_hi = some half16_hi
field_of addr16_ha = some half16_ha
field_of sectoff_ha = some half16_ha
field_of emb_naddr16_ha = some half16_ha
field_of addr16_lo = some half16_lo
field_of sectoff_lo = some half16_lo
field_of emb_naddr16_lo = some half16_lo
field_of addr14 = some low14
field_of rel14 = some low14
field_of addr14_brtaken = some low14_brtaken
field_of rel14_brtaken = some low14_brtaken
field_of addr14_brntaken = some low14_brntaken
field_of rel14_brntaken = some low14_brntaken
field_of addr30 = some low30
field_of unsupported = none

-- What is written at the place: a word, or the half word there.
pub data Patch : Type 0 where
  word : ℕ → Patch
  half : ℕ → Patch

-- `old & 0xfc000003 | value & 0x03fffffc`
abbrev pub with_low24 : ℕ → ℕ → ℕ
with_low24 old v = old / 2 ^ 26 * 2 ^ 26 + v % 2 ^ 26 / 4 * 4 + old % 4

-- `old & 0xffff0003 | value & 0x0000fffc`
abbrev pub with_low14 : ℕ → ℕ → ℕ
with_low14 old v = old / 2 ^ 16 * 2 ^ 16 + v % 2 ^ 16 / 4 * 4 + old % 4

-- `old & 0xffdf0003`: without the bit that says how the branch is predicted.
abbrev pub unpredicted : ℕ → ℕ
unpredicted old = old / 2 ^ 22 * 2 ^ 22 + old % 2 ^ 21 / 2 ^ 16 * 2 ^ 16 + old % 4

-- The places of one relocation, from the word there and the value.
unfoldable pub patch : Field → ℕ → ℕ → Patch
patch word32 old v = word v
patch low24 old v = word (with_low24 old v)
patch half16 old v = half (v % 2 ^ 16)
patch half16_hi old v = half (v / 2 ^ 16 % 2 ^ 16)
patch half16_ha old v = half ((v / 2 ^ 16 + v / 2 ^ 15 % 2) % 2 ^ 16)
patch half16_lo old v = half (v % 2 ^ 16)
patch low14 old v = word (with_low14 old v)
patch low14_brtaken old v = word (with_low14 (unpredicted old) v + 2 ^ 21)
patch low14_brntaken old v = word (with_low14 (unpredicted old) v)
patch low30 old v = word (v / 4 * 4 + old % 4)

-- `Module_ElfLinkOne`, where `old` is the word at the place; `none` is the error.
unfoldable pub link_one : RelocationType → ℕ → ℕ → ℕ → ℕ → ℕ → Option Patch
unfolding relocation_value field_of patch
link_one t offset addend destination symbol old =
    elim (relocation_value t offset addend destination symbol) [
      | none ↦ none
      | some v ↦ elim (field_of t) [ none ↦ none | some f ↦ some (patch f old v) ]
    ]
