-- ===== src/Module/Elf.antt =====
-- What src/modules/module.c reads of an ELF file by libelf, and how it puts a section into memory:
-- `Module_ElfLoadSection`, `Module_ElfLoadSymbols` and `Module_LoadElfSymtab`.
use netslugplus.Base.{
  ℕ, ◌+◌, ◌-◌, ◌*◌, ◌/◌, ◌%◌, ◌^◌, Bool, true, false, not, ◌&&◌, ◌==◌, if◌then◌else◌, List, [], ◌∷◌,
  map, Option, none, some, update, replicate,
}
use netslugplus.Module.Relocation.{RelocationType, Patch, word, half, wrap}

pub data SectionType : Type 0 where
  symtab progbits nobits rel rela other_type : SectionType

-- `st_shndx`: one of the three special indices, or the index of a section.
pub data Place : Type 0 where
  absolute common undefined : Place
  within : ℕ → Place

-- An `Elf32_Sym`. `known` is `st_other == 1`; the name is what `elf_strptr` gives.
pub record Symbol : Type 0 where
  pub place : Place
  pub value : ℕ
  pub known : Bool
  pub name : Option (List ℕ)

-- An `Elf32_Rela`, or an `Elf32_Rel`, whose addend is not used.
pub record Relocation : Type 0 where
  pub offset : ℕ
  pub symbol : ℕ
  pub kind : RelocationType
  pub addend : ℕ

-- A section by its header and its data. `sh_addralign` is `2 ^ align`; a section has data of one of
-- the three kinds.
pub record Section : Type 0 where
  pub section_type : SectionType
  pub alloc : Bool
  pub size : ℕ
  pub align : ℕ
  pub info : ℕ
  pub name : Option (List ℕ)
  pub bytes : List ℕ
  pub symbols : List Symbol
  pub relocations : Option (List Relocation)

-- The sections from index 1 on; `none` is one whose header cannot be read.
abbrev pub Sections : Type 0
Sections = List (Option Section)

-- Memory is words at multiples of 4, the first byte is the highest.
abbrev pub Memory : Type 0
Memory = ℕ → ℕ

abbrev pub byte_unit : ℕ → ℕ
byte_unit a = 2 ^ (24 - 8 * (a % 4))

unfoldable pub get_byte : Memory → ℕ → ℕ
get_byte m a = m (a / 4 * 4) / byte_unit a % 256

unfoldable pub set_byte : Memory → ℕ → ℕ → Memory
unfolding get_byte
set_byte m a v =
    update m (a / 4 * 4) (m (a / 4 * 4) - get_byte m a * byte_unit a + v % 256 * byte_unit a)

-- `*(int *)a`
unfoldable pub get_word : Memory → ℕ → ℕ
get_word m a =
    get_byte m a * 2 ^ 24
    + get_byte m (a + 1) * 2 ^ 16
    + get_byte m (a + 2) * 2 ^ 8
    + get_byte m (a + 3)

unfoldable pub put_bytes : Memory → ℕ → List ℕ → Memory
put_bytes m a [] = m
put_bytes m a (b ∷ bs) = put_bytes (set_byte m a b) (a + 1) bs

unfoldable pub store : Memory → ℕ → Patch → Memory
store m a (word v) =
    put_bytes m a (v / 2 ^ 24 % 256 ∷ v / 2 ^ 16 % 256 ∷ v / 2 ^ 8 % 256 ∷ v % 256 ∷ [])
store m a (half h) = put_bytes m a (h / 2 ^ 8 % 256 ∷ h % 256 ∷ [])

-- `Module_ElfLoadSection`; `none` is false.
unfoldable pub load_section : Section → ℕ → Memory → Option Memory
load_section s destination m = elim s.section_type [
  | symtab ↦ some (put_bytes m destination s.bytes)
  | progbits ↦ some (put_bytes m destination s.bytes)
  | nobits ↦ some (put_bytes m destination (replicate s.size 0))
  | _ ↦ none
]

abbrev pub is_within : ℕ → Place → Bool
is_within i absolute = false
is_within i common = false
is_within i undefined = false
is_within i (within j) = j == i

abbrev pub load_symbol : ℕ → ℕ → Symbol → Symbol
load_symbol shndx destination s =
    if is_within shndx s.place && not s.known
    then record s { value = wrap (s.value + destination); known = true }
    else s

-- `Module_ElfLoadSymbols`
unfoldable pub load_symbols : ℕ → ℕ → List Symbol → List Symbol
load_symbols shndx destination = map (load_symbol shndx destination)

abbrev pub is_symtab : SectionType → Bool
is_symtab symtab = true
is_symtab _ = false

abbrev pub unknown : Symbol → Symbol
unknown s = record s { known = false }

-- `Module_LoadElfSymtab`, where memory is enough: the first table of symbols.
unfoldable pub load_symtab : Sections → Option (List Symbol)
load_symtab [] = none
load_symtab (none ∷ ss) = load_symtab ss
load_symtab (some s ∷ ss) =
    let rest = load_symtab ss in
    if is_symtab s.section_type then some (map unknown s.symbols) else rest
