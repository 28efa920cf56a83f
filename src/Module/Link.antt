-- ===== src/Module/Link.antt =====
-- `Module_ElfLink` of src/modules/module.c: the relocations for one section.
use netslugplus.Base.{
  ℕ, ◌+◌, Bool, true, false, ◌==◌, ltb, if◌then◌else◌, List, [], ◌∷◌, ◌++◌, Option, none, some,
  get_elem?, length,
}
use netslugplus.Module.Relocation.{RelocationType, link_one}
use netslugplus.Module.Elf.{
  rel, rela, absolute, common, undefined, within, Symbol, Relocation, Section, Sections, Memory,
  get_word, store,
}

-- A step ends, fails as the source's `return false`, or uses an array beyond its end.
pub data Linked {ℓ} (A : Type ℓ) : Type ℓ where
  linked : A → Linked A
  failed beyond : Linked A

infixl 5 ◌>>=◌
abbrev pub ◌>>=◌ {ℓ κ} : {A : Type ℓ} {B : Type κ} → Linked A → (A → Linked B) → Linked B
linked a >>= f = f a
failed >>= f = failed
beyond >>= f = beyond

-- `module_unresolved_relocation_t`
pub record Unresolved : Type 0 where
  pub name : List ℕ
  pub owner : ℕ
  pub address : ℕ
  pub offset : ℕ
  pub kind : RelocationType
  pub addend : ℕ

-- The memory, the end of the free space, `module_entries_count` and `module_relocations`.
pub record Linker : Type 0 where
  pub memory : Memory
  pub space : ℕ
  pub entries_count : ℕ
  pub unresolved : List Unresolved

-- `Module_ElfLinkOne` at a place of the memory.
unfoldable pub link_at : RelocationType → ℕ → ℕ → ℕ → ℕ → Memory → Option Memory
link_at kind offset addend destination symbol_addr m =
    elim (link_one kind offset addend destination symbol_addr (get_word m (destination + offset))) [
      | none ↦ none
      | some p ↦ some (store m (destination + offset) p)
    ]

-- What the two loops of `Module_ElfLink` share: `with_addend` in the one over `Elf32_Rela`.
pub record Target : Type 0 where
  pub owner : ℕ
  pub destination : ℕ
  pub allow_globals : Bool
  pub with_addend : Bool

unfoldable pub addend_of : Target → Relocation → Memory → ℕ
addend_of t r m = if t.with_addend then r.addend else get_word m (t.destination + r.offset)

abbrev pub relocated : Linker → Option Memory → Linked Linker
relocated l none = failed
relocated l (some m) = linked (record l { memory = m })

unfoldable pub link_value : Target → Relocation → ℕ → Linker → Linked Linker
link_value t r value l =
    relocated l (link_at r.kind r.offset (addend_of t r l.memory) t.destination value l.memory)

abbrev pub unresolved_of : Target → Relocation → Linker → List ℕ → Unresolved
unresolved_of t r l name = record {
  name = name;
  owner = t.owner;
  address = t.destination;
  offset = r.offset;
  kind = r.kind;
  addend = addend_of t r l.memory;
}

-- A symbol of another module, where memory is enough.
unfoldable pub remember : Target → Relocation → Option (List ℕ) → Linker → Linked Linker
remember t r none l = failed
remember t r (some name) l =
    if t.allow_globals
    then linked (record l { unresolved = l.unresolved ++ (unresolved_of t r l name ∷ []) })
    else failed

-- The `switch` on `st_shndx`.
unfoldable pub link_symbol : Target → Relocation → Symbol → Linker → Linked Linker
link_symbol t r s l = elim s.place [
  | absolute ↦ link_value t r s.value l
  | common ↦ failed
  | undefined ↦ remember t r s.name l
  | within i ↦ if s.known then link_value t r s.value l else failed
]

-- One round of the loop over the relocations: the index is tested, and the symbol is read.
unfoldable pub link_relocation : Target → List Symbol → Relocation → Linker → Linked Linker
link_relocation t symbols r l =
    if ltb (length symbols) r.symbol
    then failed
    else elim (get_elem? symbols r.symbol) [ none ↦ beyond | some s ↦ link_symbol t r s l ]

unfoldable pub link_relocations : Target → List Symbol → List Relocation → Linker → Linked Linker
link_relocations t symbols [] l = linked l
link_relocations t symbols (r ∷ rs) l =
    link_relocation t symbols r l >>= link_relocations t symbols rs

abbrev pub target : ℕ → ℕ → Bool → Bool → Target
target owner destination allow_globals with_addend = record {
  owner = owner;
  destination = destination;
  allow_globals = allow_globals;
  with_addend = with_addend;
}

-- The relocations of a section for the section `shndx`.
unfoldable pub link_section :
    ℕ → ℕ → ℕ → Bool → List Symbol → Section → Option (List Relocation) → Linker → Linked Linker
link_section owner shndx destination globals symbols s none l = linked l
link_section owner shndx destination globals symbols s (some rs) l =
    if s.info == shndx
    then (elim s.section_type [
      | rel ↦ link_relocations (target owner destination globals false) symbols rs l
      | rela ↦ link_relocations (target owner destination globals true) symbols rs l
      | _ ↦ linked l
    ])
    else linked l

-- `Module_ElfLink`
unfoldable pub elf_link : ℕ → Sections → ℕ → ℕ → List Symbol → Bool → Linker → Linked Linker
elf_link owner [] shndx destination symbols globals l = linked l
elf_link owner (none ∷ ss) shndx destination symbols globals l =
    elf_link owner ss shndx destination symbols globals l
elf_link owner (some s ∷ ss) shndx destination symbols globals l =
    link_section owner shndx destination globals symbols s s.relocations l
    >>= elf_link owner ss shndx destination symbols globals
