-- ===== src/Module/Place.antt =====
-- `Module_LinkModuleElf` and `Module_ListLink` of src/modules/module.c: the sections of each module are
-- laid below the free space and relocated.
use netslugplus.Base.{
  ℕ, suc, ◌+◌, ◌*◌, ◌/◌, ◌^◌, Bool, true, false, ◌==◌, ltb, if◌then◌else◌, List, [], ◌∷◌, Option,
  none, some, update, codes, bytes_eq,
}
use netslugplus.Module.Relocation.{minus}
use netslugplus.Module.Elf.{
  progbits, nobits, Symbol, Section, Sections, Memory, load_section, load_symbols, load_symtab,
}
use netslugplus.Module.Link.{Linked, linked, failed, ◌>>=◌, Linker, elf_link}

-- `SHT_PROGBITS` or `SHT_NOBITS`, with `SHF_ALLOC`: what is loaded.
unfoldable pub is_loaded : Section → Bool
is_loaded s = elim s.section_type [ progbits ↦ s.alloc | nobits ↦ s.alloc | _ ↦ false ]

-- What a loaded section is, by its name.
pub data Role : Type 0 where
  nameless meta load_entries body : Role

unfoldable pub role : Option (List ℕ) → Role
role none = nameless
role (some name) =
    if bytes_eq name (codes ".bslug.meta")
    then meta
    else if bytes_eq name (codes ".bslug.load")
    then load_entries
    else body

-- The alignment that the loader keeps: at least 4.
unfoldable pub unit : ℕ → ℕ
unit align = if ltb 3 (2 ^ align) then 2 ^ align else 4

-- The new end of the free space, `*space & ~(unit - 1)` below the section.
unfoldable pub take_space : Section → ℕ → ℕ
take_space s space = minus space s.size / unit s.align * unit s.align

-- The first loop of `Module_LinkModuleElf`: the symbols, where each section is put, the number of
-- entries, once they are allocated, and that of the modules before.
pub record Placing : Type 0 where
  pub memory : Memory
  pub space : ℕ
  pub symbols : List Symbol
  pub destinations : ℕ → Option ℕ
  pub entries : Option ℕ
  pub entries_before : ℕ

abbrev pub placed : ℕ → ℕ → Placing → Option Memory → Linked Placing
placed i destination p none = failed
placed i destination p (some m) = linked (record p {
  memory = m;
  symbols = load_symbols i destination p.symbols;
  destinations = update p.destinations i (some destination);
})

abbrev pub skipped : ℕ → Placing → Placing
skipped i p = record p { destinations = update p.destinations i none }

-- `Module_ListAllocate` gives NULL for no entry at all while `module_entries` is NULL.
abbrev pub place_entries : ℕ → ℕ → Section → Placing → Option ℕ → Linked Placing
place_entries heap i s p none =
    if s.size / 12 + p.entries_before == 0
    then failed
    else placed i heap (record p { entries = some (s.size / 12) }) (load_section s heap p.memory)
place_entries heap i s p (some n) = failed

-- The section `i`; `heap` is where `Module_ListAllocate` puts the module's entries, of 12 bytes.
unfoldable pub place_section : ℕ → ℕ → Section → Placing → Linked Placing
place_section heap i s p =
    if is_loaded s
    then (elim (role s.name) [
      | nameless ↦ linked (skipped i p)
      | meta ↦ linked (skipped i p)
      | load_entries ↦ place_entries heap i s p p.entries
      | body ↦
          let at = take_space s p.space in
          placed i at (record p { space = at }) (load_section s at p.memory)
    ])
    else linked p

unfoldable pub place_sections : ℕ → ℕ → Sections → Placing → Linked Placing
place_sections heap i [] p = linked p
place_sections heap i (none ∷ ss) p = place_sections heap (suc i) ss p
place_sections heap i (some s ∷ ss) p = place_section heap i s p >>= place_sections heap (suc i) ss

-- The second loop, over the sections from `i` on.
unfoldable pub link_placed : ℕ → Sections → ℕ → Sections → Placing → Linker → Linked Linker
link_placed owner file i [] p l = linked l
link_placed owner file i (none ∷ ss) p l = link_placed owner file (suc i) ss p l
link_placed owner file i (some s ∷ ss) p l =
    (if is_loaded s
      then (elim (p.destinations i) [
        | none ↦ linked l
        | some at ↦ elf_link owner file i at p.symbols true l
      ])
      else linked l)
    >>= link_placed owner file (suc i) ss p

abbrev pub nowhere : ℕ → Option ℕ
nowhere i = none

abbrev pub after_placing : Linker → Placing → ℕ → Linker
after_placing l p n = record l {
  memory = p.memory;
  space = p.space;
  entries_count = l.entries_count + n;
}

-- After the first loop: a module without entries fails.
unfoldable pub link_entries : ℕ → Sections → Linker → Placing → Option ℕ → Linked Linker
link_entries owner file l p none = failed
link_entries owner file l p (some n) = link_placed owner file 1 file p (after_placing l p n)

abbrev pub placing : Linker → List Symbol → Placing
placing l symbols = record {
  memory = l.memory;
  space = l.space;
  symbols = symbols;
  destinations = nowhere;
  entries = none;
  entries_before = l.entries_count;
}

-- Without a table of symbols a module fails.
unfoldable pub link_with : ℕ → ℕ → Sections → Linker → Option (List Symbol) → Linked Linker
link_with owner heap file l none = failed
link_with owner heap file l (some symbols) =
    place_sections heap 1 file (placing l symbols) >>= λ p. link_entries owner file l p p.entries

-- `Module_LinkModuleElf`
unfoldable pub link_module : ℕ → ℕ → Sections → Linker → Linked Linker
unfolding link_with
link_module owner heap file l = link_with owner heap file l (load_symtab file)

-- `Module_ListLink` from the module `owner` on. A module is its sections, and where its entries are
-- put; a file that cannot be opened again is not modelled.
unfoldable pub list_link : ℕ → List (ℕ × Sections) → Linker → Linked Linker
list_link owner [] l = linked l
list_link owner ((heap, file) ∷ ms) l = link_module owner heap file l >>= list_link (suc owner) ms
