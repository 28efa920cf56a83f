-- ===== src/Module/LinkTests.antt =====
-- The linker on two small modules.
use netslugplus.Base.{
  ℕ, ◌+◌, ◌≤◌, ◌<◌, ◌≡◌, ◌≢◌, ◌↔◌, refl, arith, true, false, List, [], ◌∷◌, none, some, codes,
  bytes_eq, length,
}
use netslugplus.Search.Symbols.{Given, Tables}
use netslugplus.Module.Relocation.{addr32}
use netslugplus.Module.Elf.{
  symtab, nobits, rela, undefined, Symbol, Relocation, Section, Sections, load_section,
  load_symbols, load_symtab,
}
use netslugplus.Module.Replace.{export, LoaderEntry, Loader}
use netslugplus.Module.Link.{
  Linked, linked, failed, beyond, Unresolved, Linker, link_relocations, link_relocation,
  link_symbol, remember, addend_of, link_section, elf_link, target,
}
use netslugplus.Module.Place.{
  is_loaded, role, body, unit, take_space, Placing, placing, place_section, place_sections,
  link_placed, link_entries, link_with, link_module, list_link,
}
use netslugplus.Module.Final.{
  final_entries, final_entry, final_relocations, final_result, final_modules, link_final,
}
use netslugplus.Module.Size.{round_up, add_size, sizes, module_size, modules_size, list_size}
use netslugplus.Module.Order.{IsOrdered, list_link-IsOrdered}
use netslugplus.Module.Asserts.{link_final-asserts}
use netslugplus.Module.Layout.{link_final-le-list_size, place_section-over}
use netslugplus.Module.Bounds.{HitsEnd, link_relocations_iff}
use netslugplus.Module.Cursors.{Work, run_modules, link_final-run_modules}

abbrev print : Symbol
print = record { place = undefined; value = 0; known = false; name = some (codes "print") }

abbrev table : Section
table = record {
  section_type = symtab;
  alloc = false;
  size = 16;
  align = 2;
  info = 0;
  name = some (codes ".symtab");
  bytes = [];
  symbols = print ∷ [];
  relocations = none;
}

abbrev text : Section
text = record table {
  section_type = nobits;
  alloc = true;
  size = 4;
  name = some (codes ".text");
  symbols = [];
}

abbrev entries : Section
entries = record text { size = 12; name = some (codes ".bslug.load") }

abbrev call : Relocation
call = record { offset = 0; symbol = 0; kind = addr32; addend = 0 }

abbrev calls : Section
calls = record text {
  section_type = rela;
  alloc = false;
  size = 12;
  info = 2;
  name = some (codes ".rela.text");
  relocations = some (call ∷ []);
}

abbrev file : Sections
file = some table ∷ some text ∷ some entries ∷ some calls ∷ []

abbrev modules : List (ℕ × Sections)
modules = (0x90000000, file) ∷ (0x90001000, file) ∷ []

abbrev start : Linker
start = record { memory = λ a. 0; space = 0x81800000; entries_count = 0; unresolved = [] }

abbrev result : Linked Linker → Linker
result (linked l) = l
result failed = start
result beyond = start

abbrev after : Linker
after = result (list_link 0 modules start)

list_link_runs : list_link 0 modules start ≡ linked after
unfolding list_link link_module link_with place_sections place_section is_loaded role bytes_eq
    take_space unit load_section load_symbols load_symtab link_entries link_placed elf_link
    link_section link_relocations link_relocation link_symbol remember addend_of
list_link_runs = refl

list_link-IsOrdered_example : IsOrdered 0 2 after.unresolved
list_link-IsOrdered_example = list_link-IsOrdered modules start refl list_link_runs

abbrev given : Given
given = record {
  qsort = λ l. l;
  bsearch = λ name names. none;
  game_entry = 0x80004000;
  app0_start = 0x80003f00;
  app0_end = 0x80100000;
}

abbrev exported : LoaderEntry
exported = record { kind = export; name = codes "print"; target = 0x817ffff0 }

abbrev exports : List LoaderEntry
exports = exported ∷ exported ∷ []

abbrev no_symbols : Tables
no_symbols = record { module_symbols = []; sorted_count = 0; globals = []; start = 0 }

abbrev loader : Loader
loader = record { memory = λ a. 0; space = after.space; tables = no_symbols }

link_final-asserts_example : link_final given (1 ∷ 1 ∷ []) exports after.unresolved loader ≢ beyond
link_final-asserts_example =
    link_final-asserts given modules (1 ∷ 1 ∷ []) exports loader start after refl list_link_runs
      refl refl

link_final_runs : link_final given (1 ∷ 1 ∷ []) exports [] loader ≡ linked loader
unfolding link_final final_modules final_entries final_entry final_relocations final_result
link_final_runs = refl

after_count : length exports ≡ after.entries_count
unfolding list_link link_module link_with place_sections place_section is_loaded role bytes_eq
    take_space unit load_section load_symbols load_symtab link_entries link_placed elf_link
    link_section link_relocations link_relocation link_symbol remember addend_of
after_count = refl

small_size : modules_size modules ≡ 32
unfolding modules_size module_size sizes add_size round_up is_loaded role bytes_eq unit
small_size = refl

link_final-le-list_size_example : 0x81800000 ≤ loader.space + list_size modules
link_final-le-list_size_example =
    link_final-le-list_size given modules (1 ∷ 1 ∷ []) exports [] start after loader loader
      (omega arith) (omega arith) refl refl (omega (arith, small_size)) list_link_runs after_count
      refl link_final_runs

abbrev wide : Section
wide = record text { size = 8; align = 3 }

abbrev below : Placing
below = placing (record start { space = 0x817ffffc }) []

abbrev placed_below : Linked Placing → Placing
placed_below (linked p) = p
placed_below failed = below
placed_below beyond = below

wide_loaded : is_loaded wide ≡ true
unfolding is_loaded
wide_loaded = refl

wide_body : role wide.name ≡ body
unfolding role bytes_eq
wide_body = refl

wide_unit : unit wide.align ≡ 8
unfolding unit
wide_unit = refl

wide_placed : place_section 0 2 wide below ≡ linked (placed_below (place_section 0 2 wide below))
unfolding place_section is_loaded role bytes_eq take_space unit load_section load_symbols
wide_placed = refl

-- 8 bytes at a multiple of 8, after 16 bytes, below a module of 4 bytes.
place_section-over_example :
    (placed_below (place_section 0 2 wide below)).space + add_size wide 16 < 0x817ffffc + 16
place_section-over_example =
    place_section-over 0 2 16 wide below (placed_below (place_section 0 2 wide below)) wide_loaded
      wide_body (rw wide_unit refl) (rw wide_unit refl) (rw wide_unit (omega arith)) (omega arith)
      (omega arith) wide_placed

link_relocations_iff_example :
    (link_relocations (target 0 0x81700000 true true) [] (call ∷ []) start ≡ beyond)
    ↔ HitsEnd (target 0 0x81700000 true true) [] (call ∷ []) start
link_relocations_iff_example =
    link_relocations_iff (target 0 0x81700000 true true) [] (call ∷ []) start

abbrev waiting : ℕ → Unresolved
waiting k = record {
  name = codes "print";
  owner = k;
  address = 0x81700000;
  offset = 0;
  kind = addr32;
  addend = 0;
}

abbrev works : List Work
works = (exported ∷ [], waiting 0 ∷ []) ∷ (exported ∷ [], waiting 1 ∷ waiting 1 ∷ []) ∷ []

link_final-run_modules_example :
    link_final given (1 ∷ 1 ∷ []) exports (waiting 0 ∷ waiting 1 ∷ waiting 1 ∷ []) loader
    ≡ run_modules given works (record { loader = loader; has_error = false })
link_final-run_modules_example = link_final-run_modules given works loader (omega arith)
