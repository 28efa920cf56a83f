-- ===== src/Module/LoadTests.antt =====
-- A directory with a module for one disc.
use netslugplus.Base.{
  ℕ, ◌≡◌, ◌↔◌, refl, arith, true, false, List, [], ◌∷◌, none, some, codes, bytes_eq, get_or, length,
}
use netslugplus.Module.Elf.{
  symtab, progbits, nobits, Section, get_byte, set_byte, put_bytes, load_section, load_symbols,
  load_symtab,
}
use netslugplus.Module.Link.{linked, elf_link, link_section}
use netslugplus.Module.Place.{is_loaded, role, unit}
use netslugplus.Module.Metadata.{
  Key, key_game, key_name, key_author, key_version, key_license, key_bslug, declare, read_text,
  texts, read_texts, no_fields, Metadata, metadata_read, strncmp_eq, find_char, key_of,
  complete_metadata, get_bytes, scan_meta, scan_section, scan_sections,
}
use netslugplus.Module.Files.{
  Entries, no_more, entry, regular, check_file, check_directory, after_last_dot,
  is_module_extension, game_matches, game_matches_from, IsForDisc, game_matches_iff,
}
use netslugplus.Module.Extension.{IsModulePath, check_file_iff}
use netslugplus.Module.Declared.{
  bslug_meta, section_of, put_all, view, viewed, read_texts-section_of,
}
use netslugplus.Module.Size.{round_up, add_size, sizes, module_size}
use netslugplus.Module.Load.{
  ElfFile, Modules, add_module, load_found, load_symbols_of, load_elf, load_files, list_load,
}
use netslugplus.Module.Listed.{IsListed, list_load-IsListed}

check_file_iff_example :
    (check_file (codes "/modules/a.mod") ≡ true) ↔ IsModulePath (codes "/modules/a.mod")
check_file_iff_example = check_file_iff (codes "/modules/a.mod")

abbrev id : ℕ → ℕ
id i = get_or (codes "RMCP01") i 0

game_matches_iff_example : (game_matches id (codes "RMC?") ≡ true) ↔ IsForDisc id (codes "RMC?")
game_matches_iff_example = game_matches_iff id (codes "RMC?")

abbrev declarations : List (Key × List ℕ)
declarations =
    (key_game, codes "RMC?")
    ∷ (key_name, codes "a=b")
    ∷ (key_bslug, codes "0.1")
    ∷ (key_author, codes "c")
    ∷ (key_version, codes "d")
    ∷ (key_license, codes "")
    ∷ []

read_texts-section_of_example :
    viewed (read_texts (texts (section_of declarations)) no_fields)
    ≡ put_all declarations (view no_fields)
read_texts-section_of_example = read_texts-section_of declarations no_fields (omega arith)

abbrev plain : Section
plain = record {
  section_type = symtab;
  alloc = false;
  size = 0;
  align = 2;
  info = 0;
  name = some (codes ".symtab");
  bytes = [];
  symbols = [];
  relocations = none;
}

abbrev meta_section : Section
meta_section = record plain {
  section_type = progbits;
  alloc = true;
  size = length (section_of declarations);
  name = some (codes ".bslug.meta");
  bytes = section_of declarations;
}

abbrev body_section : Section
body_section = record plain {
  section_type = nobits;
  alloc = true;
  size = 5;
  name = some (codes ".text");
}

abbrev one_module : ElfFile
one_module = record {
  is_elf = true;
  ident = some (0x7f ∷ 0x45 ∷ 0x4c ∷ 0x46 ∷ 1 ∷ 2 ∷ 1 ∷ []);
  header = some (record { e_type = 1; machine = 20; version = 1 });
  sections = some plain ∷ some meta_section ∷ some body_section ∷ [];
}

abbrev directory : Entries
directory = entry (regular (codes "a.mod")) no_more

abbrev loaded : Metadata
loaded = record {
  path = codes "/m/a.mod";
  game = codes "RMC?";
  name = codes "a=b";
  author = codes "c";
  version = codes "d";
  license = codes "";
  size = 8;
  entries_count = 0;
}

abbrev found : Modules
found = record { list = loaded ∷ []; list_size = 32 }

list_load_runs :
    list_load id (codes "RMCP01") 0x90000000 (λ a. 0) (λ p. one_module) (codes "/m") directory
    ≡ linked found
unfolding list_load load_files load_elf load_symbols_of load_found add_module check_directory
    check_file strncmp_eq bslug_meta after_last_dot is_module_extension bytes_eq metadata_read
    scan_sections scan_section scan_meta get_bytes put_bytes get_byte set_byte load_section
    load_symbols load_symtab elf_link link_section texts read_texts read_text declare find_char
    key_of complete_metadata game_matches game_matches_from module_size sizes add_size round_up
    is_loaded role unit
list_load_runs = refl

list_load-IsListed_example : IsListed id found
list_load-IsListed_example =
    list_load-IsListed id (codes "RMCP01") 0x90000000 (λ a. 0) (λ p. one_module) (codes "/m")
      directory list_load_runs
