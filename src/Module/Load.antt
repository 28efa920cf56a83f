-- ===== src/Module/Load.antt =====
-- `Module_ListLoad`, `Module_Load` and `Module_LoadElf` of src/modules/module.c: the list of the
-- modules that are for the disc. Memory is enough, and the names of sections can be read.
use netslugplus.Base.{
  ℕ, ◌+◌, Bool, false, ◌&&◌, ◌==◌, leb, if◌then◌else◌, List, [], ◌∷◌, ◌++◌, Option, none, some,
  length, get_or,
}
use netslugplus.Module.Elf.{Symbol, Sections, Memory, load_symtab}
use netslugplus.Module.Link.{Linked, linked, failed, beyond, ◌>>=◌}
use netslugplus.Module.Metadata.{Metadata, metadata_read}
use netslugplus.Module.Files.{Entries, check_directory, game_matches}
use netslugplus.Module.Size.{round_up, module_size}

-- `e_type`, `e_machine` and `e_version` of the `Elf32_Ehdr`.
pub record Header : Type 0 where
  pub e_type : ℕ
  pub machine : ℕ
  pub version : ℕ

-- What libelf gives of a file; an archive, or a file that cannot be read, is another kind.
pub record ElfFile : Type 0 where
  pub is_elf : Bool
  pub ident : Option (List ℕ)
  pub header : Option Header
  pub sections : Sections

-- At least 7 bytes: 32 bits, big endian, the current version.
abbrev pub check_ident : Option (List ℕ) → Bool
check_ident none = false
check_ident (some b) =
    leb 7 (length b) && get_or b 4 0 == 1 && get_or b 5 0 == 2 && get_or b 6 0 == 1

-- Relocatable, for the PowerPC, of the current version.
abbrev pub check_header : Option Header → Bool
check_header none = false
check_header (some h) = h.e_type == 1 && h.machine == 20 && h.version == 1

-- `module_list` and `module_list_size`
pub record Modules : Type 0 where
  pub list : List Metadata
  pub list_size : ℕ

unfoldable pub add_module : Metadata → ℕ → Modules → Modules
add_module d size s = record {
  list = s.list ++ (record d { size = size } ∷ []);
  list_size = s.list_size + size;
}

-- The disc's six bytes, the memory that the section is read into, and the path.
unfoldable pub load_found : (ℕ → ℕ) → Sections → Modules → Metadata → Linked Modules
load_found id file s d =
    if game_matches id d.game then linked (add_module d (module_size file) s) else failed

unfoldable pub load_symbols_of :
    (ℕ → ℕ) → ℕ → Memory → List ℕ → Sections → Modules → Option (List Symbol) → Linked Modules
load_symbols_of id heap m path file s none = failed
load_symbols_of id heap m path file s (some symbols) =
    metadata_read path (length s.list) heap file m symbols >>= load_found id file s

-- `Module_LoadElf` of a file that it is called for.
unfoldable pub load_elf : (ℕ → ℕ) → ℕ → Memory → List ℕ → ElfFile → Modules → Linked Modules
load_elf id heap m path f s =
    if f.is_elf && check_ident f.ident && check_header f.header
    then load_symbols_of id heap m path f.sections s (load_symtab f.sections)
    else failed

-- A file that fails is ignored.
abbrev pub or_ignored : Modules → Linked Modules → Linked Modules
or_ignored s (linked s') = linked s'
or_ignored s failed = linked s
or_ignored s beyond = beyond

unfoldable pub load_files :
    (ℕ → ℕ) → ℕ → Memory → (List ℕ → ElfFile) → List (List ℕ) → Modules → Linked Modules
load_files id heap m read [] s = linked s
load_files id heap m read (path ∷ ps) s =
    or_ignored s (load_elf id heap m path (read path) s) >>= load_files id heap m read ps

abbrev pub no_modules : Modules
no_modules = record { list = []; list_size = 0 }

-- `Module_ListLoad`, with the rounding of `Module_Main`. `disc` is the text of the disc's name.
unfoldable pub list_load :
    (ℕ → ℕ) → List ℕ → ℕ → Memory → (List ℕ → ElfFile) → List ℕ → Entries → Linked Modules
list_load id disc heap m read path entries =
    load_files id heap m read (check_directory disc path entries) no_modules >>= λ s.
    linked (record s { list_size = round_up s.list_size 32 })
