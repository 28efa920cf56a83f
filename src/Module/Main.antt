-- ===== src/Module/Main.antt =====
-- `Module_Main` of src/modules/module.c: the loader's thread, from the directory to the last relocation.
use netslugplus.Base.{ℕ, suc, Bool, true, false, ltb, if◌then◌else◌, List, [], ◌∷◌, map}
use netslugplus.Search.Symbols.{Given, Tables}
use netslugplus.Module.Elf.{Sections, Memory}
use netslugplus.Module.Replace.{LoaderEntry, Loader}
use netslugplus.Module.Link.{Linked, linked, failed, ◌>>=◌, Linker}
use netslugplus.Module.Relocation.{minus}
use netslugplus.Module.Size.{round_up}
use netslugplus.Module.Place.{list_link}
use netslugplus.Module.Final.{load_exports, link_final}
use netslugplus.Module.Metadata.{Metadata}
use netslugplus.Module.Files.{Entries}
use netslugplus.Module.Load.{ElfFile, Modules, list_load}

-- What the thread finds: the disc, the card, and where memory for its arrays is.
pub record LoaderThread : Type 0 where
  pub id : ℕ → ℕ
  pub disc : List ℕ
  pub read : List ℕ → ElfFile
  pub directory : Entries
  pub path : List ℕ
  pub memory : Memory
  pub heap : ℕ
  pub entries_at : ℕ → ℕ

-- Each module of the list is opened again.
abbrev pub opened : LoaderThread → ℕ → List Metadata → List (ℕ × Sections)
opened c i [] = []
opened c i (d ∷ ds) = (c.entries_at i, (c.read d.path).sections) ∷ opened c (suc i) ds

abbrev pub entry_count : Metadata → ℕ
entry_count d = d.entries_count

abbrev pub first_space : LoaderThread → Linker
first_space c = record { memory = c.memory; space = 0x81800000; entries_count = 0; unresolved = [] }

abbrev pub loader_of : Linker → Tables → Loader
loader_of l t = record { memory = l.memory; space = l.space; tables = t }

-- After the search for symbols: `search` gives its tables, or false where it had an error.
-- `entries_in` is `module_entries`, as the linked memory holds it.
unfoldable pub finish :
    Given → Bool × Tables → (Linker → List LoaderEntry) → Modules → Linker → Linked Loader
finish given (false, t) entries_in s l = failed
finish given (true, t) entries_in s l = load_exports (entries_in l) t >>= λ t'.
    link_final given (map entry_count s.list) (entries_in l) l.unresolved (loader_of l t')

-- The assertion at the end, that the free space did not fall below what the modules' sizes leave. Here
-- it fails as the steps before it do; the source stops.
unfoldable pub assert_space : Modules → Loader → Linked Loader
assert_space s l =
    if ltb (minus 0x81800000 (round_up s.list_size 32)) l.space then linked l else failed

unfoldable pub module_main :
    Given → Bool × Tables → (Linker → List LoaderEntry) → LoaderThread → Linked Loader
module_main given search entries_in c =
    list_load c.id c.disc c.heap c.memory c.read c.path c.directory >>= λ s.
    list_link 0 (opened c 0 s.list) (first_space c) >>= λ l.
    finish given search entries_in s l >>= assert_space s
