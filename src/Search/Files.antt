-- ===== src/Search/Files.antt =====
-- The files of symbols: `Search_CheckDirectory`, `Search_CheckFile`, `Search_Load` and
-- `Search_SymbolsLoad` of src/search/search.c, and the whole of `Search_Main`.
use netslugplus.Base.{
  ℕ, Bool, ◌||◌, if◌then◌else◌, List, [], ◌∷◌, ◌++◌, Option, none, some, length, codes, bytes_eq,
}
use netslugplus.Module.Metadata.{strncmp_eq}
use netslugplus.Module.Files.{
  after_last_dot, extension_of, DirectoryEntry, regular, folder, other_entry, Entries, no_more,
  entry, join,
}
use netslugplus.Search.Parse.{Given, XmlSymbols, GameSymbol, Parsed, parsed, parse_then, parse_file}
use netslugplus.Search.Build.{SizeEntry}
use netslugplus.Search.Main.{SearchEnd, search_main}

-- `Search_CheckFile`: whether the file is loaded.
unfoldable pub check_symbol_file : List ℕ → Bool
check_symbol_file path = bytes_eq (extension_of (after_last_dot path)) (codes "xml")

-- `Search_CheckDirectory`: the files that are loaded, in their order. `disc` is the text at
-- `os0->disc.gamename`; a path is below the limit of its array.
unfoldable mutual
  unfolding strncmp_eq check_symbol_file

  pub check_symbol_directory : List ℕ → List ℕ → Entries → List (List ℕ)
  check_symbol_directory disc path no_more = []
  check_symbol_directory disc path (entry e es) =
      check_symbol_entry disc path e ++ check_symbol_directory disc path es

  pub check_symbol_entry : List ℕ → List ℕ → DirectoryEntry → List (List ℕ)
  check_symbol_entry disc path (regular name) =
      if check_symbol_file (join path name) then join path name ∷ [] else []
  check_symbol_entry disc path (folder name es) =
      let inside = check_symbol_directory disc (join path name) es in
      if bytes_eq name (codes ".") || bytes_eq name (codes "..")
      then []
      else if strncmp_eq (length name) disc name
      then inside
      else []
  check_symbol_entry disc path other_entry = []

-- What is on the card: none for a file that cannot be opened, and what the XML reader makes of another.
pub record Card : Type 0 where
  pub open_file : List ℕ → Option (Option XmlSymbols)
  pub root : Option Entries

abbrev pub symbols_of : Bool × List GameSymbol → Parsed (List GameSymbol)
symbols_of (good, symbols) = parsed symbols

-- `Search_Load`: what was read of a file that is not good stays.
abbrev pub load_opened :
    Given → Option (Option XmlSymbols) → List GameSymbol → Parsed (List GameSymbol)
load_opened given none symbols = parsed symbols
load_opened given (some x) symbols = parse_then (parse_file given x symbols) symbols_of

unfoldable pub load_paths :
    Given → Card → List (List ℕ) → List GameSymbol → Parsed (List GameSymbol)
load_paths given card [] symbols = parsed symbols
load_paths given card (p ∷ ps) symbols =
    parse_then (load_opened given (card.open_file p) symbols) (load_paths given card ps)

abbrev pub paths_in : List ℕ → List ℕ → Option Entries → List (List ℕ)
paths_in disc path none = []
paths_in disc path (some es) = check_symbol_directory disc path es

-- `Search_SymbolsLoad`, of the directory `path`.
abbrev pub symbols_load : Given → Card → List ℕ → List ℕ → Parsed (List GameSymbol)
symbols_load given card disc path = load_paths given card (paths_in disc path card.root) []

-- `Search_Main`
abbrev pub search_thread :
    Given
    → Card
    → (List SizeEntry → List SizeEntry)
    → (ℕ → ℕ)
    → List ℕ
    → List ℕ
    → ℕ
    → List ℕ
    → Parsed (Option SearchEnd)
search_thread given card qsort old_size disc path start memory =
    parse_then (symbols_load given card disc path)
      (λ symbols. parsed (search_main qsort old_size symbols start memory))
