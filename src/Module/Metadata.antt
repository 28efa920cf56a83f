-- ===== src/Module/Metadata.antt =====
-- `Module_MetadataRead` of src/modules/module.c: the section .bslug.meta, and the six declarations
-- in its texts. Memory is enough.
use netslugplus.Base.{
  ℕ, zero, suc, ◌+◌, ◌/◌, Bool, true, false, ◌&&◌, ◌==◌, if◌then◌else◌, List, [], ◌∷◌, Option, none,
  some, codes, bytes_eq,
}
use netslugplus.Module.Elf.{Symbol, Section, Sections, Memory, get_byte, load_section, load_symbols}
use netslugplus.Module.Link.{Linked, linked, failed, ◌>>=◌, Linker, elf_link}

-- `strncmp(a, b, n) == 0`, of two texts without their NUL.
unfoldable pub strncmp_eq : ℕ → List ℕ → List ℕ → Bool
strncmp_eq zero a b = true
strncmp_eq (suc n) [] [] = true
strncmp_eq (suc n) [] (y ∷ b) = false
strncmp_eq (suc n) (x ∷ a) [] = false
strncmp_eq (suc n) (x ∷ a) (y ∷ b) = x == y && strncmp_eq n a b

-- `strchr(text, c)`: how far the first `c` is, and what follows it.
unfoldable pub find_char : ℕ → List ℕ → Option (ℕ × List ℕ)
find_char c [] = none
find_char c (x ∷ xs) =
    let rest = find_char c xs in
    if x == c
    then some (0, xs)
    else (elim rest [ none ↦ none | some (n, after) ↦ some (suc n, after) ])

pub data Key : Type 0 where
  key_game key_name key_author key_version key_license key_bslug : Key

-- The first of the tests that holds, where `n` bytes of the text stand before `=`.
unfoldable pub key_of : ℕ → List ℕ → Option Key
key_of n text =
    if strncmp_eq n text (codes "game")
    then some key_game
    else if strncmp_eq n text (codes "name")
    then some key_name
    else if strncmp_eq n text (codes "author")
    then some key_author
    else if strncmp_eq n text (codes "version")
    then some key_version
    else if strncmp_eq n text (codes "license")
    then some key_license
    else if strncmp_eq n text (codes "bslug")
    then some key_bslug
    else none

pub record Fields : Type 0 where
  pub game : Option (List ℕ)
  pub name : Option (List ℕ)
  pub author : Option (List ℕ)
  pub version : Option (List ℕ)
  pub license : Option (List ℕ)
  pub bslug : Option (List ℕ)

-- A second declaration is an error.
abbrev pub once : List ℕ → Option (List ℕ) → Option (List ℕ)
once value none = some value
once value (some old) = none

abbrev pub with_field : (Option (List ℕ) → Fields) → Option (List ℕ) → Option Fields
with_field f none = none
with_field f (some v) = some (f (some v))

unfoldable pub declare : Key → List ℕ → Fields → Option Fields
declare key_game v f = with_field (λ o. record f { game = o }) (once v f.game)
declare key_name v f = with_field (λ o. record f { name = o }) (once v f.name)
declare key_author v f = with_field (λ o. record f { author = o }) (once v f.author)
declare key_version v f = with_field (λ o. record f { version = o }) (once v f.version)
declare key_license v f = with_field (λ o. record f { license = o }) (once v f.license)
declare key_bslug v f = with_field (λ o. record f { bslug = o }) (once v f.bslug)

abbrev pub declare_key : Option Key → List ℕ → Fields → Option Fields
declare_key none v f = some f
declare_key (some k) v f = declare k v f

abbrev pub declare_found : List ℕ → Fields → Option (ℕ × List ℕ) → Option Fields
declare_found text f none = some f
declare_found text f (some (n, value)) = declare_key (key_of n text) value f

-- One text of the section; an empty one has no `=`.
unfoldable pub read_text : List ℕ → Fields → Option Fields
unfolding find_char key_of
read_text text f = declare_found text f (find_char b'=' text)

abbrev pub before : ℕ → List (List ℕ) → List (List ℕ)
before c [] = (c ∷ []) ∷ []
before c (t ∷ ts) = (c ∷ t) ∷ ts

-- The texts of the section, each up to its NUL.
unfoldable pub texts : List ℕ → List (List ℕ)
texts [] = []
texts (c ∷ cs) = let rest = texts cs in if c == 0 then [] ∷ rest else before c rest

abbrev pub read_next : (Fields → Option Fields) → Option Fields → Option Fields
read_next rest none = none
read_next rest (some f) = rest f

unfoldable pub read_texts : List (List ℕ) → Fields → Option Fields
read_texts [] f = some f
read_texts (t ∷ ts) f = read_next (read_texts ts) (read_text t f)

abbrev pub no_fields : Fields
no_fields = record {
  game = none;
  name = none;
  author = none;
  version = none;
  license = none;
  bslug = none;
}

-- `module_metadata_t`
pub record Metadata : Type 0 where
  pub path : List ℕ
  pub game : List ℕ
  pub name : List ℕ
  pub author : List ℕ
  pub version : List ℕ
  pub license : List ℕ
  pub size : ℕ
  pub entries_count : ℕ

abbrev pub text_or_empty : Option (List ℕ) → List ℕ
text_or_empty none = []
text_or_empty (some t) = t

abbrev pub is_version : Option (List ℕ) → Bool
is_version none = false
is_version (some v) = bytes_eq v (codes "0.1")

-- The other four are wanted too.
abbrev pub metadata_of :
    List ℕ
    → ℕ
    → List ℕ
    → Option (List ℕ)
    → Option (List ℕ)
    → Option (List ℕ)
    → Option (List ℕ)
    → Option Metadata
metadata_of path count g (some n) (some a) (some v) (some l) = some (record {
  path = path;
  game = g;
  name = n;
  author = a;
  version = v;
  license = l;
  size = 0;
  entries_count = count;
})
metadata_of path count g _ _ _ _ = none

unfoldable pub complete_metadata : List ℕ → ℕ → Fields → Option Metadata
complete_metadata path count f =
    if is_version f.bslug
    then metadata_of path count (text_or_empty f.game) f.name f.author f.version f.license
    else none

-- What the loop over the sections collects: the text of the first .bslug.meta that is not empty,
-- and the number of entries.
pub record Scan : Type 0 where
  pub symbols : List Symbol
  pub text : Option (List ℕ)
  pub entries_count : ℕ

unfoldable pub get_bytes : Memory → ℕ → ℕ → List ℕ
get_bytes m a zero = []
get_bytes m a (suc n) = get_byte m a ∷ get_bytes m (a + 1) n

-- `metadata_end[-1] = '\0'`
abbrev pub end_text : List ℕ → List ℕ
end_text [] = []
end_text (c ∷ []) = 0 ∷ []
end_text (c ∷ d ∷ cs) = c ∷ end_text (d ∷ cs)

abbrev pub bare : Memory → Linker
bare m = record { memory = m; space = 0; entries_count = 0; unresolved = [] }

-- The section is loaded at `heap` and relocated there, without symbols of other modules.
unfoldable pub scan_meta : ℕ → ℕ → Sections → ℕ → Section → Memory → Scan → Linked Scan
scan_meta owner heap file i s m c =
    let symbols = load_symbols i heap c.symbols in
    elim (load_section s heap m) [
      | none ↦ failed
      | some m' ↦ elf_link owner file i heap symbols false (bare m') >>= λ l.
          linked (record c {
            symbols = symbols;
            text = some (end_text (get_bytes l.memory heap s.size));
          })
    ]

abbrev pub scan_new : Linked Scan → Scan → Bool → Option (List ℕ) → Linked Scan
scan_new loaded c empty none = if empty then linked c else loaded
scan_new loaded c empty (some t) = linked c

unfoldable pub scan_section : ℕ → ℕ → Sections → ℕ → Section → Memory → Scan → Linked Scan
scan_section owner heap file i s m c = elim s.name [
  | none ↦ linked c
  | some name ↦
      if bytes_eq name (codes ".bslug.meta")
      then scan_new (scan_meta owner heap file i s m c) c (s.size == 0) c.text
      else if bytes_eq name (codes ".bslug.load")
      then linked (record c { entries_count = s.size / 12 })
      else linked c
]

unfoldable pub scan_sections : ℕ → ℕ → Sections → ℕ → Sections → Memory → Scan → Linked Scan
scan_sections owner heap file i [] m c = linked c
scan_sections owner heap file i (none ∷ ss) m c = scan_sections owner heap file (suc i) ss m c
scan_sections owner heap file i (some s ∷ ss) m c =
    scan_section owner heap file i s m c >>= scan_sections owner heap file (suc i) ss m

abbrev pub found_metadata : Option Metadata → Linked Metadata
found_metadata none = failed
found_metadata (some d) = linked d

abbrev pub declared : List ℕ → ℕ → Option Fields → Linked Metadata
declared path count none = failed
declared path count (some f) = found_metadata (complete_metadata path count f)

abbrev pub read_scan : List ℕ → Scan → Option (List ℕ) → Linked Metadata
read_scan path c none = failed
read_scan path c (some t) = declared path c.entries_count (read_texts (texts t) no_fields)

-- `Module_MetadataRead`; `heap` is where memory for the section is found.
unfoldable pub metadata_read : List ℕ → ℕ → ℕ → Sections → Memory → List Symbol → Linked Metadata
metadata_read path owner heap file m symbols =
    scan_sections owner heap file 1 file m
      (record { symbols = symbols; text = none; entries_count = 0 })
    >>= λ c. read_scan path c c.text
