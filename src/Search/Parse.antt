-- ===== src/Search/Parse.antt =====
-- `Symbol_ParseFile`, `Symbol_AllocSymbol` and `Symbol_AddRelocation` of src/search/symbol.c: the symbols
-- that a file declares. Memory is enough. The XML reader gives the elements as data; `sscanf` of the
-- C library is a parameter.
use netslugplus.Base.{
  ℕ, suc, ◌+◌, ◌-◌, ◌*◌, ◌/◌, ◌%◌, ◌^◌, Bool, true, false, ◌&&◌, leb, ltb, if◌then◌else◌, List, [],
  ◌∷◌, ◌++◌, map, Option, none, some, length, update, codes, bytes_eq,
}
use netslugplus.Search.Fsm.Create.{nibble_and}
use netslugplus.Search.Text.{Bytes, parse_data}

-- An element <reloc>, <symbol> or <symbols>, by its attributes and what is in it.
pub record XmlReloc : Type 0 where
  pub type_text : Option (List ℕ)
  pub offset_text : Option (List ℕ)
  pub target_text : Option (List ℕ)

pub record XmlSymbol : Type 0 where
  pub name_text : Option (List ℕ)
  pub size_text : Option (List ℕ)
  pub offset_text : Option (List ℕ)
  pub data_texts : Option (List (List ℕ))
  pub relocs : List XmlReloc

pub record XmlSymbols : Type 0 where
  pub debug_text : Option (List ℕ)
  pub xml_symbols : List XmlSymbol

-- `symbol_relocation_t`
pub record SymbolRelocation : Type 0 where
  pub target : List ℕ
  pub type : ℕ
  pub offset : ℕ

-- `data`, `mask` and `data_size`: as they were in memory, NULL, or arrays.
pub data Content : Type 0 where
  unset_content : Content
  no_content : Content
  content : Bytes → Content

-- `symbol_t`; the newest relocation is first.
pub record GameSymbol : Type 0 where
  pub index : ℕ
  pub name : List ℕ
  pub size : ℕ
  pub offset : ℕ
  pub bytes : Content
  pub debugging : Bool
  pub relocations : List SymbolRelocation

-- `sscanf` with `%x`, and with `%u` or `%d`: 32 bits, or none where it does not give 1. `old_size` and
-- `old_offset` are what memory held at the place of a new symbol, `old_bytes` in its two arrays.
pub record Given : Type 0 where
  pub scan_hex : List ℕ → Option ℕ
  pub scan_decimal : List ℕ → Option ℕ
  pub old_size : ℕ → ℕ
  pub old_offset : ℕ → ℕ
  pub old_bytes : ℕ → ℕ → ℕ
  pub old_masks : ℕ → ℕ → ℕ

-- A symbol is read, or a byte outside the array of its mask is written.
pub data Parsed {ℓ} (A : Type ℓ) : Type ℓ where
  parsed : A → Parsed A
  outside : Parsed A

abbrev pub parse_then {ℓ κ} : {A : Type ℓ} {B : Type κ} → Parsed A → (A → Parsed B) → Parsed B
parse_then (parsed a) f = f a
parse_then outside f = outside

abbrev pub scan_number : Given → List ℕ → Option ℕ
scan_number given t = elim (given.scan_hex t) [ some v ↦ some v | none ↦ given.scan_decimal t ]

-- An attribute that may be missing, for which 0 stands then.
abbrev pub scan_attribute : Given → Option (List ℕ) → Option ℕ
scan_attribute given none = some 0
scan_attribute given (some t) = scan_number given t

-- `symbol_relocation_strings`
pub record RelocationString : Type 0 where
  pub relocation : ℕ
  pub name : List ℕ
  pub mask : List ℕ

abbrev pub string_of : ℕ → List ℕ → List ℕ → RelocationString
string_of n name mask = record { relocation = n; name = name; mask = mask }

abbrev pub symbol_relocation_strings : List RelocationString
symbol_relocation_strings =
    string_of 1 (codes "addr") (0 ∷ 0 ∷ 0 ∷ 0 ∷ [])
    ∷ string_of 4 (codes "lo") (0xff ∷ 0xff ∷ 0 ∷ 0 ∷ [])
    ∷ string_of 5 (codes "hi") (0xff ∷ 0xff ∷ 0 ∷ 0 ∷ [])
    ∷ string_of 6 (codes "ha") (0xff ∷ 0xff ∷ 0 ∷ 0 ∷ [])
    ∷ string_of 10 (codes "b") (0xfc ∷ 0 ∷ 0 ∷ 3 ∷ [])
    ∷ string_of 11 (codes "bc") (0xff ∷ 0xff ∷ 0 ∷ 3 ∷ [])
    ∷ string_of 109 (codes "sda21") (0xff ∷ 0xe0 ∷ 0 ∷ 0 ∷ [])
    ∷ []

-- `strcasecmp`
abbrev pub lower : ℕ → ℕ
lower c = if leb b'A' c && leb c b'Z' then c + 32 else c

unfoldable pub find_string : List ℕ → List RelocationString → Option RelocationString
find_string t [] = none
find_string t (s ∷ ss) =
    let rest = find_string t ss in
    if bytes_eq (map lower t) (map lower s.name) then some s else rest

-- `a & b` of two bytes.
abbrev pub byte_and : ℕ → ℕ → ℕ
byte_and a b = 16 * nibble_and (a / 16 % 16) (b / 16 % 16) + nibble_and (a % 16) (b % 16)

-- The bytes of the mask from a place on.
unfoldable pub mask_bytes : ℕ → List ℕ → Bytes → Parsed Bytes
mask_bytes i [] b = parsed b
mask_bytes i (m ∷ ms) b =
    let rest =
      mask_bytes (suc i) ms (record b { masks = update b.masks i (byte_and (b.masks i) m) }) in
    if ltb i b.data_size then rest else outside

abbrev pub with_bytes : GameSymbol → Parsed Bytes → Parsed GameSymbol
with_bytes s outside = outside
with_bytes s (parsed b) = parsed (record s { bytes = content b })

-- What is fixed by a relocation is masked, where the symbol has bytes there.
abbrev pub mask_relocation : ℕ → List ℕ → Content → GameSymbol → Parsed GameSymbol
mask_relocation offset mask (content b) s =
    if leb s.offset offset then with_bytes s (mask_bytes (offset - s.offset) mask b) else parsed s
mask_relocation offset mask no_content s = parsed s
mask_relocation offset mask unset_content s = parsed s

-- `Symbol_AddRelocation`
abbrev pub add_relocation : Option (List ℕ) → ℕ → ℕ → GameSymbol → GameSymbol
add_relocation none type offset s = s
add_relocation (some t) type offset s = record s {
  relocations = record { target = t; type = type; offset = offset } ∷ s.relocations;
}

abbrev pub parse_found :
    XmlReloc → Option RelocationString → Option ℕ → GameSymbol → Parsed GameSymbol
parse_found x none o s = parsed s
parse_found x (some r) none s = parsed s
parse_found x (some r) (some offset) s =
    if ltb s.size ((offset + 4) % 2 ^ 32)
    then parsed s
    else parse_then (mask_relocation offset r.mask s.bytes s)
        (λ s'. parsed (add_relocation x.target_text r.relocation offset s'))

abbrev pub parse_attributes :
    Given → XmlReloc → Option (List ℕ) → Option (List ℕ) → GameSymbol → Parsed GameSymbol
parse_attributes given x none o s = parsed s
parse_attributes given x (some t) none s = parsed s
parse_attributes given x (some t) (some o) s =
    parse_found x (find_string t symbol_relocation_strings) (scan_number given o) s

-- A round of the loop over <reloc>.
abbrev pub parse_reloc : Given → XmlReloc → GameSymbol → Parsed GameSymbol
parse_reloc given x s = parse_attributes given x x.type_text x.offset_text s

unfoldable pub parse_relocs : Given → List XmlReloc → GameSymbol → Parsed GameSymbol
parse_relocs given [] s = parsed s
parse_relocs given (x ∷ xs) s = parse_then (parse_reloc given x s) (parse_relocs given xs)

-- `symbol->offset += symbol->data_size`
abbrev pub content_size : Content → ℕ
content_size (content b) = b.data_size
content_size no_content = 0
content_size unset_content = 0

abbrev pub add_data_size : GameSymbol → GameSymbol
add_data_size s = record s { offset = (s.offset + content_size s.bytes) % 2 ^ 32 }

abbrev pub finish_symbol : Given → List XmlReloc → GameSymbol → Parsed GameSymbol
finish_symbol given xs s = parse_then (parse_relocs given xs s) (λ s'. parsed (add_data_size s'))

abbrev pub parse_bytes : Given → XmlSymbol → GameSymbol → Option Bytes → Parsed GameSymbol
parse_bytes given x s none = parsed s
parse_bytes given x s (some b) = finish_symbol given x.relocs (record s { bytes = content b })

-- The element <data>, and what follows it.
abbrev pub parse_content :
    Given → XmlSymbol → Option (List (List ℕ)) → GameSymbol → Parsed GameSymbol
parse_content given x none s = finish_symbol given x.relocs (record s { bytes = no_content })
parse_content given x (some ts) s =
    parse_bytes given x s (parse_data ts (given.old_bytes s.index) (given.old_masks s.index))

abbrev pub parse_offset : Given → XmlSymbol → Option ℕ → GameSymbol → Parsed GameSymbol
parse_offset given x none s = parsed s
parse_offset given x (some o) s = parse_content given x x.data_texts (record s { offset = o })

abbrev pub parse_size : Given → XmlSymbol → Option ℕ → GameSymbol → Parsed GameSymbol
parse_size given x none s = parsed s
parse_size given x (some n) s =
    parse_offset given x (scan_attribute given x.offset_text) (record s { size = n })

-- `Symbol_AllocSymbol`
abbrev pub alloc_symbol : Given → Bool → ℕ → List ℕ → GameSymbol
alloc_symbol given debug index name = record {
  index = index;
  name = name;
  size = given.old_size index;
  offset = given.old_offset index;
  bytes = unset_content;
  debugging = debug;
  relocations = [];
}

-- A round of the loop over <symbol>; without a name there is no symbol.
abbrev pub parse_named :
    Given → Bool → XmlSymbol → Option (List ℕ) → List GameSymbol → Parsed (List GameSymbol)
parse_named given debug x none symbols = parsed symbols
parse_named given debug x (some name) symbols =
    parse_then
      (parse_size given x (scan_attribute given x.size_text)
        (alloc_symbol given debug (length symbols) name))
      (λ s. parsed (symbols ++ (s ∷ [])))

unfoldable pub parse_symbols :
    Given → Bool → List XmlSymbol → List GameSymbol → Parsed (List GameSymbol)
parse_symbols given debug [] symbols = parsed symbols
parse_symbols given debug (x ∷ xs) symbols =
    parse_then (parse_named given debug x x.name_text symbols) (parse_symbols given debug xs)

abbrev pub is_on : Option (List ℕ) → Bool
is_on none = false
is_on (some t) = bytes_eq t (codes "on")

-- `Symbol_ParseFile`: its result, and the symbols with those of the file.
abbrev pub parse_file :
    Given → Option XmlSymbols → List GameSymbol → Parsed (Bool × List GameSymbol)
parse_file given none symbols = parsed (false, symbols)
parse_file given (some x) symbols =
    parse_then (parse_symbols given (is_on x.debug_text) x.xml_symbols symbols)
      (λ ss. parsed (true, ss))
