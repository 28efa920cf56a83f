-- ===== src/Search/Text.antt =====
-- The text of a symbol's bytes, two hexadecimal digits or `?` each: the two loops of
-- `Symbol_ParseFile` of src/search/symbol.c over the element <data>. Memory is enough.
pub mod Spells
pub mod Fill
pub mod Parsed
use netslugplus.Base.{
  ℕ, zero, suc, ◌+◌, ◌-◌, ◌*◌, ◌/◌, ◌%◌, ◌<◌, ◌≡◌, refl, sym, ap, ◌∙◌, subst, arith, Bool, true,
  false, ◌&&◌, ◌||◌, ◌==◌, leb, if◌then◌else◌, List, [], ◌∷◌, ◌++◌, Option, none, some, length,
  update,
}
use netslugplus.Search.Fsm.Create.{Nibble, Masked}

-- A byte of the text, by the cases of both loops.
pub data Glyph : Type 0 where
  digit : Nibble → Glyph
  blank : Glyph
  stray : Glyph

abbrev pub hex : ℕ → Glyph
hex v = digit (record { value = v; mask = 15 })

unfoldable pub glyph : ℕ → Glyph
glyph c =
    if leb b'0' c && leb c b'9'
    then hex (c - b'0')
    else if leb b'a' c && leb c b'f'
    then hex (c - b'a' + 10)
    else if leb b'A' c && leb c b'F'
    then hex (c - b'A' + 10)
    else if c == b'?'
    then digit (record { value = 0; mask = 0 })
    else if c == 32 || c == 9 || c == 13 || c == 10
    then blank
    else stray

-- The first loop, on one text and on all: the number of digits, or none.
unfoldable pub count_text : List ℕ → ℕ → Option ℕ
count_text [] n = some n
count_text (c ∷ cs) n = elim (glyph c) [
  | digit d ↦ count_text cs (suc n)
  | blank ↦ count_text cs n
  | stray ↦ none
]

abbrev pub count_more : List ℕ → Option ℕ → Option ℕ
count_more t none = none
count_more t (some n) = count_text t n

unfoldable pub count_texts : List (List ℕ) → Option ℕ → Option ℕ
count_texts [] n = n
count_texts (t ∷ ts) n = count_texts ts (count_more t n)

-- The two arrays and the digits so far.
pub record Filling : Type 0 where
  pub bytes : ℕ → ℕ
  pub masks : ℕ → ℕ
  pub count : ℕ

-- `a[i] = (a[i] << 4) + v`, of bytes.
abbrev pub shift_in : ℕ → ℕ → ℕ
shift_in old v = (old * 16 + v) % 256

abbrev pub put_digit : Nibble → Filling → Filling
put_digit d f = record {
  bytes = update f.bytes (f.count / 2) (shift_in (f.bytes (f.count / 2)) d.value);
  masks = update f.masks (f.count / 2) (shift_in (f.masks (f.count / 2)) d.mask);
  count = suc f.count;
}

abbrev pub put_glyph : Glyph → Filling → Filling
put_glyph (digit d) f = put_digit d f
put_glyph blank f = f
put_glyph stray f = f

-- The second loop.
unfoldable pub fill_text : List ℕ → Filling → Filling
fill_text [] f = f
fill_text (c ∷ cs) f = fill_text cs (put_glyph (glyph c) f)

unfoldable pub fill_texts : List (List ℕ) → Filling → Filling
fill_texts [] f = f
fill_texts (t ∷ ts) f = fill_texts ts (fill_text t f)

-- `data`, `mask` and `data_size` of a symbol.
pub record Bytes : Type 0 where
  pub bytes : ℕ → ℕ
  pub masks : ℕ → ℕ
  pub data_size : ℕ

abbrev pub filled : ℕ → Filling → Bytes
filled n f = record { bytes = f.bytes; masks = f.masks; data_size = n / 2 }

-- Both loops, with what the two arrays hold before; none where the symbol is left as it is.
abbrev pub parse_counted : List (List ℕ) → (ℕ → ℕ) → (ℕ → ℕ) → Option ℕ → Option Bytes
parse_counted ts bytes masks none = none
parse_counted ts bytes masks (some n) =
    if n % 2 == 0
    then some (filled n (fill_texts ts (record { bytes = bytes; masks = masks; count = 0 })))
    else none

unfoldable pub parse_data : List (List ℕ) → (ℕ → ℕ) → (ℕ → ℕ) → Option Bytes
parse_data ts bytes masks = parse_counted ts bytes masks (count_texts ts (some 0))
