-- ===== src/Settings/Buffer.antt =====
-- The parser's buffer.
use netslugplus.Base.{
  ℕ, ◌+◌, ◌*◌, ◌≤◌, ◌≡◌, refl, ◌∙◌, arith, Bool, false, List, [], ◌∷◌, ◌++◌, length, length-append,
  append_nil, append_assoc, ◌==◌, ◌||◌, none, some, Option,
}
use netslugplus.Settings.Types.{VariableType, Setting, Category, Store, FileParseState}
use netslugplus.Settings.Parser.{
  parse_byte, parse_update, put_char, on_hash, on_newline, on_open, on_close, on_equals, on_blank,
  parse_category, parse_name,
}
use netslugplus.Settings.Commit.{commit, commit_option, commit_value, commit_int}

abbrev pub is_markup : ℕ → Bool
is_markup c =
    c == 0
    || c == b'#'
    || c == b'\n'
    || c == b'\r'
    || c == b'['
    || c == b']'
    || c == b'='
    || c == b' '
    || c == b'\t'

-- The text and its closing 0 fit the array of 256 bytes.
abbrev pub Fits : FileParseState × Store → Type 0
Fits (p, st) = length p.buffer ≤ 255

put_char-Fits : (c : ℕ) (p : FileParseState) (st : Store) → Fits (p, st) → Fits (put_char c p, st)
unfolding put_char
put_char-Fits c p st h = ground (
  arith,
  length-append p.buffer (b' ' ∷ []),
  length-append p.buffer (c ∷ []),
  length-append (p.buffer ++ (b' ' ∷ [])) (c ∷ []),
)

commit_value-buffer :
    (k : VariableType) (s : Setting) (w : FileParseState × Store)
    → (commit_value k s w).0.buffer ≡ w.0.buffer
unfolding commit_value commit_int
commit_value-buffer k s w = ground arith

commit_option-buffer :
    (o : Option Setting) (w : FileParseState × Store) → (commit_option o w).0.buffer ≡ w.0.buffer
unfolding commit_option
commit_option-buffer none w = refl
commit_option-buffer (some s) w = ground (arith, commit_value-buffer s.kind s w)

-- The steps on a byte of markup make the text no longer.
parse_byte-Fits :
    (cats : List Category) (c : ℕ) (w : FileParseState × Store)
    → Fits w
    → Fits (parse_byte cats c w)
unfolding parse_byte on_hash on_newline on_open on_close on_equals on_blank commit parse_category
    parse_name
parse_byte-Fits cats c (p, st) h =
    ground (arith, commit_option-buffer p.value (p, st), put_char-Fits c p st)

-- Whatever the file holds: the text in the parser's buffer and its closing 0 stay inside the array
-- of 256 bytes.
pub parse_update-Fits :
    (cats : List Category) (file : List ℕ) (w : FileParseState × Store)
    → Fits w
    → Fits (parse_update cats file w)
unfolding parse_update
parse_update-Fits cats [] w h = h
parse_update-Fits cats (c ∷ cs) w h =
    parse_update-Fits cats cs (parse_byte cats c w) (parse_byte-Fits cats c w h)

-- A space between each two bytes.
abbrev pub spaced : List ℕ → List ℕ
spaced [] = []
spaced (c ∷ cs) = b' ' ∷ c ∷ spaced cs

-- A byte that is no markup and no space.
abbrev pub IsText : List ℕ → Type 0
IsText [] = Unit
IsText (c ∷ cs) = (is_markup c ≡ false) × IsText cs

put_spaced :
    (cats : List Category) (c : ℕ) (p : FileParseState) (st : Store)
    → is_markup c ≡ false
    → p.state ≡ 4
    → length p.buffer + 2 ≤ 255
    → parse_byte cats c (p, st) ≡ (record p { buffer = p.buffer ++ (b' ' ∷ c ∷ []) }, st)
unfolding parse_byte put_char
put_spaced cats c p st h s room =
    ground (arith, length-append p.buffer (b' ' ∷ []), append_assoc p.buffer (b' ' ∷ []) (c ∷ []))

-- In a line in which a space was met, where the buffer has room: each byte of text gets a space
-- before it, and not the first one only.
pub parse_update-spaced :
    (cats : List Category) (text : List ℕ) (p : FileParseState) (st : Store)
    → IsText text
    → p.state ≡ 4
    → length p.buffer + 2 * length text ≤ 255
    → parse_update cats text (p, st) ≡ (record p { buffer = p.buffer ++ spaced text }, st)
unfolding parse_update
parse_update-spaced cats [] p st h s room = rw (append_nil p.buffer) refl
parse_update-spaced cats (c ∷ cs) p st (h, hs) s room =
    rw (put_spaced cats c p st h s (omega arith)) (
      parse_update-spaced cats cs (record p { buffer = p.buffer ++ (b' ' ∷ c ∷ []) }) st hs s
        (omega (arith, length-append p.buffer (b' ' ∷ c ∷ [])))
      ∙ rw (append_assoc p.buffer (b' ' ∷ c ∷ []) (spaced cs)) refl)
