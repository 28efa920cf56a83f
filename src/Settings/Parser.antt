-- ===== src/Settings/Parser.antt =====
-- `settings_parseUpdate` and `settings_load`.
use netslugplus.Base.{
  ℕ, ◌+◌, ◌/◌, ◌%◌, Bool, true, false, not, ◌&&◌, ◌||◌, ◌==◌, if◌then◌else◌, List, [], ◌∷◌, ◌++◌,
  Option, none, some, length,
}
use netslugplus.Settings.Types.{Setting, Category, Store, FileParseState, buffer_room, same_name}
use netslugplus.Settings.Commit.{commit}

unfoldable pub find_category : List ℕ → List Category → Option Category
unfolding same_name
find_category t [] = none
find_category t (c ∷ cs) = if same_name c.name t then some c else find_category t cs

unfoldable pub find_setting : List ℕ → List Setting → Option Setting
unfolding same_name
find_setting t [] = none
find_setting t (s ∷ ss) = if same_name s.name t then some s else find_setting t ss

-- `settings_parseCategory`
unfoldable pub parse_category : List Category → FileParseState → FileParseState
unfolding find_category
parse_category cats p = record p { category = find_category p.buffer cats; state = 0; buffer = [] }

abbrev pub is_none {ℓ} : {A : Type ℓ} → Option A → Bool
is_none none = true
is_none (some _) = false

-- `settings_parseName`, where a category is chosen.
unfoldable pub parse_name : Category → FileParseState → FileParseState
unfolding find_setting
parse_name c p =
    let s = find_setting p.buffer c.settings in
    record p { value = s; state = if is_none s then 2 else 0; buffer = [] }

-- The bits of `state`.
abbrev pub in_line : FileParseState → Bool
in_line p = p.state % 4 == 0

abbrev pub has_space : FileParseState → Bool
has_space p = p.state / 4 % 2 == 1

abbrev pub fail : FileParseState → FileParseState
fail p = record p { state = 2 }

abbrev pub is_full : List ℕ → Bool
is_full t = length t == buffer_room

-- Any other byte. The bit for a space is not cleared.
unfoldable pub put_char : ℕ → FileParseState → FileParseState
put_char c p =
    let spaced = if has_space p then p.buffer ++ (b' ' ∷ []) else p.buffer in
    if not (in_line p || p.state == 3)
    then p
    else if has_space p && is_full p.buffer
    then fail p
    else if is_full spaced
    then record p { state = 2; buffer = spaced }
    else record p { buffer = spaced ++ (c ∷ []) }

abbrev pub on_parser :
    (FileParseState → FileParseState) → FileParseState × Store → FileParseState × Store
on_parser f (p, st) = (f p, st)

unfoldable pub on_hash : FileParseState × Store → FileParseState × Store
on_hash (p, st) =
    if in_line p
    then on_parser (λ q. record q { state = 1 }) (commit (p, st))
    else if p.state == 3
    then (fail p, st)
    else (p, st)

unfoldable pub on_newline : FileParseState × Store → FileParseState × Store
on_newline (p, st) =
    on_parser (λ q. record q { value = none; state = 0; buffer = [] })
      (if in_line p then commit (p, st) else (p, st))

unfoldable pub on_open : FileParseState → FileParseState
on_open p =
    if not (length p.buffer == 0) || not (is_none p.value) || not (in_line p)
    then fail p
    else record p { state = 3 }

unfoldable pub on_close : List Category → FileParseState → FileParseState
unfolding parse_category
on_close cats p = if p.state == 3 then parse_category cats p else if in_line p then fail p else p

unfoldable pub on_equals : FileParseState → FileParseState
unfolding parse_name
on_equals p =
    if in_line p
    then elim p.category [ none ↦ fail p | some c ↦ parse_name c p ]
    else if p.state == 3
    then fail p
    else p

unfoldable pub on_blank : FileParseState → FileParseState
on_blank p =
    if in_line p && not (length p.buffer == 0)
    then record p { state = if has_space p then p.state else p.state + 4 }
    else if p.state == 3
    then fail p
    else p

-- One round of `settings_parseUpdate`.
unfoldable pub parse_byte : List Category → ℕ → FileParseState × Store → FileParseState × Store
parse_byte cats c w =
    if c == 0
    then w
    else if c == b'#'
    then on_hash w
    else if c == b'\n' || c == b'\r'
    then on_newline w
    else if c == b'['
    then on_parser on_open w
    else if c == b']'
    then on_parser (on_close cats) w
    else if c == b'='
    then on_parser on_equals w
    else if c == b' ' || c == b'\t'
    then on_parser on_blank w
    else on_parser (put_char c) w

unfoldable pub parse_update :
    List Category → List ℕ → FileParseState × Store → FileParseState × Store
parse_update cats [] w = w
parse_update cats (c ∷ cs) w = parse_update cats cs (parse_byte cats c w)

abbrev pub fresh : FileParseState
fresh = record { category = none; value = none; state = 0; buffer = [] }

abbrev pub at_eof : FileParseState × Store → Store
at_eof (p, st) = (if in_line p then commit (p, st) else (p, st)).1

-- `settings_load`, for a file that can be opened and read.
unfoldable pub load : List Category → List ℕ → Store → Store
load cats file st = at_eof (parse_update cats file (fresh, st))
