-- ===== src/Settings/Commit.antt =====
-- `settings_commit`: the text of a value becomes the value of a variable.
use netslugplus.Base.{
  ℕ, zero, suc, ◌+◌, ◌-◌, ◌*◌, ◌/◌, ◌%◌, ◌^◌, Bool, true, false, not, ◌&&◌, ◌||◌, ◌==◌, ltb, leb,
  if◌then◌else◌, update, List, [], ◌∷◌, Option, none, some,
}
use netslugplus.Settings.Types.{
  VariableType, int, bool, char_ptr, ip, Setting, Store, FileParseState,
}

-- `*(buffer + location)`: the byte behind the text is 0.
abbrev pub head : List ℕ → ℕ
head [] = 0
head (c ∷ cs) = c

abbrev pub tail : List ℕ → List ℕ
tail [] = []
tail (c ∷ cs) = cs

abbrev pub is_digit : ℕ → Bool
is_digit c = leb b'0' c && leb c b'9'

-- The sign, and the text behind it.
unfoldable pub read_sign : List ℕ → Bool × List ℕ
read_sign t =
    if head t == b'+'
    then (false, tail t)
    else if head t == b'-'
    then (true, tail t)
    else (false, t)

-- The radix, and the text behind its mark.
unfoldable pub read_radix : List ℕ → ℕ × List ℕ
read_radix t =
    if head t == b'0' && (head (tail t) == b'x' || head (tail t) == b'X')
    then (16, tail (tail t))
    else if head t == b'b' || head t == b'B'
    then (2, tail t)
    else if head t == b'0'
    then (8, tail t)
    else (10, t)

unfoldable pub digit_value : ℕ → Option ℕ
digit_value c =
    if is_digit c
    then some (c - b'0')
    else if leb b'a' c && leb c b'z'
    then some (c - b'a' + 10)
    else if leb b'A' c && leb c b'Z'
    then some (c - b'A' + 10)
    else none

-- The loop over the digits; `none` where it returns.
unfoldable pub read_digits : ℕ → ℕ → List ℕ → Option ℕ
unfolding digit_value
read_digits radix value [] = some value
read_digits radix value (c ∷ cs) = elim (digit_value c) [
  | none ↦ none
  | some d ↦ if leb radix d then none else read_digits radix ((value * radix + d) % 2 ^ 32) cs
]

abbrev negate : Bool → ℕ → ℕ
negate neg v = if neg then (2 ^ 32 - v) % 2 ^ 32 else v

-- The number that a text stands for, by its bit pattern.
unfoldable pub parse_int : List ℕ → Option ℕ
unfolding read_sign read_radix read_digits
parse_int t =
    let (neg, t') = read_sign t in
    let (radix, t'') = read_radix t' in
    elim t'' [
      | [] ↦ none
      | c ∷ cs ↦ elim (read_digits radix 0 (c ∷ cs)) [ none ↦ none | some v ↦ some (negate neg v) ]
    ]

-- The order of two bit patterns as signed numbers.
unfoldable pub signed_lt : ℕ → ℕ → Bool
signed_lt a b = ltb ((a + 2 ^ 31) % 2 ^ 32) ((b + 2 ^ 31) % 2 ^ 32)

unfoldable pub parse_bool : List ℕ → Option ℕ
parse_bool t =
    let c = head t in
    if c == b'0' || c == b'f' || c == b'F' || c == b'n' || c == b'N'
    then some 0
    else if c == b'1' || c == b't' || c == b'T' || c == b'y' || c == b'Y'
    then some 1
    else none

abbrev pub at_end : List ℕ → Bool
at_end t = head t == b'.' || head t == 0

-- The low byte of the address takes one more digit.
unfoldable pub octet_step : ℕ → ℕ → ℕ
octet_step v c = v / 256 * 256 + (v % 256 * 10 + (c - b'0')) % 256

-- The inner loop, with the rounds left: up to three digits.
unfoldable pub read_octet : ℕ → ℕ → List ℕ → Option (ℕ × List ℕ)
unfolding octet_step
read_octet zero v t = some (v, t)
read_octet (suc n) v [] = none
read_octet (suc n) v (c ∷ t) =
    let v' = octet_step v c in
    let rest = read_octet n v' t in
    if not (is_digit c) then none else if at_end t then some (v', t) else rest

-- The outer loop, with the octets left. Behind the last one the text ends, or a point stands, which
-- shifts the address once more.
unfoldable pub read_octets : ℕ → ℕ → List ℕ → Option ℕ
unfolding read_octet
read_octets zero v t = some v
read_octets (suc n) v t = elim (read_octet 3 v t) [
  | none ↦ none
  | some (v', r) ↦
      let rest = read_octets n (v' * 256 % 2 ^ 32) (tail r) in
      if n == 0 && head r == 0 then some v' else if not (head r == b'.') then none else rest
]

unfoldable pub parse_ip : List ℕ → Option ℕ
unfolding read_octets
parse_ip t = read_octets 4 0 t

abbrev write_int : ℕ → Option ℕ → Store → Store
write_int a none st = st
write_int a (some v) st = record st { ints = update st.ints a v }

-- An `int` out of its range is an error, which is kept in the parser's state.
unfoldable pub commit_int : Setting → Option ℕ → FileParseState × Store → FileParseState × Store
commit_int s none w = w
commit_int s (some v) (p, st) =
    if signed_lt v s.min || signed_lt s.max v
    then (record p { state = 2 }, st)
    else (p, write_int s.address (some v) st)

unfoldable pub commit_value :
    VariableType → Setting → FileParseState × Store → FileParseState × Store
commit_value int s (p, st) = commit_int s (parse_int p.buffer) (p, st)
commit_value bool s (p, st) = (p, write_int s.address (parse_bool p.buffer) st)
commit_value char_ptr s (p, st) = (p, record st { texts = update st.texts s.address p.buffer })
commit_value ip s (p, st) = (p, write_int s.address (parse_ip p.buffer) st)

unfoldable pub commit_option : Option Setting → FileParseState × Store → FileParseState × Store
commit_option none w = w
commit_option (some s) (p, st) = if p.state % 4 == 0 then commit_value s.kind s (p, st) else (p, st)

unfoldable pub commit : FileParseState × Store → FileParseState × Store
commit (p, st) = commit_option p.value (p, st)
