-- ===== src/Settings/Text.antt =====
-- The bytes of a value on their way through the parser.
use netslugplus.Base.{
  ℕ, zero, suc, ◌+◌, ◌-◌, ◌/◌, ◌%◌, ◌^◌, ◌<◌, ◌≤◌, ◌≡◌, ◌∙◌, refl, arith, false, List, [], ◌∷◌,
  ◌++◌, append_nil, append_assoc, length, length-append, Bool-cases, inl, inr, ltb, ltb→lt,
}
use netslugplus.Settings.Types.{Category, Store, FileParseState}
use netslugplus.Settings.Parser.{parse_byte, parse_update, put_char}
use netslugplus.Settings.Buffer.{is_markup, IsText}
use netslugplus.Settings.Save.{decimal, print_ip, print_int}

pub parse_update-append :
    (cats : List Category) (xs ys : List ℕ) (w : FileParseState × Store)
    → parse_update cats (xs ++ ys) w ≡ parse_update cats ys (parse_update cats xs w)
unfolding parse_update
parse_update-append cats [] ys w = refl
parse_update-append cats (x ∷ xs) ys w = parse_update-append cats xs ys (parse_byte cats x w)

parse_byte-text :
    (cats : List Category) (c : ℕ) (p : FileParseState) (st : Store)
    → is_markup c ≡ false
    → p.state ≡ 0
    → length p.buffer + 1 ≤ 255
    → parse_byte cats c (p, st) ≡ (record p { buffer = p.buffer ++ (c ∷ []) }, st)
unfolding parse_byte put_char
parse_byte-text cats c p st h s room = ground arith

pub parse_update-text :
    (cats : List Category) (text : List ℕ) (p : FileParseState) (st : Store)
    → IsText text
    → p.state ≡ 0
    → length p.buffer + length text ≤ 255
    → parse_update cats text (p, st) ≡ (record p { buffer = p.buffer ++ text }, st)
unfolding parse_update
parse_update-text cats [] p st h s room = rw (append_nil p.buffer) refl
parse_update-text cats (c ∷ cs) p st (h, hs) s room =
    rw (parse_byte-text cats c p st h s (omega arith)) (
      parse_update-text cats cs (record p { buffer = p.buffer ++ (c ∷ []) }) st hs s
        (omega (arith, length-append p.buffer (c ∷ [])))
      ∙ rw (append_assoc p.buffer (c ∷ []) cs) refl)

pub IsText-append : (xs ys : List ℕ) → IsText xs → IsText ys → IsText (xs ++ ys)
IsText-append [] ys h k = k
IsText-append (x ∷ xs) ys h k = (h.0, IsText-append xs ys h.1 k)

digit-IsText : (d : ℕ) → d < 10 → is_markup (d + b'0') ≡ false
digit-IsText d h = ground arith

pub decimal-IsText : (fuel n : ℕ) → IsText (decimal fuel n)
unfolding decimal
decimal-IsText zero n = tt
decimal-IsText (suc fuel) n = elim (Bool-cases (ltb n 10)) [
  | inl e ↦ rw e (digit-IsText n (ltb→lt n 10 e), tt)
  | inr e ↦ rw e (
      IsText-append (decimal fuel (n / 10)) _ (decimal-IsText fuel (n / 10))
        (digit-IsText (n % 10) (omega arith), tt))
]

pub length-decimal : (fuel n : ℕ) → length (decimal fuel n) ≤ fuel
unfolding decimal
length-decimal zero n = omega arith
length-decimal (suc fuel) n = ground (
  arith,
  length-decimal fuel (n / 10),
  length-append (decimal fuel (n / 10)) ((n % 10 + b'0') ∷ []),
)

pub print_int-IsText : (v : ℕ) → IsText (print_int v)
unfolding print_int
print_int-IsText v = ground (arith, decimal-IsText 10 v, decimal-IsText 10 (2 ^ 32 - v))

pub length-print_int : (v : ℕ) → length (print_int v) ≤ 11
unfolding print_int
length-print_int v = ground (arith, length-decimal 10 v, length-decimal 10 (2 ^ 32 - v))

-- An octet and the point behind it.
IsText-point : (o : ℕ) (rest : List ℕ) → IsText rest → IsText (decimal 3 o ++ (b'.' ∷ rest))
IsText-point o rest h = IsText-append (decimal 3 o) (b'.' ∷ rest) (decimal-IsText 3 o) (refl, h)

length-point :
    (o n : ℕ) (rest : List ℕ) → length rest ≤ n → length (decimal 3 o ++ (b'.' ∷ rest)) ≤ n + 4
length-point o n rest h =
    omega (arith, length-append (decimal 3 o) (b'.' ∷ rest), length-decimal 3 o)

pub print_ip-IsText : (v : ℕ) → IsText (print_ip v)
unfolding print_ip
print_ip-IsText v =
    IsText-point _ _ (IsText-point _ _ (IsText-point _ _ (decimal-IsText 3 (v % 256))))

pub length-print_ip : (v : ℕ) → length (print_ip v) ≤ 15
unfolding print_ip
length-print_ip v =
    length-point _ 11 _ (length-point _ 7 _ (length-point _ 3 _ (length-decimal 3 (v % 256))))
