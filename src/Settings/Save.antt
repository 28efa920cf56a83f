-- ===== src/Settings/Save.antt =====
-- `settings_save`: the bytes that it writes.
use netslugplus.Base.{
  ℕ, zero, suc, ◌+◌, ◌-◌, ◌/◌, ◌%◌, ◌^◌, Bool, false, not, ◌||◌, ◌==◌, ltb, if◌then◌else◌, List, [],
  ◌∷◌, ◌++◌, Option, none, some, codes,
}
use netslugplus.Settings.Types.{VariableType, int, bool, char_ptr, ip, Setting, Category, Store}

-- The decimal digits of a number below 10 ^ fuel.
unfoldable pub decimal : ℕ → ℕ → List ℕ
decimal zero n = []
decimal (suc fuel) n =
    let before = decimal fuel (n / 10) in
    if ltb n 10 then (n + b'0') ∷ [] else before ++ ((n % 10 + b'0') ∷ [])

-- `%d` of an `int`, by its bit pattern.
unfoldable pub print_int : ℕ → List ℕ
print_int v = if ltb v (2 ^ 31) then decimal 10 v else b'-' ∷ decimal 10 (2 ^ 32 - v)

-- The bytes of an address stand in memory with the highest first.
unfoldable pub print_ip : ℕ → List ℕ
print_ip v =
    decimal 3 (v / 2 ^ 24 % 256)
    ++ (b'.'
        ∷ (decimal 3 (v / 2 ^ 16 % 256)
            ++ (b'.' ∷ (decimal 3 (v / 2 ^ 8 % 256) ++ (b'.' ∷ decimal 3 (v % 256))))))

unfoldable pub print_value : VariableType → Setting → Store → List ℕ
print_value int s st = print_int (st.ints s.address)
print_value bool s st = if st.ints s.address == 0 then codes "no" else codes "yes"
print_value char_ptr s st = st.texts s.address
print_value ip s st = print_ip (st.ints s.address)

abbrev crlf : List ℕ
crlf = b'\r' ∷ b'\n' ∷ []

abbrev comment_line : Option (List ℕ) → List ℕ
comment_line none = []
comment_line (some t) = codes "# " ++ (t ++ crlf)

unfoldable pub save_setting : Setting → Store → List ℕ
save_setting s st =
    comment_line s.comment ++ (s.name ++ (codes " = " ++ (print_value s.kind s st ++ crlf)))

abbrev shows : Setting → Store → Bool
shows s st = not s.hidden || not (st.ints s.address == s.default_value)

-- The settings of a category; the flag says that the category's line is written.
unfoldable pub save_settings : List ℕ → Bool → List Setting → Store → List ℕ
save_settings title written [] st = []
save_settings title written (s ∷ ss) st =
    let rest = save_settings title (written || shows s st) ss st in
    (if shows s st
      then (if written then [] else crlf ++ (b'[' ∷ (title ++ (b']' ∷ crlf)))) ++ save_setting s st
      else [])
    ++ rest

unfoldable pub save_categories : List Category → Store → List ℕ
save_categories [] st = []
save_categories (c ∷ cs) st = save_settings c.name false c.settings st ++ save_categories cs st

unfoldable pub save : List Category → Store → List ℕ
save cats st = codes "# Auto generated config for netslug" ++ (crlf ++ save_categories cats st)
