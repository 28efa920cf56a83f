-- ===== src/Search/Fsm/Hits.antt =====
-- The label after some nibbles, and the nibbles that end with the symbol.
use netslugplus.Base.{
  ℕ, zero, suc, ◌≡◌, refl, ap, ◌∙◌, arith, Bool, true, false, not, ◌&&◌, ◌||◌, ◌==◌, List, [], ◌∷◌,
}
use netslugplus.Search.Fsm.Create.{Nibble}
use netslugplus.Search.Fsm.Labels.{Label, accepts, advance, step}

-- Texts that were read are written here with the last nibble, or the last byte, first.
abbrev pub canon : List Nibble → List ℕ → Label
canon pattern [] = (true, 0 ∷ [])
canon pattern (j ∷ w) = step pattern j (canon pattern w)

abbrev pub has : ℕ → List ℕ → Bool
has d [] = false
has d (x ∷ xs) = x == d || has d xs

abbrev pub is_even : List ℕ → Bool
is_even [] = true
is_even (j ∷ w) = not (is_even w)

-- The last `d` nibbles are the first `d` of the symbol, and begin with a byte.
abbrev pub hits : List Nibble → ℕ → List ℕ → Bool
hits pattern zero w = is_even w
hits pattern (suc d) [] = false
hits pattern (suc d) (j ∷ w) = accepts pattern d j && hits pattern d w

and_or : (a b c : Bool) → a && (b || c) ≡ (a && b) || (a && c)
and_or true b c = refl
and_or false b c = refl

has-advance :
    (pattern : List Nibble) (j : ℕ) (even : Bool) (d : ℕ) (ds : List ℕ)
    → has (suc d) (advance pattern j even ds) ≡ accepts pattern d j && has d ds
has-advance pattern j true d [] = ground arith
has-advance pattern j false d [] = ground arith
has-advance pattern j even d (x ∷ ds) = ground (arith, has-advance pattern j even d ds)

has_zero-advance :
    (pattern : List Nibble) (j : ℕ) (even : Bool) (ds : List ℕ)
    → has 0 (advance pattern j even ds) ≡ not even
has_zero-advance pattern j true [] = refl
has_zero-advance pattern j false [] = refl
has_zero-advance pattern j even (x ∷ ds) = ground (arith, has_zero-advance pattern j even ds)

pub canon-is_even : (pattern : List Nibble) (w : List ℕ) → (canon pattern w).0 ≡ is_even w
canon-is_even pattern [] = refl
canon-is_even pattern (j ∷ w) = ap not (canon-is_even pattern w)

pub has-canon :
    (pattern : List Nibble) (d : ℕ) (w : List ℕ) → has d (canon pattern w).1 ≡ hits pattern d w
has-canon pattern zero [] = refl
has-canon pattern (suc d) [] = ground arith
has-canon pattern zero (j ∷ w) =
    has_zero-advance pattern j (canon pattern w).0 (canon pattern w).1
    ∙ ap not (canon-is_even pattern w)
has-canon pattern (suc d) (j ∷ w) =
    has-advance pattern j (canon pattern w).0 d (canon pattern w).1
    ∙ ap (λ b. accepts pattern d j && b) (has-canon pattern d w)
