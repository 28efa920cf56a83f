-- ===== src/Search/Fsm/Found.antt =====
-- What `FSM_Run` finds with the machine of `FSM_Create` in src/search/fsm.c, by the bytes of the symbol.
use netslugplus.Base.{
  ℕ, zero, suc, ◌/◌, ◌%◌, ◌≡◌, ◌<◌, refl, ap, ◌∙◌, subst, arith, Bool, true, false, not, ◌&&◌,
  if◌then◌else◌, List, [], ◌∷◌, Option, none, some, get_elem?, length, All,
}
use netslugplus.Search.Fsm.{Fsm, run}
use netslugplus.Search.Fsm.Create.{nibble_matches, Masked, high, low, create, create_machine}
use netslugplus.Search.Fsm.Labels.{accepts}
use netslugplus.Search.Fsm.Halves.{nibbles}
use netslugplus.Search.Fsm.Machine.{create_machine-IsMachine}
use netslugplus.Search.Fsm.Hits.{is_even, hits}
use netslugplus.Search.Fsm.Match.{found, founds, run-founds}

-- The byte agrees with the symbol's in the bits of the mask.
abbrev pub byte_matches : Masked → ℕ → Bool
byte_matches x c = nibble_matches (high x) (c / 16) && nibble_matches (low x) (c % 16)

abbrev pub matches_at : Option Masked → ℕ → Bool
matches_at none c = false
matches_at (some x) c = byte_matches x c

-- What was read, its last byte first, ends with the first `d` bytes of the symbol.
abbrev pub ends_with : List Masked → ℕ → List ℕ → Bool
ends_with xs zero seen = true
ends_with xs (suc d) [] = false
ends_with xs (suc d) (c ∷ seen) = matches_at (get_elem? xs d) c && ends_with xs d seen

abbrev pub reports : ℕ → List Masked → List ℕ → List ℕ → List (List ℕ)
reports symbol xs seen [] = (if ends_with xs (length xs) seen then symbol ∷ [] else []) ∷ []
reports symbol xs seen (c ∷ cs) =
    (if ends_with xs (length xs) seen then symbol ∷ [] else []) ∷ reports symbol xs (c ∷ seen) cs

abbrev double : ℕ → ℕ
double zero = zero
double (suc d) = suc (suc (double d))

abbrev seen_nibbles : List ℕ → List ℕ
seen_nibbles [] = []
seen_nibbles (c ∷ cs) = c % 16 ∷ c / 16 ∷ seen_nibbles cs

length-nibbles : (xs : List Masked) → length (nibbles xs) ≡ double (length xs)
length-nibbles [] = refl
length-nibbles (x ∷ xs) = ap (λ n. suc (suc n)) (length-nibbles xs)

seen_nibbles-is_even : (seen : List ℕ) → is_even (seen_nibbles seen) ≡ true
seen_nibbles-is_even [] = refl
seen_nibbles-is_even (c ∷ seen) = ap (λ b. not (not b)) (seen_nibbles-is_even seen)

both_nibbles :
    (xs : List Masked) (d c : ℕ)
    → accepts (nibbles xs) (suc (double d)) (c % 16) && accepts (nibbles xs) (double d) (c / 16)
      ≡ matches_at (get_elem? xs d) c
both_nibbles [] d c = refl
both_nibbles (x ∷ xs) zero c = ground arith
both_nibbles (x ∷ xs) (suc d) c = both_nibbles xs d c

and_assoc : (a b c : Bool) → a && (b && c) ≡ (a && b) && c
and_assoc true b c = refl
and_assoc false b c = refl

hits-ends_with :
    (xs : List Masked) (d : ℕ) (seen : List ℕ)
    → hits (nibbles xs) (double d) (seen_nibbles seen) ≡ ends_with xs d seen
hits-ends_with xs zero seen = seen_nibbles-is_even seen
hits-ends_with xs (suc d) [] = refl
hits-ends_with xs (suc d) (c ∷ seen) =
    and_assoc (accepts (nibbles xs) (suc (double d)) (c % 16))
      (accepts (nibbles xs) (double d) (c / 16)) (hits (nibbles xs) (double d) (seen_nibbles seen))
    ∙ (ap (λ b. b && hits (nibbles xs) (double d) (seen_nibbles seen)) (both_nibbles xs d c)
        ∙ ap (λ b. matches_at (get_elem? xs d) c && b) (hits-ends_with xs d seen))

found-ends_with :
    (symbol : ℕ) (xs : List Masked) (seen : List ℕ)
    → found (nibbles xs) symbol (seen_nibbles seen)
      ≡ (if ends_with xs (length xs) seen then symbol ∷ [] else [])
found-ends_with symbol xs seen =
    ap (λ b. if b then symbol ∷ [] else [])
      (ap (λ n. hits (nibbles xs) n (seen_nibbles seen)) (length-nibbles xs)
        ∙ hits-ends_with xs (length xs) seen)

founds-reports :
    (symbol : ℕ) (xs : List Masked) (seen bytes : List ℕ)
    → founds (nibbles xs) symbol (seen_nibbles seen) bytes ≡ reports symbol xs seen bytes
founds-reports symbol xs seen [] = ap (λ l. l ∷ []) (found-ends_with symbol xs seen)
founds-reports symbol xs seen (c ∷ cs) =
    ap (λ l. l ∷ founds (nibbles xs) symbol (seen_nibbles (c ∷ seen)) cs)
      (found-ends_with symbol xs seen)
    ∙ ap (λ r. (if ends_with xs (length xs) seen then symbol ∷ [] else []) ∷ r)
        (founds-reports symbol xs (c ∷ seen) cs)

create_machine-run :
    (symbol : ℕ) (x : Masked) (xs : List Masked) (bytes : List ℕ)
    → All (λ c. c < 256) bytes
    → run 1 (create_machine symbol (x ∷ xs)) (create_machine symbol (x ∷ xs)).initial bytes
      ≡ some (reports symbol (x ∷ xs) [] bytes)
create_machine-run symbol x xs bytes small =
    let fsm = create_machine symbol (x ∷ xs) in
    let (lab, machine) = create_machine-IsMachine symbol x xs in
    run-founds (nibbles (x ∷ xs)) symbol fsm lab machine bytes fsm.initial [] small
      machine.initial_inside machine.initial_label refl
    ∙ ap some (founds-reports symbol (x ∷ xs) [] bytes)

pub create-machine :
    (symbol : ℕ) (xs : List Masked) {fsm : Fsm}
    → create symbol xs ≡ some fsm
    → create_machine symbol xs ≡ fsm
unfolding create
create-machine symbol xs e = ground arith

-- With the machine of a symbol of one byte or more, `FSM_Run` ends, and reports the symbol at
-- exactly the places, the end among them, where the bytes that were read end with the symbol's, in
-- the bits of their masks.
pub create-run :
    (symbol : ℕ) (x : Masked) (xs : List Masked) (bytes : List ℕ) {fsm : Fsm}
    → All (λ c. c < 256) bytes
    → create symbol (x ∷ xs) ≡ some fsm
    → run 1 fsm fsm.initial bytes ≡ some (reports symbol (x ∷ xs) [] bytes)
create-run symbol x xs bytes small e =
    subst (λ (f : Fsm). run 1 f f.initial bytes ≡ some (reports symbol (x ∷ xs) [] bytes))
      (create-machine symbol (x ∷ xs) e) (create_machine-run symbol x xs bytes small)
