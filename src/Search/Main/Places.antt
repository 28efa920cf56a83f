-- ===== src/Search/Main/Places.antt =====
-- What `Search_Main` of src/search/search.c leaves for each symbol.
use netslugplus.Base.{
  ℕ, zero, suc, ◌<◌, ◌==◌, ◌≡◌, ◌≢◌, inl, inr, refl, sym, ap, ◌∙◌, subst, arith, true, false, not,
  if◌then◌else◌, List, [], ◌∷◌, ◌++◌, map, Option, none, some, get_elem?, length, All, ℕ_discrete,
  Bool-cases,
}
use netslugplus.Search.Symbols.{Global, symbol_match, is_exact}
use netslugplus.Search.Fsm.{Fsm, run}
use netslugplus.Search.Parse.{GameSymbol, Content, content, no_content, unset_content}
use netslugplus.Search.Build.{SizeEntry, by_size, create_content}
use netslugplus.Search.Build.Reports.{Sought, sought, sought_content, all_reports}
use netslugplus.Search.Build.Finds.{IsMade, build_fsm-run}
use netslugplus.Search.Main.{
  new_global, change_at, match_address, match_symbol, match_place, match_places, searched,
  search_main,
}

-- The addresses at which the symbol `k` was reported, in their order.
abbrev pub addresses_here : ℕ → ℕ → GameSymbol → List ℕ → List ℕ
addresses_here k place s [] = []
addresses_here k place s (j ∷ js) =
    (if j == k then match_address place s ∷ [] else []) ++ addresses_here k place s js

abbrev pub addresses : ℕ → ℕ → GameSymbol → List (List ℕ) → List ℕ
addresses k place s [] = []
addresses k place s (r ∷ rs) = addresses_here k place s r ++ addresses k (suc place) s rs

abbrev pub match_all : List ℕ → Global → Global
match_all [] g = g
match_all (a ∷ rest) g = match_all rest (symbol_match a g)

-- What is known of a symbol that was met at these addresses.
abbrev pub met_at : List ℕ → Global → Global
met_at [] g = g
met_at (a ∷ []) g = record g { address = a }
met_at (a ∷ b ∷ bs) g = record g { address = a; search_fail = not (is_exact g) }

match_all-append :
    (xs ys : List ℕ) (g : Global) → match_all (xs ++ ys) g ≡ match_all ys (match_all xs g)
match_all-append [] ys g = refl
match_all-append (a ∷ xs) ys g = match_all-append xs ys (symbol_match a g)

change_at_self :
    (k : ℕ) (f : Global → Global) (gs : List Global) {g : Global}
    → get_elem? gs k ≡ some g
    → get_elem? (change_at k f gs) k ≡ some (f g)
change_at_self k f [] e = absurd (cc)
change_at_self zero f (h ∷ gs) {g} e =
    ap (λ o. elim o [ none ↦ some (f g) | some x ↦ some (f x) ]) e
change_at_self (suc k) f (h ∷ gs) e = change_at_self k f gs e

change_at-ne :
    (j k : ℕ) (f : Global → Global) (gs : List Global)
    → j ≢ k
    → get_elem? (change_at j f gs) k ≡ get_elem? gs k
change_at-ne j k f [] ne = refl
change_at-ne zero zero f (h ∷ gs) ne = absurd (ne refl)
change_at-ne zero (suc k) f (h ∷ gs) ne = refl
change_at-ne (suc j) zero f (h ∷ gs) ne = refl
change_at-ne (suc j) (suc k) f (h ∷ gs) ne = change_at-ne j k f gs (λ e. ne (ap suc e))

match_symbol-ne :
    (place j k : ℕ) (o : Option GameSymbol) (gs : List Global)
    → j ≢ k
    → get_elem? (match_symbol place j o gs) k ≡ get_elem? gs k
match_symbol-ne place j k none gs ne = refl
match_symbol-ne place j k (some s) gs ne = change_at-ne j k _ gs ne

module _ (symbols : List GameSymbol) (k : ℕ) (s : GameSymbol)
    (own : get_elem? symbols k ≡ some s) where
  match_place-own :
      (place : ℕ) (js : List ℕ) (gs : List Global) {g : Global}
      → get_elem? gs k ≡ some g
      → get_elem? (match_place symbols place js gs) k
        ≡ some (match_all (addresses_here k place s js) g)
  unfolding match_place
  match_place-own place [] gs e = e
  match_place-own place (j ∷ js) gs {g} e = elim (ℕ_discrete j k) [
    | yes q ↦
        let here : get_elem? (match_symbol place j (get_elem? symbols j) gs) k
            ≡ some (symbol_match (match_address place s) g) =
          rw (q, own) (change_at_self k (symbol_match (match_address place s)) gs e) in
        let same : (j == k) ≡ true = ground (arith, q) in rw same (match_place-own place js _ here)
    | no ne ↦
        let here = match_symbol-ne place j k (get_elem? symbols j) gs ne ∙ e in
        let other : (j == k) ≡ false = ground (arith, ne) in
        rw other (match_place-own place js _ here)
  ]

  match_places-own :
      (place : ℕ) (rs : List (List ℕ)) (gs : List Global) {g : Global}
      → get_elem? gs k ≡ some g
      → get_elem? (match_places symbols place rs gs) k ≡ some (match_all (addresses k place s rs) g)
  unfolding match_places
  match_places-own place [] gs e = e
  match_places-own place (r ∷ rs) gs {g} e =
      match_places-own (suc place) rs _ (match_place-own place r gs e)
      ∙ ap some
          (sym (match_all-append (addresses_here k place s r) (addresses k (suc place) s rs) g))

-- A second address of a symbol that may be twice changes nothing.
match_all-exact :
    (xs : List ℕ) (g : Global) → is_exact g ≡ true → g.address ≢ 0 → match_all xs g ≡ g
unfolding symbol_match
match_all-exact [] g exact ne = refl
match_all-exact (a ∷ xs) g exact ne =
    let old : (g.address == 0) ≡ false = ground (arith, ne) in
    rw (old, exact) (match_all-exact xs g exact ne)

match_all-failed :
    (xs : List ℕ) (g : Global)
    → is_exact g ≡ false
    → g.address ≢ 0
    → g.search_fail ≡ true
    → match_all xs g ≡ g
unfolding symbol_match
match_all-failed [] g exact ne failed = refl
match_all-failed (a ∷ xs) g exact ne failed =
    let old : (g.address == 0) ≡ false = ground (arith, ne) in
    rw (old, exact)
      (subst (λ h. match_all xs h ≡ g) (ap (λ b. record g { search_fail = b }) failed)
        (match_all-failed xs g exact ne failed))

exact-failed : (g : Global) → is_exact (record g { search_fail = true }) ≡ is_exact g
unfolding is_exact
exact-failed g = refl

exact-at : (a : ℕ) (g : Global) → is_exact (record g { address = a }) ≡ is_exact g
unfolding is_exact
exact-at a g = refl

first_match : (a : ℕ) (g : Global) → g.address ≡ 0 → symbol_match a g ≡ record g { address = a }
unfolding symbol_match
first_match a g new = let free : (g.address == 0) ≡ true = ground (arith, new) in rw free refl

match_second :
    (b : ℕ) (xs : List ℕ) (g : Global)
    → g.address ≢ 0
    → g.search_fail ≡ false
    → match_all (b ∷ xs) g ≡ record g { search_fail = not (is_exact g) }
unfolding symbol_match
match_second b xs g ne fresh =
    let old : (g.address == 0) ≡ false = ground (arith, ne) in
    elim (Bool-cases (is_exact g)) [
      | inl exact ↦
          rw (old, exact)
            (match_all-exact xs g exact ne ∙ ap (λ c. record g { search_fail = c }) fresh)
      | inr loose ↦
          rw (old, loose)
            (match_all-failed xs (record g { search_fail = true }) (exact-failed g ∙ loose) ne refl)
    ]

match_all-met_at :
    (xs : List ℕ) (g : Global)
    → All (λ a. a ≢ 0) xs
    → g.address ≡ 0
    → g.search_fail ≡ false
    → match_all xs g ≡ met_at xs g
match_all-met_at [] g nonzero new fresh = refl
match_all-met_at (a ∷ []) g nonzero new fresh = first_match a g new
match_all-met_at (a ∷ b ∷ xs) g nonzero new fresh =
    ap (match_all (b ∷ xs)) (first_match a g new)
    ∙ match_second b xs (record g { address = a }) nonzero.0 fresh
    ∙ ap (λ c. record g { address = a; search_fail = not c }) (exact-at a g)

-- A symbol for which there is a machine is sought.
sought_content-length :
    (index : ℕ) (c : Content) {fsm : Fsm} {n : ℕ} (rest : List Sought)
    → create_content index c ≡ some fsm
    → length rest ≡ n
    → length (sought_content index c ++ rest) ≡ suc n
sought_content-length index no_content rest e h = absurd (cc)
sought_content-length index unset_content rest e h = absurd (cc)
sought_content-length index (content b) rest e h = ap suc h

sought-length : (os : List (Option GameSymbol)) → All IsMade os → length (sought os) ≡ length os
sought-length [] made = refl
sought-length (none ∷ os) (one, more) = absurd (cc one.1)
sought-length (some s ∷ os) (one, more) =
    sought_content-length s.index s.bytes (sought os) one.1 (sought-length os more)

get_elem?-map :
    (f : GameSymbol → Global) (ss : List GameSymbol) (k : ℕ) {s : GameSymbol}
    → get_elem? ss k ≡ some s
    → get_elem? (map f ss) k ≡ some (f s)
get_elem?-map f [] k e = absurd (cc)
get_elem?-map f (t ∷ ss) zero {s} e = ap (λ o. elim o [ none ↦ some (f s) | some x ↦ some (f x) ]) e
get_elem?-map f (t ∷ ss) (suc k) e = get_elem?-map f ss k e

-- Where there is a symbol, `FSM_Create` has a result for each, and the game's memory does not start
-- at 0: `Search_Main` ends. Where the symbol `k` was met, by the order of the addresses: at no place, it
-- stays without an address; else it has the first one, and counts as failed exactly if there is a
-- second one and it has a byte that is not fixed or has not all its bytes. None of the addresses is 0.
pub search_main-met_at :
    (qsort : List SizeEntry → List SizeEntry) (old_size : ℕ → ℕ) (symbols : List GameSymbol)
    (first : Option GameSymbol) (others : List (Option GameSymbol)) (start k : ℕ) (memory : List ℕ)
    (s : GameSymbol)
    → by_size qsort old_size symbols ≡ first ∷ others
    → All IsMade (first ∷ others)
    → All (λ c. c < 256) memory
    → start ≢ 0
    → get_elem? symbols k ≡ some s
    → All (λ a. a ≢ 0) (addresses k start s (all_reports (sought (first ∷ others)) [] memory))
    → (gs : List Global) × ((search_main qsort old_size symbols start memory ≡ some (searched gs))
        × (get_elem? gs k
            ≡ some (
                met_at
                  (addresses k start s (all_reports (sought (first ∷ others)) [] memory))
                  (new_global old_size s))))
unfolding search_main
search_main-met_at qsort old_size symbols first others start k memory s order made small ne own
      nonzero =
    let reports = all_reports (sought (first ∷ others)) [] memory in
    let globals = map (new_global old_size) symbols in
    let (fsm, (built, ran)) =
      build_fsm-run qsort old_size symbols first others memory order made small in
    let some_symbols : (length symbols == 0) ≡ false = has_symbols symbols k own in
    let started : (start == 0) ≡ false = ground (arith, ne) in
    let ran' : run (suc (length others)) fsm fsm.initial memory ≡ some reports =
      subst (λ n. run n fsm fsm.initial memory ≡ some reports) (sought-length (first ∷ others) made)
        ran in
    (
      match_places symbols start reports globals,
      (
        rw (some_symbols, built, order, started, ran') refl,
        match_places-own symbols k s own start reports globals
              (get_elem?-map (new_global old_size) symbols k own)
            ∙ ap some (
                match_all-met_at (addresses k start s reports) (new_global old_size s) nonzero refl
                  refl),
      ),
    )
  where
    has_symbols :
        (ss : List GameSymbol) (i : ℕ) → get_elem? ss i ≡ some s → (length ss == 0) ≡ false
    has_symbols [] i e = absurd (cc)
    has_symbols (t ∷ ss) i e = ground arith
