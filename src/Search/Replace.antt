-- ===== src/Search/Replace.antt =====
-- A symbol that is replaced, and looked up again.
use netslugplus.Base.{
  ℕ, zero, suc, ◌≡◌, ◌≢◌, refl, ap, ◌∙◌, arith, Bool, true, false, List, [], ◌∷◌, map, Option, none,
  some, drop, bytes_eq, bytes_eq_iff, Bool-cases, codes, subst, sym, inl, inr,
}
use netslugplus.Search.Symbols.{
  Global, Given, put_at, look_at, Tables, look, put, put_from, lookup_global, lookup_game,
  search_symbol, symbol_replace, global_name, start_name,
}

put-names :
    (name : List ℕ) (a : ℕ) (gs : List Global)
    → map global_name (put name a gs) ≡ map global_name gs
unfolding put
put-names name a [] = refl
put-names name a (g ∷ gs) = ground (arith, put-names name a gs)

put_from-names :
    (i : ℕ) (name : List ℕ) (a : ℕ) (gs : List Global)
    → map global_name (put_from i name a gs) ≡ map global_name gs
unfolding put_from
put_from-names zero name a gs = put-names name a gs
put_from-names (suc i) name a [] = refl
put_from-names (suc i) name a (g ∷ gs) = ap (λ ns. g.name ∷ ns) (put_from-names i name a gs)

drop-put_from :
    (i : ℕ) (name : List ℕ) (a : ℕ) (gs : List Global)
    → drop i (put_from i name a gs) ≡ put name a (drop i gs)
unfolding put_from put
drop-put_from zero name a gs = refl
drop-put_from (suc i) name a [] = refl
drop-put_from (suc i) name a (g ∷ gs) = drop-put_from i name a gs

look-put_same : (name : List ℕ) (a : ℕ) (gs : List Global) → look name a (put name a gs) ≡ a
unfolding look put
look-put_same name a [] = refl
look-put_same name a (g ∷ gs) = ground (arith, look-put_same name a gs)

look-put :
    (name : List ℕ) (a : ℕ) (gs : List Global)
    → a ≢ 0
    → look name 0 gs ≢ 0
    → look name 0 (put name a gs) ≡ a
unfolding look put
look-put name a [] ne h = absurd (h refl)
look-put name a (g ∷ gs) ne h = ground (arith, look-put name a gs ne, look-put_same name a gs)

module _ (name other : List ℕ) (a : ℕ) (ne : bytes_eq name other ≡ false) where
  apart : (g : Global) → bytes_eq g.name name ≡ true → bytes_eq g.name other ≡ false
  apart g e = rw ((bytes_eq_iff g.name name).0 e) ne

  look-put_ne : (r : ℕ) (gs : List Global) → look other r (put name a gs) ≡ look other r gs
  unfolding look put
  look-put_ne r [] = refl
  look-put_ne r (g ∷ gs) = ground (arith, apart g)

  look-put_from_ne :
      (i r : ℕ) (gs : List Global) → look other r (put_from i name a gs) ≡ look other r gs
  unfolding put_from look
  look-put_from_ne zero r gs = look-put_ne r gs
  look-put_from_ne (suc i) r [] = refl
  look-put_from_ne (suc i) r (g ∷ gs) =
      ground (arith, look-put_from_ne i r gs, look-put_from_ne i g.address gs)

  look-drop-put_ne :
      (j r : ℕ) (gs : List Global)
      → look other r (drop j (put name a gs)) ≡ look other r (drop j gs)
  unfolding put
  look-drop-put_ne zero r gs = look-put_ne r gs
  look-drop-put_ne (suc j) r [] = refl
  look-drop-put_ne (suc j) r (g ∷ gs) = ground (arith, look-drop-put_ne j r gs)

  look-drop-put_from_ne :
      (i j r : ℕ) (gs : List Global)
      → look other r (drop j (put_from i name a gs)) ≡ look other r (drop j gs)
  unfolding put_from
  look-drop-put_from_ne zero j r gs = look-drop-put_ne j r gs
  look-drop-put_from_ne (suc i) zero r gs = look-put_from_ne (suc i) r gs
  look-drop-put_from_ne (suc i) (suc j) r [] = refl
  look-drop-put_from_ne (suc i) (suc j) r (g ∷ gs) = look-drop-put_from_ne i j r gs

  look_at-put_from_ne :
      (i : ℕ) (gs : List Global) (o : Option ℕ)
      → look_at other (put_from i name a gs) o ≡ look_at other gs o
  look_at-put_from_ne i gs none = refl
  look_at-put_from_ne i gs (some j) = look-drop-put_from_ne i j 0 gs

  lookup_global-put_from_ne :
      (given : Given) (i : ℕ) (gs : List Global)
      → lookup_global given other (put_from i name a gs) ≡ lookup_global given other gs
  unfolding lookup_global
  lookup_global-put_from_ne given i gs =
      ap (λ ns. look_at other (put_from i name a gs) (search_symbol given other ns))
        (put_from-names i name a gs)
      ∙ look_at-put_from_ne i gs (search_symbol given other (map global_name gs))

lookup_global-put_from :
    (given : Given) (name : List ℕ) (a i : ℕ) (gs : List Global)
    → search_symbol given name (map global_name gs) ≡ some i
    → a ≢ 0
    → lookup_global given name gs ≢ 0
    → lookup_global given name (put_from i name a gs) ≡ a
unfolding lookup_global
lookup_global-put_from given name a i gs e ne h =
    ap (λ ns. look_at name (put_from i name a gs) (search_symbol given name ns))
      (put_from-names i name a gs)
    ∙ (ap (look_at name (put_from i name a gs)) e
        ∙ (ap (look name 0) (drop-put_from i name a gs)
            ∙ look-put name a (drop i gs) ne (λ z. h (ap (look_at name gs) e ∙ z))))

-- The names that stand for the apploader's addresses.
abbrev pub IsOrdinary : List ℕ → Type 0
IsOrdinary name =
    (bytes_eq name (codes "bslug_game_start") ≡ false)
    × (bytes_eq name (codes "bslug_game_end") ≡ false)

-- What `symbol_replace` promises: it succeeds, the symbol has the new address, others keep theirs.
abbrev IsReplaced : Given → List ℕ → ℕ → Tables → Bool × Tables → Type 0
IsReplaced given name a t (ok, t') =
    (ok ≡ true)
    × (lookup_game given name t' ≡ a)
    × ((other : List ℕ)
        → bytes_eq name other ≡ false
        → lookup_game given other t' ≡ lookup_game given other t)

lookup_game-same :
    (given : Given) (name : List ℕ) (t t' : Tables)
    → t'.start ≡ t.start
    → lookup_global given name t'.globals ≡ lookup_global given name t.globals
    → lookup_game given name t' ≡ lookup_game given name t
unfolding lookup_game
lookup_game-same given name t t' s g = ground arith

lookup_game-other_start :
    (given : Given) (other : List ℕ) (a : ℕ) (t : Tables)
    → bytes_eq other start_name ≡ false
    → lookup_game given other (record t { start = a }) ≡ lookup_game given other t
unfolding lookup_game
lookup_game-other_start given other a t e = ground arith

lookup_game-start :
    (given : Given) (a : ℕ) (t : Tables)
    → a ≢ 0
    → lookup_game given start_name (record t { start = a }) ≡ a
unfolding lookup_game bytes_eq
lookup_game-start given a t ne = ground arith

lookup_game-ordinary :
    (given : Given) (name : List ℕ) (t : Tables)
    → IsOrdinary name
    → bytes_eq name start_name ≡ false
    → lookup_game given name t ≡ lookup_global given name t.globals
unfolding lookup_game
lookup_game-ordinary given name t (o1, o2) e = ground arith

lookup_global-none :
    (given : Given) (name : List ℕ) (gs : List Global)
    → search_symbol given name (map global_name gs) ≡ none
    → lookup_global given name gs ≡ 0
unfolding lookup_global
lookup_global-none given name gs e = ap (look_at name gs) e

bytes_eq_comm : (s t : List ℕ) → bytes_eq s t ≡ bytes_eq t s
unfolding bytes_eq
bytes_eq_comm [] [] = refl
bytes_eq_comm [] (y ∷ t) = refl
bytes_eq_comm (x ∷ s) [] = refl
bytes_eq_comm (x ∷ s) (y ∷ t) = ground (arith, bytes_eq_comm s t)

put_at-IsReplaced :
    (given : Given) (name : List ℕ) (a : ℕ) (t : Tables) (o : Option ℕ)
    → search_symbol given name (map global_name t.globals) ≡ o
    → IsOrdinary name
    → bytes_eq name start_name ≡ false
    → a ≢ 0
    → lookup_global given name t.globals ≢ 0
    → IsReplaced given name a t (put_at name a t o)
put_at-IsReplaced given name a t none s o e ne h =
    absurd (h (lookup_global-none given name t.globals s))
put_at-IsReplaced given name a t (some i) s o e ne h = (
  refl,
  lookup_game-ordinary given name (record t { globals = put_from i name a t.globals }) o e
      ∙ lookup_global-put_from given name a i t.globals s ne h,
  λ other d.
      lookup_game-same given other t (record t { globals = put_from i name a t.globals }) refl
        (lookup_global-put_from_ne name other a d given i t.globals),
)

start-IsReplaced :
    (given : Given) (a : ℕ) (t : Tables)
    → a ≢ 0
    → IsReplaced given start_name a t (true, record t { start = a })
start-IsReplaced given a t ne = (
  refl,
  lookup_game-start given a t ne,
  λ other d. lookup_game-other_start given other a t (bytes_eq_comm other start_name ∙ d),
)

symbol_replace-IsReplaced :
    (given : Given) (name : List ℕ) (a : ℕ) (t : Tables)
    → IsOrdinary name
    → a ≢ 0
    → lookup_game given name t ≢ 0
    → IsReplaced given name a t (symbol_replace given name a t)
unfolding symbol_replace bytes_eq
symbol_replace-IsReplaced given name a t o ne h = elim (Bool-cases (bytes_eq name start_name)) [
  | inl e ↦
      subst (λ n. IsReplaced given n a t (symbol_replace given n a t))
        (sym ((bytes_eq_iff name start_name).0 e)) (start-IsReplaced given a t ne)
  | inr e ↦ rw e (
      put_at-IsReplaced given name a t (search_symbol given name (map global_name t.globals)) refl o
        e ne (λ z. h (lookup_game-ordinary given name t o e ∙ z)))
]

-- Where a symbol of the game, which is none of the two that give the bounds of the game's code, is
-- replaced by an address that is not NULL: if it had an address before, the replacement succeeds
-- and the symbol has the new address, whatever the C library's search gives.
pub symbol_replace-lookup_game :
    (given : Given) (name : List ℕ) (a : ℕ) (t : Tables)
    → IsOrdinary name
    → a ≢ 0
    → lookup_game given name t ≢ 0
    → ((symbol_replace given name a t).0 ≡ true)
      × (lookup_game given name (symbol_replace given name a t).1 ≡ a)
symbol_replace-lookup_game given name a t o ne h =
    let r = symbol_replace-IsReplaced given name a t o ne h in (r.0, r.1)

-- Where a symbol of the game that has an address, and is none of the two that give the bounds of
-- the game's code, is replaced by an address that is not NULL: what a lookup in the game gives for
-- another name stays the same.
pub symbol_replace-apart :
    (given : Given) (name : List ℕ) (a : ℕ) (t : Tables) (another : List ℕ)
    → IsOrdinary name
    → a ≢ 0
    → lookup_game given name t ≢ 0
    → bytes_eq name another ≡ false
    → lookup_game given another (symbol_replace given name a t).1 ≡ lookup_game given another t
symbol_replace-apart given name a t another o ne h d =
    (symbol_replace-IsReplaced given name a t o ne h).2 another d
