-- ===== src/Module/Bounds.antt =====
-- When `Module_ElfLink` reads the table of symbols beyond its end.
use netslugplus.Base.{
  ℕ, zero, suc, ◌≤◌, ◌≡◌, ◌≢◌, ◌↔◌, ◌⊎◌, inl, inr, refl, ap, arith, List, [], ◌∷◌, ◌++◌, none,
  length, get_elem?, Option-cases, lt_of_get_elem?,
}
use netslugplus.Module.Elf.{Symbol, Relocation}
use netslugplus.Module.Link.{
  Linked, linked, failed, beyond, Linker, Target, link_value, remember, link_symbol,
  link_relocation, link_relocations,
}

link_symbol-ne-beyond :
    (t : Target) (r : Relocation) (s : Symbol) (l : Linker) → link_symbol t r s l ≢ beyond
unfolding link_symbol link_value remember
link_symbol-ne-beyond t r s l e = ground arith

get_elem?-eq-none : {A : Type 0} (xs : List A) (i : ℕ) → get_elem? xs i ≡ none → length xs ≤ i
get_elem?-eq-none [] i e = omega arith
get_elem?-eq-none (x ∷ xs) zero e = absurd (cc)
get_elem?-eq-none (x ∷ xs) (suc i) e = omega (arith, get_elem?-eq-none xs i e)

get_elem?-length : {A : Type 0} (xs : List A) → get_elem? xs (length xs) ≡ none
get_elem?-length [] = refl
get_elem?-length (x ∷ xs) = get_elem?-length xs

-- One relocation does so exactly at the number of symbols.
link_relocation_iff :
    (t : Target) (symbols : List Symbol) (r : Relocation) (l : Linker)
    → (link_relocation t symbols r l ≡ beyond) ↔ (r.symbol ≡ length symbols)
unfolding link_relocation
link_relocation_iff t symbols r l = elim (Option-cases (get_elem? symbols r.symbol)) [
  | inl e ↦ (
    λ h. ground (arith, get_elem?-eq-none symbols r.symbol e),
    λ h. ground (arith, get_elem?-eq-none symbols r.symbol e),
  )
  | inr (s, e) ↦ (
    λ h. ground (arith, lt_of_get_elem? symbols r.symbol e, link_symbol-ne-beyond t r s l),
    λ h. absurd (omega (arith, lt_of_get_elem? symbols r.symbol e)),
  )
]

-- Some relocation names the symbol after the last, and those before it are done.
abbrev pub HitsEnd : Target → List Symbol → List Relocation → Linker → Type 0
HitsEnd t symbols rs l =
    (before : List Relocation) × (r : Relocation) × (after : List Relocation) × (l' : Linker) × (rs
      ≡ before ++ (r ∷ after))
    × (link_relocations t symbols before l ≡ linked l')
    × (r.symbol ≡ length symbols)

Linked-cases :
    {A : Type 0} (m : Linked A) → ((a : A) × (m ≡ linked a)) ⊎ ((m ≡ failed) ⊎ (m ≡ beyond))
Linked-cases (linked a) = inl (a, refl)
Linked-cases failed = inr (inl refl)
Linked-cases beyond = inr (inr refl)

goes_beyond :
    (t : Target) (symbols : List Symbol) (rs : List Relocation) (l : Linker)
    → link_relocations t symbols rs l ≡ beyond
    → HitsEnd t symbols rs l
unfolding link_relocations
goes_beyond t symbols [] l e = absurd (cc)
goes_beyond t symbols (r ∷ rs) l e = elim (Linked-cases (link_relocation t symbols r l)) [
  | inl (l1, q) ↦
      let rest : link_relocations t symbols rs l1 ≡ beyond = rw q at e in
      let (before, r', after, l', split, done, at) = goes_beyond t symbols rs l1 rest in
      (r ∷ before, r', after, l', ap (λ ys. r ∷ ys) split, rw q done, at)
  | inr (inl q) ↦ let never : ◌≡◌ {A = Linked Linker} failed beyond = rw q at e in absurd (cc)
  | inr (inr q) ↦ ([], r, rs, l, refl, refl, (link_relocation_iff t symbols r l).0 q)
]

ends_beyond :
    (t : Target) (symbols : List Symbol) (before : List Relocation) (r : Relocation)
    (after : List Relocation) (l l' : Linker)
    → link_relocations t symbols before l ≡ linked l'
    → r.symbol ≡ length symbols
    → link_relocations t symbols (before ++ (r ∷ after)) l ≡ beyond
unfolding link_relocations
ends_beyond t symbols [] r after l l' e at = rw ((link_relocation_iff t symbols r l).1 at) refl
ends_beyond t symbols (r' ∷ before) r after l l' e at =
    elim (Linked-cases (link_relocation t symbols r' l)) [
      | inl (l1, q) ↦
          let rest : link_relocations t symbols before l1 ≡ linked l' = rw q at e in
          rw q (ends_beyond t symbols before r after l1 l' rest at)
      | inr (inl q) ↦
          let never : ◌≡◌ {A = Linked Linker} failed (linked l') = rw q at e in absurd (cc)
      | inr (inr q) ↦ rw q refl
    ]

-- The loop over relocations reads a symbol beyond the end of the table exactly if some relocation
-- names the symbol after the last one and the relocations before it are done. No other index makes
-- it do so.
pub link_relocations_iff :
    (t : Target) (symbols : List Symbol) (rs : List Relocation) (l : Linker)
    → (link_relocations t symbols rs l ≡ beyond) ↔ HitsEnd t symbols rs l
link_relocations_iff t symbols rs l = (
  goes_beyond t symbols rs l,
  λ (before, r, after, l', split, done, at).
      rw split (ends_beyond t symbols before r after l l' done at),
)
