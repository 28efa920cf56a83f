-- ===== src/Module/Asserts.antt =====
-- The assertions of `Module_ListLinkFinal`: its loops come to the ends of both arrays.
use netslugplus.Base.{
  ℕ, zero, suc, ◌+◌, ◌≤◌, ◌<◌, ◌≡◌, ◌≢◌, subst, arith, ◌==◌, List, [], ◌∷◌, length, Bool-cases, inl,
  inr,
}
use netslugplus.Search.Symbols.{Given}
use netslugplus.Module.Elf.{Sections}
use netslugplus.Module.Replace.{LoaderEntry, Loader}
use netslugplus.Module.Link.{Linked, linked, failed, beyond, ◌>>=◌, Unresolved, Linker}
use netslugplus.Module.Place.{list_link}
use netslugplus.Module.Final.{
  Resolving, final_entry, final_entries, final_relocation, final_relocations, final_result,
  final_modules, link_final,
}
use netslugplus.Module.Order.{IsOrdered, list_link-IsOrdered}

-- Where the step ends, its result has the property, and it does not go beyond an array.
abbrev pub Stays {ℓ} : {A : Type ℓ} → (A → Type 0) → Linked A → Type 0
Stays P (linked a) = P a
Stays P failed = Unit
Stays P beyond = ⊥

pub Stays-bind {ℓ κ} :
    {A : Type ℓ} {B : Type κ} (P : A → Type 0) (Q : B → Type 0) (m : Linked A) (f : A → Linked B)
    → Stays P m
    → ((a : A) → P a → Stays Q (f a))
    → Stays Q (m >>= f)
Stays-bind P Q (linked a) f h k = k a h
Stays-bind P Q failed f h k = tt
Stays-bind P Q beyond f h k = elim h [ ]

final_entry-Stays :
    (given : Given) (e : LoaderEntry) (l : Loader) → Stays (λ l'. Unit {0}) (final_entry given e l)
unfolding final_entry
final_entry-Stays given e l = ground arith

final_entries-Stays :
    (given : Given) (n rest : ℕ) (es : List LoaderEntry) (l : Loader)
    → length es ≡ n + rest
    → Stays (λ (es', l'). length es' ≡ rest) (final_entries given n es l)
unfolding final_entries
final_entries-Stays given zero rest es l h = omega arith
final_entries-Stays given (suc n) rest [] l h = absurd (omega arith)
final_entries-Stays given (suc n) rest (e ∷ es) l h =
    Stays-bind (λ l'. Unit {0}) (λ (es', l'). length es' ≡ rest) _ _ (final_entry-Stays given e l)
      (λ l' u. final_entries-Stays given n rest es l' (omega arith))

final_relocation-Stays :
    (given : Given) (r : Unresolved) (s : Resolving)
    → Stays (λ s'. Unit {0}) (final_relocation given r s)
unfolding final_relocation
final_relocation-Stays given r s = ground arith

IsOrdered-from :
    (lo lo' hi : ℕ) (rs : List Unresolved) → lo' ≤ lo → IsOrdered lo hi rs → IsOrdered lo' hi rs
IsOrdered-from lo lo' hi [] le h = omega arith
IsOrdered-from lo lo' hi (r ∷ rs) le (a, b, c) = (omega arith, b, c)

final_relocations-Stays :
    (given : Given) (k hi : ℕ) (rs : List Unresolved) (s : Resolving)
    → k < hi
    → IsOrdered k hi rs
    → Stays (λ (rs', s'). IsOrdered (suc k) hi rs') (final_relocations given k rs s)
unfolding final_relocations
final_relocations-Stays given k hi [] s lt h = omega arith
final_relocations-Stays given k hi (r ∷ rs) s lt (a, b, c) = elim (Bool-cases (r.owner == k)) [
  | inl e ↦
      rw (e, final_relocations)
        (Stays-bind (λ s'. Unit {0}) (λ (rs', s'). IsOrdered (suc k) hi rs') _ _
          (final_relocation-Stays given r s)
          (λ s' u.
            final_relocations-Stays given k hi rs s' lt (IsOrdered-from r.owner k hi rs a c)))
  | inr e ↦ rw (e, final_relocations) (ground arith, b, c)
]

final_result-Stays :
    (n : ℕ) (es : List LoaderEntry) (rs : List Unresolved) (s : Resolving)
    → length es ≡ 0
    → IsOrdered n n rs
    → Stays (λ l. Unit {0}) (final_result es rs s)
unfolding final_result
final_result-Stays n [] [] s e h = ground arith
final_result-Stays n (e' ∷ es) rs s e h = absurd (omega arith)
final_result-Stays n [] (r ∷ rs) s e (a, b, c) = absurd (omega arith)

-- The number of entries of all modules.
abbrev pub sum : List ℕ → ℕ
sum [] = 0
sum (n ∷ ns) = n + sum ns

final_modules-Stays :
    (given : Given) (k hi : ℕ) (ns : List ℕ) (es : List LoaderEntry) (rs : List Unresolved)
    (s : Resolving)
    → k + length ns ≡ hi
    → length es ≡ sum ns
    → IsOrdered k hi rs
    → Stays (λ l. Unit {0}) (final_modules given k ns es rs s)
unfolding final_modules
final_modules-Stays given k hi [] es rs s e q h =
    final_result-Stays hi es rs s q
      (subst (λ m. IsOrdered m hi rs) (let q : k ≡ hi = omega arith in q) h)
final_modules-Stays given k hi (n ∷ ns) es rs s e q h =
    Stays-bind (λ (es', l'). length es' ≡ sum ns) (λ l. Unit {0}) _ _
      (final_entries-Stays given n (sum ns) es s.loader q)
      (λ (es', l') q'.
        Stays-bind (λ (rs', s'). IsOrdered (suc k) hi rs') (λ l. Unit {0}) _ _
          (final_relocations-Stays given k hi rs (record s { loader = l' }) (omega arith) h)
          (λ (rs', s') h'. final_modules-Stays given (suc k) hi ns es' rs' s' (omega arith) q' h'))

not_beyond : {A : Type 0} (P : A → Type 0) (m : Linked A) → Stays P m → m ≢ beyond
not_beyond P m h e = subst (Stays P) e h

-- After `Module_ListLink` succeeded from an empty array of relocations, and where the array of
-- entries holds as many as the modules say, neither assertion at the end of `Module_ListLinkFinal`
-- fails and no entry is taken from beyond the array.
pub link_final-asserts :
    (given : Given) (ms : List (ℕ × Sections)) (counts : List ℕ) (es : List LoaderEntry)
    (l : Loader) (before after : Linker)
    → before.unresolved ≡ []
    → list_link 0 ms before ≡ linked after
    → length counts ≡ length ms
    → length es ≡ sum counts
    → link_final given counts es after.unresolved l ≢ beyond
unfolding link_final
link_final-asserts given ms counts es l before after e r c q =
    not_beyond (λ l. Unit {0}) _
      (final_modules-Stays given 0 (length ms) counts es after.unresolved _ (omega arith) q
        (list_link-IsOrdered ms before e r))
