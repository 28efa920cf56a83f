-- ===== src/Module/Cursors.antt =====
-- `Module_ListLinkFinal` keeps one place in the array of entries and one in that of relocations.
-- What it does for each module is stated here without these: `run_modules`.
use netslugplus.Base.{
  ℕ, suc, ◌<◌, ◌≡◌, refl, sym, ap, ◌∙◌, arith, true, false, ◌==◌, ==_iff, if◌then◌else◌, List, [],
  ◌∷◌, ◌++◌, length, All,
}
use mathlib.Core.Path.{fun_ext}
use netslugplus.Search.Symbols.{Given}
use netslugplus.Module.Replace.{LoaderEntry, Loader}
use netslugplus.Module.Link.{Linked, linked, failed, beyond, ◌>>=◌, Unresolved}
use netslugplus.Module.Final.{
  Resolving, final_entry, final_entries, final_relocation, final_relocations, final_result,
  final_modules, link_final,
}

-- A module by its own entries and its own relocations.
abbrev pub Work : Type 0
Work = List LoaderEntry × List Unresolved

abbrev pub run_entries : Given → List LoaderEntry → Loader → Linked Loader
run_entries given [] l = linked l
run_entries given (e ∷ es) l = final_entry given e l >>= run_entries given es

abbrev pub run_relocations : Given → List Unresolved → Resolving → Linked Resolving
run_relocations given [] s = linked s
run_relocations given (r ∷ rs) s = final_relocation given r s >>= run_relocations given rs

abbrev pub outcome : Resolving → Linked Loader
outcome s = if s.has_error then failed else linked s.loader

-- Module by module: first its entries, then its relocations.
abbrev pub run_modules : Given → List Work → Resolving → Linked Loader
run_modules given [] s = outcome s
run_modules given ((es, rs) ∷ ms) s = run_entries given es s.loader >>= λ l.
    run_relocations given rs (record s { loader = l }) >>= run_modules given ms

-- The two arrays, and the counts.
abbrev pub all_entries : List Work → List LoaderEntry
all_entries [] = []
all_entries ((es, rs) ∷ ms) = es ++ all_entries ms

abbrev pub all_relocations : List Work → List Unresolved
all_relocations [] = []
all_relocations ((es, rs) ∷ ms) = rs ++ all_relocations ms

abbrev pub counts_of : List Work → List ℕ
counts_of [] = []
counts_of ((es, rs) ∷ ms) = length es ∷ counts_of ms

-- The relocations of each module name it as their owner.
abbrev pub IsOwned : ℕ → List Work → Type 0
IsOwned k [] = Unit
IsOwned k ((es, rs) ∷ ms) = All (λ (r : Unresolved). r.owner ≡ k) rs × IsOwned (suc k) ms

bind_assoc :
    {A B C : Type 0} (m : Linked A) (f : A → Linked B) (g : B → Linked C)
    → (m >>= f >>= g) ≡ (m >>= λ a. f a >>= g)
bind_assoc (linked a) f g = refl
bind_assoc failed f g = refl
bind_assoc beyond f g = refl

final_entries-run :
    (given : Given) (es rest : List LoaderEntry) (l : Loader)
    → final_entries given (length es) (es ++ rest) l
      ≡ (run_entries given es l >>= λ l'. linked (rest, l'))
unfolding final_entries
final_entries-run given [] rest l = refl
final_entries-run given (e ∷ es) rest l =
    ap (λ f. final_entry given e l >>= f) (fun_ext (final_entries-run given es rest))
    ∙ sym (bind_assoc (final_entry given e l) (run_entries given es) (λ l'. linked (rest, l')))

-- What follows belongs to later modules.
abbrev IsLater : ℕ → List Unresolved → Type 0
IsLater k [] = Unit
IsLater k (r ∷ rs) = k < r.owner

IsLater-append :
    (k j : ℕ) (rs rest : List Unresolved)
    → k < j
    → All (λ (r : Unresolved). r.owner ≡ j) rs
    → IsLater k rest
    → IsLater k (rs ++ rest)
IsLater-append k j [] rest lt h later = later
IsLater-append k j (r ∷ rs) rest lt h later = omega (arith, h.0)

IsOwned-IsLater : (k j : ℕ) (ms : List Work) → k < j → IsOwned j ms → IsLater k (all_relocations ms)
IsOwned-IsLater k j [] lt h = tt
IsOwned-IsLater k j ((es, rs) ∷ ms) lt h =
    IsLater-append k j rs (all_relocations ms) lt h.0
      (IsOwned-IsLater k (suc j) ms (omega arith) h.1)

final_relocations-later :
    (given : Given) (k : ℕ) (rest : List Unresolved) (s : Resolving)
    → IsLater k rest
    → final_relocations given k rest s ≡ linked (rest, s)
unfolding final_relocations
final_relocations-later given k [] s later = refl
final_relocations-later given k (r ∷ rest) s later =
    let other : (r.owner == k) ≡ false = ground arith in rw (other, final_relocations) refl

final_relocations-own :
    (given : Given) (k : ℕ) (r : Unresolved) (rs : List Unresolved) (s : Resolving)
    → r.owner ≡ k
    → final_relocations given k (r ∷ rs) s
      ≡ (final_relocation given r s >>= final_relocations given k rs)
unfolding final_relocations
final_relocations-own given k r rs s own =
    let mine : (r.owner == k) ≡ true = (==_iff r.owner k).1 own in rw (mine, final_relocations) refl

final_relocations-run :
    (given : Given) (k : ℕ) (rs rest : List Unresolved) (s : Resolving)
    → All (λ (r : Unresolved). r.owner ≡ k) rs
    → IsLater k rest
    → final_relocations given k (rs ++ rest) s
      ≡ (run_relocations given rs s >>= λ s'. linked (rest, s'))
final_relocations-run given k [] rest s own later = final_relocations-later given k rest s later
final_relocations-run given k (r ∷ rs) rest s own later =
    final_relocations-own given k r (rs ++ rest) s own.0
    ∙ (ap (λ f. final_relocation given r s >>= f)
          (fun_ext (λ s'. final_relocations-run given k rs rest s' own.1 later))
        ∙ sym (
            bind_assoc (final_relocation given r s) (run_relocations given rs)
              (λ s'. linked (rest, s'))))

outcome_lem : (s : Resolving) → final_result [] [] s ≡ outcome s
unfolding final_result
outcome_lem s = refl

-- The rest of `final_modules` after the relocations of the module `k`, and after its entries.
abbrev next : Given → ℕ → List Work → List Unresolved × Resolving → Linked Loader
next given k ms (rs', s') = final_modules given (suc k) (counts_of ms) (all_entries ms) rs' s'

abbrev after_entries :
    Given → ℕ → List Unresolved → List Work → Resolving → List LoaderEntry × Loader → Linked Loader
after_entries given k rs ms s (es', l) =
    final_relocations given k (rs ++ all_relocations ms) (record s { loader = l }) >>= λ (rs', s').
    final_modules given (suc k) (counts_of ms) es' rs' s'

final_modules-run :
    (given : Given) (k : ℕ) (ms : List Work) (s : Resolving)
    → IsOwned k ms
    → final_modules given k (counts_of ms) (all_entries ms) (all_relocations ms) s
      ≡ run_modules given ms s
unfolding final_modules
final_modules-run given k [] s own = outcome_lem s
final_modules-run given k ((es, rs) ∷ ms) s own =
    let relocations = λ (l : Loader).
      ap (λ m. m >>= next given k ms)
        (final_relocations-run given k rs (all_relocations ms) (record s { loader = l }) own.0
          (IsOwned-IsLater k (suc k) ms (omega arith) own.1))
      ∙ (bind_assoc (run_relocations given rs (record s { loader = l }))
            (λ s'. linked (all_relocations ms, s')) (next given k ms)
          ∙ ap (λ f. run_relocations given rs (record s { loader = l }) >>= f)
              (fun_ext (λ s'. final_modules-run given (suc k) ms s' own.1))) in
    ap (λ m. m >>= after_entries given k rs ms s)
      (final_entries-run given es (all_entries ms) s.loader)
    ∙ (bind_assoc (run_entries given es s.loader) (λ l'. linked (all_entries ms, l'))
          (after_entries given k rs ms s)
        ∙ ap (λ f. run_entries given es s.loader >>= f) (fun_ext relocations))

-- Where each module's relocations name it, what `Module_ListLinkFinal` does with the two arrays is
-- what is to be done module by module: all entries of a module, then all its relocations, the end
-- by an error if a symbol was missing; and so in the same order.
pub link_final-run_modules :
    (given : Given) (ms : List Work) (l : Loader)
    → IsOwned 0 ms
    → link_final given (counts_of ms) (all_entries ms) (all_relocations ms) l
      ≡ run_modules given ms (record { loader = l; has_error = false })
unfolding link_final
link_final-run_modules given ms l =
    final_modules-run given 0 ms (record { loader = l; has_error = false })
