-- ===== src/Module/Order.antt =====
-- The relocations that wait stand in the order of their modules, so that the loops of
-- `Module_ListLinkFinal` take all of them.
use netslugplus.Base.{
  ℕ, suc, ◌+◌, ◌≤◌, ◌<◌, ◌≡◌, subst, arith, List, [], ◌∷◌, ◌++◌, Option, none, some, length,
}
use netslugplus.Module.Elf.{Symbol, Sections, load_symtab}
use netslugplus.Module.Link.{Linked, linked, failed, beyond, Unresolved, Linker}
use netslugplus.Module.Place.{
  link_placed, link_entries, Placing, link_module, link_with, place_sections, placing, list_link,
  after_placing,
}
use netslugplus.Module.Keeps.{Ends, Ends-bind, link_placed-keeps}

-- By their modules, which are from `lo` on and below `hi`.
abbrev pub IsOrdered : ℕ → ℕ → List Unresolved → Type 0
IsOrdered lo hi [] = lo ≤ hi
IsOrdered lo hi (r ∷ rs) = (lo ≤ r.owner) × (r.owner < hi) × IsOrdered r.owner hi rs

IsOrdered-append :
    (lo k : ℕ) (rs : List Unresolved) (u : Unresolved)
    → u.owner ≡ k
    → lo ≤ k
    → IsOrdered lo (suc k) rs
    → IsOrdered lo (suc k) (rs ++ (u ∷ []))
IsOrdered-append lo k [] u e le h = omega arith
IsOrdered-append lo k (r ∷ rs) u e le (a, b, c) =
    (a, b, IsOrdered-append r.owner k rs u e (omega arith) c)

IsOrdered-suc : (lo hi : ℕ) (rs : List Unresolved) → IsOrdered lo hi rs → IsOrdered lo (suc hi) rs
IsOrdered-suc lo hi [] h = omega arith
IsOrdered-suc lo hi (r ∷ rs) (a, b, c) = (a, omega arith, IsOrdered-suc r.owner hi rs c)

-- The relocations so far, while the module `k` is linked.
abbrev Upto : ℕ → Linker → Type 0
Upto k l = IsOrdered 0 (suc k) l.unresolved

link_placed-Upto :
    (k : ℕ) (file : Sections) (i : ℕ) (ss : Sections) (p : Placing) (l : Linker)
    → Upto k l
    → Ends (Upto k) (link_placed k file i ss p l)
link_placed-Upto k =
    link_placed-keeps k (Upto k) (λ l m h. h)
      (λ l u e h. IsOrdered-append 0 k l.unresolved u e (omega arith) h)

link_entries-Upto :
    (k : ℕ) (file : Sections) (l : Linker) (p : Placing) (o : Option ℕ)
    → Upto k l
    → Ends (Upto k) (link_entries k file l p o)
unfolding link_entries
link_entries-Upto k file l p none h = tt
link_entries-Upto k file l p (some n) h = link_placed-Upto k file 1 file p (after_placing l p n) h

anywhere : {A : Type 0} (m : Linked A) → Ends (λ a. Unit {0}) m
anywhere (linked a) = tt
anywhere failed = tt
anywhere beyond = tt

link_with-Upto :
    (k heap : ℕ) (file : Sections) (l : Linker) (o : Option (List Symbol))
    → Upto k l
    → Ends (Upto k) (link_with k heap file l o)
unfolding link_with
link_with-Upto k heap file l none h = tt
link_with-Upto k heap file l (some symbols) h =
    Ends-bind (λ (p : Placing). Unit {0}) (Upto k) _ _
      (anywhere (place_sections heap 1 file (placing l symbols)))
      (λ p u. link_entries-Upto k file l p p.entries h)

link_module-Upto :
    (k heap : ℕ) (file : Sections) (l : Linker)
    → Upto k l
    → Ends (Upto k) (link_module k heap file l)
unfolding link_module
link_module-Upto k heap file l = link_with-Upto k heap file l (load_symtab file)

list_link-Ends :
    (k n : ℕ) (ms : List (ℕ × Sections)) (l : Linker)
    → k + length ms ≡ n
    → IsOrdered 0 k l.unresolved
    → Ends (λ l'. IsOrdered 0 n l'.unresolved) (list_link k ms l)
unfolding list_link
list_link-Ends k n [] l e h =
    subst (λ m. IsOrdered 0 m l.unresolved) (let q : k ≡ n = omega arith in q) h
list_link-Ends k n ((heap, file) ∷ ms) l e h =
    Ends-bind (Upto k) (λ l'. IsOrdered 0 n l'.unresolved) _ _
      (link_module-Upto k heap file l (IsOrdered-suc 0 k l.unresolved h))
      (λ l' h'. list_link-Ends (suc k) n ms l' (omega arith) h')

-- Where `Module_ListLink` succeeds from an empty array, the relocations that wait for a symbol
-- stand in the order of their modules, each with the index of a module.
pub list_link-IsOrdered :
    (ms : List (ℕ × Sections)) (l : Linker) {l' : Linker}
    → l.unresolved ≡ []
    → list_link 0 ms l ≡ linked l'
    → IsOrdered 0 (length ms) l'.unresolved
list_link-IsOrdered ms l e r =
    subst (Ends (λ l'. IsOrdered 0 (length ms) l'.unresolved)) r
      (list_link-Ends 0 (length ms) ms l (omega arith) (rw e (omega arith)))
