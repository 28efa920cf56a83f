-- ===== src/Module/Fit.antt =====
-- With alignments of at most 4 bytes the modules and their stubs fit the size that was computed.
use netslugplus.Base.{
  ℕ, zero, suc, ◌+◌, ◌-◌, ◌*◌, ◌/◌, ◌%◌, ◌^◌, ◌≤◌, ◌<◌, ◌≡◌, refl, sym, subst, arith, List, [], ◌∷◌,
  Option, none, some, All,
}
use netslugplus.Module.Relocation.{minus}
use netslugplus.Module.Elf.{Section, Sections, Symbol, load_symtab}
use netslugplus.Module.Link.{Linker}
use netslugplus.Module.Place.{
  unit, take_space, Placing, placing, place_section, place_sections, after_placing, link_entries,
  link_with, link_module, list_link,
}
use netslugplus.Module.Size.{round_up, add_size, sizes, module_size, modules_size}
use netslugplus.Module.Keeps.{Ends, Ends-bind, link_placed-keeps}

-- The section's alignment is at most 4.
abbrev pub IsSmall : Option Section → Type 0
IsSmall none = Unit
IsSmall (some s) = s.align ≤ 2

unit-small : (align : ℕ) → align ≤ 2 → unit align ≡ 4
unfolding unit
unit-small zero h = refl
unit-small (suc zero) h = refl
unit-small (suc (suc zero)) h = refl
unit-small (suc (suc (suc n))) h = absurd (omega arith)

abbrev pub entries_of : Option ℕ → ℕ
entries_of none = 0
entries_of (some n) = n

-- Both ends are multiples of 4, and what was taken, with 12 bytes for each entry, is within `n`.
abbrev IsFit : ℕ → ℕ → Placing → Type 0
IsFit start n p =
    (p.space % 4 ≡ 0)
    × (n % 4 ≡ 0)
    × (start + 12 * entries_of p.entries ≤ p.space + n)
    × (p.space ≤ start)

round_up-small : (n align : ℕ) → align ≤ 2 → round_up n (unit align) ≡ n + (4 - n % 4) % 4
unfolding round_up
round_up-small n align h = rw (unit-small align h) refl

take_space-small :
    (s : Section) (space : ℕ) → s.align ≤ 2 → take_space s space ≡ minus space s.size / 4 * 4
unfolding take_space
take_space-small s space h = rw (unit-small s.align h) refl

le-add_size : (s : Section) (n : ℕ) → s.align ≤ 2 → n ≤ add_size s n
unfolding add_size
le-add_size s n small = ground (arith, round_up-small (n + s.size) s.align small)

le-sizes : (ss : Sections) (n : ℕ) → All IsSmall ss → n ≤ sizes ss n
unfolding sizes
le-sizes [] n h = omega arith
le-sizes (none ∷ ss) n h = le-sizes ss n h.1
le-sizes (some s ∷ ss) n h = omega (arith, le-add_size s n h.0, le-sizes ss (add_size s n) h.1)

place_section-IsFit :
    (heap i start n : ℕ) (s : Section) (p : Placing)
    → s.align ≤ 2
    → start < 2 ^ 32
    → add_size s n ≤ start
    → IsFit start n p
    → Ends (IsFit start (add_size s n)) (place_section heap i s p)
unfolding place_section add_size
place_section-IsFit heap i start n s p small lt le h =
    ground (arith, round_up-small (n + s.size) s.align small, take_space-small s p.space small)

place_sections-IsFit :
    (heap i start n : ℕ) (ss : Sections) (p : Placing)
    → All IsSmall ss
    → start < 2 ^ 32
    → sizes ss n ≤ start
    → IsFit start n p
    → Ends (IsFit start (sizes ss n)) (place_sections heap i ss p)
unfolding place_sections sizes
place_sections-IsFit heap i start n [] p small lt le h = h
place_sections-IsFit heap i start n (none ∷ ss) p small lt le h =
    place_sections-IsFit heap (suc i) start n ss p small.1 lt le h
place_sections-IsFit heap i start n (some s ∷ ss) p small lt le h =
    Ends-bind (IsFit start (add_size s n)) (IsFit start (sizes ss (add_size s n))) _ _
      (place_section-IsFit heap i start n s p small.0 lt
        (omega (arith, le-sizes ss (add_size s n) small.1)) h)
      (λ p'. place_sections-IsFit heap (suc i) start (add_size s n) ss p' small.1 lt le)

-- The linker's end of space and number of entries, after modules of the size `n`.
abbrev pub IsWithin : ℕ → ℕ → Linker → Type 0
IsWithin start n l =
    (l.space % 4 ≡ 0) × (start + 12 * l.entries_count ≤ l.space + n) × (l.space ≤ start)

link_entries-IsWithin :
    (k start n m : ℕ) (file : Sections) (l : Linker) (p : Placing) (o : Option ℕ)
    → p.entries ≡ o
    → IsWithin start m l
    → IsFit l.space n p
    → Ends (IsWithin start (m + n)) (link_entries k file l p o)
unfolding link_entries
link_entries-IsWithin k start n m file l p none e w h = tt
link_entries-IsWithin k start n m file l p (some c) e w h =
    link_placed-keeps k (IsWithin start (m + n)) (λ l m h. h) (λ l u e h. h) file 1 file p
      (after_placing l p c) (ground (arith, subst (λ o. entries_of o ≡ entries_of o) e refl))

le_module_size : (file : Sections) → sizes file 0 ≤ module_size file
unfolding module_size round_up
le_module_size file = omega arith

module_size-mod : (file : Sections) → sizes file 0 % 4 ≡ 0 → module_size file ≡ sizes file 0
unfolding module_size round_up
module_size-mod file h = omega arith

link_with-IsWithin :
    (k heap start m : ℕ) (file : Sections) (l : Linker) (o : Option (List Symbol))
    → All IsSmall file
    → l.space < 2 ^ 32
    → module_size file ≤ l.space
    → IsWithin start m l
    → Ends (IsWithin start (m + module_size file)) (link_with k heap file l o)
unfolding link_with
link_with-IsWithin k heap start m file l none small lt le w = tt
link_with-IsWithin k heap start m file l (some symbols) small lt le w =
    Ends-bind (IsFit l.space (sizes file 0)) (IsWithin start (m + module_size file)) _ _
      (place_sections-IsFit heap 1 l.space 0 file (placing l symbols) small lt
        (omega (arith, le_module_size file)) (w.0, refl, omega arith, omega arith))
      (λ p h.
        subst (λ n. Ends (IsWithin start (m + n)) (link_entries k file l p p.entries))
          (sym (module_size-mod file h.1))
          (link_entries-IsWithin k start (sizes file 0) m file l p p.entries refl w h))

sums : (a b c : ℕ) → a + b + c ≡ a + (b + c)
sums a b c = omega arith

pub list_link-IsWithin :
    (k start m : ℕ) (ms : List (ℕ × Sections)) (l : Linker)
    → All (λ (heap, file). All IsSmall file) ms
    → start < 2 ^ 32
    → m + modules_size ms ≤ start
    → IsWithin start m l
    → Ends (IsWithin start (m + modules_size ms)) (list_link k ms l)
unfolding list_link link_module modules_size
list_link-IsWithin k start m [] l small lt le w = (w.0, omega (arith, w.1), w.2)
list_link-IsWithin k start m ((heap, file) ∷ ms) l small lt le w =
    Ends-bind (IsWithin start (m + module_size file))
      (IsWithin start (m + (module_size file + modules_size ms))) _ _
      (link_with-IsWithin k heap start m file l (load_symtab file) small.0 (omega (arith, w.2))
        (omega (arith, w.1)) w)
      (λ l' w'.
        subst (λ n. Ends (IsWithin start n) (list_link (suc k) ms l'))
          (sums m (module_size file) (modules_size ms))
          (list_link-IsWithin (suc k) start (m + module_size file) ms l' small.1 lt (omega arith)
            w'))
