-- ===== src/Module/Keeps.antt =====
-- What the relocations of a section leave as it is: a rule for `Module_ElfLink` and the loop over it.
use netslugplus.Base.{
  ℕ, suc, ◌≡◌, refl, arith, Bool, true, false, List, [], ◌∷◌, ◌++◌, Option, none, some,
}
use netslugplus.Module.Elf.{Symbol, Relocation, Section, Sections}
use netslugplus.Module.Link.{
  Linked, linked, failed, beyond, ◌>>=◌, Unresolved, Linker, Target, target, link_value, remember,
  link_symbol, link_relocation, link_relocations, link_section, elf_link, unresolved_of,
}
use netslugplus.Module.Place.{link_placed, Placing}

-- Where the step ends, its result has the property.
abbrev pub Ends {ℓ κ} : {A : Type ℓ} → (A → Type κ) → Linked A → Type κ
Ends P (linked a) = P a
Ends P failed = Unit
Ends P beyond = Unit

pub Ends-bind {ℓ₁ ℓ₂ ℓ₃ ℓ₄} :
    {A : Type ℓ₁} {B : Type ℓ₂} (P : A → Type ℓ₃) (Q : B → Type ℓ₄) (m : Linked A)
    (f : A → Linked B)
    → Ends P m
    → ((a : A) → P a → Ends Q (f a))
    → Ends Q (m >>= f)
Ends-bind P Q (linked a) f h k = k a h
Ends-bind P Q failed f h k = tt
Ends-bind P Q beyond f h k = tt

pub Ends-weaken {ℓ} :
    {A : Type ℓ} (P Q : A → Type 0) (m : Linked A) → Ends P m → ((a : A) → P a → Q a) → Ends Q m
Ends-weaken P Q (linked a) h k = k a h
Ends-weaken P Q failed h k = tt
Ends-weaken P Q beyond h k = tt

-- A property of the linker that a write to memory and a new relocation of the module `k` keep.
module _ (k : ℕ) (P : Linker → Type 0)
    (patch : (l : Linker) (m : ℕ → ℕ) → P l → P (record l { memory = m }))
    (push : (l : Linker) (u : Unresolved)
      → u.owner ≡ k
      → P l
      → P (record l { unresolved = l.unresolved ++ (u ∷ []) })) where
  link_symbol-keeps :
      (t : Target) (r : Relocation) (s : Symbol) (l : Linker)
      → t.owner ≡ k
      → P l
      → Ends P (link_symbol t r s l)
  unfolding link_symbol link_value remember
  link_symbol-keeps t r s l e h =
      grind (arith, patch l, λ (n : List ℕ). push l (unresolved_of t r l n) e h)

  link_relocation-keeps :
      (t : Target) (symbols : List Symbol) (r : Relocation) (l : Linker)
      → t.owner ≡ k
      → P l
      → Ends P (link_relocation t symbols r l)
  unfolding link_relocation
  link_relocation-keeps t symbols r l e h = grind (arith, link_symbol-keeps t r)

  link_relocations-keeps :
      (t : Target) (symbols : List Symbol) (rs : List Relocation) (l : Linker)
      → t.owner ≡ k
      → P l
      → Ends P (link_relocations t symbols rs l)
  unfolding link_relocations
  link_relocations-keeps t symbols [] l e h = h
  link_relocations-keeps t symbols (r ∷ rs) l e h =
      Ends-bind P P _ _ (link_relocation-keeps t symbols r l e h)
        (λ l'. link_relocations-keeps t symbols rs l' e)

  link_section-keeps :
      (shndx at : ℕ) (globals : Bool) (symbols : List Symbol) (s : Section)
      (o : Option (List Relocation)) (l : Linker)
      → P l
      → Ends P (link_section k shndx at globals symbols s o l)
  unfolding link_section
  link_section-keeps shndx at globals symbols s none l h = h
  link_section-keeps shndx at globals symbols s (some rs) l h =
      let one = link_relocations-keeps (target k at globals false) symbols rs l refl h in
      let other = link_relocations-keeps (target k at globals true) symbols rs l refl h in
      ground (arith, one, other)

  elf_link-keeps :
      (ss : Sections) (shndx at : ℕ) (symbols : List Symbol) (globals : Bool) (l : Linker)
      → P l
      → Ends P (elf_link k ss shndx at symbols globals l)
  unfolding elf_link
  elf_link-keeps [] shndx at symbols globals l h = h
  elf_link-keeps (none ∷ ss) shndx at symbols globals l h =
      elf_link-keeps ss shndx at symbols globals l h
  elf_link-keeps (some s ∷ ss) shndx at symbols globals l h =
      Ends-bind P P _ _ (link_section-keeps shndx at globals symbols s s.relocations l h)
        (elf_link-keeps ss shndx at symbols globals)

  pub link_placed-keeps :
      (file : Sections) (i : ℕ) (ss : Sections) (p : Placing) (l : Linker)
      → P l
      → Ends P (link_placed k file i ss p l)
  unfolding link_placed
  link_placed-keeps file i [] p l h = h
  link_placed-keeps file i (none ∷ ss) p l h = link_placed-keeps file (suc i) ss p l h
  link_placed-keeps file i (some s ∷ ss) p l h =
      Ends-bind P P _ _ (grind (arith, λ (at : ℕ). elf_link-keeps file i at p.symbols true l h))
        (link_placed-keeps file (suc i) ss p)
