-- ===== src/Module/Extension.antt =====
-- `Module_CheckFile` of src/modules/module.c loads the files with one of four extensions.
use netslugplus.Base.{
  ℕ, ◌≡◌, ◌↔◌, ◌⊎◌, inl, inr, refl, ap, arith, true, List, [], ◌∷◌, ◌++◌, none, some, Option-cases,
  codes, bytes_eq, bytes_eq_iff,
}
use netslugplus.Module.Files.{after_last_dot, extension_of, is_module_extension, check_file}

abbrev IsExtension : List ℕ → Type 0
IsExtension e = (e ≡ codes "mod") ⊎ ((e ≡ codes "o") ⊎ ((e ≡ codes "a") ⊎ (e ≡ codes "elf")))

-- The path ends with a dot and one of the four extensions.
abbrev pub IsModulePath : List ℕ → Type 0
IsModulePath path = (stem : List ℕ) × (e : List ℕ) × (path ≡ stem ++ (b'.' ∷ e)) × IsExtension e

is_module_extension_iff : (e : List ℕ) → (is_module_extension e ≡ true) ↔ IsExtension e
unfolding is_module_extension
is_module_extension_iff e = ground (
  arith,
  bytes_eq_iff e (codes "mod"),
  bytes_eq_iff e (codes "o"),
  bytes_eq_iff e (codes "a"),
  bytes_eq_iff e (codes "elf"),
)

after_last_dot-split :
    (path e : List ℕ) → after_last_dot path ≡ some e → (stem : List ℕ) × (path ≡ stem ++ (b'.' ∷ e))
unfolding after_last_dot
after_last_dot-split [] e h = absurd (cc)
after_last_dot-split (c ∷ cs) e h = elim (Option-cases (after_last_dot cs)) [
  | inl q ↦ ([], ground arith)
  | inr (e', q) ↦
      let same : after_last_dot cs ≡ some e = ground arith in
      let (stem, split) = after_last_dot-split cs e same in (c ∷ stem, ap (λ ys. c ∷ ys) split)
]

after_last_dot-append :
    (stem e : List ℕ) → after_last_dot e ≡ none → after_last_dot (stem ++ (b'.' ∷ e)) ≡ some e
unfolding after_last_dot
after_last_dot-append [] e h = rw h refl
after_last_dot-append (c ∷ stem) e h = rw (after_last_dot-append stem e h) refl

dotless : (e : List ℕ) → IsExtension e → after_last_dot e ≡ none
unfolding after_last_dot
dotless e (inl q) = rw q refl
dotless e (inr (inl q)) = rw q refl
dotless e (inr (inr (inl q))) = rw q refl
dotless e (inr (inr (inr q))) = rw q refl

check_extension :
    (path : List ℕ)
    → is_module_extension (extension_of (after_last_dot path)) ≡ true
    → IsModulePath path
check_extension path h = elim (Option-cases (after_last_dot path)) [
  | inl q ↦
      let bare : is_module_extension [] ≡ true = rw q at h in
      absurd (unfold is_module_extension bytes_eq in (cc bare))
  | inr (e, q) ↦
      let (stem, split) = after_last_dot-split path e q in
      let known : is_module_extension e ≡ true = rw q at h in
      (stem, e, split, (is_module_extension_iff e).0 known)
]

-- A file is loaded exactly if its path ends with a dot and `mod`, `o`, `a` or `elf`.
pub check_file_iff : (path : List ℕ) → (check_file path ≡ true) ↔ IsModulePath path
unfolding check_file
check_file_iff path = (
  check_extension path,
  λ (stem, e, split, known).
      rw (split, after_last_dot-append stem e (dotless e known))
        ((is_module_extension_iff e).1 known),
)
