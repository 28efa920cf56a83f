-- ===== src/Module/Listed.antt =====
-- What the list of modules holds after `Module_ListLoad` of src/modules/module.c.
use netslugplus.Base.{
  ℕ, ◌+◌, ◌%◌, ◌≡◌, ◌≤◌, ◌<◌, refl, subst, arith, List, [], ◌∷◌, ◌++◌, All, All-append_one,
  Bool-cases, inl, inr,
}
use netslugplus.Module.Elf.{Sections, Memory}
use netslugplus.Module.Link.{Linked, linked, failed, beyond, ◌>>=◌}
use netslugplus.Module.Metadata.{Metadata}
use netslugplus.Module.Files.{IsForDisc, game_matches_iff, Entries, check_directory, game_matches}
use netslugplus.Module.Size.{round_up, module_size}
use netslugplus.Module.Load.{
  ElfFile, Modules, add_module, load_found, load_symbols_of, load_elf, or_ignored, load_files,
  no_modules, list_load,
}

abbrev pub total_size : List Metadata → ℕ
total_size [] = 0
total_size (d ∷ ds) = d.size + total_size ds

total_size-append :
    (ds : List Metadata) (d : Metadata) → total_size (ds ++ (d ∷ [])) ≡ total_size ds + d.size
total_size-append [] d = omega arith
total_size-append (e ∷ ds) d = omega (arith, total_size-append ds d)

-- The size is that of all modules, and each is for the disc, with a size that is a multiple of 4.
abbrev pub IsForGame : (ℕ → ℕ) → Metadata → Type 0
IsForGame id d = IsForDisc id d.game × (d.size % 4 ≡ 0)

abbrev IsLoaded : (ℕ → ℕ) → Modules → Type 0
IsLoaded id s = (s.list_size ≡ total_size s.list) × All (IsForGame id) s.list

abbrev Keeps : (ℕ → ℕ) → Linked Modules → Type 0
Keeps id (linked s) = IsLoaded id s
Keeps id failed = Unit
Keeps id beyond = Unit

module_size-mod : (file : Sections) → module_size file % 4 ≡ 0
unfolding module_size round_up
module_size-mod file = omega arith

load_found-Keeps :
    (id : ℕ → ℕ) (file : Sections) (s : Modules) (d : Metadata)
    → IsLoaded id s
    → Keeps id (load_found id file s d)
unfolding load_found add_module
load_found-Keeps id file s d h = elim (Bool-cases (game_matches id d.game)) [
  | inl e ↦
      let d' = record d { size = module_size file } in
      rw e (
        omega (arith, h.0, total_size-append s.list d'),
        All-append_one (IsForGame id) s.list d' h.1
            ((game_matches_iff id d.game).0 e, module_size-mod file),
      )
  | inr e ↦ rw e tt
]

load_elf-Keeps :
    (id : ℕ → ℕ) (heap : ℕ) (m : Memory) (path : List ℕ) (f : ElfFile) (s : Modules)
    → IsLoaded id s
    → Keeps id (load_elf id heap m path f s)
unfolding load_elf load_symbols_of
load_elf-Keeps id heap m path f s h =
    grind (arith, λ (d : Metadata). load_found-Keeps id f.sections s d h)

or_ignored-Keeps :
    (id : ℕ → ℕ) (s : Modules) (m : Linked Modules)
    → IsLoaded id s
    → Keeps id m
    → Keeps id (or_ignored s m)
or_ignored-Keeps id s (linked s') h k = k
or_ignored-Keeps id s failed h k = h
or_ignored-Keeps id s beyond h k = tt

bind-Keeps :
    (id : ℕ → ℕ) (m : Linked Modules) (f : Modules → Linked Modules)
    → Keeps id m
    → ((s : Modules) → IsLoaded id s → Keeps id (f s))
    → Keeps id (m >>= f)
bind-Keeps id (linked s) f h k = k s h
bind-Keeps id failed f h k = tt
bind-Keeps id beyond f h k = tt

load_files-Keeps :
    (id : ℕ → ℕ) (heap : ℕ) (m : Memory) (read : List ℕ → ElfFile) (ps : List (List ℕ))
    (s : Modules)
    → IsLoaded id s
    → Keeps id (load_files id heap m read ps s)
unfolding load_files
load_files-Keeps id heap m read [] s h = h
load_files-Keeps id heap m read (path ∷ ps) s h =
    bind-Keeps id (or_ignored s (load_elf id heap m path (read path) s)) _
      (or_ignored-Keeps id s _ h (load_elf-Keeps id heap m path (read path) s h))
      (load_files-Keeps id heap m read ps)

-- Each module of the list is for the disc and has a size that is a multiple of 4, and the size of the
-- list is that of its modules, rounded up to the next multiple of 32.
abbrev pub IsListed : (ℕ → ℕ) → Modules → Type 0
IsListed id s =
    All (IsForGame id) s.list
    × (s.list_size % 32 ≡ 0)
    × (total_size s.list ≤ s.list_size)
    × (s.list_size < total_size s.list + 32)

round_up-32 : (n : ℕ) → (round_up n 32 % 32 ≡ 0) × (n ≤ round_up n 32) × (round_up n 32 < n + 32)
unfolding round_up
round_up-32 n = omega arith

abbrev list_of : Linked Modules → Modules
list_of (linked s) = s
list_of failed = no_modules
list_of beyond = no_modules

rounded_list : (s : Modules) → Linked Modules
rounded_list s = linked (record s { list_size = round_up s.list_size 32 })

listed :
    (id : ℕ → ℕ) (m : Linked Modules) {s : Modules}
    → Keeps id m
    → (m >>= rounded_list) ≡ linked s
    → IsListed id s
unfolding rounded_list
listed id (linked s') k e =
    subst (λ o. IsListed id (list_of o)) e (ground (arith, k.1, k.0, round_up-32 s'.list_size))
listed id failed k e = absurd (cc)
listed id beyond k e = absurd (cc)

-- After `Module_ListLoad`, whatever the files hold, `IsListed` holds of the list of modules.
pub list_load-IsListed :
    (id : ℕ → ℕ) (disc : List ℕ) (heap : ℕ) (m : Memory) (read : List ℕ → ElfFile) (path : List ℕ)
    (entries : Entries) {s : Modules}
    → list_load id disc heap m read path entries ≡ linked s
    → IsListed id s
unfolding list_load rounded_list
list_load-IsListed id disc heap m read path entries e =
    listed id (load_files id heap m read (check_directory disc path entries) no_modules)
      (load_files-Keeps id heap m read (check_directory disc path entries) no_modules (refl, tt)) e
