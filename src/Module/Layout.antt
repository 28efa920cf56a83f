-- ===== src/Module/Layout.antt =====
-- What the modules and the stubs take of the game's memory, against `module_list_size`.
use native.Mathlib.Nat.{
  add-mod, zero-mod, sub-add_cancel, mod-eq-sub-div-mul, div-mul-le_self, mod_self,
}
use netslugplus.Base.{
  ℕ, zero, suc, ◌+◌, ◌-◌, ◌*◌, ◌/◌, ◌%◌, ◌^◌, ◌≤◌, ◌<◌, ◌≡◌, ◌≢◌, refl, sym, ap, ◌∙◌, subst, arith,
  true, ◌==◌, List, [], ◌∷◌, All, Bool-cases, inl, inr, length,
}
use netslugplus.Search.Symbols.{Given, symbol_lookup}
use netslugplus.Module.Relocation.{minus}
use netslugplus.Module.Elf.{Section, Sections, load_section}
use netslugplus.Module.Replace.{LoaderEntry, Loader, stub_size, hook, spin, replace_function}
use netslugplus.Module.Link.{Linked, linked, Unresolved, Linker}
use netslugplus.Module.Place.{
  body, role, is_loaded, unit, take_space, Placing, placed, place_section, list_link,
}
use netslugplus.Module.Final.{
  Resolving, final_entry, final_entries, final_relocation, final_relocations, final_result,
  final_modules, link_final,
}
use netslugplus.Module.Size.{round_up, add_size, modules_size, list_size}
use netslugplus.Module.Keeps.{Ends, Ends-bind, Ends-weaken}
use netslugplus.Module.Fit.{IsSmall, IsWithin, list_link-IsWithin}

-- A stub takes at most 12 bytes.
abbrev Near : Loader → Loader → Type 0
Near l l' = l.space ≤ l'.space + 12

hook-Near : (at target : ℕ) (l : Loader) → Near l (hook at target l)
unfolding hook stub_size
hook-Near at target l = ground arith

replace_function-Near :
    (given : Given) (e : LoaderEntry) (l : Loader) → Near l (replace_function given e l).1
unfolding replace_function spin
replace_function-Near given e l =
    let (at, t) = symbol_lookup given e.name l.tables in
    ground (arith, hook-Near at e.target (record l { tables = t }))

final_entry-Near :
    (given : Given) (e : LoaderEntry) (l : Loader) → Ends (Near l) (final_entry given e l)
unfolding final_entry
final_entry-Near given e l = ground (arith, replace_function-Near given e l)

abbrev Spent : Loader → List LoaderEntry → List LoaderEntry × Loader → Type 0
Spent l es (es', l') = l.space + 12 * length es' ≤ l'.space + 12 * length es

final_entries-space :
    (given : Given) (n : ℕ) (es : List LoaderEntry) (l : Loader)
    → Ends (Spent l es) (final_entries given n es l)
unfolding final_entries
final_entries-space given zero es l = omega arith
final_entries-space given (suc n) [] l = tt
final_entries-space given (suc n) (e ∷ es) l =
    Ends-bind (Near l) (Spent l (e ∷ es)) _ _ (final_entry-Near given e l) (λ l' near.
      Ends-weaken (Spent l' es) (Spent l (e ∷ es)) _ (final_entries-space given n es l')
        (λ (es', l'') le. omega arith))

final_relocation-space :
    (given : Given) (r : Unresolved) (s : Resolving)
    → Ends (λ s'. s'.loader.space ≡ s.loader.space) (final_relocation given r s)
unfolding final_relocation
final_relocation-space given r s = ground arith

abbrev SameSpace : Loader → List Unresolved × Resolving → Type 0
SameSpace l (rs, s) = s.loader.space ≡ l.space

final_relocations-space :
    (given : Given) (k : ℕ) (rs : List Unresolved) (s : Resolving)
    → Ends (SameSpace s.loader) (final_relocations given k rs s)
unfolding final_relocations
final_relocations-space given k [] s = refl
final_relocations-space given k (r ∷ rs) s = elim (Bool-cases (r.owner == k)) [
  | inl e ↦
      rw (e, final_relocations)
        (Ends-bind (λ (s' : Resolving). s'.loader.space ≡ s.loader.space) (SameSpace s.loader) _ _
          (final_relocation-space given r s)
          (λ s' q.
            Ends-weaken (SameSpace s'.loader) (SameSpace s.loader) _
              (final_relocations-space given k rs s') (λ (rs', s'') q'. omega arith)))
  | inr e ↦ rw (e, final_relocations) refl
]

abbrev Taken : Loader → List LoaderEntry → Loader → Type 0
Taken l es l' = l.space ≤ l'.space + 12 * length es

final_modules-space :
    (given : Given) (k : ℕ) (ns : List ℕ) (es : List LoaderEntry) (rs : List Unresolved)
    (s : Resolving)
    → Ends (Taken s.loader es) (final_modules given k ns es rs s)
unfolding final_modules final_result
final_modules-space given k [] [] [] s = ground arith
final_modules-space given k [] [] (r ∷ rs) s = tt
final_modules-space given k [] (e ∷ es) rs s = tt
final_modules-space given k (n ∷ ns) es rs s =
    Ends-bind (Spent s.loader es) (Taken s.loader es) _ _ (final_entries-space given n es s.loader)
      (λ (es', l') le.
        Ends-bind (SameSpace l') (Taken s.loader es) _ _
          (final_relocations-space given k rs (record s { loader = l' }))
          (λ (rs', s') q.
            Ends-weaken (Taken s'.loader es') (Taken s.loader es) _
              (final_modules-space given (suc k) ns es' rs' s') (λ l'' le'. omega arith)))

le_list_size : (ms : List (ℕ × Sections)) → modules_size ms ≤ list_size ms
unfolding list_size round_up
le_list_size ms = omega arith

-- Where every alignment is at most 4 and the free space, which ends at a multiple of 4, has room
-- for the modules by their sizes: when the modules are linked, and then their entries and
-- relocations are processed, what they took is at most `module_list_size`.
pub link_final-le-list_size :
    (given : Given) (ms : List (ℕ × Sections)) (counts : List ℕ) (es : List LoaderEntry)
    (rs : List Unresolved) (before after : Linker) (l l' : Loader)
    → All (λ (heap, file). All IsSmall file) ms
    → before.space < 2 ^ 32
    → before.space % 4 ≡ 0
    → before.entries_count ≡ 0
    → modules_size ms ≤ before.space
    → list_link 0 ms before ≡ linked after
    → length es ≡ after.entries_count
    → l.space ≡ after.space
    → link_final given counts es rs l ≡ linked l'
    → before.space ≤ l'.space + list_size ms
unfolding link_final
link_final-le-list_size given ms counts es rs before after l l' small lt z c le r q e f =
    let within : IsWithin before.space (0 + modules_size ms) after =
      subst (Ends (IsWithin before.space (0 + modules_size ms))) r (
        list_link-IsWithin 0 before.space 0 ms before small lt (omega arith)
          (z, omega arith, omega arith)) in
    let taken : l.space ≤ l'.space + 12 * length es =
      subst (Ends (Taken l es)) f (final_modules-space given 0 counts es rs _) in
    omega (arith, le_list_size ms)

rounds_down : (x z u : ℕ) → 0 < u → z % u ≡ 0 → x % u ≢ 0 → z ≤ x → (x - z) / u * u + z < x
rounds_down x z u pos ez nz le =
    let split : x % u ≡ ((x - z) % u + z % u) % u =
      subst (λ n. n % u ≡ ((x - z) % u + z % u) % u) (sub-add_cancel le) (add-mod (x - z) z u) in
    let rest : (x - z) % u ≢ 0 = λ e. nz (split ∙ (rw (e, ez) (zero-mod u))) in
    omega (arith, rest, mod-eq-sub-div-mul (x - z) u, div-mul-le_self (x - z) u)

minus-sub : (m n : ℕ) → n ≤ m → m < 2 ^ 32 → minus m n ≡ m - n
minus-sub m n le lt = omega arith

multiple_add : (a b u : ℕ) → a % u ≡ 0 → b % u ≡ 0 → (a + b) % u ≡ 0
multiple_add a b u ea eb = add-mod a b u ∙ rw (ea, eb) (zero-mod u)

rounded : (z u : ℕ) → z % u ≡ 0 → round_up z u ≡ z
unfolding round_up
rounded z u ez =
    let whole : u - 0 ≡ u = omega arith in
    let none_left : (u - 0) % u ≡ 0 = rw whole (mod_self u) in rw ez (omega (arith, none_left))

unit_pos : (align : ℕ) → 0 < unit align
unfolding unit
unit_pos align = ground arith

abbrev placed_in : ℕ → ℕ → Section → Placing → Linked Placing
placed_in at i s p = placed i at (record p { space = at }) (load_section s at p.memory)

placed_in-space :
    (at i : ℕ) (s : Section) (p p' : Placing) → placed_in at i s p ≡ linked p' → p'.space ≡ at
placed_in-space at i s p p' e = ground arith

place_section-body :
    (heap i : ℕ) (s : Section) (p : Placing)
    → is_loaded s ≡ true
    → role s.name ≡ body
    → place_section heap i s p ≡ placed_in (take_space s p.space) i s p
unfolding place_section
place_section-body heap i s p loaded is_body = ground arith

add_size-body :
    (s : Section) (n : ℕ)
    → is_loaded s ≡ true
    → role s.name ≡ body
    → add_size s n ≡ round_up (n + s.size) (unit s.align)
unfolding add_size
add_size-body s n loaded is_body = ground arith

-- A section whose size is a multiple of its alignment, where the size counted for the module so far is
-- one too (0, for its first section): where the free space before it does not end at a multiple,
-- the section takes more than it adds to the module's size.
pub place_section-over :
    (heap i n : ℕ) (s : Section) (p p' : Placing)
    → is_loaded s ≡ true
    → role s.name ≡ body
    → s.size % unit s.align ≡ 0
    → n % unit s.align ≡ 0
    → p.space % unit s.align ≢ 0
    → s.size ≤ p.space
    → p.space < 2 ^ 32
    → place_section heap i s p ≡ linked p'
    → p'.space + add_size s n < p.space + n
unfolding take_space
place_section-over heap i n s p p' loaded is_body z nz no_multiple le lt e =
    let u = unit s.align in
    let end : p'.space ≡ (p.space - s.size) / u * u =
      placed_in-space (take_space s p.space) i s p p'
        (sym (place_section-body heap i s p loaded is_body) ∙ e)
      ∙ ap (λ n. n / u * u) (minus-sub p.space s.size le lt) in
    let taken = rounds_down p.space s.size u (unit_pos s.align) z no_multiple le in
    rw
      (end, add_size-body s n loaded is_body, rounded (n + s.size) u (multiple_add n s.size u nz z))
      (omega (arith, taken))
