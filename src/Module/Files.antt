-- ===== src/Module/Files.antt =====
-- Which files are modules, and for which games: `Module_CheckDirectory` and `Module_CheckFile` of
-- src/modules/module.c, and the test of the game in `Module_LoadElf`.
use netslugplus.Base.{
  ℕ, zero, suc, ◌+◌, ◌<◌, ◌≡◌, ◌↔◌, ◌⊎◌, refl, arith, Bool, true, false, ◌&&◌, ◌||◌, ◌==◌, ltb,
  if◌then◌else◌, List, [], ◌∷◌, ◌++◌, Option, none, some, length, get_elem?, codes, bytes_eq,
}
use netslugplus.Module.Metadata.{strncmp_eq}

-- `strrchr(path, '.')`: what follows the last dot.
unfoldable pub after_last_dot : List ℕ → Option (List ℕ)
after_last_dot [] = none
after_last_dot (c ∷ cs) = elim (after_last_dot cs) [
  | some e ↦ some e
  | none ↦ if c == b'.' then some cs else none
]

abbrev pub extension_of : Option (List ℕ) → List ℕ
extension_of none = []
extension_of (some e) = e

unfoldable pub is_module_extension : List ℕ → Bool
is_module_extension e =
    bytes_eq e (codes "mod")
    || bytes_eq e (codes "o")
    || bytes_eq e (codes "a")
    || bytes_eq e (codes "elf")

-- `Module_CheckFile`: whether the file is loaded.
unfoldable pub check_file : List ℕ → Bool
check_file path = is_module_extension (extension_of (after_last_dot path))

-- What a directory holds; an entry of another type is passed over.
mutual
  pub data DirectoryEntry : Type 0 where
    regular : List ℕ → DirectoryEntry
    folder : List ℕ → Entries → DirectoryEntry
    other_entry : DirectoryEntry

  pub data Entries : Type 0 where
    no_more : Entries
    entry : DirectoryEntry → Entries → Entries

abbrev pub join : List ℕ → List ℕ → List ℕ
join path name = path ++ (b'/' ∷ name)

-- `Module_CheckDirectory`: the files that are loaded, in their order. `disc` is the text at
-- `os0->disc.gamename`; a path is below the limit of its array.
unfoldable mutual
  unfolding strncmp_eq check_file

  pub check_directory : List ℕ → List ℕ → Entries → List (List ℕ)
  check_directory disc path no_more = []
  check_directory disc path (entry e es) = check_entry disc path e ++ check_directory disc path es

  pub check_entry : List ℕ → List ℕ → DirectoryEntry → List (List ℕ)
  check_entry disc path (regular name) =
      if check_file (join path name) then join path name ∷ [] else []
  check_entry disc path (folder name es) =
      let inside = check_directory disc (join path name) es in
      if bytes_eq name (codes ".") || bytes_eq name (codes "..")
      then []
      else if strncmp_eq (length name) disc name
      then inside
      else []
  check_entry disc path other_entry = []

-- The loop of `Module_LoadElf` over the game that a module names, from the place `i` on. `id` are the
-- four bytes of the game's name and the two of its company; `?` stands for any.
unfoldable pub game_matches_from : ℕ → (ℕ → ℕ) → List ℕ → Bool
game_matches_from i id [] = true
game_matches_from i id (c ∷ cs) =
    let rest = game_matches_from (suc i) id cs in
    if c == b'?' then rest else if ltb i 6 && c == id i then rest else false

unfoldable pub game_matches : (ℕ → ℕ) → List ℕ → Bool
game_matches = game_matches_from 0

-- Each place is `?`, or is one of the six and has the disc's byte.
abbrev pub IsForDisc : (ℕ → ℕ) → List ℕ → Type 0
IsForDisc id game = (i c : ℕ) → get_elem? game i ≡ some c → (c ≡ b'?') ⊎ ((i < 6) × (c ≡ id i))

abbrev IsForDiscFrom : ℕ → (ℕ → ℕ) → List ℕ → Type 0
IsForDiscFrom k id game =
    (i c : ℕ) → get_elem? game i ≡ some c → (c ≡ b'?') ⊎ ((k + i < 6) × (c ≡ id (k + i)))

matches-IsForDisc :
    (k : ℕ) (id : ℕ → ℕ) (game : List ℕ)
    → game_matches_from k id game ≡ true
    → IsForDiscFrom k id game
unfolding game_matches_from
matches-IsForDisc k id [] h i c e = absurd (cc)
matches-IsForDisc k id (d ∷ ds) h zero c e =
    let here : k + 0 ≡ k = omega arith in rw here (ground arith)
matches-IsForDisc k id (d ∷ ds) h (suc i) c e =
    let rest : game_matches_from (suc k) id ds ≡ true = ground arith in
    let next : k + suc i ≡ suc k + i = omega arith in
    rw next (matches-IsForDisc (suc k) id ds rest i c e)

IsForDisc-matches :
    (k : ℕ) (id : ℕ → ℕ) (game : List ℕ)
    → IsForDiscFrom k id game
    → game_matches_from k id game ≡ true
unfolding game_matches_from
IsForDisc-matches k id [] h = refl
IsForDisc-matches k id (d ∷ ds) h =
    let here : k + 0 ≡ k = omega arith in
    let first : (d ≡ b'?') ⊎ ((k < 6) × (d ≡ id k)) = rw here at (h 0 d refl) in
    let later : IsForDiscFrom (suc k) id ds =
      λ i c e. let next : suc k + i ≡ k + suc i = omega arith in rw next (h (suc i) c e) in
    ground (arith, first, IsForDisc-matches (suc k) id ds later)

-- A module is for the disc exactly if each place of the game that it names is `?`, or is one of the
-- first six and has the disc's byte.
pub game_matches_iff :
    (id : ℕ → ℕ) (game : List ℕ) → (game_matches id game ≡ true) ↔ IsForDisc id game
unfolding game_matches
game_matches_iff id game = (
  λ h i c e.
      let start : 0 + i ≡ i = omega arith in rw start at (matches-IsForDisc 0 id game h i c e),
  λ h.
      IsForDisc-matches 0 id game
        (λ i c e. let start : 0 + i ≡ i = omega arith in rw start (h i c e)),
)
