-- ===== src/Module/Replace.antt =====
-- `Module_ListLinkFinalReplaceFunction` of src/modules/module.c: the first instruction of a function
-- of the game is replaced by a branch, and a stub below the modules takes its place.
use netslugplus.Base.{
  ℕ, ◌+◌, ◌-◌, ◌*◌, ◌/◌, ◌%◌, ◌^◌, Bool, true, false, ◌&&◌, ◌==◌, if◌then◌else◌, update, List,
}
use netslugplus.Module.Relocation.{wrap, minus}
use netslugplus.Search.Symbols.{Given, Tables, symbol_add, symbol_lookup, symbol_replace}

-- `bslug_loader_entry_t`; a type that is none of the three is `unrecognised`.
pub data EntryType : Type 0 where
  function function_mandatory export unrecognised : EntryType

pub record LoaderEntry : Type 0 where
  pub kind : EntryType
  pub name : List ℕ
  pub target : ℕ

-- The words of memory by their addresses, the end of the free space, and the symbols.
pub record Loader : Type 0 where
  pub memory : ℕ → ℕ
  pub space : ℕ
  pub tables : Tables

-- `0x48000000 + ((to - from) & 0x3fffffc)`
unfoldable pub branch_word : ℕ → ℕ → ℕ
branch_word from to = 0x48000000 + minus to from % 2 ^ 26 / 4 * 4

-- `(offset << 16) >> 16` of the low 16 bits, and `(offset << 6) >> 6` of the low 26 bits, both
-- without the lowest two.
unfoldable pub offset16 : ℕ → ℕ
offset16 w = let d = w % 2 ^ 16 / 4 * 4 in if d / 2 ^ 15 == 1 then d + (2 ^ 32 - 2 ^ 16) else d

unfoldable pub offset26 : ℕ → ℕ
offset26 w = let d = w % 2 ^ 26 / 4 * 4 in if d / 2 ^ 25 == 1 then d + (2 ^ 32 - 2 ^ 26) else d

-- The three cases of the `switch` on `*data & 0xfc000002`.
pub data Original : Type 0 where
  bc b plain : Original

unfoldable pub original : ℕ → Original
original w =
    if w / 2 ^ 26 == 16 && w / 2 % 2 == 0
    then bc
    else if w / 2 ^ 26 == 18 && w / 2 % 2 == 0
    then b
    else plain

unfoldable pub stub_size : Original → ℕ
stub_size bc = 12
stub_size b = 8
stub_size plain = 8

-- What is written at the new end of the free space, `space`, for the instruction `w` at `at`.
unfoldable pub write_stub : Original → ℕ → ℕ → ℕ → (ℕ → ℕ) → ℕ → ℕ
write_stub bc w at space m =
    let target = wrap (at + offset16 w) in
    update
      (update (update m space (w / 2 ^ 16 * 2 ^ 16 + w % 4 + 8)) (space + 4) (branch_word space at))
      (space + 8) (branch_word (space + 8) target)
write_stub b w at space m =
    let target = wrap (at + offset26 w) in
    update (update m space (w / 2 ^ 26 * 2 ^ 26 + w % 4 + minus target space % 2 ^ 26 / 4 * 4))
      (space + 4) (branch_word space at)
write_stub plain w at space m = update (update m space w) (space + 4) (branch_word space at)

-- The stub and the branch to the replacement; the address of the stub is the new end of the space.
unfoldable pub hook : ℕ → ℕ → Loader → Loader
hook at target l =
    let w = l.memory at in
    let space = l.space - stub_size (original w) in
    record l {
      memory = update (write_stub (original w) w at space l.memory) at (branch_word at target);
      space = space;
    }

-- A function that is not there: a word that loops for ever becomes its symbol.
unfoldable pub spin : List ℕ → Loader → Loader
spin name l = record {
  memory = update l.memory (l.space - 4) 0x48000000;
  space = l.space - 4;
  tables = symbol_add name (l.space - 4) l.tables;
}

abbrev pub missing : LoaderEntry → Loader → Bool × Loader
missing e l = elim e.kind [ function ↦ (true, spin e.name l) | _ ↦ (false, l) ]

abbrev pub with_symbols : Loader → Bool × Tables → Bool × Loader
with_symbols l (ok, t) = (ok, record l { tables = t })

-- The result says whether the function succeeds.
unfoldable pub replace_function : Given → LoaderEntry → Loader → Bool × Loader
replace_function given e l =
    let (at, t) = symbol_lookup given e.name l.tables in
    let l' = record l { tables = t } in
    let hooked = hook at e.target l' in
    if at == 0
    then missing e l'
    else with_symbols hooked (symbol_replace given e.name hooked.space t)
