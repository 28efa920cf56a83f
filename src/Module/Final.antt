-- ===== src/Module/Final.antt =====
-- `Module_ListLoadSymbols` and `Module_ListLinkFinal` of src/modules/module.c: what the modules
-- export, what they replace in the game, and the relocations that wait for a symbol.
use netslugplus.Base.{
  ℕ, zero, suc, Bool, true, false, ◌==◌, if◌then◌else◌, List, [], ◌∷◌, Option, none, some,
}
use netslugplus.Search.Symbols.{Given, Tables, symbol_add, symbol_lookup}
use netslugplus.Module.Replace.{
  function, function_mandatory, export, unrecognised, LoaderEntry, Loader, replace_function,
}
use netslugplus.Module.Link.{Linked, linked, failed, beyond, ◌>>=◌, Unresolved, link_at}

-- `Module_ListLoadSymbols`
unfoldable pub load_exports : List LoaderEntry → Tables → Linked Tables
load_exports [] t = linked t
load_exports (e ∷ es) t = elim e.kind [
  | export ↦ load_exports es (symbol_add e.name e.target t)
  | function ↦ load_exports es t
  | function_mandatory ↦ load_exports es t
  | unrecognised ↦ failed
]

abbrev pub replaced : Bool × Loader → Linked Loader
replaced (true, l) = linked l
replaced (false, l) = failed

unfoldable pub final_entry : Given → LoaderEntry → Loader → Linked Loader
final_entry given e l = elim e.kind [
  | export ↦ linked l
  | function ↦ replaced (replace_function given e l)
  | function_mandatory ↦ replaced (replace_function given e l)
  | unrecognised ↦ failed
]

-- The loop over the entries of one module; where there are fewer, the source's assertion fails.
unfoldable pub final_entries :
    Given → ℕ → List LoaderEntry → Loader → Linked (List LoaderEntry × Loader)
final_entries given zero es l = linked (es, l)
final_entries given (suc n) [] l = beyond
final_entries given (suc n) (e ∷ es) l = final_entry given e l >>= final_entries given n es

-- The state of the loop over the relocations, with `has_error`.
pub record Resolving : Type 0 where
  pub loader : Loader
  pub has_error : Bool

abbrev pub stored : Resolving → Option (ℕ → ℕ) → Linked Resolving
stored s none = failed
stored s (some m) = linked (record s { loader = record s.loader { memory = m } })

-- A symbol that is missing is an error, after which the loop goes on.
unfoldable pub final_relocation : Given → Unresolved → Resolving → Linked Resolving
final_relocation given r s =
    let (value, t) = symbol_lookup given r.name s.loader.tables in
    let l = record s.loader { tables = t } in
    if value == 0
    then linked (record { loader = l; has_error = true })
    else stored (record s { loader = l })
        (link_at r.kind r.offset r.addend r.address value l.memory)

-- The relocations of one module, as long as they are its own; the rest is for the next.
unfoldable pub final_relocations :
    Given → ℕ → List Unresolved → Resolving → Linked (List Unresolved × Resolving)
final_relocations given owner [] s = linked ([], s)
final_relocations given owner (r ∷ rs) s = elim (r.owner == owner) [
  | true ↦ final_relocation given r s >>= final_relocations given owner rs
  | false ↦ linked (r ∷ rs, s)
]

-- The two assertions after the loops, and the result.
unfoldable pub final_result : List LoaderEntry → List Unresolved → Resolving → Linked Loader
final_result [] [] s = if s.has_error then failed else linked s.loader
final_result _ _ s = beyond

-- The modules from `owner` on, each with its number of entries.
unfoldable pub final_modules :
    Given → ℕ → List ℕ → List LoaderEntry → List Unresolved → Resolving → Linked Loader
final_modules given owner [] es rs s = final_result es rs s
final_modules given owner (n ∷ ns) es rs s = final_entries given n es s.loader >>= λ (es', l).
    final_relocations given owner rs (record s { loader = l }) >>= λ (rs', s').
    final_modules given (suc owner) ns es' rs' s'

-- `Module_ListLinkFinal`
unfoldable pub link_final :
    Given → List ℕ → List LoaderEntry → List Unresolved → Loader → Linked Loader
link_final given counts es rs l =
    final_modules given 0 counts es rs (record { loader = l; has_error = false })
