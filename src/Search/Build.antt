-- ===== src/Search/Build.antt =====
-- `Search_BuildFSM` of src/search/search.c, and `Symbol_GetSymbolSize` of src/search/symbol.c: one machine
-- for all symbols, which are taken in the order of their sizes. `qsort` of the C library is a parameter.
pub mod Reports
pub mod Finds
use netslugplus.Base.{
  ℕ, zero, suc, ◌+◌, ◌*◌, ◌==◌, Bool, if◌then◌else◌, List, [], ◌∷◌, map, Option, none, some,
  get_elem?, length,
}
use netslugplus.Search.Fsm.{Fsm, merge, and_then}
use netslugplus.Search.Fsm.Create.{create}
use netslugplus.Search.Text.Spells.{symbol_bytes}
use netslugplus.Search.Parse.{GameSymbol, Content, content, no_content, unset_content}

-- `symbol_size_index_entry_t`
pub record SizeEntry : Type 0 where
  pub data_size : ℕ
  pub index : ℕ

-- What `data_size` is; `old_size` is what memory held where it was not set.
abbrev pub data_size_of : (ℕ → ℕ) → GameSymbol → Content → ℕ
data_size_of old_size s (content b) = b.data_size
data_size_of old_size s no_content = 0
data_size_of old_size s unset_content = old_size s.index

-- The loop of `Symbol_GetSymbolSize`, from the index `i` on.
unfoldable pub size_entries : (ℕ → ℕ) → ℕ → List GameSymbol → List SizeEntry
size_entries old_size i [] = []
size_entries old_size i (s ∷ ss) =
    record { data_size = data_size_of old_size s s.bytes; index = i }
    ∷ size_entries old_size (suc i) ss

abbrev pub symbol_at : List GameSymbol → SizeEntry → Option GameSymbol
symbol_at symbols e = get_elem? symbols e.index

-- The results of `Symbol_GetSymbolSize` for the indices in order.
unfoldable pub by_size :
    (List SizeEntry → List SizeEntry) → (ℕ → ℕ) → List GameSymbol → List (Option GameSymbol)
by_size qsort old_size symbols = map (symbol_at symbols) (qsort (size_entries old_size 0 symbols))

-- `FSM_Create` for a symbol; none also where one of its assertions fails, or where the symbol's bytes
-- were never set, so that the source reads what memory held.
abbrev pub create_content : ℕ → Content → Option Fsm
create_content index (content b) =
    let made = create index (symbol_bytes b) in if b.data_size == 0 then none else made
create_content index no_content = none
create_content index unset_content = none

abbrev pub create_symbol : Option GameSymbol → Option Fsm
create_symbol none = none
create_symbol (some s) = create_content s.index s.bytes

-- The machine so far and the next one.
abbrev pub join_fsm : Option Fsm → Fsm → Option Fsm
join_fsm none fsm = some fsm
join_fsm (some final) fsm = merge (suc (final.node_count * fsm.node_count)) final fsm

-- The loop of `Search_BuildFSM`; none where it gives false.
unfoldable pub build_loop : Option Fsm → List (Option GameSymbol) → Option (Option Fsm)
build_loop final [] = some final
build_loop final (s ∷ ss) =
    and_then (create_symbol s)
      (λ fsm. and_then (join_fsm final fsm) (λ joined. build_loop (some joined) ss))

-- `Search_BuildFSM`: what becomes `search_fsm`.
unfoldable pub build_fsm :
    (List SizeEntry → List SizeEntry) → (ℕ → ℕ) → List GameSymbol → Option (Option Fsm)
build_fsm qsort old_size symbols = build_loop none (by_size qsort old_size symbols)
