-- ===== src/Search/Main.antt =====
-- `Search_Main` of src/search/search.c: the search for all symbols in the game's memory. The entries of
-- `search_symbol_globals` are in the order of the symbols here; its memory is enough.
pub mod Places
use netslugplus.Base.{
  ℕ, zero, suc, ◌+◌, ◌-◌, ◌%◌, ◌^◌, ◌==◌, Bool, false, if◌then◌else◌, List, [], ◌∷◌, map, Option,
  none, some, get_elem?, length,
}
use netslugplus.Search.Symbols.{Global, symbol_match}
use netslugplus.Search.Fsm.{Fsm, run, and_then}
use netslugplus.Search.Parse.{GameSymbol, Content, content, no_content, unset_content}
use netslugplus.Search.Build.{SizeEntry, by_size, data_size_of, build_fsm}

abbrev pub masks_from : ℕ → ℕ → (ℕ → ℕ) → List ℕ
masks_from zero i masks = []
masks_from (suc n) i masks = masks i ∷ masks_from n (suc i) masks

abbrev pub mask_of : Content → Option (List ℕ)
mask_of (content b) = some (masks_from b.data_size 0 b.masks)
mask_of no_content = none
mask_of unset_content = none

-- A symbol that is not found yet.
abbrev pub new_global : (ℕ → ℕ) → GameSymbol → Global
new_global old_size s = record {
  name = s.name;
  address = 0;
  search_fail = false;
  size = s.size;
  data_size = data_size_of old_size s s.bytes;
  mask = mask_of s.bytes;
}

abbrev pub change_at : ℕ → (Global → Global) → List Global → List Global
change_at i f [] = []
change_at zero f (g ∷ gs) = f g ∷ gs
change_at (suc i) f (g ∷ gs) = g ∷ change_at i f gs

-- `data + i - symbol->offset`, for the address of the byte at `i`.
abbrev pub match_address : ℕ → GameSymbol → ℕ
match_address place s = (place + (2 ^ 32 - s.offset % 2 ^ 32)) % 2 ^ 32

abbrev pub match_symbol : ℕ → ℕ → Option GameSymbol → List Global → List Global
match_symbol place k none gs = gs
match_symbol place k (some s) gs = change_at k (symbol_match (match_address place s)) gs

-- The calls of `Search_SymbolMatch` at one place of the memory, and at all.
unfoldable pub match_place : List GameSymbol → ℕ → List ℕ → List Global → List Global
match_place symbols place [] gs = gs
match_place symbols place (k ∷ ks) gs =
    match_place symbols place ks (match_symbol place k (get_elem? symbols k) gs)

unfoldable pub match_places : List GameSymbol → ℕ → List (List ℕ) → List Global → List Global
match_places symbols place [] gs = gs
match_places symbols place (r ∷ rs) gs =
    match_places symbols (suc place) rs (match_place symbols place r gs)

-- How the thread ends.
pub data SearchEnd : Type 0 where
  nothing_sought : SearchEnd
  search_error : SearchEnd
  searched : List Global → SearchEnd

abbrev pub start_search :
    (ℕ → ℕ) → List GameSymbol → ℕ → ℕ → List ℕ → Option (Option Fsm) → Option SearchEnd
start_search old_size symbols fuel start memory none = some search_error
start_search old_size symbols fuel start memory (some none) = some search_error
start_search old_size symbols fuel start memory (some (some fsm)) =
    let first = map (new_global old_size) symbols in
    if start == 0
    then some (searched first)
    else and_then (run fuel fsm fsm.initial memory)
        (λ reports. some (searched (match_places symbols start reports first)))

abbrev pub search_symbols :
    (List SizeEntry → List SizeEntry) → (ℕ → ℕ) → List GameSymbol → ℕ → List ℕ → Option SearchEnd
search_symbols qsort old_size symbols start memory =
    start_search old_size symbols (length (by_size qsort old_size symbols)) start memory
      (build_fsm qsort old_size symbols)

-- `Search_Main` once the files are read: `start` is `apploader_app0_start`, and `memory` are the bytes
-- from there up to `apploader_app0_end`; none where `FSM_Run` does not end.
unfoldable pub search_main :
    (List SizeEntry → List SizeEntry) → (ℕ → ℕ) → List GameSymbol → ℕ → List ℕ → Option SearchEnd
search_main qsort old_size symbols start memory =
    if length symbols == 0
    then some nothing_sought
    else search_symbols qsort old_size symbols start memory
