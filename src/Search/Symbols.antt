-- ===== src/Search/Symbols.antt =====
-- The symbols of the game that were found in memory, and those that modules add: src/search/search.c,
-- with `Symbol_SearchSymbol` of src/search/symbol.c. An address is a number, and 0 is NULL.
use netslugplus.Base.{
  ℕ, zero, suc, Bool, true, false, not, ◌&&◌, ◌==◌, if◌then◌else◌, List, [], ◌∷◌, ◌++◌, map, Option,
  none, some, length, get_elem?, drop, codes, bytes_eq,
}

-- A symbol and its `search_symbol_global_t`; the table is in the order of `symbol_alphabetical_index`.
pub record Global : Type 0 where
  pub name : List ℕ
  pub address : ℕ
  pub search_fail : Bool
  pub size : ℕ
  pub data_size : ℕ
  pub mask : Option (List ℕ)

pub record ModuleSymbol : Type 0 where
  pub name : List ℕ
  pub address : ℕ

pub record Tables : Type 0 where
  pub module_symbols : List ModuleSymbol
  pub sorted_count : ℕ
  pub globals : List Global
  pub start : ℕ

-- What the symbols' code takes from elsewhere: `qsort` and `bsearch` of the C library on an array
-- ordered by its names, and the three addresses that the apploader gives.
pub record Given : Type 0 where
  pub qsort : List ModuleSymbol → List ModuleSymbol
  pub bsearch : List ℕ → List (List ℕ) → Option ℕ
  pub game_entry : ℕ
  pub app0_start : ℕ
  pub app0_end : ℕ

abbrev pub global_name : Global → List ℕ
global_name g = g.name

abbrev pub module_name : ModuleSymbol → List ℕ
module_name s = s.name

-- The loop at the end of `Symbol_SearchSymbol`: back to the first entry of this name.
unfoldable pub walk_back : List ℕ → List (List ℕ) → ℕ → ℕ
walk_back name names zero = 0
walk_back name names (suc i) =
    let rest = walk_back name names i in
    elim (get_elem? names i) [ none ↦ suc i | some t ↦ if bytes_eq t name then rest else suc i ]

unfoldable pub search_symbol : Given → List ℕ → List (List ℕ) → Option ℕ
search_symbol given name names = elim (given.bsearch name names) [
  | none ↦ none
  | some i ↦ some (walk_back name names i)
]

abbrev pub is_found : Global → Bool
is_found g = not (g.address == 0) && not g.search_fail

-- The loop of `Search_SymbolLookup` over the entries of one name. Two addresses give NULL.
unfoldable pub look : List ℕ → ℕ → List Global → ℕ
look name result [] = result
look name result (g ∷ gs) =
    let kept = look name result gs in
    let new = look name g.address gs in
    if not (bytes_eq g.name name)
    then result
    else if not (is_found g)
    then kept
    else if not (result == 0) && not (result == g.address)
    then 0
    else new

-- The loop of `Search_SymbolReplace`.
unfoldable pub put : List ℕ → ℕ → List Global → List Global
put name a [] = []
put name a (g ∷ gs) =
    let rest = put name a gs in
    if not (bytes_eq g.name name)
    then g ∷ gs
    else (if is_found g then record g { address = a } else g) ∷ rest

-- The same from the place `i` on.
unfoldable pub put_from : ℕ → List ℕ → ℕ → List Global → List Global
put_from zero name a gs = put name a gs
put_from (suc i) name a [] = []
put_from (suc i) name a (g ∷ gs) = g ∷ put_from i name a gs

abbrev pub start_name : List ℕ
start_name = codes "_start"

-- `Search_SymbolAdd`, where memory is enough.
unfoldable pub symbol_add : List ℕ → ℕ → Tables → Tables
symbol_add name a t = record t {
  module_symbols = t.module_symbols ++ (record { name = name; address = a } ∷ []);
}

abbrev pub put_at : List ℕ → ℕ → Tables → Option ℕ → Bool × Tables
put_at name a t none = (false, t)
put_at name a t (some i) = (true, record t { globals = put_from i name a t.globals })

-- `Search_SymbolReplace`: whether it succeeds, and the tables.
unfoldable pub symbol_replace : Given → List ℕ → ℕ → Tables → Bool × Tables
symbol_replace given name a t =
    if bytes_eq name start_name
    then (true, record t { start = a })
    else put_at name a t (search_symbol given name (map global_name t.globals))

unfoldable pub sort_module_symbols : Given → Tables → Tables
sort_module_symbols given t = if t.sorted_count == length t.module_symbols then t else record t {
  module_symbols = given.qsort t.module_symbols;
  sorted_count = length t.module_symbols;
}

abbrev pub find_module_symbol : Given → List ℕ → Tables → Option ModuleSymbol
find_module_symbol given name t = elim (given.bsearch name (map module_name t.module_symbols)) [
  | none ↦ none
  | some i ↦ get_elem? t.module_symbols i
]

abbrev pub look_at : List ℕ → List Global → Option ℕ → ℕ
look_at name gs none = 0
look_at name gs (some i) = look name 0 (drop i gs)

-- A symbol of the game.
unfoldable pub lookup_global : Given → List ℕ → List Global → ℕ
lookup_global given name gs = look_at name gs (search_symbol given name (map global_name gs))

unfoldable pub lookup_game : Given → List ℕ → Tables → ℕ
lookup_game given name t =
    if bytes_eq name start_name
    then (if t.start == 0 then given.game_entry else t.start)
    else if bytes_eq name (codes "bslug_game_start")
    then given.app0_start
    else if bytes_eq name (codes "bslug_game_end")
    then given.app0_end
    else lookup_global given name t.globals

-- `Search_SymbolLookup`: the address, and the tables, whose symbols of modules are sorted.
unfoldable pub symbol_lookup : Given → List ℕ → Tables → ℕ × Tables
symbol_lookup given name t =
    let t' = sort_module_symbols given t in
    elim (find_module_symbol given name t') [
      | some s ↦ (s.address, t')
      | none ↦ (lookup_game given name t', t')
    ]

unfoldable pub all_ones : List ℕ → Bool
all_ones [] = true
all_ones (m ∷ ms) = m == 0xff && all_ones ms

-- Whether a second place of the symbol does no harm.
unfoldable pub is_exact : Global → Bool
unfolding all_ones
is_exact g = elim g.mask [ none ↦ false | some m ↦ g.data_size == g.size && all_ones m ]

-- `Search_SymbolMatch`: the symbol is found at an address.
unfoldable pub symbol_match : ℕ → Global → Global
symbol_match a g =
    if g.address == 0
    then record g { address = a }
    else if is_exact g
    then g
    else record g { search_fail = true }
