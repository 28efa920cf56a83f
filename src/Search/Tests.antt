-- ===== src/Search/Tests.antt =====
-- Two versions of one symbol, one of which was found.
use netslugplus.Base.{
  ℕ, zero, suc, true, ◌+◌, ◌*◌, ◌/◌, ◌%◌, ◌==◌, ◌≡◌, refl, arith, false, List, [], ◌∷◌, codes,
  bytes_eq, Option, none, some, if◌then◌else◌,
}
use netslugplus.Search.Symbols.{
  Global, Given, Tables, lookup_game, lookup_global, symbol_replace, search_symbol, walk_back, look,
}
use netslugplus.Search.Fsm.{Fsm, Node, epsilon, transitional, run, drain, merge}
use netslugplus.Search.Fsm.Complete.{IsClosed}
use netslugplus.Search.Fsm.Process.{Closed}
use netslugplus.Search.Fsm.Run.{merge-ends, merge-run}
use netslugplus.Search.Replace.{IsOrdinary, symbol_replace-lookup_game, symbol_replace-apart}

-- The search of an array by its first match.
abbrev find_first : List ℕ → List (List ℕ) → Option ℕ
find_first name [] = none
find_first name (n ∷ ns) =
    let rest = find_first name ns in
    if bytes_eq n name then some 0 else elim rest [ none ↦ none | some i ↦ some (suc i) ]

abbrev given : Given
given = record {
  qsort = λ s. s;
  bsearch = find_first;
  game_entry = 0x80004000;
  app0_start = 0x80003100;
  app0_end = 0x80500000;
}

abbrev found : List ℕ → ℕ → Global
found name a = record {
  name = name;
  address = a;
  search_fail = false;
  size = 16;
  data_size = 16;
  mask = none;
}

abbrev tables : Tables
tables = record {
  module_symbols = [];
  sorted_count = 0;
  globals =
      found (codes "OSInit") 0x80010000
      ∷ found (codes "strlen") 0
      ∷ found (codes "strlen") 0x80020000
      ∷ [];
  start = 0;
}

strlen_found : lookup_game given (codes "strlen") tables ≡ 0x80020000
unfolding lookup_game lookup_global search_symbol walk_back look bytes_eq
strlen_found = refl

names_differ : bytes_eq (codes "strlen") (codes "OSInit") ≡ false
unfolding bytes_eq
names_differ = refl

strlen_IsOrdinary : IsOrdinary (codes "strlen")
unfolding bytes_eq
strlen_IsOrdinary = (refl, refl)

symbol_replace-lookup_game_example :
    ((symbol_replace given (codes "strlen") 0x81700000 tables).0 ≡ true)
    × (lookup_game given
          (codes "strlen")
          (symbol_replace given (codes "strlen") 0x81700000 tables).1
        ≡ 0x81700000)
symbol_replace-lookup_game_example =
    symbol_replace-lookup_game given (codes "strlen") 0x81700000 tables strlen_IsOrdinary
      (omega arith) (rw strlen_found (omega arith))

symbol_replace-apart_example :
    lookup_game given (codes "OSInit") (symbol_replace given (codes "strlen") 0x81700000 tables).1
    ≡ lookup_game given (codes "OSInit") tables
symbol_replace-apart_example =
    symbol_replace-apart given (codes "strlen") 0x81700000 tables (codes "OSInit") strlen_IsOrdinary
      (omega arith) (rw strlen_found (omega arith)) names_differ

-- A machine for one byte, 0x41, with its symbol: nodes 0 and 1 read its two halves, node 2 tells.
abbrev byte_nodes : ℕ → ℕ → ℕ → Node
byte_nodes c symbol zero = transitional (λ j. if j == c / 16 then 1 else 3)
byte_nodes c symbol (suc zero) = transitional (λ j. if j == c % 16 then 2 else 0)
byte_nodes c symbol (suc (suc zero)) = epsilon symbol 0
byte_nodes c symbol (suc (suc (suc s))) = transitional (λ _. 0)

abbrev one_byte : ℕ → ℕ → Fsm
one_byte c symbol = record { initial = 0; node_count = 4; nodes = byte_nodes c symbol }

abbrev letters : List ℕ
letters = 0x41 ∷ 0x42 ∷ 0x51 ∷ 0x41 ∷ []

byte_nodes-Closed : (c symbol s : ℕ) → Closed 4 (byte_nodes c symbol s)
byte_nodes-Closed c symbol zero = λ j lt. ground arith
byte_nodes-Closed c symbol (suc zero) = λ j lt. ground arith
byte_nodes-Closed c symbol (suc (suc zero)) = omega arith
byte_nodes-Closed c symbol (suc (suc (suc s))) = λ j lt. omega arith

one_byte-IsClosed : (c symbol : ℕ) → IsClosed (one_byte c symbol)
one_byte-IsClosed c symbol = record {
  initial_inside = omega arith;
  closed = λ s lt. byte_nodes-Closed c symbol s;
}

merged : (fsm : Fsm) × (merge (suc (4 * 4)) (one_byte 0x41 7) (one_byte 0x42 9) ≡ some fsm)
merged =
    merge-ends (one_byte 0x41 7) (one_byte 0x42 9) (one_byte-IsClosed 0x41 7)
      (one_byte-IsClosed 0x42 9)

merge-ends_example :
    (fsm : Fsm) × (merge (suc (4 * 4)) (one_byte 0x41 7) (one_byte 0x42 9) ≡ some fsm)
merge-ends_example =
    merge-ends (one_byte 0x41 7) (one_byte 0x42 9) (one_byte-IsClosed 0x41 7)
      (one_byte-IsClosed 0x42 9)

-- Symbol 7 behind the first and the last byte, symbol 9 behind the second.
abbrev found_7 : List (List ℕ)
found_7 = [] ∷ (7 ∷ []) ∷ [] ∷ [] ∷ (7 ∷ []) ∷ []

abbrev found_9 : List (List ℕ)
found_9 = [] ∷ [] ∷ (9 ∷ []) ∷ [] ∷ [] ∷ []

run_7 : run 1 (one_byte 0x41 7) 0 letters ≡ some found_7
unfolding run drain
run_7 = refl

run_9 : run 1 (one_byte 0x42 9) 0 letters ≡ some found_9
unfolding run drain
run_9 = refl

merge-run_example :
    run (1 + 1) (merged.0) (merged.0.initial) letters
    ≡ some ([] ∷ (7 ∷ []) ∷ (9 ∷ []) ∷ [] ∷ (7 ∷ []) ∷ [])
merge-run_example =
    merge-run (one_byte 0x41 7) (one_byte 0x42 9) (merged.0) 1 1 letters found_7 found_9
      (one_byte-IsClosed 0x41 7) (one_byte-IsClosed 0x42 9) (merged.1)
      (omega arith, (omega arith, (omega arith, (omega arith, tt)))) run_7 run_9
