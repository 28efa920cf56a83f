-- ===== src/Search/BuildTests.antt =====
-- Two symbols, from their texts to what is found in memory.
use netslugplus.Base.{
  ℕ, ◌==◌, ◌≡◌, inl, refl, arith, false, List, [], ◌∷◌, some, codes, All, get_elem?, if◌then◌else◌,
}
use mathlib.Core.Option
use netslugplus.Search.Fsm.{Fsm, run}
use netslugplus.Search.Fsm.Create.{
  Masked, nibble_matches, create, create_machine, all_room, build_queue, build_nibbles,
  build_nibble, enter_queued, find_queued,
}
use netslugplus.Search.Text.{Bytes, parse_data}
use netslugplus.Search.Text.Spells.{no_text, after_blank, open_half, fixed_half, symbol_bytes}
use netslugplus.Search.Text.Parsed.{parse_data-symbol_bytes}
use netslugplus.Search.Parse.{GameSymbol, content}
use netslugplus.Search.Build.{SizeEntry, by_size, size_entries, build_fsm}
use netslugplus.Search.Build.Finds.{IsMade, build_fsm-run}
use netslugplus.Search.Symbols.{Global}
use netslugplus.Search.Main.{new_global, searched, search_main}
use netslugplus.Search.Main.Places.{search_main-met_at}

abbrev texts : List (List ℕ)
texts = codes "1 2" ∷ codes "5?" ∷ []

abbrev two_masked : List Masked
two_masked =
    record { byte = 0x12; byte_mask = 0xff } ∷ record { byte = 0x50; byte_mask = 0xf0 } ∷ []

parse_data-symbol_bytes_example :
    Option.map symbol_bytes (parse_data texts (λ i. 7) (λ i. i)) ≡ some two_masked
parse_data-symbol_bytes_example =
    parse_data-symbol_bytes texts (λ i. 7) (λ i. i) two_masked
      (fixed_half (inl (omega arith, refl)) (
        after_blank (inl refl) (
          fixed_half (inl (omega arith, refl))
            (fixed_half (inl (omega arith, refl)) (open_half no_text)))))

abbrev bytes_of : (ℕ → ℕ) → (ℕ → ℕ) → ℕ → Bytes
bytes_of bytes masks n = record { bytes = bytes; masks = masks; data_size = n }

abbrev symbol_of : ℕ → List ℕ → Bytes → GameSymbol
symbol_of index name b = record {
  index = index;
  name = name;
  size = b.data_size;
  offset = b.data_size;
  bytes = content b;
  debugging = false;
  relocations = [];
}

-- The bytes 12 5?, and the byte 53.
abbrev long_symbol : GameSymbol
long_symbol =
    symbol_of 0 (codes "long")
      (bytes_of (λ i. if i == 0 then 0x12 else 0x50) (λ i. if i == 0 then 0xff else 0xf0) 2)

abbrev short_symbol : GameSymbol
short_symbol = symbol_of 1 (codes "short") (bytes_of (λ i. 0x53) (λ i. 0xff) 1)

abbrev two_symbols : List GameSymbol
two_symbols = long_symbol ∷ short_symbol ∷ []

-- A sort of two entries.
abbrev swap_larger : List SizeEntry → List SizeEntry
swap_larger [] = []
swap_larger (a ∷ []) = a ∷ []
swap_larger (a ∷ b ∷ es) = b ∷ a ∷ es

by_size_order : by_size swap_larger (λ i. 0) two_symbols ≡ some short_symbol ∷ some long_symbol ∷ []
unfolding by_size size_entries
by_size_order = refl

both-IsMade : All IsMade (some short_symbol ∷ some long_symbol ∷ [])
unfolding create all_room build_queue build_nibbles build_nibble nibble_matches enter_queued
    find_queued
both-IsMade = (
  (create_machine 1 (symbol_bytes (bytes_of (λ i. 0x53) (λ i. 0xff) 1)), refl),
  ((create_machine 0 two_masked, refl), tt),
)

build_fsm-run_example :
    (fsm : Fsm) × ((build_fsm swap_larger (λ i. 0) two_symbols ≡ some (some fsm))
      × (run 2 fsm fsm.initial (0x12 ∷ 0x53 ∷ []) ≡ some ([] ∷ [] ∷ (1 ∷ 0 ∷ []) ∷ [])))
unfolding nibble_matches
build_fsm-run_example =
    build_fsm-run swap_larger (λ i. 0) two_symbols (some short_symbol) (some long_symbol ∷ [])
      (0x12 ∷ 0x53 ∷ []) by_size_order both-IsMade (omega arith)

search_main-met_at_example :
    (gs : List Global) × ((search_main swap_larger
          (λ i. 0)
          two_symbols
          0x80004000
          (0x12 ∷ 0x53 ∷ [])
        ≡ some (searched gs))
      × (get_elem? gs 1
          ≡ some (record (new_global (λ i. 0) short_symbol) { address = 0x80004001 })))
unfolding nibble_matches
search_main-met_at_example =
    search_main-met_at swap_larger (λ i. 0) two_symbols (some short_symbol) (some long_symbol ∷ [])
      0x80004000 1 (0x12 ∷ 0x53 ∷ []) short_symbol by_size_order both-IsMade (omega arith)
      (omega arith) refl (omega arith)
