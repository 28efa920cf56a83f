-- ===== src/Search/Build/Finds.antt =====
-- `Search_BuildFSM` of src/search/search.c makes one machine, which finds all the symbols.
use netslugplus.Base.{
  ℕ, zero, suc, ◌<◌, ◌≡◌, ◌≢◌, refl, sym, subst, arith, List, [], ◌∷◌, ◌++◌, Option, none, some,
  length, All, append_nil, append_assoc,
}
use netslugplus.Search.Fsm.{Fsm, run}
use netslugplus.Search.Fsm.Run.{merge-ends}
use netslugplus.Search.Fsm.Create.{create}
use netslugplus.Search.Text.Spells.{symbol_bytes, bytes_from}
use netslugplus.Search.Parse.{GameSymbol, Content, content, no_content, unset_content}
use netslugplus.Search.Build.{
  SizeEntry, by_size, create_content, create_symbol, build_loop, build_fsm,
}
use netslugplus.Search.Build.Reports.{
  Sought, sought_content, sought_symbol, sought, all_reports, Finds, create-Finds, merge-Finds,
}

create_bytes-Finds :
    (index n k : ℕ) (bytes masks : ℕ → ℕ) {fsm : Fsm}
    → n ≢ 0
    → create index (bytes_from n k bytes masks) ≡ some fsm
    → Finds ((index, bytes_from n k bytes masks) ∷ []) fsm
create_bytes-Finds index zero k bytes masks ne made = absurd (ne refl)
create_bytes-Finds index (suc n) k bytes masks ne made = create-Finds index _ _ made

create_content-Finds :
    (index : ℕ) (c : Content) {fsm : Fsm}
    → create_content index c ≡ some fsm
    → Finds (sought_content index c) fsm
create_content-Finds index no_content made = absurd (cc)
create_content-Finds index unset_content made = absurd (cc)
create_content-Finds index (content b) {fsm} made =
    let filled : b.data_size ≢ 0 = λ z. absurd (ground (arith, made, z)) in
    let same : create index (symbol_bytes b) ≡ some fsm = ground (arith, made) in
    create_bytes-Finds index b.data_size 0 b.bytes b.masks filled same

create_symbol-Finds :
    (o : Option GameSymbol) {fsm : Fsm} → create_symbol o ≡ some fsm → Finds (sought_symbol o) fsm
create_symbol-Finds none made = absurd (cc)
create_symbol-Finds (some s) made = create_content-Finds s.index s.bytes made

-- `FSM_Create` has a result for the symbol.
abbrev pub IsMade : Option GameSymbol → Type 0
IsMade o = (fsm : Fsm) × (create_symbol o ≡ some fsm)

build_loop-Finds :
    (os : List (Option GameSymbol)) (ss : List Sought) (final : Fsm)
    → Finds ss final
    → All IsMade os
    → (fsm : Fsm) × ((build_loop (some final) os ≡ some (some fsm)) × Finds (ss ++ sought os) fsm)
unfolding build_loop
build_loop-Finds [] ss final f made =
    (final, (refl, subst (λ ts. Finds ts final) (sym (append_nil ss)) f))
build_loop-Finds (o ∷ os) ss final f made =
    let (next, e) = made.0 in
    let g = create_symbol-Finds o e in
    let (joined, j) = merge-ends final next f.is_closed g.is_closed in
    let (fsm, (k, h)) =
      build_loop-Finds os (ss ++ sought_symbol o) joined
        (merge-Finds ss (sought_symbol o) final next joined f g j) made.1 in
    (
      fsm,
      (rw (e, j) k, subst (λ ts. Finds ts fsm) (append_assoc ss (sought_symbol o) (sought os)) h),
    )

-- Where there is a symbol, and `FSM_Create` has a result for each, `Search_BuildFSM` gives one machine;
-- on any bytes `FSM_Run` with it ends, and finds at each place, and at the end, exactly the symbols
-- whose bytes the bytes read so far end with, in the bits of their masks, in the order of the sizes.
pub build_fsm-run :
    (qsort : List SizeEntry → List SizeEntry) (old_size : ℕ → ℕ) (symbols : List GameSymbol)
    (first : Option GameSymbol) (others : List (Option GameSymbol)) (bytes : List ℕ)
    → by_size qsort old_size symbols ≡ first ∷ others
    → All IsMade (first ∷ others)
    → All (λ c. c < 256) bytes
    → (fsm : Fsm) × ((build_fsm qsort old_size symbols ≡ some (some fsm))
        × (run (length (sought (first ∷ others))) fsm fsm.initial bytes
            ≡ some (all_reports (sought (first ∷ others)) [] bytes)))
unfolding build_fsm build_loop
build_fsm-run qsort old_size symbols first others bytes order made small =
    let (start, e) = made.0 in
    let (fsm, (k, h)) =
      build_loop-Finds others (sought_symbol first) start (create_symbol-Finds first e) made.1 in
    (fsm, (rw (order, e) k, h.finds bytes small))
