-- ===== src/Search/Fsm.antt =====
-- `FSM_Run` and `FSM_Merge` of src/search/fsm.c. A node is known by its index.
mod Table
pub mod Process
mod Total
pub mod Complete
mod Loops
mod Ends
pub mod Follow
pub mod Run
pub mod Closed
pub mod Create
pub mod Labels
mod Enter
mod Nibbles
mod Rounds
pub mod Halves
mod First
pub mod Machine
mod Hits
mod Match
pub mod Found
use netslugplus.Base.{
  ℕ, zero, suc, ◌+◌, ◌*◌, ◌/◌, ◌%◌, Bool, true, false, not, ◌&&◌, ◌==◌, if◌then◌else◌, List, [],
  ◌∷◌, ◌++◌, Option, none, some, update,
}

-- `fsm_node_t`: an epsilon node has a symbol and the next node, another one has 16 transitions. A
-- node that is allocated has neither yet.
pub data Node : Type 0 where
  epsilon : ℕ → ℕ → Node
  transitional : (ℕ → ℕ) → Node
  unset : Node

pub record Fsm : Type 0 where
  pub initial : ℕ
  pub node_count : ℕ
  pub nodes : ℕ → Node

abbrev pub note : ℕ → Option (List ℕ × ℕ) → Option (List ℕ × ℕ)
note symbol none = none
note symbol (some (ms, s)) = some (symbol ∷ ms, s)

-- The loop over the epsilon nodes from a state: the symbols that match here, and the state behind
-- them; `none` if the fuel does not do.
unfoldable pub drain : ℕ → Fsm → ℕ → Option (List ℕ × ℕ)
drain zero fsm s = elim (fsm.nodes s) [ epsilon symbol next ↦ none | _ ↦ some ([], s) ]
drain (suc fuel) fsm s = elim (fsm.nodes s) [
  | epsilon symbol next ↦ note symbol (drain fuel fsm next)
  | _ ↦ some ([], s)
]

abbrev pub follow_transition : Node → ℕ → Option ℕ
follow_transition (transitional t) j = some (t j)
follow_transition (epsilon symbol next) j = none
follow_transition unset j = none

abbrev pub and_then {ℓ κ} : {A : Type ℓ} {B : Type κ} → Option A → (A → Option B) → Option B
and_then none f = none
and_then (some a) f = f a

-- The two transitions of a byte.
abbrev pub read_byte : Fsm → ℕ → ℕ → Option ℕ
read_byte fsm c s =
    and_then (follow_transition (fsm.nodes s) (c / 16))
      (λ t. follow_transition (fsm.nodes t) (c % 16))

abbrev pub at_front : List ℕ → Option (List (List ℕ)) → Option (List (List ℕ))
at_front ms none = none
at_front ms (some rest) = some (ms ∷ rest)

-- `FSM_Run`: for each place of the data, and for its end, the symbols that match there, in the order
-- of the calls of `match_fn`.
unfoldable pub run : ℕ → Fsm → ℕ → List ℕ → Option (List (List ℕ))
run fuel fsm s [] = and_then (drain fuel fsm s) (λ d. some (d.0 ∷ []))
run fuel fsm s (c ∷ cs) =
    and_then (drain fuel fsm s)
      (λ d. and_then (read_byte fsm c d.1) (λ t. at_front d.0 (run fuel fsm t cs)))

-- `fsm_node_index_t`. The place `left * right->node_count + right` of the array is the pair of the
-- two indices, which are also what `left` and `right` point to.
pub record Entry : Type 0 where
  pub node : ℕ
  pub processed : Bool

pub record Merge : Type 0 where
  pub entries : ℕ → ℕ → Option Entry
  pub nodes : ℕ → Node
  pub node_count : ℕ
  pub processed_nodes : ℕ

abbrev pub put_entry : ℕ → ℕ → Entry → Merge → Merge
put_entry l r e m = record m { entries = update m.entries l (update (m.entries l) r (some e)) }

abbrev pub alloc_entry : ℕ → ℕ → Merge → Merge
alloc_entry l r m = record (put_entry l r (record { node = m.node_count; processed = false }) m) {
  nodes = update m.nodes m.node_count unset;
  node_count = suc m.node_count;
}

-- The node for a pair, which is allocated if there is none.
unfoldable pub enter : ℕ → ℕ → Merge → ℕ × Merge
enter l r m = elim (m.entries l r) [
  | some e ↦ (e.node, m)
  | none ↦ (m.node_count, alloc_entry l r m)
]

abbrev pub set_node : ℕ → Node → Merge → Merge
set_node node x m = record m { nodes = update m.nodes node x }

abbrev pub transitions : Node → ℕ → ℕ
transitions (transitional t) = t
transitions (epsilon symbol next) = λ _. 0
transitions unset = λ _. 0

-- The loop of `FSM_BuildMergeNodeTransitional`, with the rounds left.
unfoldable pub build_transitions : ℕ → ℕ → ℕ → (ℕ → ℕ) → (ℕ → ℕ) → Merge → Merge
build_transitions zero i node f g m = m
build_transitions (suc n) i node f g m =
    let (t, m') = enter (f i) (g i) m in
    build_transitions n (suc i) node f g
      (set_node node (transitional (update (transitions (m'.nodes node)) i t)) m')

-- `FSM_BuildMergeNodeEpsilon`, for the pair behind the epsilon node.
unfoldable pub build_epsilon : ℕ → ℕ → ℕ → ℕ → Merge → Merge
build_epsilon node symbol l r m = let (t, m') = enter l r m in set_node node (epsilon symbol t) m'

-- `FSM_BuildMergeNode`
unfoldable pub build_node : ℕ → Node → Node → ℕ → ℕ → Merge → Merge
build_node node (epsilon symbol next) y l r m = build_epsilon node symbol next r m
build_node node (transitional f) (epsilon symbol next) l r m = build_epsilon node symbol l next m
build_node node (transitional f) (transitional g) l r m = build_transitions 16 0 node f g m
build_node node (transitional f) unset l r m = m
build_node node unset y l r m = m

abbrev pub mark : ℕ → ℕ → ℕ → Merge → Merge
mark l r node m = record (put_entry l r (record { node = node; processed = true }) m) {
  processed_nodes = suc m.processed_nodes;
}

abbrev pub process_entry : Fsm → Fsm → ℕ → ℕ → Option Entry → Merge → Merge
process_entry left right l r none m = m
process_entry left right l r (some e) m =
    if e.processed
    then m
    else mark l r e.node (build_node e.node (left.nodes l) (right.nodes r) l r m)

-- One round of the inner loop of `FSM_Merge`.
unfoldable pub process : Fsm → Fsm → ℕ → ℕ → Merge → Merge
process left right l r m = process_entry left right l r (m.entries l r) m

-- The inner loop: the pairs with a left index below `l` in order, each with the right ones below `r`.
unfoldable pub process_row : Fsm → Fsm → ℕ → ℕ → Merge → Merge
process_row left right l zero m = m
process_row left right l (suc r) m = process left right l r (process_row left right l r m)

unfoldable pub process_all : Fsm → Fsm → ℕ → Merge → Merge
process_all left right zero m = m
process_all left right (suc l) m =
    process_row left right l right.node_count (process_all left right l m)

-- The outer loop.
unfoldable pub merge_loop : ℕ → Fsm → Fsm → Merge → Option Merge
merge_loop zero left right m = none
merge_loop (suc fuel) left right m =
    let m' = process_all left right left.node_count m in
    let rest = merge_loop fuel left right m' in
    if m'.processed_nodes == m'.node_count then some m' else rest

-- `calloc` clears the table.
abbrev pub no_entries : Merge
no_entries = record {
  entries = λ _ _. none;
  nodes = λ _. unset;
  node_count = 0;
  processed_nodes = 0;
}

abbrev pub first_merge : Fsm → Fsm → Merge
first_merge left right = alloc_entry left.initial right.initial no_entries

abbrev pub merged_fsm : Option Merge → Option Fsm
merged_fsm none = none
merged_fsm (some m) = some (record { initial = 0; node_count = m.node_count; nodes = m.nodes })

-- `FSM_Merge`, where memory is enough.
unfoldable pub merge : ℕ → Fsm → Fsm → Option Fsm
merge fuel left right = merged_fsm (merge_loop fuel left right (first_merge left right))
