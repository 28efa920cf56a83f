-- ===== src/Search/Fsm/Create.antt =====
-- `FSM_Create` of src/search/fsm.c: the machine of one symbol, from its bytes and their masks. Memory
-- is enough. A queue starts with room for 16 nodes; for the next one the source moves it and then
-- writes through a pointer into the old array, so that there is no result then.
use netslugplus.Base.{
  ℕ, zero, suc, ◌+◌, ◌*◌, ◌/◌, ◌%◌, Bool, true, false, not, ◌&&◌, ◌==◌, leb, length, if◌then◌else◌,
  List, [], ◌∷◌, ◌++◌, Option, none, some, update,
}
use netslugplus.Search.Fsm.{Node, epsilon, transitional, unset, Fsm, transitions}

-- `a & b` of four bits.
abbrev pub nibble_and : ℕ → ℕ → ℕ
nibble_and a b =
    a % 2 * (b % 2)
    + 2 * (a / 2 % 2 * (b / 2 % 2))
    + 4 * (a / 4 % 2 * (b / 4 % 2))
    + 8 * (a / 8 % 2 * (b / 8 % 2))

-- Four bits of a symbol and of its mask, and the test of both loops.
pub record Nibble : Type 0 where
  pub value : ℕ
  pub mask : ℕ

unfoldable pub nibble_matches : Nibble → ℕ → Bool
nibble_matches x j = nibble_and j x.mask == nibble_and x.value x.mask

-- The nodes so far.
pub record Build : Type 0 where
  pub nodes : ℕ → Node
  pub node_count : ℕ

-- `FSM_AllocNode`
abbrev pub alloc_node : Build → Build
alloc_node b = record { nodes = update b.nodes b.node_count unset; node_count = suc b.node_count }

abbrev pub transition : Build → ℕ → ℕ → ℕ
transition b n j = transitions (b.nodes n) j

abbrev pub set_transition : ℕ → ℕ → ℕ → Build → Build
set_transition n j t b = record b {
  nodes = update b.nodes n (transitional (update (transitions (b.nodes n)) j t));
}

-- `fsm_node_build_queue_t`
pub record Queued : Type 0 where
  pub node : ℕ
  pub fallback : Option ℕ

abbrev pub same_node : Option ℕ → Option ℕ → Bool
same_node none none = true
same_node none (some y) = false
same_node (some x) none = false
same_node (some x) (some y) = x == y

-- The loop `search` over the other queue.
unfoldable pub find_queued : Option ℕ → List Queued → Option ℕ
find_queued f [] = none
find_queued f (e ∷ es) =
    let rest = find_queued f es in if same_node e.fallback f then some e.node else rest

-- One half of a round of the loop over the symbol's bytes: for its high or its low four bits.
pub record Half : Type 0 where
  pub is_first : Bool
  pub is_high : Bool
  pub nibble : Nibble
  pub initial : ℕ

abbrev pub behind : Option ℕ → Build → ℕ → ℕ
behind none b j = 0
behind (some f) b j = transition b f j

-- `next_fallback`
abbrev pub next_fallback : Half → Option ℕ → Build → ℕ → Option ℕ
next_fallback h fallback b j =
    if h.is_first then (if h.is_high then none else some h.initial) else some (behind fallback b j)

abbrev pub Queues : Type 0
Queues = List Queued × Build

-- The node for a fallback, which is allocated if the other queue has none: its index and the rest.
abbrev pub entered : Option ℕ → Queues → Option ℕ → ℕ × Queues
entered f (q, b) (some n) = (n, (q, b))
entered f (q, b) none =
    (b.node_count, (q ++ (record { node = b.node_count; fallback = f } ∷ []), alloc_node b))

unfoldable pub enter_queued : Option ℕ → Queues → ℕ × Queues
enter_queued f (q, b) = entered f (q, b) (find_queued f q)

abbrev pub link_to : ℕ → ℕ → ℕ × Queues → Queues
link_to node j (t, (q, b)) = (q, set_transition node j t b)

-- A nibble that the symbol does not have here.
abbrev pub fall_back : Half → ℕ → ℕ → Option ℕ → Queues → Queues
fall_back h node j (some f) (q, b) = (q, set_transition node j (transition b f j) b)
fall_back h node j none (q, b) =
    if h.is_high then (q, b) else (q, set_transition node j h.initial b)

unfoldable pub build_nibble : Half → Queued → ℕ → Queues → Queues
build_nibble h e j (q, b) =
    if nibble_matches h.nibble j
    then link_to e.node j (enter_queued (next_fallback h e.fallback b j) (q, b))
    else fall_back h e.node j e.fallback (q, b)

-- The loop over the 16 nibbles, with the rounds left.
unfoldable pub build_nibbles : ℕ → ℕ → Half → Queued → Queues → Queues
build_nibbles zero j h e w = w
build_nibbles (suc n) j h e w = build_nibbles n (suc j) h e (build_nibble h e j w)

unfoldable pub build_queue : Half → List Queued → Queues → Queues
build_queue h [] w = w
build_queue h (e ∷ es) w = build_queue h es (build_nibbles 16 0 h e w)

-- A byte of the symbol with its mask.
pub record Masked : Type 0 where
  pub byte : ℕ
  pub byte_mask : ℕ

abbrev pub high : Masked → Nibble
high x = record { value = x.byte / 16; mask = x.byte_mask / 16 }

abbrev pub low : Masked → Nibble
low x = record { value = x.byte % 16; mask = x.byte_mask % 16 }

abbrev pub half : Bool → Bool → Nibble → ℕ → Half
half first high x initial = record {
  is_first = first;
  is_high = high;
  nibble = x;
  initial = initial;
}

abbrev pub emptied : Queues → List Queued × Queues
emptied (q, b) = (q, ([], b))

abbrev pub build_half : Half → List Queued × Queues → List Queued × Queues
build_half h (q, w) = emptied (build_queue h q w)

-- The loop over the symbol's bytes; the queue that a half fills is the next half's.
unfoldable pub build_bytes : Bool → ℕ → List Masked → List Queued × Queues → List Queued × Queues
build_bytes first initial [] s = s
build_bytes first initial (x ∷ xs) s = build_bytes false initial xs (
    build_half (half first false (low x) initial) (build_half (half first true (high x) initial) s))

abbrev pub no_nodes : Build
no_nodes = record { nodes = λ _. unset; node_count = 0 }

-- The first nodes: where the first nibble is masked at all, a node for a byte that does not match.
abbrev pub first_nodes : Bool → Build
first_nodes true = record {
  nodes = update (update (λ _. unset) 0 (transitional (λ _. 1))) 1 (transitional (λ _. 0));
  node_count = 2;
}
first_nodes false = record { nodes = update (λ _. unset) 0 (transitional (λ _. 0)); node_count = 1 }

abbrev pub initial_node : Bool → ℕ
initial_node true = 1
initial_node false = 0

abbrev pub target_of : Option ℕ → ℕ
target_of none = 0
target_of (some f) = f

-- The last loop: each node of the queue becomes an epsilon node.
unfoldable pub finish_queue : ℕ → List Queued → (ℕ → Node) → ℕ → Node
finish_queue symbol [] nodes = nodes
finish_queue symbol (e ∷ es) nodes =
    finish_queue symbol es (update nodes e.node (epsilon symbol (target_of e.fallback)))

abbrev pub finished : ℕ → ℕ → List Queued × Queues → Fsm
finished symbol initial (q, (_, b)) = record {
  initial = initial;
  node_count = b.node_count;
  nodes = finish_queue symbol q b.nodes;
}

abbrev pub has_first : List Masked → Bool
has_first [] = false
has_first (x ∷ xs) = not (x.byte_mask / 16 == 0)

-- The machine of a symbol with at least one byte, where no queue is moved.
unfoldable pub create_machine : ℕ → List Masked → Fsm
create_machine symbol xs =
    let first = has_first xs in
    let initial = initial_node first in
    finished symbol initial (
      build_bytes true initial xs
        (record { node = initial; fallback = none } ∷ [], ([], first_nodes first)))

-- Whether the queue that a half filled has room in its first array.
abbrev pub has_room : List Queued × Queues → Bool
has_room (q, w) = leb (length q) 16

unfoldable pub all_room : Bool → ℕ → List Masked → List Queued × Queues → Bool
all_room first initial [] s = true
all_room first initial (x ∷ xs) s =
    let s1 = build_half (half first true (high x) initial) s in
    let s2 = build_half (half first false (low x) initial) s1 in
    has_room s1 && has_room s2 && all_room false initial xs s2

-- `FSM_Create`
unfoldable pub create : ℕ → List Masked → Option Fsm
create symbol xs =
    let first = has_first xs in
    let initial = initial_node first in
    if all_room true initial xs
      (record { node = initial; fallback = none } ∷ [], ([], first_nodes first))
    then some (create_machine symbol xs)
    else none
