-- ===== src/Search/Fsm/Complete.antt =====
-- The loops over the table: when they end, every pair that was met is processed.
use netslugplus.Base.{
  ℕ, zero, suc, ◌+◌, ◌<◌, ◌≡◌, inl, inr, refl, sym, ap, ◌∙◌, arith, true, false, ℕ_discrete,
  if◌then◌else◌, Option, none, some, update, Option-cases,
}
use netslugplus.Search.Fsm.{
  Node, epsilon, transitional, unset, Fsm, Entry, Merge, put_entry, alloc_entry, enter, set_node,
  build_transitions, build_epsilon, build_node, mark, transitions,
}
use netslugplus.Search.Fsm.Table.{
  put_entry-cases, At, At-Enlarges, alloc-Enlarges, put_entry_self, same_entry,
}
use netslugplus.Search.Fsm.Process.{Closed}
use netslugplus.Search.Fsm.Total.{total, total-ext, total-step}

abbrev pub met : Option Entry → ℕ
met none = 0
met (some e) = 1

abbrev pub done : Option Entry → ℕ
done none = 0
done (some e) = if e.processed then 1 else 0

pub record IsClosed (fsm : Fsm) : Type 0 where
  pub initial_inside : fsm.initial < fsm.node_count
  pub closed : (s : ℕ) → s < fsm.node_count → Closed fsm.node_count (fsm.nodes s)

module _ (left right : Fsm) where
  abbrev pub sum_of : (Option Entry → ℕ) → Merge → ℕ
  sum_of f m = total (λ l r. f (m.entries l r)) left.node_count right.node_count

  pub record Counted (m : Merge) : Type 0 where
    pub all_met : sum_of met m ≡ m.node_count
    pub all_done : sum_of done m ≡ m.processed_nodes
    pub covered : (t : ℕ) → t < m.node_count → (l : ℕ) × ((r : ℕ) × At m l r t)

  -- One pair gets a new entry.
  put_entry-sum :
      (f : Option Entry → ℕ) (l r : ℕ) (e : Entry) (m : Merge)
      → l < left.node_count
      → r < right.node_count
      → f (some e) ≡ suc (f (m.entries l r))
      → sum_of f (put_entry l r e m) ≡ suc (sum_of f m)
  put_entry-sum f l r e m la rb s =
      total-step (λ a b. f (m.entries a b)) (λ a b. f ((put_entry l r e m).entries a b))
        left.node_count right.node_count l r la rb
        (λ a b ne. elim (put_entry-cases l r e m a b) [
          | inl (p, (q, _)) ↦ absurd (elim ne [ inl n ↦ n p | inr n ↦ n q ])
          | inr (_, k) ↦ ap f (sym k)
        ])
        (elim (put_entry-cases l r e m l r) [
          | inl (_, (_, k)) ↦ ap f k ∙ s
          | inr (ne, _) ↦ absurd (elim ne [ inl n ↦ n refl | inr n ↦ n refl ])
        ])

  put_entry-sum_same :
      (f : Option Entry → ℕ) (l r : ℕ) (e : Entry) (m : Merge)
      → f (some e) ≡ f (m.entries l r)
      → sum_of f (put_entry l r e m) ≡ sum_of f m
  put_entry-sum_same f l r e m s =
      total-ext (λ a b. f ((put_entry l r e m).entries a b)) (λ a b. f (m.entries a b))
        left.node_count right.node_count
        (λ a b _ _. elim (put_entry-cases l r e m a b) [
          | inl (p, (q, k)) ↦ ap f k ∙ (s ∙ ap (λ (o : Option Entry). f o) (rw (p, q) refl))
          | inr (_, k) ↦ ap f k
        ])

  enter-covered :
      (l r : ℕ) (m : Merge)
      → m.entries l r ≡ none
      → Counted m
      → (t : ℕ) → t < suc m.node_count
      → (a : ℕ) × ((b : ℕ) × At (alloc_entry l r m) a b t)
  enter-covered l r m free c t lt = elim (ℕ_discrete t m.node_count) [
    | yes q ↦ (
      l,
      (r, (record { node = m.node_count; processed = false }, (put_entry_self l r _ m, sym q))),
    )
    | no ne ↦
        let (a, (b, k)) = c.covered t (omega arith) in
        (a, (b, At-Enlarges (alloc-Enlarges left right l r m free) a b t k))
  ]

  pub enter-Counted :
      (l r : ℕ) (m : Merge)
      → l < left.node_count
      → r < right.node_count
      → Counted m
      → Counted (enter l r m).1
  unfolding enter
  enter-Counted l r m la rb c = elim (Option-cases (m.entries l r)) [
    | inr (e, q) ↦ rw (q, enter) c
    | inl free ↦
        rw (free, enter)
          (record {
            all_met = put_entry-sum met l r _ m la rb (rw free refl) ∙ ap suc c.all_met;
            all_done = put_entry-sum_same done l r _ m (rw free refl) ∙ c.all_done;
            covered = enter-covered l r m free c;
          })
  ]

  set_node-Counted : (node : ℕ) (x : Node) (m : Merge) → Counted m → Counted (set_node node x m)
  set_node-Counted node x m c = record {
    all_met = c.all_met;
    all_done = c.all_done;
    covered = c.covered;
  }

  build_transitions-Counted :
      (n i node : ℕ) (f g : ℕ → ℕ) (m : Merge)
      → i + n ≡ 16
      → Closed left.node_count (transitional f)
      → Closed right.node_count (transitional g)
      → Counted m
      → Counted (build_transitions n i node f g m)
  unfolding build_transitions
  build_transitions-Counted zero i node f g m t cf cg c = c
  build_transitions-Counted (suc n) i node f g m t cf cg c =
      build_transitions-Counted n (suc i) node f g _ (omega arith) cf cg (
        set_node-Counted node
          (transitional
            (update (transitions ((enter (f i) (g i) m).1.nodes node)) i (enter (f i) (g i) m).0))
          (enter (f i) (g i) m).1
          (enter-Counted (f i) (g i) m (cf i (omega arith)) (cg i (omega arith)) c))

  build_epsilon-Counted :
      (node symbol l r : ℕ) (m : Merge)
      → l < left.node_count
      → r < right.node_count
      → Counted m
      → Counted (build_epsilon node symbol l r m)
  unfolding build_epsilon
  build_epsilon-Counted node symbol l r m la rb c =
      set_node-Counted node (epsilon symbol (enter l r m).0) (enter l r m).1
        (enter-Counted l r m la rb c)

  pub build_node-Counted :
      (node : ℕ) (x y : Node) (l r : ℕ) (m : Merge)
      → l < left.node_count
      → r < right.node_count
      → Closed left.node_count x
      → Closed right.node_count y
      → Counted m
      → Counted (build_node node x y l r m)
  unfolding build_node
  build_node-Counted node (epsilon symbol next) y l r m la rb cx cy c =
      build_epsilon-Counted node symbol next r m cx rb c
  build_node-Counted node (transitional f) (epsilon symbol next) l r m la rb cx cy c =
      build_epsilon-Counted node symbol l next m la cy c
  build_node-Counted node (transitional f) (transitional g) l r m la rb cx cy c =
      build_transitions-Counted 16 0 node f g m refl cx cy c
  build_node-Counted node (transitional f) unset l r m la rb cx cy c = c
  build_node-Counted node unset y l r m la rb cx cy c = c

  -- A mark leaves the node of each pair.
  pub mark-At :
      (l r : ℕ) (e : Entry) (m : Merge)
      → m.entries l r ≡ some e
      → (a b t : ℕ) → At m a b t
      → At (mark l r e.node m) a b t
  mark-At l r e m own a b t (d, (q, k)) =
      let marked_entry : Entry = record { node = e.node; processed = true } in
      elim (put_entry-cases l r marked_entry m a b) [
        | inl (p1, (p2, n)) ↦
            let own' : m.entries a b ≡ some e = rw (p1, p2) own in
            (marked_entry, (n, ap (λ (c : Entry). c.node) (same_entry own' q) ∙ k))
        | inr (_, n) ↦ (d, (n ∙ q, k))
      ]

  pub mark-Counted :
      (l r : ℕ) (e : Entry) (m : Merge)
      → l < left.node_count
      → r < right.node_count
      → m.entries l r ≡ some e
      → e.processed ≡ false
      → Counted m
      → Counted (mark l r e.node m)
  mark-Counted l r e m la rb q free c = record {
    all_met = put_entry-sum_same met l r _ m (rw q refl) ∙ c.all_met;
    all_done = put_entry-sum done l r _ m la rb (rw (q, free) refl) ∙ ap suc c.all_done;
    covered = λ t lt. (let (a, (b, k)) = c.covered t lt in (a, (b, mark-At l r e m q a b t k)));
  }
