-- ===== src/Search/Fsm/Machine.antt =====
-- The machine that `FSM_Create` gives: every node has its transitions or is the end of a match.
use netslugplus.Base.{
  ℕ, ◌≤◌, ◌<◌, ◌≡◌, ◌≢◌, ◌⊎◌, inl, inr, refl, sym, ap, ◌∙◌, subst, arith, true, List, [], ◌∷◌,
  Option, none, some, length, All, ℕ_discrete, update, update_self, update_ne,
}
use netslugplus.Search.Fsm.{Node, epsilon, Fsm}
use netslugplus.Search.Fsm.Create.{
  Nibble, Build, Queued, Masked, Queues, target_of, finish_queue, finished, create_machine,
  has_first, initial_node, first_nodes, build_bytes,
}
use netslugplus.Search.Fsm.Labels.{Label, rest_label, IsDone, IsFallback, IsQueued, InQueue}
use netslugplus.Search.Fsm.Halves.{nibbles, Start}
use netslugplus.Search.Fsm.First.{first_queue, build_bytes-all}

module _ (pattern : List Nibble) (symbol : ℕ) where
  -- The end of a match, which goes on at what else may succeed.
  abbrev pub IsEnd : Build → (ℕ → Label) → ℕ → Type 0
  IsEnd b lab n =
      (f : ℕ) × (b.nodes n ≡ epsilon symbol f)
      × (f < b.node_count)
      × (lab n ≡ (true, length pattern ∷ (lab f).1))
      × ((lab f).0 ≡ true)
      × All (λ d. d < length pattern) (lab f).1

  abbrev pub IsOn : Build → (ℕ → Label) → ℕ → Type 0
  IsOn b lab n = IsDone pattern b lab n × All (λ d. d < length pattern) (lab n).1

  pub record IsMachine (initial : ℕ) (b : Build) (lab : ℕ → Label) : Type 0 where
    pub initial_inside : initial < b.node_count
    pub initial_label : lab initial ≡ (true, 0 ∷ [])
    pub states : (n : ℕ) → n < b.node_count → IsOn b lab n ⊎ IsEnd b lab n

  abbrev with_nodes : (ℕ → Node) → ℕ → Build
  with_nodes nodes count = record { nodes = nodes; node_count = count }

  IsEnd-here :
      (nodes : ℕ → Node) (count : ℕ) (lab : ℕ → Label) (e : Queued) (o : Option ℕ)
      → o ≡ e.fallback
      → 2 ≤ length pattern
      → IsQueued pattern (length pattern) true (with_nodes nodes count) lab e
      → IsEnd (with_nodes (update nodes e.node (epsilon symbol (target_of o))) count) lab e.node
  IsEnd-here nodes count lab e none same le q = absurd (
      not_le
        (subst (IsFallback pattern (length pattern) true (with_nodes nodes count) lab) (sym same)
          q.2)
        le)
    where
      not_le : length pattern ≤ 1 → 2 ≤ length pattern → ⊥
      not_le a b = omega arith
  IsEnd-here nodes count lab e (some f) same le q =
      let fb =
        subst (IsFallback pattern (length pattern) true (with_nodes nodes count) lab) (sym same)
          q.2 in
      (
        f,
        update_self nodes e.node (epsilon symbol f),
        fb.1,
        q.1 ∙ ap (λ o. (true, length pattern ∷ rest_label lab o)) (sym same),
        fb.2,
        fb.3,
      )

  finish_queue-states :
      (q : List Queued) (nodes : ℕ → Node) (count : ℕ) (lab : ℕ → Label)
      → 2 ≤ length pattern
      → All (IsQueued pattern (length pattern) true (with_nodes nodes count) lab) q
      → ((n : ℕ)
          → n < count
          → IsOn (with_nodes nodes count) lab n
            ⊎ (InQueue pattern n q ⊎ IsEnd (with_nodes nodes count) lab n))
      → (n : ℕ) → n < count
      → IsOn (with_nodes (finish_queue symbol q nodes) count) lab n
        ⊎ IsEnd (with_nodes (finish_queue symbol q nodes) count) lab n
  unfolding finish_queue
  finish_queue-states [] nodes count lab le qs st n h = elim (st n h) [
    | inl on ↦ inl on
    | inr (inl m) ↦ elim m [ ]
    | inr (inr end) ↦ inr end
  ]
  finish_queue-states (e ∷ es) nodes count lab le qs st n h =
      let x = epsilon symbol (target_of e.fallback) in
      let nodes' = update nodes e.node x in
      let keep : (m : ℕ) → m ≢ e.node → nodes' m ≡ nodes m =
        λ m ne. update_ne nodes e.node m x ne in
      finish_queue-states es nodes' count lab le qs.1
        (λ m lt. elim (ℕ_discrete m e.node) [
          | yes s ↦ inr (
              inr (
                subst (IsEnd (with_nodes nodes' count) lab) (sym s)
                  (IsEnd-here nodes count lab e e.fallback refl le qs.0)))
          | no ne ↦ elim (st m lt) [
            | inl on ↦
                inl (
                  λ j jl. (let (t, k, inside, l) = on.0 j jl in (t, keep m ne ∙ k, inside, l)),
                  on.1,
                )
            | inr (inl (inl s)) ↦ absurd (ne (sym s))
            | inr (inl (inr i)) ↦ inr (inl i)
            | inr (inr (f, k, i, l, p, below)) ↦ inr (inr (f, keep m ne ∙ k, i, l, p, below))
          ]
        ])
        n h

  finished-IsMachine :
      (initial : ℕ) (s : List Queued × Queues) (lab : ℕ → Label)
      → 2 ≤ length pattern
      → Start pattern initial (length pattern) true s lab
      → IsMachine initial
          (with_nodes (finished symbol initial s).nodes (finished symbol initial s).node_count)
          lab
  finished-IsMachine initial (q, (next, b)) lab le st = record {
    initial_inside = st.inv.initial_inside;
    initial_label = st.inv.initial_label;
    states =
        finish_queue-states q b.nodes b.node_count lab le st.inv.now_queued
          (λ n h. elim (st.fewer n h) [ inl on ↦ inl on | inr m ↦ inr (inl m) ]);
  }

abbrev pub build_of : Fsm → Build
build_of fsm = record { nodes = fsm.nodes; node_count = fsm.node_count }

pub create_machine-IsMachine :
    (symbol : ℕ) (x : Masked) (xs : List Masked)
    → (lab : ℕ → Label) × IsMachine
        (nibbles (x ∷ xs))
        symbol
        (create_machine symbol (x ∷ xs)).initial
        (build_of (create_machine symbol (x ∷ xs)))
        lab
unfolding create_machine
create_machine-IsMachine symbol x xs =
    let c = has_first (x ∷ xs) in
    let (lab, st) = build_bytes-all x xs c refl in
    (
      lab,
      finished-IsMachine (nibbles (x ∷ xs)) symbol (initial_node c)
          (build_bytes true (initial_node c) (x ∷ xs) (first_queue c, ([], first_nodes c))) lab
          (omega arith) st,
    )
