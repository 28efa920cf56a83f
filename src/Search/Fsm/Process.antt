-- ===== src/Search/Fsm/Process.antt =====
-- One pair of the table is processed.
use netslugplus.Base.{
  ℕ, zero, suc, ◌+◌, ◌<◌, ◌≡◌, ◌⊎◌, inl, inr, refl, ap, ◌∙◌, subst, arith, false, some, update,
  update_self, update_ne, ℕ_discrete,
}
use netslugplus.Search.Fsm.{
  Node, epsilon, transitional, unset, Fsm, Entry, Merge, enter, set_node, transitions,
  build_transitions, build_epsilon, build_node,
}
use netslugplus.Search.Fsm.Table.{
  At, IsMerged, Inv, At-Enlarges, Entered, enter-Entered, set_node-Inv,
}

-- A node of a machine leads to nodes of the machine.
abbrev pub Closed : ℕ → Node → Type 0
Closed n (epsilon symbol next) = next < n
Closed n (transitional f) = (j : ℕ) → j < 16 → f j < n
Closed n unset = ⊥

-- What the table keeps, but for the nodes.
pub record Keeps (m m' : Merge) : Type 0 where
  pub entry : (l r : ℕ) (e : Entry) → m.entries l r ≡ some e → m'.entries l r ≡ some e
  pub unmarked : m'.processed_nodes ≡ m.processed_nodes

module _ (left right : Fsm) (l r : ℕ) (e : Entry) (free : e.processed ≡ false) where
  pub record Built (x y : Node) (m m' : Merge) : Type 0 where
    pub invariant : Inv left right m'
    pub keeps : Keeps m m'
    pub is_merged : IsMerged m' x y l r (m'.nodes e.node)

  abbrev Own : Merge → Type 0
  Own m = (m.entries l r ≡ some e) × Inv left right m

  -- The transitions below `i` are made.
  record Linked (f g : ℕ → ℕ) (i : ℕ) (m : Merge) : Type 0 where
    at : (j : ℕ) → j < i → At m (f j) (g j) (transitions (m.nodes e.node) j)
    is_transitional : (i ≡ 0) ⊎ ((h : ℕ → ℕ) × (m.nodes e.node ≡ transitional h))

  Linked-step :
      (f g : ℕ → ℕ) (i t : ℕ) (m m1 : Merge)
      → e.node < m.node_count
      → Linked f g i m
      → Entered left right (f i) (g i) m t m1
      → Linked f g
          (suc i)
          (set_node e.node (transitional (update (transitions (m1.nodes e.node)) i t)) m1)
  Linked-step f g i t m m1 lt k en =
      let made = transitional (update (transitions (m1.nodes e.node)) i t) in
      let self = update_self m1.nodes e.node made in
      record {
        at = λ j h. rw self (elim (ℕ_discrete j i) [
          | yes q ↦ rw (q, update_self (transitions (m1.nodes e.node)) i t) en.at
          | no ne ↦
              rw
                (
                  update_ne (transitions (m1.nodes e.node)) i j t ne,
                  en.enlarges.old_nodes e.node lt,
                )
                (At-Enlarges en.enlarges (f j) (g j) (transitions (m.nodes e.node) j)
                  (k.at j (omega arith)))
        ]);
        is_transitional = inr (update (transitions (m1.nodes e.node)) i t, self);
      }

  enter-unmarked : (a b : ℕ) (m : Merge) → (enter a b m).1.processed_nodes ≡ m.processed_nodes
  unfolding enter
  enter-unmarked a b m = ground arith

  build_transitions-Built :
      (n i : ℕ) (f g : ℕ → ℕ) (m : Merge)
      → i + n ≡ 16
      → Closed left.node_count (transitional f)
      → Closed right.node_count (transitional g)
      → Own m
      → Linked f g i m
      → Built (transitional f) (transitional g) m (build_transitions n i e.node f g m)
  unfolding build_transitions
  build_transitions-Built zero i f g m total cf cg (own, v) k = record {
    invariant = v;
    keeps = record { entry = λ _ _ _ q. q; unmarked = refl };
    is_merged = elim k.is_transitional [
      | inl z ↦ absurd (omega arith)
      | inr (h, q) ↦ (
        h,
        (
          q,
          λ j lt.
              subst (λ t. At m (f j) (g j) t) (ap (λ z. transitions z j) q) (k.at j (omega arith)),
        ),
      )
    ];
  }
  build_transitions-Built (suc n) i f g m total cf cg (own, v) k =
      let en = enter-Entered left right (f i) (g i) m (cf i (omega arith)) (cg i (omega arith)) v in
      let m1 = (enter (f i) (g i) m).1 in
      let own1 : m1.entries l r ≡ some e = en.enlarges.keeps l r e own in
      let made = transitional (update (transitions (m1.nodes e.node)) i (enter (f i) (g i) m).0) in
      let rest =
        build_transitions-Built n (suc i) f g (set_node e.node made m1) (omega arith) cf cg
          (own1, set_node-Inv left right l r e made m1 own1 free en.invariant)
          (Linked-step f g i (enter (f i) (g i) m).0 m m1 (v.inside l r e own).2 k en) in
      record {
        invariant = rest.invariant;
        keeps = record {
          entry = λ a b d q. rest.keeps.entry a b d (en.enlarges.keeps a b d q);
          unmarked = rest.keeps.unmarked ∙ enter-unmarked (f i) (g i) m;
        };
        is_merged = rest.is_merged;
      }

  build_epsilon-Built :
      (symbol a b : ℕ) (x y : Node) (m : Merge)
      → a < left.node_count
      → b < right.node_count
      → Own m
      → ((m' : Merge) (t : ℕ) → At m' a b t → IsMerged m' x y l r (epsilon symbol t))
      → Built x y m (build_epsilon e.node symbol a b m)
  unfolding build_epsilon
  build_epsilon-Built symbol a b x y m la rb (own, v) is =
      let en = enter-Entered left right a b m la rb v in
      let m1 = (enter a b m).1 in
      let t = (enter a b m).0 in
      record {
        invariant =
            set_node-Inv left right l r e (epsilon symbol t) m1 (en.enlarges.keeps l r e own) free
              en.invariant;
        keeps = record { entry = en.enlarges.keeps; unmarked = enter-unmarked a b m };
        is_merged =
            rw (update_self m1.nodes e.node (epsilon symbol t))
              (is (set_node e.node (epsilon symbol t) m1) t en.at);
      }

  unchanged : (m : Merge) (x y : Node) → Own m → IsMerged m x y l r (m.nodes e.node) → Built x y m m
  unchanged m x y own is = record {
    invariant = own.1;
    keeps = record { entry = λ _ _ _ q. q; unmarked = refl };
    is_merged = is;
  }

  pub build_node-Built :
      (x y : Node) (m : Merge)
      → Closed left.node_count x
      → Closed right.node_count y
      → Own m
      → Built x y m (build_node e.node x y l r m)
  unfolding build_node
  build_node-Built (epsilon symbol next) y m cx cy own =
      build_epsilon-Built symbol next r (epsilon symbol next) y m cx ((own.1).inside l r e own.0).1
        own (λ m' t a. (t, (refl, a)))
  build_node-Built (transitional f) (epsilon symbol next) m cx cy own =
      build_epsilon-Built symbol l next (transitional f) (epsilon symbol next) m
        ((own.1).inside l r e own.0).0 cy own (λ m' t a. (t, (refl, a)))
  build_node-Built (transitional f) (transitional g) m cx cy own =
      build_transitions-Built 16 0 f g m refl cx cy own
        (record { at = λ j h. absurd (omega arith); is_transitional = inl refl })
  build_node-Built (transitional f) unset m cx cy own = unchanged m (transitional f) unset own tt
  build_node-Built unset y m cx cy own = unchanged m unset y own tt
