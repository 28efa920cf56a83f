-- ===== src/Search/Fsm/Table.antt =====
-- The table of pairs while it grows.
use netslugplus.Base.{
  ℕ, ◌<◌, ◌≡◌, ◌≢◌, ◌⊎◌, inl, inr, refl, sym, ap, ◌∙◌, subst, arith, true, false, Option, none,
  some, update, update_self, update_ne, ℕ_discrete, Option-cases,
}
use netslugplus.Search.Fsm.{
  Node, epsilon, transitional, unset, Fsm, Entry, Merge, put_entry, alloc_entry, enter, set_node,
  first_merge, no_entries,
}

pub put_entry_self : (l r : ℕ) (e : Entry) (m : Merge) → (put_entry l r e m).entries l r ≡ some e
put_entry_self l r e m =
    ap (λ g. g r) (update_self m.entries l (update (m.entries l) r (some e)))
    ∙ update_self (m.entries l) r (some e)

put_entry_ne :
    (l r : ℕ) (e : Entry) (m : Merge) (l' r' : ℕ)
    → ((l' ≢ l) ⊎ (r' ≢ r))
    → (put_entry l r e m).entries l' r' ≡ m.entries l' r'
put_entry_ne l r e m l' r' (inl ne) =
    ap (λ g. g r') (update_ne m.entries l l' (update (m.entries l) r (some e)) ne)
put_entry_ne l r e m l' r' (inr ne) = elim (ℕ_discrete l' l) [
  | yes q ↦
      subst (λ k. update m.entries l (update (m.entries l) r (some e)) k r' ≡ m.entries k r')
        (sym q)
        (ap (λ g. g r') (update_self m.entries l (update (m.entries l) r (some e)))
          ∙ update_ne (m.entries l) r r' (some e) ne)
  | no n ↦ ap (λ g. g r') (update_ne m.entries l l' (update (m.entries l) r (some e)) n)
]

-- Either the pair that is put, or another.
pub put_entry-cases :
    (l r : ℕ) (e : Entry) (m : Merge) (l' r' : ℕ)
    → ((l' ≡ l) × ((r' ≡ r) × ((put_entry l r e m).entries l' r' ≡ some e)))
      ⊎ (((l' ≢ l) ⊎ (r' ≢ r)) × ((put_entry l r e m).entries l' r' ≡ m.entries l' r'))
put_entry-cases l r e m l' r' = elim (ℕ_discrete l' l) [
  | no n ↦ inr (inl n, put_entry_ne l r e m l' r' (inl n))
  | yes q ↦ elim (ℕ_discrete r' r) [
    | no n ↦ inr (inr n, put_entry_ne l r e m l' r' (inr n))
    | yes p ↦ inl (q, (p, rw (q, p) (put_entry_self l r e m)))
  ]
]

-- The node of a pair.
abbrev pub At : Merge → ℕ → ℕ → ℕ → Type 0
At m l r t = (e : Entry) × ((m.entries l r ≡ some e) × (e.node ≡ t))

-- What the node of a pair has to be, from the two nodes.
abbrev pub IsMerged : Merge → Node → Node → ℕ → ℕ → Node → Type 0
IsMerged m (epsilon symbol next) y l r z = (t : ℕ) × ((z ≡ epsilon symbol t) × At m next r t)
IsMerged m (transitional f) (epsilon symbol next) l r z =
    (t : ℕ) × ((z ≡ epsilon symbol t) × At m l next t)
IsMerged m (transitional f) (transitional g) l r z =
    (h : ℕ → ℕ) × ((z ≡ transitional h) × ((j : ℕ) → j < 16 → At m (f j) (g j) (h j)))
IsMerged m (transitional f) unset l r z = Unit
IsMerged m unset y l r z = Unit

module _ (left right : Fsm) where
  pub record Inv (m : Merge) : Type 0 where
    pub inside :
        (l r : ℕ) (e : Entry)
        → m.entries l r ≡ some e
        → (l < left.node_count) × (r < right.node_count) × (e.node < m.node_count)
    pub apart :
        (l r l' r' : ℕ) (e e' : Entry)
        → m.entries l r ≡ some e
        → m.entries l' r' ≡ some e'
        → e.node ≡ e'.node
        → (l ≡ l') × (r ≡ r')
    pub linked :
        (l r : ℕ) (e : Entry)
        → m.entries l r ≡ some e
        → e.processed ≡ true
        → IsMerged m (left.nodes l) (right.nodes r) l r (m.nodes e.node)

-- The table has become larger.
pub record Enlarges (m m' : Merge) : Type 0 where
  pub keeps : (l r : ℕ) (e : Entry) → m.entries l r ≡ some e → m'.entries l r ≡ some e
  pub old_nodes : (t : ℕ) → t < m.node_count → m'.nodes t ≡ m.nodes t

pub At-Enlarges : {m m' : Merge} → Enlarges m m' → (l r t : ℕ) → At m l r t → At m' l r t
At-Enlarges x l r t (e, (q, k)) = (e, (x.keeps l r e q, k))

-- The same from the places that pairs have, whatever becomes of the marks.
pub IsMerged-mono :
    (m m' : Merge)
    → ((l r t : ℕ) → At m l r t → At m' l r t)
    → (x y : Node) (l r : ℕ) (z : Node) → IsMerged m x y l r z
    → IsMerged m' x y l r z
IsMerged-mono m m' f (epsilon symbol next) y l r z (t, (q, a)) = (t, (q, f next r t a))
IsMerged-mono m m' f (transitional g) (epsilon symbol next) l r z (t, (q, a)) =
    (t, (q, f l next t a))
IsMerged-mono m m' f (transitional g) (transitional k) l r z (h, (q, a)) =
    (h, (q, λ j lt. f (g j) (k j) (h j) (a j lt)))
IsMerged-mono m m' f (transitional g) unset l r z a = tt
IsMerged-mono m m' f unset y l r z a = tt

pub same_entry : {o : Option Entry} {d e : Entry} → o ≡ some d → o ≡ some e → d ≡ e
same_entry {o} {d} {e} p q = cc

module _ (left right : Fsm) (l r : ℕ) (m : Merge) (free : m.entries l r ≡ none) where
  abbrev new : Entry
  new = record { node = m.node_count; processed = false }

  pub alloc-Enlarges : Enlarges m (alloc_entry l r m)
  alloc-Enlarges = record {
    keeps = λ l' r' e q. elim (put_entry-cases l r new m l' r') [
      | inl (a, (b, _)) ↦ let none_e : m.entries l' r' ≡ none = rw (a, b) free in absurd (cc)
      | inr (_, k) ↦ k ∙ q
    ];
    old_nodes = λ t lt. update_ne m.nodes m.node_count t unset (omega arith);
  }

  -- An entry of the new table is the new one or an old one.
  alloc-cases :
      (l' r' : ℕ) (e : Entry)
      → (alloc_entry l r m).entries l' r' ≡ some e
      → ((l' ≡ l) × ((r' ≡ r) × (new ≡ e))) ⊎ (m.entries l' r' ≡ some e)
  alloc-cases l' r' e q = elim (put_entry-cases l r new m l' r') [
    | inl (a, (b, k)) ↦ inl (a, (b, same_entry k q))
    | inr (_, k) ↦ inr (sym k ∙ q)
  ]

  pub alloc-Inv :
      l < left.node_count
      → r < right.node_count
      → Inv left right m
      → Inv left right (alloc_entry l r m)
  alloc-Inv lt rt v = record {
    inside = λ l' r' e q. elim (alloc-cases l' r' e q) [
      | inl (a, (b, k)) ↦ (omega arith, omega arith, omega (arith, ap (λ (d : Entry). d.node) k))
      | inr o ↦ let i = v.inside l' r' e o in (i.0, i.1, omega arith)
    ];
    apart = λ l1 r1 l2 r2 e1 e2 q1 q2 same. elim (alloc-cases l1 r1 e1 q1) [
      | inl (a1, (b1, k1)) ↦ elim (alloc-cases l2 r2 e2 q2) [
        | inl (a2, (b2, k2)) ↦ (a1 ∙ sym a2, b1 ∙ sym b2)
        | inr o2 ↦ absurd (omega (arith, ap (λ (d : Entry). d.node) k1, v.inside l2 r2 e2 o2))
      ]
      | inr o1 ↦ elim (alloc-cases l2 r2 e2 q2) [
        | inl (a2, (b2, k2)) ↦
            absurd (omega (arith, ap (λ (d : Entry). d.node) k2, v.inside l1 r1 e1 o1))
        | inr o2 ↦ v.apart l1 r1 l2 r2 e1 e2 o1 o2 same
      ]
    ];
    linked = λ l' r' e q p. elim (alloc-cases l' r' e q) [
      | inl (a, (b, k)) ↦ absurd (cc (ap (λ (d : Entry). d.processed) k))
      | inr o ↦ rw (alloc-Enlarges.old_nodes e.node (v.inside l' r' e o).2) (
          IsMerged-mono m (alloc_entry l r m) (At-Enlarges alloc-Enlarges) (left.nodes l')
            (right.nodes r') l' r' (m.nodes e.node) (v.linked l' r' e o p))
    ];
  }

-- What `enter` gives.
pub record Entered (left right : Fsm) (l r : ℕ) (m : Merge) (t : ℕ) (m' : Merge) : Type 0 where
  pub enlarges : Enlarges m m'
  pub invariant : Inv left right m'
  pub at : At m' l r t

pub enter-Entered :
    (left right : Fsm) (l r : ℕ) (m : Merge)
    → l < left.node_count
    → r < right.node_count
    → Inv left right m
    → Entered left right l r m (enter l r m).0 (enter l r m).1
unfolding enter
enter-Entered left right l r m lt rt v = elim (Option-cases (m.entries l r)) [
  | inl free ↦
      rw (free, enter)
        (record {
          enlarges = alloc-Enlarges left right l r m free;
          invariant = alloc-Inv left right l r m free lt rt v;
          at = (record { node = m.node_count; processed = false }, (put_entry_self l r _ m, refl));
        })
  | inr (e, q) ↦
      rw (q, enter)
        (record {
          enlarges = record { keeps = λ _ _ _ k. k; old_nodes = λ _ _. refl };
          invariant = v;
          at = (e, (q, refl));
        })
]

-- A node that is set, of a pair that is not marked yet.
pub set_node-Inv :
    (left right : Fsm) (l r : ℕ) (e : Entry) (x : Node) (m : Merge)
    → m.entries l r ≡ some e
    → e.processed ≡ false
    → Inv left right m
    → Inv left right (set_node e.node x m)
set_node-Inv left right l r e x m at free v = record {
  inside = v.inside;
  apart = v.apart;
  linked = λ l' r' d q p. elim (ℕ_discrete d.node e.node) [
    | yes same ↦
        let (a, b) = v.apart l' r' l r d e q at same in
        let q' : m.entries l r ≡ some d =
          subst (λ k. m.entries k r ≡ some d) a (subst (λ k. m.entries l' k ≡ some d) b q) in
        absurd (cc (ap (λ (c : Entry). c.processed) (same_entry q' at)))
    | no ne ↦ rw (update_ne m.nodes e.node d.node x ne) (
        IsMerged-mono m (set_node e.node x m) (λ _ _ _ a. a) (left.nodes l') (right.nodes r') l' r'
          (m.nodes d.node) (v.linked l' r' d q p))
  ];
}

pub first-At : (left right : Fsm) → At (first_merge left right) left.initial right.initial 0
first-At left right = (
  record { node = 0; processed = false },
  (put_entry_self left.initial right.initial _ no_entries, refl),
)
