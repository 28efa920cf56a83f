-- ===== src/Search/Fsm/Loops.antt =====
-- What a round of the loops of `FSM_Merge` does to the table.
use netslugplus.Base.{
  ℕ, zero, suc, ◌<◌, ◌≡◌, inl, inr, refl, sym, ap, ◌∙◌, subst, arith, true, Option, none, some,
  ℕ_discrete, Bool-cases,
}
use netslugplus.Search.Fsm.{
  Fsm, Entry, Merge, build_node, mark, process, process_entry, process_row, process_all,
}
use netslugplus.Search.Fsm.Table.{At, IsMerged, Inv, IsMerged-mono, put_entry-cases, same_entry}
use netslugplus.Search.Fsm.Process.{build_node-Built}
use netslugplus.Search.Fsm.Complete.{IsClosed, Counted, build_node-Counted, mark-At, mark-Counted}

abbrev pub Marked : Merge → ℕ → ℕ → Type 0
Marked m l r = (e : Entry) × ((m.entries l r ≡ some e) × (e.processed ≡ true))

module _ (left right : Fsm) (lc : IsClosed left) (rc : IsClosed right) where
  pub record Good (m : Merge) : Type 0 where
    pub invariant : Inv left right m
    pub counted : Counted left right m

  pub record Goes (m m' : Merge) : Type 0 where
    pub at : (l r t : ℕ) → At m l r t → At m' l r t
    pub marked : (l r : ℕ) → Marked m l r → Marked m' l r

  module _ (l r : ℕ) (e : Entry) (m : Merge) (own : m.entries l r ≡ some e) where
    abbrev marked_entry : Entry
    marked_entry = record { node = e.node; processed = true }

    mark-Marked : (a b : ℕ) → Marked m a b → Marked (mark l r e.node m) a b
    mark-Marked a b (d, (q, k)) = elim (put_entry-cases l r marked_entry m a b) [
      | inl (p1, (p2, n)) ↦ (marked_entry, (n, refl))
      | inr (_, n) ↦ (d, (n ∙ q, k))
    ]

    mark-own : Marked (mark l r e.node m) l r
    mark-own = elim (put_entry-cases l r marked_entry m l r) [
      | inl (p1, (p2, n)) ↦ (marked_entry, (n, refl))
      | inr (ne, _) ↦ absurd (elim ne [ inl n ↦ n refl | inr n ↦ n refl ])
    ]

    -- An entry of the marked table is an old one but for its mark.
    mark-old :
        (a b : ℕ) (d : Entry)
        → (mark l r e.node m).entries a b ≡ some d
        → (c : Entry) × ((m.entries a b ≡ some c) × (c.node ≡ d.node))
    mark-old a b d q = elim (put_entry-cases l r marked_entry m a b) [
      | inl (p1, (p2, n)) ↦ (e, (rw (p1, p2) own, ap (λ (c : Entry). c.node) (same_entry n q)))
      | inr (_, n) ↦ (d, (sym n ∙ q, refl))
    ]

    mark-Inv :
        Inv left right m
        → IsMerged m (left.nodes l) (right.nodes r) l r (m.nodes e.node)
        → Inv left right (mark l r e.node m)
    mark-Inv v is = record {
      inside = λ a b d q.
          let (c, (o, k)) = mark-old a b d q in let i = v.inside a b c o in (i.0, i.1, omega arith);
      apart = λ a b a' b' d d' q q' same.
          let (c, (o, k)) = mark-old a b d q in
          let (c', (o', k')) = mark-old a' b' d' q' in
          v.apart a b a' b' c c' o o' (k ∙ (same ∙ sym k'));
      linked = λ a b d q p. elim (put_entry-cases l r marked_entry m a b) [
        | inl (p1, (p2, n)) ↦
            let k : e.node ≡ d.node = ap (λ (c : Entry). c.node) (same_entry n q) in
            rw (sym k, p1, p2)
              (IsMerged-mono m (mark l r e.node m) (mark-At left right l r e m own) (left.nodes l)
                (right.nodes r) l r (m.nodes e.node) is)
        | inr (_, n) ↦
            IsMerged-mono m (mark l r e.node m) (mark-At left right l r e m own) (left.nodes a)
              (right.nodes b) a b (m.nodes d.node) (v.linked a b d (sym n ∙ q) p)
      ];
    }

  pub record Processed (l r : ℕ) (m m' : Merge) : Type 0 where
    good : Good m'
    goes : Goes m m'
    own : (t : ℕ) → At m l r t → Marked m' l r

  process_entry-Processed :
      (l r : ℕ) (o : Option Entry) (m : Merge)
      → m.entries l r ≡ o
      → Good m
      → Processed l r m (process_entry left right l r o m)
  process_entry-Processed l r none m q g = record {
    good = g;
    goes = record { at = λ _ _ _ a. a; marked = λ _ _ k. k };
    own = λ t (e, (k, _)). absurd (cc);
  }
  process_entry-Processed l r (some e) m q g = elim (Bool-cases e.processed) [
    | inl p ↦ rw p (record {
      good = g;
      goes = record { at = λ _ _ _ a. a; marked = λ _ _ k. k };
      own = λ t _. (e, (q, p));
    })
    | inr p ↦
        let i = g.invariant.inside l r e q in
        let m1 = build_node e.node (left.nodes l) (right.nodes r) l r m in
        let b =
          build_node-Built left right l r e p (left.nodes l) (right.nodes r) m (lc.closed l i.0)
            (rc.closed r i.1) (q, g.invariant) in
        let q1 : m1.entries l r ≡ some e = b.keeps.entry l r e q in
        let c =
          build_node-Counted left right e.node (left.nodes l) (right.nodes r) l r m i.0 i.1
            (lc.closed l i.0) (rc.closed r i.1) g.counted in
        rw p (record {
          good = record {
            invariant = mark-Inv l r e m1 q1 b.invariant b.is_merged;
            counted = mark-Counted left right l r e m1 i.0 i.1 q1 p c;
          };
          goes = record {
            at = λ a b' t (d, (k, n)).
                mark-At left right l r e m1 q1 a b' t (d, (b.keeps.entry a b' d k, n));
            marked =
                λ a b' (d, (k, n)). mark-Marked l r e m1 q1 a b' (d, (b.keeps.entry a b' d k, n));
          };
          own = λ t _. mark-own l r e m1 q1;
        })
  ]

  process-Processed : (l r : ℕ) (m : Merge) → Good m → Processed l r m (process left right l r m)
  unfolding process
  process-Processed l r m g = process_entry-Processed l r (m.entries l r) m refl g

  -- All pairs of a row, and of all rows.
  pub record Passed (inside : ℕ → ℕ → Type 0) (m m' : Merge) : Type 0 where
    pub good : Good m'
    pub goes : Goes m m'
    pub own : (l r t : ℕ) → inside l r → At m l r t → Marked m' l r

  process_row-Passed :
      (l n : ℕ) (m : Merge)
      → Good m
      → Passed (λ a r. (a ≡ l) × (r < n)) m (process_row left right l n m)
  unfolding process_row
  process_row-Passed l zero m g = record {
    good = g;
    goes = record { at = λ _ _ _ a. a; marked = λ _ _ k. k };
    own = λ a r t i _. absurd (omega (arith, i.1));
  }
  process_row-Passed l (suc n) m g =
      let before = process_row-Passed l n m g in
      let last = process-Processed l n (process_row left right l n m) before.good in
      record {
        good = last.good;
        goes = record {
          at = λ a r t k. last.goes.at a r t (before.goes.at a r t k);
          marked = λ a r k. last.goes.marked a r (before.goes.marked a r k);
        };
        own = λ a r t (p, lt) k. elim (ℕ_discrete r n) [
          | yes q ↦
              let m1 = process_row left right l n m in
              let m2 = process left right l n m1 in
              let k' : At m1 l n t =
                subst (λ y. At m1 l y t) q (subst (λ x. At m1 x r t) p (before.goes.at a r t k)) in
              subst (λ x. Marked m2 x r) (sym p)
                (subst (λ y. Marked m2 l y) (sym q) (last.own t k'))
          | no ne ↦ last.goes.marked a r (before.own a r t (p, omega arith) k)
        ];
      }

  pub process_all-Passed :
      (n : ℕ) (m : Merge)
      → Good m
      → Passed (λ a r. (a < n) × (r < right.node_count)) m (process_all left right n m)
  unfolding process_all
  process_all-Passed zero m g = record {
    good = g;
    goes = record { at = λ _ _ _ a. a; marked = λ _ _ k. k };
    own = λ a r t i _. absurd (omega (arith, i.0));
  }
  process_all-Passed (suc n) m g =
      let before = process_all-Passed n m g in
      let last = process_row-Passed n right.node_count (process_all left right n m) before.good in
      record {
        good = last.good;
        goes = record {
          at = λ a r t k. last.goes.at a r t (before.goes.at a r t k);
          marked = λ a r k. last.goes.marked a r (before.goes.marked a r k);
        };
        own = λ a r t (lt, rt) k. elim (ℕ_discrete a n) [
          | yes q ↦ last.own a r t (q, rt) (before.goes.at a r t k)
          | no ne ↦ last.goes.marked a r (before.own a r t (omega arith, rt) k)
        ];
      }
