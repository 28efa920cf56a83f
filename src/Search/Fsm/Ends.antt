-- ===== src/Search/Fsm/Ends.antt =====
-- The outer loop of `FSM_Merge` ends, and then every pair that was met is processed.
use netslugplus.Base.{
  ℕ, zero, suc, ◌+◌, ◌*◌, ◌≤◌, ◌<◌, ◌≡◌, inl, inr, refl, sym, ap, ◌∙◌, arith, ◌==◌, Option, none,
  some, Bool-cases, ==_iff,
}
use netslugplus.Search.Fsm.{Fsm, Entry, Merge, process_all, merge_loop}
use netslugplus.Search.Fsm.Table.{At}
use netslugplus.Search.Fsm.Total.{total_mono, total-same, total-ones}
use netslugplus.Search.Fsm.Complete.{IsClosed, met, done}
use netslugplus.Search.Fsm.Loops.{Marked, Good, Goes, process_all-Passed}

module _ (left right : Fsm) (lc : IsClosed left) (rc : IsClosed right) where
  -- Every pair that was met is processed.
  abbrev pub IsComplete : Merge → Type 0
  IsComplete m = (l r t : ℕ) → At m l r t → Marked m l r

  done_le-met : (o : Option Entry) → done o ≤ met o
  done_le-met none = omega arith
  done_le-met (some e) = ground arith

  done_of-Marked : (m : Merge) (l r : ℕ) → Marked m l r → done (m.entries l r) ≡ 1
  done_of-Marked m l r (e, (q, p)) = rw (q, p) refl

  Marked-done :
      (m : Merge) (l r : ℕ) (e : Entry)
      → m.entries l r ≡ some e
      → done (m.entries l r) ≡ 1
      → Marked m l r
  Marked-done m l r e q k =
      let d : done (some e) ≡ 1 = ap done (sym q) ∙ k in (e, (q, ground arith))

  complete-when_equal :
      (m : Merge) → Good left right lc rc m → m.processed_nodes ≡ m.node_count → IsComplete m
  complete-when_equal m g same l r t (e, (q, _)) =
      let i = g.invariant.inside l r e q in
      let equal =
        total-same (λ a b. done (m.entries a b)) (λ a b. met (m.entries a b)) left.node_count
          right.node_count (λ a b _ _. done_le-met (m.entries a b))
          (g.counted.all_done ∙ (same ∙ sym g.counted.all_met)) l r i.0 i.1 in
      Marked-done m l r e q (equal ∙ ap met q)

  processed_le-count : (m : Merge) → Good left right lc rc m → m.processed_nodes ≤ m.node_count
  processed_le-count m g = omega (
    arith,
    g.counted.all_done,
    g.counted.all_met,
    total_mono (λ a b. done (m.entries a b)) (λ a b. met (m.entries a b)) left.node_count
        right.node_count (λ a b _ _. done_le-met (m.entries a b)),
  )

  met_le-done :
      (m m' : Merge) (l r : ℕ) (o : Option Entry)
      → m.entries l r ≡ o
      → ((t : ℕ) → At m l r t → Marked m' l r)
      → met o ≤ done (m'.entries l r)
  met_le-done m m' l r none q f = omega arith
  met_le-done m m' l r (some e) q f = omega (arith, done_of-Marked m' l r (f e.node (e, (q, refl))))

  -- A round of the outer loop processes at least the nodes that there were.
  round-processes :
      (m m' : Merge)
      → Good left right lc rc m'
      → Good left right lc rc m
      → ((l r t : ℕ) → (l < left.node_count) × (r < right.node_count) → At m l r t → Marked m' l r)
      → m.node_count ≤ m'.processed_nodes
  round-processes m m' g' g f = omega (
    arith,
    g.counted.all_met,
    g'.counted.all_done,
    total_mono (λ a b. met (m.entries a b)) (λ a b. done (m'.entries a b)) left.node_count
        right.node_count
        (λ a b la lb. met_le-done m m' a b (m.entries a b) refl (λ t. f a b t (la, lb))),
  )

  done_le-one : (o : Option Entry) → done o ≤ 1
  done_le-one none = omega arith
  done_le-one (some e) = ground arith

  processed-bound :
      (m : Merge) → Good left right lc rc m → m.processed_nodes ≤ left.node_count * right.node_count
  processed-bound m g = omega (
    arith,
    g.counted.all_done,
    total-ones (λ a b. done (m.entries a b)) left.node_count right.node_count
        (λ a b. done_le-one (m.entries a b)),
  )

  pub record Merged (m m' : Merge) : Type 0 where
    pub good : Good left right lc rc m'
    pub goes : Goes left right lc rc m m'
    pub complete : IsComplete m'

  pub merge_loop-Merged :
      (fuel : ℕ) (m : Merge)
      → Good left right lc rc m
      → m.processed_nodes < m.node_count
      → left.node_count * right.node_count < fuel + m.processed_nodes
      → (m' : Merge) × ((merge_loop fuel left right m ≡ some m') × Merged m m')
  unfolding merge_loop
  merge_loop-Merged zero m g some_left enough = absurd (omega (arith, processed-bound m g))
  merge_loop-Merged (suc fuel) m g some_left enough =
      let m' = process_all left right left.node_count m in
      let p = process_all-Passed left right lc rc left.node_count m g in
      let more = round-processes m m' p.good g (λ l r t i. p.own l r t i) in
      elim (Bool-cases (m'.processed_nodes == m'.node_count)) [
        | inl e ↦ (
          m',
          (
            rw e refl,
            record {
              good = p.good;
              goes = p.goes;
              complete =
                  complete-when_equal m' p.good ((==_iff m'.processed_nodes m'.node_count).0 e);
            },
          ),
        )
        | inr e ↦
            let (end, (q, d)) =
              merge_loop-Merged fuel m' p.good (ground (arith, processed_le-count m' p.good))
                (omega arith) in
            (
              end,
              (
                rw e q,
                record {
                  good = d.good;
                  goes = record {
                    at = λ l r t k. d.goes.at l r t (p.goes.at l r t k);
                    marked = λ l r k. d.goes.marked l r (p.goes.marked l r k);
                  };
                  complete = d.complete;
                },
              ),
            )
      ]
