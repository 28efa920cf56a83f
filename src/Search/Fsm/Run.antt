-- ===== src/Search/Fsm/Run.antt =====
-- What `FSM_Run` finds with a merged machine.
use netslugplus.Base.{
  ℕ, suc, ◌+◌, ◌*◌, ◌<◌, ◌≡◌, refl, sym, ap, ◌∙◌, subst, arith, Option, none, some, List, All,
}
use netslugplus.Search.Fsm.{
  Fsm, Entry, Merge, run, merge, no_entries, enter, first_merge, merged_fsm,
}
use netslugplus.Search.Fsm.Table.{Inv, alloc-Inv, first-At}
use netslugplus.Search.Fsm.Total.{total-zero}
use netslugplus.Search.Fsm.Complete.{IsClosed, enter-Counted}
use netslugplus.Search.Fsm.Loops.{Good}
use netslugplus.Search.Fsm.Ends.{Merged, merge_loop-Merged}
use netslugplus.Search.Fsm.Follow.{both, run-both}

no_entries-Inv : (left right : Fsm) → Inv left right no_entries
no_entries-Inv left right = record {
  inside = λ l r e q. absurd (no_entry e q);
  apart = λ l r l' r' e e' q. absurd (no_entry e q);
  linked = λ l r e q. absurd (no_entry e q);
}
  where
    no_entry : (e : Entry) → ◌≡◌ {A = Option Entry} none (some e) → ⊥
    no_entry e q = cc q

first_merge-Good :
    (left right : Fsm) (lc : IsClosed left) (rc : IsClosed right)
    → Good left right lc rc (first_merge left right)
unfolding enter
first_merge-Good left right lc rc = record {
  invariant =
      alloc-Inv left right left.initial right.initial no_entries refl lc.initial_inside
        rc.initial_inside (no_entries-Inv left right);
  counted =
      enter-Counted left right left.initial right.initial no_entries lc.initial_inside
        rc.initial_inside
        (record {
          all_met = total-zero left.node_count right.node_count;
          all_done = total-zero left.node_count right.node_count;
          covered = λ t lt. absurd (omega (arith, lt));
        });
}

-- What `FSM_Merge` makes of its table.
pub merge-Merged :
    (left right : Fsm) (lc : IsClosed left) (rc : IsClosed right)
    → (m : Merge) × ((merge (suc (left.node_count * right.node_count)) left right
          ≡ some (record { initial = 0; node_count = m.node_count; nodes = m.nodes }))
        × Merged left right lc rc (first_merge left right) m)
unfolding merge
merge-Merged left right lc rc =
    let g = first_merge-Good left right lc rc in
    let (m, (e, d)) =
      merge_loop-Merged left right lc rc (suc (left.node_count * right.node_count))
        (first_merge left right) g (omega arith) (omega arith) in
    (m, (ap merged_fsm e, d))

-- Two machines whose nodes are set and lead to nodes of their machine: one round of the outer loop
-- more than there are pairs of their nodes is enough for `FSM_Merge`.
pub merge-ends :
    (left right : Fsm)
    → IsClosed left
    → IsClosed right
    → (fsm : Fsm) × (merge (suc (left.node_count * right.node_count)) left right ≡ some fsm)
merge-ends left right lc rc =
    let (m, (e, _)) = merge-Merged left right lc rc in
    (record { initial = 0; node_count = m.node_count; nodes = m.nodes }, e)

pub same_fsm : {a b : Fsm} → ◌≡◌ {A = Option Fsm} (some a) (some b) → a ≡ b
same_fsm {a} {b} e = ap (λ o. elim o [ none ↦ a | some c ↦ c ]) e

-- The merged machine of two such machines: where `FSM_Run` ends with each of the two on some bytes,
-- it ends with the merged one, and finds at each place of the bytes, and at their end, what the left
-- machine finds there and then what the right one finds.
pub merge-run :
    (left right fsm : Fsm) (n j : ℕ) (bytes : List ℕ) (xs ys : List (List ℕ))
    → IsClosed left
    → IsClosed right
    → merge (suc (left.node_count * right.node_count)) left right ≡ some fsm
    → All (λ c. c < 256) bytes
    → run n left left.initial bytes ≡ some xs
    → run j right right.initial bytes ≡ some ys
    → run (n + j) fsm fsm.initial bytes ≡ some (both xs ys)
merge-run left right fsm n j bytes xs ys lc rc made small el er =
    let (m, (e, d)) = merge-Merged left right lc rc in
    let start = d.goes.at left.initial right.initial 0 (first-At left right) in
    subst (λ f. run (n + j) f f.initial bytes ≡ some (both xs ys)) (same_fsm (sym e ∙ made))
      (run-both left right lc rc m d.good.invariant d.complete n j bytes left.initial right.initial
        0 xs ys small start el er)
