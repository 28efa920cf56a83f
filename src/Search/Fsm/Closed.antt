-- ===== src/Search/Fsm/Closed.antt =====
-- The machines of `FSM_Create` and `FSM_Merge` of src/search/fsm.c lead only to their own nodes.
use netslugplus.Base.{ℕ, suc, ◌*◌, ◌<◌, ◌≡◌, inl, inr, sym, ap, ◌∙◌, subst, arith, List, ◌∷◌, some}
use netslugplus.Search.Fsm.{
  Node, epsilon, transitional, unset, Fsm, Entry, Merge, transitions, merge,
}
use netslugplus.Search.Fsm.Table.{At, Inv, IsMerged, first-At, same_entry}
use netslugplus.Search.Fsm.Process.{Closed}
use netslugplus.Search.Fsm.Complete.{IsClosed}
use netslugplus.Search.Fsm.Run.{merge-Merged, same_fsm}
use netslugplus.Search.Fsm.Create.{Nibble, Masked, Build, create_machine}
use netslugplus.Search.Fsm.Labels.{Label, IsDone}
use netslugplus.Search.Fsm.Halves.{nibbles}
use netslugplus.Search.Fsm.Machine.{build_of, create_machine-IsMachine}

module _ (left right : Fsm) (m : Merge) (v : Inv left right m) where
  At-lt : (l r t : ℕ) → At m l r t → t < m.node_count
  At-lt l r t (e, (q, k)) = subst (λ n. n < m.node_count) k (v.inside l r e q).2

  IsMerged-Closed :
      (x y : Node) (l r : ℕ) (z : Node)
      → Closed left.node_count x
      → Closed right.node_count y
      → IsMerged m x y l r z
      → Closed m.node_count z
  IsMerged-Closed (epsilon symbol next) y l r z cx cy (t, (q, a)) = rw q (At-lt next r t a)
  IsMerged-Closed (transitional f) (epsilon symbol next) l r z cx cy (t, (q, a)) =
      rw q (At-lt l next t a)
  IsMerged-Closed (transitional f) (transitional g) l r z cx cy (h, (q, a)) =
      rw q (λ j lt. At-lt (f j) (g j) (h j) (a j lt))
  IsMerged-Closed (transitional f) unset l r z cx cy a = absurd cy
  IsMerged-Closed unset y l r z cx cy a = absurd cx

-- The merged machine of two machines whose nodes are set and lead to nodes of their machine is one.
pub merge-IsClosed :
    (left right fsm : Fsm)
    → IsClosed left
    → IsClosed right
    → merge (suc (left.node_count * right.node_count)) left right ≡ some fsm
    → IsClosed fsm
merge-IsClosed left right fsm lc rc made =
    let (m, (e, d)) = merge-Merged left right lc rc in
    let v = d.good.invariant in
    let start = d.goes.at left.initial right.initial 0 (first-At left right) in
    subst IsClosed (same_fsm (sym e ∙ made)) (record {
      initial_inside = At-lt left right m v left.initial right.initial 0 start;
      closed = λ t lt.
          (let (l, (r, (c, (q, k)))) = d.good.counted.covered t lt in
            let (c', (q', p)) = d.complete l r t (c, (q, k)) in
            let i = v.inside l r c' q' in
            let here : c'.node ≡ t = ap (λ (x : Entry). x.node) (same_entry q' q) ∙ k in
            subst (λ n. Closed m.node_count (m.nodes n)) here
              (IsMerged-Closed left right m v (left.nodes l) (right.nodes r) l r (m.nodes c'.node)
                (lc.closed l i.0) (rc.closed r i.1) (v.linked l r c' q' p)));
    })

IsDone-Closed :
    (pattern : List Nibble) (b : Build) (lab : ℕ → Label) (n : ℕ)
    → IsDone pattern b lab n
    → Closed b.node_count (b.nodes n)
IsDone-Closed pattern b lab n done =
    let (t, same, _, _) = done 0 (omega arith) in
    rw same (λ j lt.
      let (t', same', inside, _) = done j lt in
      subst (λ k. k < b.node_count) (ap (λ x. transitions x j) (sym same' ∙ same)) inside)

pub create_machine-IsClosed :
    (symbol : ℕ) (x : Masked) (xs : List Masked) → IsClosed (create_machine symbol (x ∷ xs))
create_machine-IsClosed symbol x xs =
    let (lab, machine) = create_machine-IsMachine symbol x xs in
    record {
      initial_inside = machine.initial_inside;
      closed = λ n lt. elim (machine.states n lt) [
        | inl on ↦
            IsDone-Closed (nibbles (x ∷ xs)) (build_of (create_machine symbol (x ∷ xs))) lab n on.0
        | inr (f, same, inside, _, _, _) ↦ rw same inside
      ];
    }
