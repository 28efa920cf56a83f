-- ===== src/Search/Fsm/Follow.antt =====
-- What `FSM_Run` finds with a node of a merged machine, from what it finds with the two nodes.
use netslugplus.Base.{
  ℕ, zero, suc, ◌+◌, ◌/◌, ◌%◌, ◌≤◌, ◌<◌, ◌≡◌, refl, sym, ap, ◌∙◌, subst, arith, Option, none, some,
  List, [], ◌∷◌, ◌++◌, All,
}
use netslugplus.Search.Fsm.{
  Node, epsilon, transitional, unset, Fsm, Entry, Merge, note, drain, follow_transition, and_then,
  read_byte, at_front, run,
}
use netslugplus.Search.Fsm.Table.{At, IsMerged, Inv, same_entry}
use netslugplus.Search.Fsm.Process.{Closed}
use netslugplus.Search.Fsm.Complete.{IsClosed}
use netslugplus.Search.Fsm.Loops.{Marked}

-- What the two machines find at each place, the left one's symbols first.
abbrev pub both : List (List ℕ) → List (List ℕ) → List (List ℕ)
both [] ys = ys
both (x ∷ xs) [] = x ∷ xs
both (x ∷ xs) (y ∷ ys) = (x ++ y) ∷ both xs ys

and_then-some :
    {A : Type 0} {B : Type 0} (o : Option A) (f : A → Option B) {b : B}
    → and_then o f ≡ some b
    → (a : A) × ((o ≡ some a) × (f a ≡ some b))
and_then-some none f e = absurd (cc)
and_then-some (some a) f e = (a, (refl, e))

note-some :
    (symbol : ℕ) (o : Option (List ℕ × ℕ)) {d : List ℕ × ℕ}
    → note symbol o ≡ some d
    → (ms : List ℕ) × ((o ≡ some (ms, d.1)) × (d.0 ≡ symbol ∷ ms))
note-some symbol none e = absurd (cc)
note-some symbol (some (ms, s)) {d} e = (ms, (ground arith, ground arith))

at_front-some :
    (ms : List ℕ) (o : Option (List (List ℕ))) {xs : List (List ℕ)}
    → at_front ms o ≡ some xs
    → (rest : List (List ℕ)) × ((o ≡ some rest) × (xs ≡ ms ∷ rest))
at_front-some ms none e = absurd (cc)
at_front-some ms (some rest) e = (rest, (refl, ground arith))

drain-stuck :
    (k : ℕ) (fsm : Fsm) (s : ℕ) (f : ℕ → ℕ)
    → fsm.nodes s ≡ transitional f
    → drain k fsm s ≡ some ([], s)
unfolding drain
drain-stuck zero fsm s f e = rw (e, drain) refl
drain-stuck (suc k) fsm s f e = rw (e, drain) refl

drain-zero :
    (fsm : Fsm) (s symbol next : ℕ) → fsm.nodes s ≡ epsilon symbol next → drain 0 fsm s ≡ none
unfolding drain
drain-zero fsm s symbol next e = rw (e, drain) refl

drain-epsilon :
    (k : ℕ) (fsm : Fsm) (s symbol next : ℕ)
    → fsm.nodes s ≡ epsilon symbol next
    → drain (suc k) fsm s ≡ note symbol (drain k fsm next)
unfolding drain
drain-epsilon k fsm s symbol next e = rw (e, drain) refl

same_some : {x y : List (List ℕ)} → ◌≡◌ {A = Option (List (List ℕ))} (some x) (some y) → y ≡ x
same_some e = ground arith

module _ (left right : Fsm) (lc : IsClosed left) (rc : IsClosed right) (m : Merge)
    (inv : Inv left right m) (complete : (l r t : ℕ) → At m l r t → Marked m l r) where
  abbrev joined : Fsm
  joined = record { initial = 0; node_count = m.node_count; nodes = m.nodes }

  node-IsMerged :
      (l r s : ℕ) → At m l r s → IsMerged m (left.nodes l) (right.nodes r) l r (m.nodes s)
  node-IsMerged l r s a =
      let (e0, (q0, k0)) = a in
      let (e, (q, p)) = complete l r s a in
      subst (λ t. IsMerged m (left.nodes l) (right.nodes r) l r (m.nodes t))
        (ap (λ (c : Entry). c.node) (same_entry q q0) ∙ k0) (inv.linked l r e q p)

  follow-both :
      (x y : Node) (l r j : ℕ) (z : Node) {a b : ℕ}
      → IsMerged m x y l r z
      → j < 16
      → follow_transition x j ≡ some a
      → follow_transition y j ≡ some b
      → (t : ℕ) × ((follow_transition z j ≡ some t) × At m a b t)
  follow-both (epsilon symbol next) y l r j z is lt ea eb = absurd (cc)
  follow-both (transitional f) (epsilon symbol next) l r j z is lt ea eb = absurd (cc)
  follow-both (transitional f) (transitional g) l r j z {a} {b} (h, (q, at)) lt ea eb =
      let fa : f j ≡ a = ground arith in
      let gb : g j ≡ b = ground arith in
      (
        h j,
        (rw q refl, subst (λ c. At m c b (h j)) fa (subst (λ c. At m (f j) c (h j)) gb (at j lt))),
      )
  follow-both (transitional f) unset l r j z is lt ea eb = absurd (cc)
  follow-both unset y l r j z is lt ea eb = absurd (cc)

  is_merged :
      (l r s : ℕ) (x y : Node)
      → left.nodes l ≡ x
      → right.nodes r ≡ y
      → At m l r s
      → IsMerged m x y l r (m.nodes s)
  is_merged l r s x y p q a =
      subst (λ v. IsMerged m v y l r (m.nodes s)) p
        (subst (λ v. IsMerged m (left.nodes l) v l r (m.nodes s)) q (node-IsMerged l r s a))

  left-set : (l r s : ℕ) → At m l r s → left.nodes l ≡ unset → ⊥
  left-set l r s (e, (q, _)) u =
      subst (Closed left.node_count) u (lc.closed l (inv.inside l r e q).0)

  right-set : (l r s : ℕ) → At m l r s → right.nodes r ≡ unset → ⊥
  right-set l r s (e, (q, _)) u =
      subst (Closed right.node_count) u (rc.closed r (inv.inside l r e q).1)

  -- What a run of epsilon nodes of the merged machine gives.
  abbrev Drained : ℕ → ℕ → ℕ → ℕ → List ℕ → Type 0
  Drained k s l r ms = (s' : ℕ) × ((drain k joined s ≡ some (ms, s')) × At m l r s')

  same-pair :
      {x y : List ℕ} {a b : ℕ}
      → ◌≡◌ {A = Option (List ℕ × ℕ)} (some (x, a)) (some (y, b))
      → (x ≡ y) × (a ≡ b)
  same-pair e = (ground arith, ground arith)

  -- The loop over the right machine's epsilon nodes, where the left node is none.
  drain-right :
      (k n : ℕ) (f : ℕ → ℕ) (l r s : ℕ) (y : Node) (ms : List ℕ) (r' : ℕ)
      → n ≤ k
      → left.nodes l ≡ transitional f
      → right.nodes r ≡ y
      → At m l r s
      → drain n right r ≡ some (ms, r')
      → Drained k s l r' ms
  drain-right k n f l r s unset ms r' le x e a d = absurd (right-set l r s a e)
  drain-right k n f l r s (transitional g) ms r' le x e a d =
      let (h, (q, _)) = is_merged l r s (transitional f) (transitional g) x e a in
      let (p1, p2) = same-pair (sym (drain-stuck n right r g e) ∙ d) in
      (s, (drain-stuck k joined s h q ∙ ap (λ v. some (v, s)) p1, subst (λ v. At m l v s) p2 a))
  drain-right k zero f l r s (epsilon symbol next) ms r' le x e a d =
      absurd (cc (drain-zero right r symbol next e))
  drain-right zero (suc n) f l r s (epsilon symbol next) ms r' le x e a d = absurd (omega arith)
  drain-right (suc k) (suc n) f l r s (epsilon symbol next) ms r' le x e a d =
      let (t, (q, at)) = is_merged l r s (transitional f) (epsilon symbol next) x e a in
      let (ms0, (d0, p)) =
        note-some symbol (drain n right next) (sym (drain-epsilon n right r symbol next e) ∙ d) in
      let (s', (d', at')) =
        drain-right k n f l next t (right.nodes next) ms0 r' (omega arith) x refl at d0 in
      (
        s',
        (
          drain-epsilon k joined s symbol t q
              ∙ (ap (note symbol) d' ∙ ap (λ v. some (v, s')) (sym p)),
          at',
        ),
      )

  drain-both :
      (k n j l r s : ℕ) (x : Node) (ml mr : List ℕ) (l' r' : ℕ)
      → n + j ≤ k
      → left.nodes l ≡ x
      → At m l r s
      → drain n left l ≡ some (ml, l')
      → drain j right r ≡ some (mr, r')
      → Drained k s l' r' (ml ++ mr)
  drain-both k n j l r s unset ml mr l' r' le x a dl dr = absurd (left-set l r s a x)
  drain-both k n j l r s (transitional f) ml mr l' r' le x a dl dr =
      let (p1, p2) = same-pair (sym (drain-stuck n left l f x) ∙ dl) in
      let (s', (d, at)) = drain-right k j f l r s (right.nodes r) mr r' (omega arith) x refl a dr in
      (s', (d ∙ ap (λ v. some (v ++ mr, s')) p1, subst (λ v. At m v r' s') p2 at))
  drain-both k zero j l r s (epsilon symbol next) ml mr l' r' le x a dl dr =
      absurd (cc (drain-zero left l symbol next x))
  drain-both zero (suc n) j l r s (epsilon symbol next) ml mr l' r' le x a dl dr =
      absurd (omega arith)
  drain-both (suc k) (suc n) j l r s (epsilon symbol next) ml mr l' r' le x a dl dr =
      let (t, (q, at)) = is_merged l r s (epsilon symbol next) (right.nodes r) x refl a in
      let (ml0, (d0, p)) =
        note-some symbol (drain n left next) (sym (drain-epsilon n left l symbol next x) ∙ dl) in
      let (s', (d', at')) =
        drain-both k n j next r t (left.nodes next) ml0 mr l' r' (omega arith) refl at d0 dr in
      (
        s',
        (
          drain-epsilon k joined s symbol t q
              ∙ (ap (note symbol) d' ∙ ap (λ v. some (v ++ mr, s')) (sym p)),
          at',
        ),
      )

  byte-both :
      (c l r s a b : ℕ)
      → c < 256
      → At m l r s
      → read_byte left c l ≡ some a
      → read_byte right c r ≡ some b
      → (t : ℕ) × ((read_byte joined c s ≡ some t) × At m a b t)
  byte-both c l r s a b lt at p q =
      let (l1, (p1, p2)) =
        and_then-some (follow_transition (left.nodes l) (c / 16))
          (λ t. follow_transition (left.nodes t) (c % 16)) p in
      let (r1, (q1, q2)) =
        and_then-some (follow_transition (right.nodes r) (c / 16))
          (λ t. follow_transition (right.nodes t) (c % 16)) q in
      let (s1, (e1, at1)) =
        follow-both (left.nodes l) (right.nodes r) l r (c / 16) (m.nodes s) (node-IsMerged l r s at)
          (omega arith) p1 q1 in
      let (s2, (e2, at2)) =
        follow-both (left.nodes l1) (right.nodes r1) l1 r1 (c % 16) (m.nodes s1)
          (node-IsMerged l1 r1 s1 at1) (omega arith) p2 q2 in
      (s2, (ap (λ o. and_then o (λ t. follow_transition (m.nodes t) (c % 16))) e1 ∙ e2, at2))

  pub run-both :
      (n j : ℕ) (codes : List ℕ) (l r s : ℕ) (xs ys : List (List ℕ))
      → All (λ c. c < 256) codes
      → At m l r s
      → run n left l codes ≡ some xs
      → run j right r codes ≡ some ys
      → run (n + j) joined s codes ≡ some (both xs ys)
  unfolding run
  run-both n j [] l r s xs ys bytes at el er =
      let ((ml, l'), (dl, p)) = and_then-some (drain n left l) (λ d. some (d.0 ∷ [])) el in
      let ((mr, r'), (dr, q)) = and_then-some (drain j right r) (λ d. some (d.0 ∷ [])) er in
      let (s', (d, at')) =
        drain-both (n + j) n j l r s (left.nodes l) ml mr l' r' (omega arith) refl at dl dr in
      ap (λ o. and_then o (λ d. some (d.0 ∷ []))) d
      ∙ ap some (
          sym (
            ap (λ (v : List (List ℕ)). both v ys) (same_some p)
            ∙ ap (both (ml ∷ [])) (same_some q)))
  run-both n j (c ∷ cs) l r s xs ys (lt, bytes) at el er =
      let ((ml, l'), (dl, p)) = and_then-some (drain n left l) (λ d. rest n left d) el in
      let ((mr, r'), (dr, q)) = and_then-some (drain j right r) (λ d. rest j right d) er in
      let (l2, (bl, p2)) =
        and_then-some (read_byte left c l') (λ t. at_front ml (run n left t cs)) p in
      let (r2, (br, q2)) =
        and_then-some (read_byte right c r') (λ t. at_front mr (run j right t cs)) q in
      let (xs', (fl, p3)) = at_front-some ml (run n left l2 cs) p2 in
      let (ys', (fr, q3)) = at_front-some mr (run j right r2 cs) q2 in
      let (s', (d, at')) =
        drain-both (n + j) n j l r s (left.nodes l) ml mr l' r' (omega arith) refl at dl dr in
      let (s2, (b, at2)) = byte-both c l' r' s' l2 r2 lt at' bl br in
      ap (λ o. and_then o (λ d. rest (n + j) joined d)) d
      ∙ (ap (λ o. and_then o (λ t. at_front (ml ++ mr) (run (n + j) joined t cs))) b
          ∙ (ap (at_front (ml ++ mr)) (run-both n j cs l2 r2 s2 xs' ys' bytes at2 fl fr)
              ∙ ap some (sym (ap (λ (v : List (List ℕ)). both v ys) p3 ∙ ap (both (ml ∷ xs')) q3))))
    where
      rest : ℕ → Fsm → List ℕ × ℕ → Option (List (List ℕ))
      rest k a d = and_then (read_byte a c d.1) (λ t. at_front d.0 (run k a t cs))
