-- ===== src/Search/Fsm/Enter.antt =====
-- The step of `FSM_Create` that finds or allocates a node, and the one that sets a transition.
use netslugplus.Base.{
  ℕ, suc, ◌<◌, ◌≡◌, ◌≢◌, inl, inr, refl, sym, ap, ◌∙◌, subst, arith, Bool, true, not, ==_iff, List,
  [], ◌∷◌, ◌++◌, Option, none, some, update, update_self, update_ne, All, All-append_one,
  ℕ_discrete, Option-cases, Bool-cases,
}
use netslugplus.Search.Fsm.{transitional, transitions}
use netslugplus.Search.Fsm.Create.{
  Nibble, Build, alloc_node, set_transition, Queued, same_node, find_queued, Queues, entered,
  enter_queued,
}
use netslugplus.Search.Fsm.Labels.{
  Label, step, rest_label, Linked, IsDone, IsFallback, IsQueued, InQueue, Inv, Grown, Grown-refl,
  Grown-alloc, Grown-IsPast, Grown-IsFallback, Grown-rest, Grown-All,
}

same_node-eq : (x y : Option ℕ) → same_node x y ≡ true → x ≡ y
same_node-eq none none h = refl
same_node-eq none (some y) h = absurd (cc)
same_node-eq (some x) none h = absurd (cc)
same_node-eq (some x) (some y) h = ap some ((==_iff x y).0 h)

module _ (pattern : List Nibble) where
  found-label :
      (k : ℕ) (even : Bool) (b : Build) (lab : ℕ → Label) (q : List Queued) (f : Option ℕ) (n : ℕ)
      → All (IsQueued pattern k even b lab) q
      → find_queued f q ≡ some n
      → (n < b.node_count) × (lab n ≡ (even, k ∷ rest_label lab f))
  unfolding find_queued
  found-label k even b lab [] f n h e = absurd (cc)
  found-label k even b lab (x ∷ q) f n h e = elim (Bool-cases (same_node x.fallback f)) [
    | inl s ↦
        let this : x.node ≡ n = ground arith in
        let same : x.fallback ≡ f = same_node-eq x.fallback f s in
        subst (λ m. (m < b.node_count) × (lab m ≡ (even, k ∷ rest_label lab f))) this
          (h.0.0, subst (λ o. lab x.node ≡ (even, k ∷ rest_label lab o)) same h.0.1)
    | inr s ↦
        let later : find_queued f q ≡ some n = ground arith in
        found-label k even b lab q f n h.1 later
  ]

  InQueue-append :
      (n : ℕ) (q : List Queued) (e : Queued)
      → InQueue pattern n q
      → InQueue pattern n (q ++ (e ∷ []))
  InQueue-append n [] e h = elim h [ ]
  InQueue-append n (x ∷ q) e (inl h) = inl h
  InQueue-append n (x ∷ q) e (inr h) = inr (InQueue-append n q e h)

  InQueue-last :
      (n : ℕ) (q : List Queued) (e : Queued) → e.node ≡ n → InQueue pattern n (q ++ (e ∷ []))
  InQueue-last n [] e h = inl h
  InQueue-last n (x ∷ q) e h = inr (InQueue-last n q e h)

  -- A node for a fallback: it was there or is new.
  pub record Entered (initial k : ℕ) (even : Bool) (now : List Queued) (b : Build) (lab : ℕ → Label)
      (f : Option ℕ) (r : ℕ × Queues) (lab' : ℕ → Label) : Type 0 where
    pub grown : Grown pattern b r.1.1 lab lab'
    pub inv : Inv pattern initial k even now r.1.0 r.1.1 lab'
    pub inside : r.0 < r.1.1.node_count
    pub target : lab' r.0 ≡ (not even, suc k ∷ rest_label lab f)

  entered-new :
      (initial k : ℕ) (even : Bool) (now next : List Queued) (b : Build) (lab : ℕ → Label)
      (f : Option ℕ)
      → Inv pattern initial k even now next b lab
      → IsFallback pattern (suc k) (not even) b lab f
      → Entered initial k even now b lab f
          (entered f (next, b) none)
          (update lab b.node_count (not even, suc k ∷ rest_label lab f))
  entered-new initial k even now next b lab f inv fb =
      let l : Label = (not even, suc k ∷ rest_label lab f) in
      let lab' = update lab b.node_count l in
      let b' = alloc_node b in
      let g = Grown-alloc pattern b lab l in
      let new : Queued = record { node = b.node_count; fallback = f } in
      record {
        grown = g;
        inv = record {
          initial_inside = omega (arith, inv.initial_inside);
          initial_label = g.same_label initial inv.initial_inside ∙ inv.initial_label;
          now_queued = Grown-All pattern k even b b' lab lab' now g inv.now_queued;
          next_queued =
              All-append_one (IsQueued pattern (suc k) (not even) b' lab') next new
                (Grown-All pattern (suc k) (not even) b b' lab lab' next g inv.next_queued)
                (
                  omega arith,
                  update_self lab b.node_count l
                      ∙ ap (λ ds. (not even, suc k ∷ ds))
                          (sym (Grown-rest pattern (suc k) (not even) b b' lab lab' f g fb)),
                  Grown-IsFallback pattern (suc k) (not even) b b' lab lab' f g fb,
                );
          placed = λ n h. elim (ℕ_discrete n b.node_count) [
            | yes e ↦ inr (inr (InQueue-last n next new (sym e)))
            | no ne ↦
                let old : n < b.node_count = omega (arith, ne) in
                elim (inv.placed n old) [
                  | inl past ↦ inl (Grown-IsPast pattern k b b' lab lab' n g old past)
                  | inr (inl m) ↦ inr (inl m)
                  | inr (inr m) ↦ inr (inr (InQueue-append n next new m))
                ]
          ];
        };
        inside = omega arith;
        target = update_self lab b.node_count l;
      }

  pub enter_queued-Entered :
      (initial k : ℕ) (even : Bool) (now next : List Queued) (b : Build) (lab : ℕ → Label)
      (f : Option ℕ)
      → Inv pattern initial k even now next b lab
      → IsFallback pattern (suc k) (not even) b lab f
      → (lab' : ℕ → Label) × Entered initial k even now b lab f (enter_queued f (next, b)) lab'
  unfolding enter_queued
  enter_queued-Entered initial k even now next b lab f inv fb =
      elim (Option-cases (find_queued f next)) [
        | inl e ↦ rw e (
          update lab b.node_count (not even, suc k ∷ rest_label lab f),
          entered-new initial k even now next b lab f inv fb,
        )
        | inr (n, e) ↦
            let (inside, label) = found-label (suc k) (not even) b lab next f n inv.next_queued e in
            rw e (
              lab,
              record {
                grown = Grown-refl pattern b lab;
                inv = inv;
                inside = inside;
                target = label;
              },
            )
      ]

  -- The node `n` of the queue, of which it is the first, gets its transition for `j`.
  pub record Set (initial k : ℕ) (even : Bool) (e : Queued) (es next : List Queued) (b b' : Build)
      (lab : ℕ → Label) (j : ℕ) : Type 0 where
    pub inv : Inv pattern initial k even (e ∷ es) next b' lab
    pub linked : Linked pattern b' lab e.node j
    pub others : (i : ℕ) → i ≢ j → Linked pattern b lab e.node i → Linked pattern b' lab e.node i

  set-other :
      (b : Build) (lab : ℕ → Label) (n j t m : ℕ)
      → m ≢ n
      → IsDone pattern b lab m
      → IsDone pattern (set_transition n j t b) lab m
  set-other b lab n j t m ne done i lt =
      let (f, e, inside, l) = done i lt in
      (
        f,
        update_ne b.nodes n m (transitional (update (transitions (b.nodes n)) j t)) ne ∙ e,
        inside,
        l,
      )

  pub set_transition-Set :
      (initial k : ℕ) (even : Bool) (e : Queued) (es next : List Queued) (b : Build)
      (lab : ℕ → Label) (j t : ℕ)
      → Inv pattern initial k even (e ∷ es) next b lab
      → t < b.node_count
      → lab t ≡ step pattern j (lab e.node)
      → Set initial k even e es next b (set_transition e.node j t b) lab j
  set_transition-Set initial k even e es next b lab j t inv inside l =
      let n = e.node in
      let f = update (transitions (b.nodes n)) j t in
      let at : (set_transition n j t b).nodes n ≡ transitional f =
        update_self b.nodes n (transitional f) in
      let new : f j ≡ t = update_self (transitions (b.nodes n)) j t in
      record {
        inv = record {
          initial_inside = inv.initial_inside;
          initial_label = inv.initial_label;
          now_queued = inv.now_queued;
          next_queued = inv.next_queued;
          placed = λ m h. elim (ℕ_discrete m n) [
            | yes q ↦ inr (inl (inl (sym q)))
            | no ne ↦ elim (inv.placed m h) [
              | inl past ↦ inl (set-other b lab n j t m ne past.0, past.1)
              | inr o ↦ inr o
            ]
          ];
        };
        linked = (f, at, rw new inside, rw new l);
        others = λ i ne (g, q, inside', l').
            let kept : f i ≡ g i =
              update_ne (transitions (b.nodes n)) j i t ne ∙ ap (λ x. transitions x i) q in
            (f, at, rw kept inside', rw kept l');
      }
