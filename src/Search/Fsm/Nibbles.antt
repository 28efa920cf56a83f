-- ===== src/Search/Fsm/Nibbles.antt =====
-- The loop of `FSM_Create` over the 16 nibbles of a node.
use netslugplus.Base.{
  ℕ, suc, ◌≤◌, ◌<◌, ◌≡◌, ◌≢◌, ◌⊎◌, inl, inr, sym, ap, ◌∙◌, subst, arith, Bool, true, false, not,
  if◌then◌else◌, List, [], ◌∷◌, Option, none, some, get_elem?, All, ℕ_discrete, Bool-cases,
}
use netslugplus.Search.Fsm.{transitions}
use netslugplus.Search.Fsm.Create.{
  Nibble, Build, transition, set_transition, Queued, Half, next_fallback, Queues,
}
use netslugplus.Search.Fsm.Labels.{
  Label, accepts, advance, advance-below, step, rest_label, Linked, IsDone, IsFallback, IsQueued,
  InQueue, Inv,
}
use netslugplus.Search.Fsm.Enter.{set_transition-Set}

module _ (pattern : List Nibble) (initial k : ℕ) (even : Bool) where
  -- The half is the one for the nibble `k` of the symbol.
  pub record HalfAt (h : Half) : Type 0 where
    pub is_high : h.is_high ≡ even
    pub start : h.initial ≡ initial
    pub nibble_at : get_elem? pattern k ≡ some h.nibble
    pub first : h.is_first ≡ true → k ≡ (if even then 0 else 1)
    pub later : h.is_first ≡ false → 2 ≤ k

  queue_label :
      (i : ℕ) (p : Bool) (b : Build) (lab : ℕ → Label) (n : ℕ) (q : List Queued)
      → All (IsQueued pattern i p b lab) q
      → InQueue pattern n q
      → (ds : List ℕ) × (lab n ≡ (p, i ∷ ds))
  queue_label i p b lab n [] h m = elim m [ ]
  queue_label i p b lab n (x ∷ q) h (inl e) =
      (rest_label lab x.fallback, subst (λ y. lab y ≡ (p, i ∷ rest_label lab x.fallback)) e h.0.1)
  queue_label i p b lab n (x ∷ q) h (inr m) = queue_label i p b lab n q h.1 m

  not-not : (b : Bool) → not b ≢ b
  not-not true e = cc
  not-not false e = cc

  -- A fallback has all its transitions.
  fallback-IsDone :
      (now next : List Queued) (b : Build) (lab : ℕ → Label) (f : ℕ)
      → Inv pattern initial k even now next b lab
      → IsFallback pattern k even b lab (some f)
      → IsDone pattern b lab f
  fallback-IsDone now next b lab f inv (le, inside, p, below) = elim (inv.placed f inside) [
    | inl past ↦ past.0
    | inr (inl m) ↦
        let (ds, e) = queue_label k even b lab f now inv.now_queued m in
        let bad : All (λ d. d < k) (k ∷ ds) = subst (λ (l : Label). All (λ d. d < k) l.1) e below in
        absurd (omega (arith, bad.0))
    | inr (inr m) ↦
        let (ds, e) = queue_label (suc k) (not even) b lab f next inv.next_queued m in
        absurd (not-not even (sym (ap (λ (l : Label). l.0) e) ∙ p))
  ]

  -- The node that a nibble is followed to, where the match of the node itself does not count.
  pub record Falls (b : Build) (lab : ℕ → Label) (j : ℕ) (o : Option ℕ) (rest : List ℕ)
      : Type 0 where
    pub fallback : IsFallback pattern (suc k) (not even) b lab o
    pub rest_is : rest_label lab o ≡ advance pattern j even rest

  pub initial-Falls :
      (now next : List Queued) (b : Build) (lab : ℕ → Label) (j : ℕ)
      → Inv pattern initial k even now next b lab
      → even ≡ false
      → 1 ≤ k
      → Falls b lab j (some initial) []
  initial-Falls now next b lab j inv odd le =
      let l = inv.initial_label in
      record {
        fallback = (
          omega arith,
          inv.initial_inside,
          ap (λ (l : Label). l.0) l ∙ ap not (sym odd),
          subst (λ (l : Label). All (λ d. d < suc k) l.1) (sym l) (omega arith),
        );
        rest_is = ap (λ (l : Label). l.1) l ∙ ap (λ p. advance pattern j p []) (sym odd);
      }

  pub none-Falls :
      (b : Build) (lab : ℕ → Label) (j : ℕ) → even ≡ true → k ≡ 0 → Falls b lab j none []
  none-Falls b lab j p z = record {
    fallback = omega arith;
    rest_is = ap (λ p. advance pattern j p []) (sym p);
  }

  pub transition-Falls :
      (now next : List Queued) (b : Build) (lab : ℕ → Label) (j f : ℕ)
      → j < 16
      → Inv pattern initial k even now next b lab
      → IsFallback pattern k even b lab (some f)
      → Falls b lab j (some (transition b f j)) (rest_label lab (some f))
  transition-Falls now next b lab j f lt inv fb =
      let (t, q, inside, l) = fallback-IsDone now next b lab f inv fb j lt in
      let goes : transition b f j ≡ t j = ap (λ x. transitions x j) q in
      let label : lab (t j) ≡ (not even, advance pattern j even (lab f).1) =
        l ∙ ap (λ p. (not p, advance pattern j p (lab f).1)) fb.2 in
      subst (λ n. Falls b lab j (some n) (lab f).1) (sym goes)
        (record {
          fallback = (
            omega (arith, fb.0),
            inside,
            ap (λ (l : Label). l.0) label,
            subst (λ (l : Label). All (λ d. d < suc k) l.1) (sym label)
                (advance-below pattern j k even (lab f).1 fb.3),
          );
          rest_is = ap (λ (l : Label). l.1) label;
        })

  pub next_fallback-Falls :
      (h : Half) (now next : List Queued) (b : Build) (lab : ℕ → Label) (j : ℕ) (o : Option ℕ)
      → j < 16
      → HalfAt h
      → Inv pattern initial k even now next b lab
      → IsFallback pattern k even b lab o
      → Falls b lab j (next_fallback h o b j) (rest_label lab o)
  next_fallback-Falls h now next b lab j none lt ha inv fb = elim (Bool-cases h.is_first) [
    | inl e ↦ elim (Bool-cases even) [
      | inl p ↦
          let high : h.is_high ≡ true = ha.is_high ∙ p in
          rw (e, high) (none-Falls b lab j p (ground (arith, ha.first e, p)))
      | inr p ↦
          let high : h.is_high ≡ false = ha.is_high ∙ p in
          rw (e, high, ha.start)
            (initial-Falls now next b lab j inv p (ground (arith, ha.first e, p)))
    ]
    | inr e ↦ absurd (omega (arith, ha.later e, fb))
  ]
  next_fallback-Falls h now next b lab j (some f) lt ha inv fb = elim (Bool-cases h.is_first) [
    | inl e ↦ absurd (ground (arith, ha.first e, fb.0))
    | inr e ↦ rw e (transition-Falls now next b lab j f lt inv fb)
  ]

  -- Of the first node's transitions, those that the loop leaves alone stand from before.
  abbrev pub SetSoFar : ℕ → Queued → Build → (ℕ → Label) → Type 0
  SetSoFar i e b lab =
      (m : ℕ)
      → m < 16
      → ((m < i) ⊎ ((k ≡ 0) × (accepts pattern k m ≡ false)))
      → Linked pattern b lab e.node m

  -- What one round leaves.
  pub record Round (e : Queued) (es : List Queued) (i : ℕ) (w : Queues) (lab : ℕ → Label)
      : Type 0 where
    pub inv : Inv pattern initial k even (e ∷ es) w.0 w.1 lab
    pub so_far : SetSoFar i e w.1 lab

  pub node_step :
      (b : Build) (lab : ℕ → Label) (e : Queued) (j : ℕ)
      → IsQueued pattern k even b lab e
      → step pattern j (lab e.node) ≡ (
        not even,
        (if accepts pattern k j
            then suc k ∷ advance pattern j even (rest_label lab e.fallback)
            else advance pattern j even (rest_label lab e.fallback)),
      )
  node_step b lab e j q = ap (step pattern j) q.1

  pub set-Round :
      (e : Queued) (es next : List Queued) (b : Build) (lab : ℕ → Label) (j t : ℕ)
      → Round e es j (next, b) lab
      → t < b.node_count
      → lab t ≡ step pattern j (lab e.node)
      → Round e es (suc j) (next, set_transition e.node j t b) lab
  set-Round e es next b lab j t r inside l =
      let s = set_transition-Set pattern initial k even e es next b lab j t r.inv inside l in
      record {
        inv = s.inv;
        so_far = λ m lt o. elim (ℕ_discrete m j) [
          | yes q ↦
              subst (λ i. Linked pattern (set_transition e.node j t b) lab e.node i) (sym q)
                s.linked
          | no ne ↦ s.others m ne (r.so_far m lt (earlier m j ne o))
        ];
      }
    where
      earlier :
          (m j : ℕ)
          → m ≢ j
          → ((m < suc j) ⊎ ((k ≡ 0) × (accepts pattern k m ≡ false)))
          → ((m < j) ⊎ ((k ≡ 0) × (accepts pattern k m ≡ false)))
      earlier m j ne (inl h) = inl (omega (arith, ne))
      earlier m j ne (inr h) = inr h
