-- ===== src/Search/Fsm/Rounds.antt =====
-- The loops of `FSM_Create` over the nibbles and over a queue.
use netslugplus.Base.{
  ℕ, zero, suc, ◌+◌, ◌≤◌, ◌<◌, ◌≡◌, ◌⊎◌, inl, inr, refl, sym, ap, ◌∙◌, subst, arith, Bool, true,
  false, not, if◌then◌else◌, List, [], ◌∷◌, Option, none, some, All, ℕ_discrete, Bool-cases,
}
use netslugplus.Search.Fsm.Create.{
  Nibble, nibble_matches, Build, transition, set_transition, Queued, Half, next_fallback, Queues,
  enter_queued, link_to, fall_back, build_nibble, build_nibbles, build_queue,
}
use netslugplus.Search.Fsm.Labels.{
  Label, accepts, accepted, advance, step, rest_label, All-below, IsPast, IsFallback, IsQueued, Inv,
  Grown-Linked,
}
use netslugplus.Search.Fsm.Enter.{Entered, enter_queued-Entered}
use netslugplus.Search.Fsm.Nibbles.{
  HalfAt, Falls, initial-Falls, transition-Falls, next_fallback-Falls, SetSoFar, Round, node_step,
  set-Round,
}

pair_eq : {a b : Bool} {xs ys : List ℕ} → a ≡ b → xs ≡ ys → ◌≡◌ {A = Label} (a, xs) (b, ys)
pair_eq e f = λ i. (e i, f i)

label_eq : (l : Label) {b : Bool} {ys : List ℕ} → l.0 ≡ b → l.1 ≡ ys → l ≡ (b, ys)
label_eq (a, xs) e f = pair_eq e f

module _ (pattern : List Nibble) (initial k : ℕ) (even : Bool) where
  accepts-at :
      (h : Half) (j : ℕ)
      → HalfAt pattern initial k even h
      → accepts pattern k j ≡ nibble_matches h.nibble j
  accepts-at h j ha = ap (λ o. accepted o j) ha.nibble_at

  Entered-Round :
      (e : Queued) (es : List Queued) (next : List Queued) (b : Build) (lab : ℕ → Label) (j : ℕ)
      (f : Option ℕ)
      → Round pattern initial k even e es j (next, b) lab
      → (r : ℕ × Queues) → (lab' : ℕ → Label)
      → Entered pattern initial k even (e ∷ es) b lab f r lab'
      → Round pattern initial k even e es j r.1 lab'
  Entered-Round e es next b lab j f r w lab' ent = record {
    inv = ent.inv;
    so_far = λ m lt o.
        Grown-Linked pattern b w.1.1 lab lab' e.node m ent.grown r.inv.now_queued.0.0
          (r.so_far m lt o);
  }

  matched-Round :
      (h : Half) (e : Queued) (es next : List Queued) (b : Build) (lab : ℕ → Label) (j : ℕ)
      → j < 16
      → HalfAt pattern initial k even h
      → nibble_matches h.nibble j ≡ true
      → Round pattern initial k even e es j (next, b) lab
      → (lab' : ℕ → Label) × Round pattern initial k even e es
          (suc j)
          (link_to e.node j (enter_queued (next_fallback h e.fallback b j) (next, b)))
          lab'
  matched-Round h e es next b lab j lt ha m r =
      let q = r.inv.now_queued.0 in
      let falls =
        next_fallback-Falls pattern initial k even h (e ∷ es) next b lab j e.fallback lt ha r.inv
          q.2 in
      let f = next_fallback h e.fallback b j in
      let w = enter_queued f (next, b) in
      let (lab', ent) =
        enter_queued-Entered pattern initial k even (e ∷ es) next b lab f r.inv falls.fallback in
      let hit : accepts pattern k j ≡ true = accepts-at h j ha ∙ m in
      let goes : step pattern j (lab e.node)
          ≡ (not even, suc k ∷ advance pattern j even (rest_label lab e.fallback)) =
        node_step pattern initial k even b lab e j q
        ∙ ap
            (λ (p : Bool). (
              not even,
              (if p
                  then suc k ∷ advance pattern j even (rest_label lab e.fallback)
                  else advance pattern j even (rest_label lab e.fallback)),
            ))
            hit in
      (
        lab',
        set-Round pattern initial k even e es w.1.0 w.1.1 lab' j w.0
            (Entered-Round e es next b lab j f r w lab' ent) ent.inside
            (ent.target
              ∙ (ap (λ (ds : List ℕ). (not even, suc k ∷ ds)) falls.rest_is
                  ∙ (sym goes ∙ ap (step pattern j) (sym (ent.grown.same_label e.node q.0))))),
      )

  -- To the node `t`, of which the match that has come furthest is lost.
  lost-Round :
      (e : Queued) (es next : List Queued) (b : Build) (lab : ℕ → Label) (j t : ℕ)
      → accepts pattern k j ≡ false
      → Round pattern initial k even e es j (next, b) lab
      → Falls pattern initial k even b lab j (some t) (rest_label lab e.fallback)
      → Round pattern initial k even e es (suc j) (next, set_transition e.node j t b) lab
  lost-Round e es next b lab j t miss r falls =
      let q = r.inv.now_queued.0 in
      let goes : step pattern j (lab e.node)
          ≡ (not even, advance pattern j even (rest_label lab e.fallback)) =
        node_step pattern initial k even b lab e j q
        ∙ ap
            (λ (p : Bool). (
              not even,
              (if p
                  then suc k ∷ advance pattern j even (rest_label lab e.fallback)
                  else advance pattern j even (rest_label lab e.fallback)),
            ))
            miss in
      set-Round pattern initial k even e es next b lab j t r falls.fallback.1
        (label_eq (lab t) falls.fallback.2 falls.rest_is ∙ sym goes)

  fall_back-Round :
      (h : Half) (e : Queued) (es next : List Queued) (b : Build) (lab : ℕ → Label) (j : ℕ)
      (o : Option ℕ)
      → j < 16
      → o ≡ e.fallback
      → HalfAt pattern initial k even h
      → nibble_matches h.nibble j ≡ false
      → Round pattern initial k even e es j (next, b) lab
      → Round pattern initial k even e es (suc j) (fall_back h e.node j o (next, b)) lab
  fall_back-Round h e es next b lab j (some f) lt same ha m r =
      let miss : accepts pattern k j ≡ false = accepts-at h j ha ∙ m in
      let fb = subst (IsFallback pattern k even b lab) (sym same) r.inv.now_queued.0.2 in
      lost-Round e es next b lab j (transition b f j) miss r (
        subst
          (λ o. Falls pattern initial k even b lab j (some (transition b f j)) (rest_label lab o))
          same (transition-Falls pattern initial k even (e ∷ es) next b lab j f lt r.inv fb))
  fall_back-Round h e es next b lab j none lt same ha m r =
      let miss : accepts pattern k j ≡ false = accepts-at h j ha ∙ m in
      let low : k ≤ 1 = subst (IsFallback pattern k even b lab) (sym same) r.inv.now_queued.0.2 in
      let first : h.is_first ≡ true = first_of h.is_first ha.later low in
      elim (Bool-cases even) [
        | inl p ↦
            let high : h.is_high ≡ true = ha.is_high ∙ p in
            let z : k ≡ 0 = ground (arith, ha.first first, p) in
            rw high
              (record { inv = r.inv; so_far = λ i lt' o. r.so_far i lt' (unmoved i j z miss o) })
        | inr p ↦
            let high : h.is_high ≡ false = ha.is_high ∙ p in
            let one : 1 ≤ k = ground (arith, ha.first first, p) in
            rw (high, ha.start)
              (lost-Round e es next b lab j initial miss r (
                subst (λ o. Falls pattern initial k even b lab j (some initial) (rest_label lab o))
                  same (initial-Falls pattern initial k even (e ∷ es) next b lab j r.inv p one)))
      ]
    where
      first_of : (c : Bool) → (c ≡ false → 2 ≤ k) → k ≤ 1 → c ≡ true
      first_of true g le = refl
      first_of false g le = absurd (omega (arith, g refl))

      unmoved :
          (i j : ℕ)
          → k ≡ 0
          → accepts pattern k j ≡ false
          → ((i < suc j) ⊎ ((k ≡ 0) × (accepts pattern k i ≡ false)))
          → ((i < j) ⊎ ((k ≡ 0) × (accepts pattern k i ≡ false)))
      unmoved i j z miss (inr h) = inr h
      unmoved i j z miss (inl h) = elim (ℕ_discrete i j) [
        | yes q ↦ inr (z, subst (λ n. accepts pattern k n ≡ false) (sym q) miss)
        | no ne ↦ inl (omega (arith, ne))
      ]

  build_nibble-Round :
      (h : Half) (e : Queued) (es next : List Queued) (b : Build) (lab : ℕ → Label) (j : ℕ)
      → j < 16
      → HalfAt pattern initial k even h
      → Round pattern initial k even e es j (next, b) lab
      → (lab' : ℕ → Label) × Round pattern initial k even e es
          (suc j)
          (build_nibble h e j (next, b))
          lab'
  unfolding build_nibble
  build_nibble-Round h e es next b lab j lt ha r = elim (Bool-cases (nibble_matches h.nibble j)) [
    | inl m ↦ rw m (matched-Round h e es next b lab j lt ha m r)
    | inr m ↦ rw m (lab, fall_back-Round h e es next b lab j e.fallback lt refl ha m r)
  ]

  build_nibbles-Round :
      (n : ℕ) (h : Half) (e : Queued) (es : List Queued) (w : Queues) (lab : ℕ → Label) (j : ℕ)
      → n + j ≡ 16
      → HalfAt pattern initial k even h
      → Round pattern initial k even e es j w lab
      → (lab' : ℕ → Label) × Round pattern initial k even e es 16 (build_nibbles n j h e w) lab'
  unfolding build_nibbles
  build_nibbles-Round zero h e es w lab j s ha r = (
    lab,
    subst (λ i. Round pattern initial k even e es i w lab) (let q : j ≡ 16 = omega arith in q) r,
  )
  build_nibbles-Round (suc n) h e es (next, b) lab j s ha r =
      let (lab', r') = build_nibble-Round h e es next b lab j (omega arith) ha r in
      build_nibbles-Round n h e es (build_nibble h e j (next, b)) lab' (suc j) (omega arith) ha r'

  rest-below :
      (b : Build) (lab : ℕ → Label) (o : Option ℕ)
      → IsFallback pattern k even b lab o
      → All (λ d. d < k) (rest_label lab o)
  rest-below b lab none h = tt
  rest-below b lab (some f) h = h.3

  queued-below :
      (b : Build) (lab : ℕ → Label) (e : Queued)
      → IsQueued pattern k even b lab e
      → All (λ d. d < suc k) (lab e.node).1
  queued-below b lab e (inside, l, fb) =
      subst (λ (l : Label). All (λ d. d < suc k) l.1) (sym l)
        (omega arith, All-below k (rest_label lab e.fallback) (rest-below b lab e.fallback fb))

  -- The first of the queue is done.
  Round-Inv :
      (e : Queued) (es : List Queued) (w : Queues) (lab : ℕ → Label)
      → Round pattern initial k even e es 16 w lab
      → Inv pattern initial k even es w.0 w.1 lab
  Round-Inv e es w lab r = record {
    initial_inside = r.inv.initial_inside;
    initial_label = r.inv.initial_label;
    now_queued = r.inv.now_queued.1;
    next_queued = r.inv.next_queued;
    placed = λ n h. elim (r.inv.placed n h) [
      | inl past ↦ inl past
      | inr (inl (inl q)) ↦ inl (
          subst (IsPast pattern k w.1 lab) q
            (λ j lt. r.so_far j lt (inl lt), queued-below w.1 lab e r.inv.now_queued.0))
      | inr (inl (inr m)) ↦ inr (inl m)
      | inr (inr m) ↦ inr (inr m)
    ];
  }

  pub build_queue_one :
      (h : Half) (e : Queued) (es : List Queued) (w : Queues) (lab : ℕ → Label)
      → HalfAt pattern initial k even h
      → Inv pattern initial k even (e ∷ es) w.0 w.1 lab
      → SetSoFar pattern initial k even 0 e w.1 lab
      → (lab' : ℕ → Label) × Inv pattern initial k even es
          (build_nibbles 16 0 h e w).0
          (build_nibbles 16 0 h e w).1
          lab'
  build_queue_one h e es w lab ha inv ready =
      let (lab', r) =
        build_nibbles-Round 16 h e es w lab 0 (omega arith) ha
          (record { inv = inv; so_far = ready }) in
      (lab', Round-Inv e es (build_nibbles 16 0 h e w) lab' r)

  -- From the second nibble on nothing stands from before.
  pub build_queue-Inv :
      (h : Half) (es : List Queued) (w : Queues) (lab : ℕ → Label)
      → 0 < k
      → HalfAt pattern initial k even h
      → Inv pattern initial k even es w.0 w.1 lab
      → (lab' : ℕ → Label) × Inv pattern initial k even []
          (build_queue h es w).0
          (build_queue h es w).1
          lab'
  unfolding build_queue
  build_queue-Inv h [] w lab pos ha inv = (lab, inv)
  build_queue-Inv h (e ∷ es) w lab pos ha inv =
      let (lab', inv') = build_queue_one h e es w lab ha inv (λ m lt o. absurd (nothing m pos o)) in
      build_queue-Inv h es (build_nibbles 16 0 h e w) lab' pos ha inv'
    where
      nothing : (m : ℕ) → 0 < k → ((m < 0) ⊎ ((k ≡ 0) × (accepts pattern k m ≡ false))) → ⊥
      nothing m pos (inl lt) = omega arith
      nothing m pos (inr (z, a)) = omega arith
