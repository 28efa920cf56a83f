-- ===== src/Search/Fsm/First.antt =====
-- The first nodes of `FSM_Create`, and its first byte.
use netslugplus.Base.{
  ℕ, ◌≡◌, inl, inr, refl, sym, ap, ◌∙◌, subst, arith, Bool, true, false, ◌==◌, if◌then◌else◌, List,
  [], ◌∷◌, none, length, ℕ_discrete,
}
use netslugplus.Search.Fsm.Create.{
  Nibble, nibble_matches, Queued, half, Masked, high, low, build_half, build_bytes, build_queue,
  build_nibbles, first_nodes, initial_node, has_first,
}
use netslugplus.Search.Fsm.Labels.{Label, accepts, IsPast, Inv}
use netslugplus.Search.Fsm.Nibbles.{HalfAt, SetSoFar}
use netslugplus.Search.Fsm.Rounds.{build_queue_one}
use netslugplus.Search.Fsm.Halves.{nibbles, Start, turned, build_half-Start, build_bytes-Start}

unmasked : (x : Nibble) (j : ℕ) → x.mask ≡ 0 → nibble_matches x j ≡ true
unfolding nibble_matches
unmasked x j e = rw e (ground arith)

abbrev pub first_queue : Bool → List Queued
first_queue c = record { node = initial_node c; fallback = none } ∷ []

-- With a masked first nibble the node 0 is behind a nibble that does not match.
abbrev first_label : Bool → ℕ → Label
first_label true n = if n == 1 then (true, 0 ∷ []) else (false, [])
first_label false n = (true, 0 ∷ [])

module _ (x : Masked) (xs : List Masked) where
  abbrev pattern : List Nibble
  pattern = nibbles (x ∷ xs)

  first-Inv-true : Inv pattern 1 0 true (first_queue true) [] (first_nodes true) (first_label true)
  first-Inv-true = record {
    initial_inside = omega arith;
    initial_label = refl;
    now_queued = ((omega arith, refl, omega arith), tt);
    next_queued = tt;
    placed = λ n h. elim (ℕ_discrete n 1) [
      | yes e ↦ inr (inl (inl (sym e)))
      | no ne ↦
          let z : n ≡ 0 = omega (arith, ne) in
          inl (
            subst (IsPast pattern 0 (first_nodes true) (first_label true)) (sym z)
              ((λ j lt. ((λ _. 1), refl, omega arith, refl)), tt))
    ];
  }

  first-Inv-false :
      Inv pattern 0 0 true (first_queue false) [] (first_nodes false) (first_label false)
  first-Inv-false = record {
    initial_inside = omega arith;
    initial_label = refl;
    now_queued = ((omega arith, refl, omega arith), tt);
    next_queued = tt;
    placed = λ n h. inr (inl (inl (let z : 0 ≡ n = omega arith in z)));
  }

  first-Inv :
      (c : Bool)
      → Inv pattern (initial_node c) 0 true (first_queue c) [] (first_nodes c) (first_label c)
  first-Inv true = first-Inv-true
  first-Inv false = first-Inv-false

  ready :
      (c : Bool)
      → c ≡ has_first (x ∷ xs)
      → SetSoFar pattern
          (initial_node c)
          0
          true
          0
          (record { node = initial_node c; fallback = none })
          (first_nodes c)
          (first_label c)
  ready c e m lt (inl h) = absurd (omega arith)
  ready true e m lt (inr (z, miss)) = (
    (λ _. 0),
    refl,
    omega arith,
    ap (λ (p : Bool). (false, (if p then 1 ∷ [] else []))) (sym miss),
  )
  ready false e m lt (inr (z, miss)) =
      let unset_mask : (high x).mask ≡ 0 = ground arith in
      let hit : accepts pattern 0 m ≡ true = unmasked (high x) m unset_mask in
      let never : true ≡ false = sym hit ∙ miss in absurd (cc)

  first-HalfAt :
      (c : Bool) → HalfAt pattern (initial_node c) 0 true (half true true (high x) (initial_node c))
  first-HalfAt c = record {
    is_high = refl;
    start = refl;
    nibble_at = refl;
    first = λ e. refl;
    later = λ e. absurd (cc e);
  }

  second-HalfAt :
      (c : Bool)
      → HalfAt pattern (initial_node c) 1 false (half true false (low x) (initial_node c))
  second-HalfAt c = record {
    is_high = refl;
    start = refl;
    nibble_at = refl;
    first = λ e. refl;
    later = λ e. absurd (cc e);
  }

  first_half-Start :
      (c : Bool)
      → c ≡ has_first (x ∷ xs)
      → (lab : ℕ → Label) × Start pattern
          (initial_node c)
          1
          false
          (build_half
            (half true true (high x) (initial_node c))
            (first_queue c, ([], first_nodes c)))
          lab
  unfolding build_queue
  first_half-Start c e =
      let h = half true true (high x) (initial_node c) in
      let e0 : Queued = record { node = initial_node c; fallback = none } in
      let (lab, inv) =
        build_queue_one pattern (initial_node c) 0 true h e0 [] ([], first_nodes c) (first_label c)
          (first-HalfAt c) (first-Inv c) (ready c e) in
      (
        lab,
        turned pattern (initial_node c) 0 true (build_nibbles 16 0 h e0 ([], first_nodes c)) lab
            inv,
      )

  -- What the loop over all bytes leaves.
  pub build_bytes-all :
      (c : Bool)
      → c ≡ has_first (x ∷ xs)
      → (lab : ℕ → Label) × Start pattern
          (initial_node c)
          (length pattern)
          true
          (build_bytes true (initial_node c) (x ∷ xs) (first_queue c, ([], first_nodes c)))
          lab
  unfolding build_bytes
  build_bytes-all c e =
      let h1 = half true true (high x) (initial_node c) in
      let h2 = half true false (low x) (initial_node c) in
      let s1 = build_half h1 (first_queue c, ([], first_nodes c)) in
      let (lab1, st1) = first_half-Start c e in
      let (lab2, st2) =
        build_half-Start pattern (initial_node c) 1 false h2 s1 lab1 (omega arith) (second-HalfAt c)
          st1 in
      build_bytes-Start pattern (initial_node c) 2 xs (build_half h2 s1) lab2 (omega arith)
        (omega arith) refl st2
