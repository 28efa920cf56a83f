-- ===== src/Search/Fsm/Halves.antt =====
-- The loop of `FSM_Create` over the bytes of the symbol.
use netslugplus.Base.{
  ℕ, zero, suc, ◌≤◌, ◌<◌, ◌≡◌, ◌⊎◌, inl, inr, refl, ap, subst, arith, Bool, true, false, not, List,
  [], ◌∷◌, some, get_elem?, drop, length, All,
}
use netslugplus.Search.Fsm.Create.{
  Nibble, Queued, Half, half, Masked, high, low, Queues, emptied, build_half, build_bytes,
  build_queue,
}
use netslugplus.Search.Fsm.Labels.{Label, IsDone, All-below, InQueue, Inv}
use netslugplus.Search.Fsm.Nibbles.{HalfAt}
use netslugplus.Search.Fsm.Rounds.{build_queue-Inv}

abbrev pub nibbles : List Masked → List Nibble
nibbles [] = []
nibbles (x ∷ xs) = high x ∷ low x ∷ nibbles xs

pub drop_here :
    (k : ℕ) (p : List Nibble) (x : Nibble) (ys : List Nibble)
    → drop k p ≡ x ∷ ys
    → (get_elem? p k ≡ some x) × (drop (suc k) p ≡ ys)
drop_here zero [] x ys e = absurd (cc)
drop_here (suc k) [] x ys e = absurd (cc)
drop_here zero (y ∷ p) x ys e = (ground arith, ground arith)
drop_here (suc k) (y ∷ p) x ys e = drop_here k p x ys e

drop_end : (k : ℕ) (p : List Nibble) → k ≤ length p → drop k p ≡ [] → k ≡ length p
drop_end zero [] le e = refl
drop_end zero (y ∷ p) le e = absurd (cc)
drop_end (suc k) [] le e = absurd (omega arith)
drop_end (suc k) (y ∷ p) le e = ap suc (drop_end k p (omega arith) e)

module _ (pattern : List Nibble) (initial : ℕ) where
  -- Before a half: its queue is all that is not done, and what is done has fewer nibbles.
  pub record Start (k : ℕ) (even : Bool) (s : List Queued × Queues) (lab : ℕ → Label) : Type 0 where
    pub inv : Inv pattern initial k even s.0 s.1.0 s.1.1 lab
    pub fewer :
        (n : ℕ)
        → n < s.1.1.node_count
        → (IsDone pattern s.1.1 lab n × All (λ d. d < k) (lab n).1) ⊎ InQueue pattern n s.0

  pub turned :
      (k : ℕ) (even : Bool) (w : Queues) (lab : ℕ → Label)
      → Inv pattern initial k even [] w.0 w.1 lab
      → Start (suc k) (not even) (emptied w) lab
  turned k even (q, b) lab inv = record {
    inv = record {
      initial_inside = inv.initial_inside;
      initial_label = inv.initial_label;
      now_queued = inv.next_queued;
      next_queued = tt;
      placed = λ n h. elim (inv.placed n h) [
        | inl past ↦ inl (past.0, All-below (suc k) (lab n).1 past.1)
        | inr (inl m) ↦ elim m [ ]
        | inr (inr m) ↦ inr (inl m)
      ];
    };
    fewer = λ n h. elim (inv.placed n h) [
      | inl past ↦ inl past
      | inr (inl m) ↦ elim m [ ]
      | inr (inr m) ↦ inr m
    ];
  }

  pub build_half-Start :
      (k : ℕ) (even : Bool) (h : Half) (s : List Queued × Queues) (lab : ℕ → Label)
      → 0 < k
      → HalfAt pattern initial k even h
      → Start k even s lab
      → (lab' : ℕ → Label) × Start (suc k) (not even) (build_half h s) lab'
  build_half-Start k even h (q, w) lab pos ha st =
      let (lab', inv) = build_queue-Inv pattern initial k even h q w lab pos ha st.inv in
      (lab', turned k even (build_queue h q w) lab' inv)

  half-HalfAt :
      (k : ℕ) (even : Bool) (x : Nibble)
      → get_elem? pattern k ≡ some x
      → 2 ≤ k
      → HalfAt pattern initial k even (half false even x initial)
  half-HalfAt k even x e le = record {
    is_high = refl;
    start = refl;
    nibble_at = e;
    first = λ f. absurd (cc f);
    later = λ f. le;
  }

  pub build_bytes-Start :
      (k : ℕ) (xs : List Masked) (s : List Queued × Queues) (lab : ℕ → Label)
      → 2 ≤ k
      → k ≤ length pattern
      → drop k pattern ≡ nibbles xs
      → Start k true s lab
      → (lab' : ℕ → Label) × Start (length pattern) true (build_bytes false initial xs s) lab'
  unfolding build_bytes
  build_bytes-Start k [] s lab le len e st =
      (lab, subst (λ n. Start n true s lab) (drop_end k pattern len e) st)
  build_bytes-Start k (x ∷ xs) s lab le len e st =
      let (e1, r1) = drop_here k pattern (high x) (low x ∷ nibbles xs) e in
      let (e2, r2) = drop_here (suc k) pattern (low x) (nibbles xs) r1 in
      let h1 = half false true (high x) initial in
      let h2 = half false false (low x) initial in
      let (lab1, st1) =
        build_half-Start k true h1 s lab (omega arith) (half-HalfAt k true (high x) e1 le) st in
      let (lab2, st2) =
        build_half-Start (suc k) false h2 (build_half h1 s) lab1 (omega arith)
          (half-HalfAt (suc k) false (low x) e2 (omega arith)) st1 in
      build_bytes-Start (suc (suc k)) xs (build_half h2 (build_half h1 s)) lab2 (omega arith)
        (lt_of_get (suc k) pattern (low x) e2) r2 st2
    where
      lt_of_get : (i : ℕ) (p : List Nibble) (x : Nibble) → get_elem? p i ≡ some x → suc i ≤ length p
      lt_of_get i [] x e = absurd (cc)
      lt_of_get zero (y ∷ p) x e = omega arith
      lt_of_get (suc i) (y ∷ p) x e = omega (arith, lt_of_get i p x e)
