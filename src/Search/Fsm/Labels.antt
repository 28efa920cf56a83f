-- ===== src/Search/Fsm/Labels.antt =====
-- What a node of `FSM_Create`'s machine stands for: how far each match that may still succeed has come.
use netslugplus.Base.{
  ℕ, suc, ◌≤◌, ◌<◌, ◌≡◌, ◌⊎◌, inl, inr, refl, sym, ap, ◌∙◌, subst, arith, Bool, true, false, not,
  if◌then◌else◌, List, [], ◌∷◌, Option, none, some, update, update_ne, get_elem?, All, Bool-cases,
}
use netslugplus.Search.Fsm.{transitional, unset}
use netslugplus.Search.Fsm.Create.{Nibble, nibble_matches, Build, alloc_node, Queued}

-- Whether the place is between two bytes, and the numbers of nibbles of the matches, the longest
-- first; one that has just begun has none.
abbrev pub Label : Type 0
Label = Bool × List ℕ

abbrev pub accepted : Option Nibble → ℕ → Bool
accepted none j = false
accepted (some x) j = nibble_matches x j

abbrev pub accepts : List Nibble → ℕ → ℕ → Bool
accepts pattern d j = accepted (get_elem? pattern d) j

abbrev pub advance : List Nibble → ℕ → Bool → List ℕ → List ℕ
advance pattern j even [] = if even then [] else 0 ∷ []
advance pattern j even (d ∷ ds) =
    let rest = advance pattern j even ds in if accepts pattern d j then suc d ∷ rest else rest

abbrev pub step : List Nibble → ℕ → Label → Label
step pattern j (even, ds) = (not even, advance pattern j even ds)

pub All-below : (k : ℕ) (ds : List ℕ) → All (λ d. d < k) ds → All (λ d. d < suc k) ds
All-below k [] h = tt
All-below k (d ∷ ds) h = (omega (arith, h.0), All-below k ds h.1)

pub advance-below :
    (pattern : List Nibble) (j k : ℕ) (even : Bool) (ds : List ℕ)
    → All (λ d. d < k) ds
    → All (λ d. d < suc k) (advance pattern j even ds)
advance-below pattern j k true [] h = tt
advance-below pattern j k false [] h = omega arith
advance-below pattern j k even (d ∷ ds) h =
    let rest = advance-below pattern j k even ds h.1 in
    elim (Bool-cases (accepts pattern d j)) [
      | inl e ↦ rw e (omega (arith, h.0), rest)
      | inr e ↦ rw e rest
    ]

abbrev pub rest_label : (ℕ → Label) → Option ℕ → List ℕ
rest_label lab none = []
rest_label lab (some f) = (lab f).1

module _ (pattern : List Nibble) where
  -- The transition of a node leads where its label says.
  abbrev pub Linked : Build → (ℕ → Label) → ℕ → ℕ → Type 0
  Linked b lab n j =
      (t : ℕ → ℕ) × (b.nodes n ≡ transitional t)
      × (t j < b.node_count)
      × (lab (t j) ≡ step pattern j (lab n))

  abbrev pub IsDone : Build → (ℕ → Label) → ℕ → Type 0
  IsDone b lab n = (j : ℕ) → j < 16 → Linked b lab n j

  -- The fallback of a node with `k` nibbles; only at the first byte there may be none.
  abbrev pub IsFallback : ℕ → Bool → Build → (ℕ → Label) → Option ℕ → Type 0
  IsFallback k even b lab none = k ≤ 1
  IsFallback k even b lab (some f) =
      (2 ≤ k) × (f < b.node_count) × ((lab f).0 ≡ even) × All (λ d. d < k) (lab f).1

  abbrev pub IsQueued : ℕ → Bool → Build → (ℕ → Label) → Queued → Type 0
  IsQueued k even b lab e =
      (e.node < b.node_count)
      × (lab e.node ≡ (even, k ∷ rest_label lab e.fallback))
      × IsFallback k even b lab e.fallback

  -- So far a node that is done has at most `k` nibbles.
  abbrev pub IsPast : ℕ → Build → (ℕ → Label) → ℕ → Type 0
  IsPast k b lab n = IsDone b lab n × All (λ d. d < suc k) (lab n).1

  abbrev pub InQueue : ℕ → List Queued → Type 0
  InQueue n [] = ⊥
  InQueue n (e ∷ es) = (e.node ≡ n) ⊎ InQueue n es

  -- While the nodes of `now`, with `k` nibbles, get their transitions to those of `next`.
  pub record Inv (initial k : ℕ) (even : Bool) (now next : List Queued) (b : Build)
      (lab : ℕ → Label) : Type 0 where
    pub initial_inside : initial < b.node_count
    pub initial_label : lab initial ≡ (true, 0 ∷ [])
    pub now_queued : All (IsQueued k even b lab) now
    pub next_queued : All (IsQueued (suc k) (not even) b lab) next
    pub placed : (n : ℕ) → n < b.node_count → IsPast k b lab n ⊎ (InQueue n now ⊎ InQueue n next)

  -- The nodes and labels that were there are there.
  pub record Grown (b b' : Build) (lab lab' : ℕ → Label) : Type 0 where
    pub more : b.node_count ≤ b'.node_count
    pub same_label : (n : ℕ) → n < b.node_count → lab' n ≡ lab n
    pub same_node_at : (n : ℕ) → n < b.node_count → b'.nodes n ≡ b.nodes n

  pub Grown-refl : (b : Build) (lab : ℕ → Label) → Grown b b lab lab
  Grown-refl b lab = record {
    more = omega arith;
    same_label = λ n h. refl;
    same_node_at = λ n h. refl;
  }

  pub Grown-alloc :
      (b : Build) (lab : ℕ → Label) (l : Label)
      → Grown b (alloc_node b) lab (update lab b.node_count l)
  Grown-alloc b lab l = record {
    more = omega arith;
    same_label = λ n h. update_ne lab b.node_count n l (λ e. absurd (omega (arith, e)));
    same_node_at = λ n h. update_ne b.nodes b.node_count n unset (λ e. absurd (omega (arith, e)));
  }

  pub Grown-Linked :
      (b b' : Build) (lab lab' : ℕ → Label) (n j : ℕ)
      → Grown b b' lab lab'
      → n < b.node_count
      → Linked b lab n j
      → Linked b' lab' n j
  Grown-Linked b b' lab lab' n j g h (t, e, inside, l) = (
    t,
    g.same_node_at n h ∙ e,
    omega (arith, g.more),
    g.same_label (t j) inside ∙ (l ∙ ap (step pattern j) (sym (g.same_label n h))),
  )

  pub Grown-IsPast :
      (k : ℕ) (b b' : Build) (lab lab' : ℕ → Label) (n : ℕ)
      → Grown b b' lab lab'
      → n < b.node_count
      → IsPast k b lab n
      → IsPast k b' lab' n
  Grown-IsPast k b b' lab lab' n g h (done, below) = (
    λ j lt. Grown-Linked b b' lab lab' n j g h (done j lt),
    subst (λ (l : Label). All (λ d. d < suc k) l.1) (sym (g.same_label n h)) below,
  )

  pub Grown-IsFallback :
      (k : ℕ) (even : Bool) (b b' : Build) (lab lab' : ℕ → Label) (o : Option ℕ)
      → Grown b b' lab lab'
      → IsFallback k even b lab o
      → IsFallback k even b' lab' o
  Grown-IsFallback k even b b' lab lab' none g h = h
  Grown-IsFallback k even b b' lab lab' (some f) g (le, inside, e, below) =
      let same = g.same_label f inside in
      (
        le,
        omega (arith, g.more),
        ap (λ (l : Label). l.0) same ∙ e,
        subst (λ (l : Label). All (λ d. d < k) l.1) (sym same) below,
      )

  pub Grown-rest :
      (k : ℕ) (even : Bool) (b b' : Build) (lab lab' : ℕ → Label) (o : Option ℕ)
      → Grown b b' lab lab'
      → IsFallback k even b lab o
      → rest_label lab' o ≡ rest_label lab o
  Grown-rest k even b b' lab lab' none g h = refl
  Grown-rest k even b b' lab lab' (some f) g (le, inside, e, below) =
      ap (λ (l : Label). l.1) (g.same_label f inside)

  Grown-IsQueued :
      (k : ℕ) (even : Bool) (b b' : Build) (lab lab' : ℕ → Label) (e : Queued)
      → Grown b b' lab lab'
      → IsQueued k even b lab e
      → IsQueued k even b' lab' e
  Grown-IsQueued k even b b' lab lab' e g (inside, l, fb) = (
    omega (arith, g.more),
    g.same_label e.node inside
        ∙ (l ∙ ap (λ ds. (even, k ∷ ds)) (sym (Grown-rest k even b b' lab lab' e.fallback g fb))),
    Grown-IsFallback k even b b' lab lab' e.fallback g fb,
  )

  pub Grown-All :
      (k : ℕ) (even : Bool) (b b' : Build) (lab lab' : ℕ → Label) (es : List Queued)
      → Grown b b' lab lab'
      → All (IsQueued k even b lab) es
      → All (IsQueued k even b' lab') es
  Grown-All k even b b' lab lab' [] g h = tt
  Grown-All k even b b' lab lab' (e ∷ es) g h =
      (Grown-IsQueued k even b b' lab lab' e g h.0, Grown-All k even b b' lab lab' es g h.1)
