-- ===== src/Search/Fsm/Match.antt =====
-- `FSM_Run` with the machine of `FSM_Create` finds the symbol wherever it stands.
use netslugplus.Base.{
  ℕ, zero, suc, ◌/◌, ◌%◌, ◌≡◌, ◌<◌, refl, sym, ap, ◌∙◌, subst, arith, Bool, true, false, not,
  if◌then◌else◌, List, [], ◌∷◌, none, some, get_elem?, length, All, inl, inr,
}
use netslugplus.Search.Fsm.{epsilon, transitional, Fsm, drain, run, read_byte}
use netslugplus.Search.Fsm.Create.{Nibble}
use netslugplus.Search.Fsm.Labels.{Label, accepted, accepts, advance, step, IsDone}
use netslugplus.Search.Fsm.Machine.{IsMachine, build_of}
use netslugplus.Search.Fsm.Hits.{canon, has, is_even, hits, has-canon, canon-is_even}

-- The symbol, where it ends after what was read.
abbrev pub found : List Nibble → ℕ → List ℕ → List ℕ
found pattern symbol w = if hits pattern (length pattern) w then symbol ∷ [] else []

abbrev pub founds : List Nibble → ℕ → List ℕ → List ℕ → List (List ℕ)
founds pattern symbol w [] = found pattern symbol w ∷ []
founds pattern symbol w (c ∷ cs) =
    found pattern symbol w ∷ founds pattern symbol (c % 16 ∷ c / 16 ∷ w) cs

module _ (pattern : List Nibble) (symbol : ℕ) (fsm : Fsm) (lab : ℕ → Label) where
  module _ (machine : IsMachine pattern symbol fsm.initial (build_of fsm) lab) where
    -- The state from which the next byte is read.
    record Reads (n : ℕ) (w : List ℕ) (s : ℕ) : Type 0 where
      drained :
          drain 1 fsm n
          ≡ some ((if has (length pattern) (canon pattern w).1 then symbol ∷ [] else []), s)
      on : IsDone pattern (build_of fsm) lab s
      same : (j : ℕ) → step pattern j (lab s) ≡ step pattern j (canon pattern w)

    has-below : (k : ℕ) (ds : List ℕ) → All (λ d. d < k) ds → has k ds ≡ false
    has-below k [] h = refl
    has-below k (d ∷ ds) h = ground (arith, h.0, has-below k ds h.1)

    end-not-below : (ds : List ℕ) → ¬ All (λ d. d < length pattern) (length pattern ∷ ds)
    end-not-below ds h = omega (arith, h.0)

    get_elem?-length : (p : List Nibble) → get_elem? p (length p) ≡ none
    get_elem?-length [] = refl
    get_elem?-length (x ∷ p) = get_elem?-length p

    drain-on : (fuel s : ℕ) → IsDone pattern (build_of fsm) lab s → drain fuel fsm s ≡ some ([], s)
    unfolding drain
    drain-on zero s on =
        let (t, e, _, _) = on 0 (omega arith) in
        let e' : fsm.nodes s ≡ transitional t = e in rw (e', drain) refl
    drain-on (suc fuel) s on =
        let (t, e, _, _) = on 0 (omega arith) in
        let e' : fsm.nodes s ≡ transitional t = e in rw (e', drain) refl

    drain-end :
        (n f : ℕ)
        → fsm.nodes n ≡ epsilon symbol f
        → IsDone pattern (build_of fsm) lab f
        → drain 1 fsm n ≡ some (symbol ∷ [], f)
    unfolding drain
    drain-end n f e on =
        let stays : drain 0 fsm f ≡ some ([], f) = drain-on 0 f on in ground (arith, e, stays)

    fallback-on :
        (f : ℕ)
        → f < fsm.node_count
        → All (λ d. d < length pattern) (lab f).1
        → IsDone pattern (build_of fsm) lab f
    fallback-on f h below = elim (machine.states f h) [
      | inl on ↦ on.0
      | inr (g, e, inside, l, p, _) ↦ absurd (
          end-not-below (lab g).1
            (subst (λ (l : Label). All (λ d. d < length pattern) l.1) l below))
    ]

    step-end :
        (j : ℕ) (ds : List ℕ)
        → step pattern j (true, ds) ≡ step pattern j (true, length pattern ∷ ds)
    step-end j ds =
        let miss : accepts pattern (length pattern) j ≡ false =
          ap (λ o. accepted o j) (get_elem?-length pattern) in
        ap
          (λ (b : Bool). (
            false,
            (if b
                then suc (length pattern) ∷ advance pattern j true ds
                else advance pattern j true ds),
          ))
          (sym miss)

    state-Reads :
        (n : ℕ) (w : List ℕ) → n < fsm.node_count → lab n ≡ canon pattern w → (s : ℕ) × Reads n w s
    state-Reads n w h l = elim (machine.states n h) [
      | inl (on, below) ↦
          let none_ends : has (length pattern) (canon pattern w).1 ≡ false =
            subst (λ (l : Label). has (length pattern) l.1 ≡ false) l
              (has-below (length pattern) (lab n).1 below) in
          (
            n,
            record {
              drained = rw none_ends (drain-on 1 n on);
              on = on;
              same = λ j. ap (step pattern j) l;
            },
          )
      | inr (f, e, inside, end, p, below) ↦
          let on = fallback-on f inside below in
          let whole : canon pattern w ≡ (true, length pattern ∷ (lab f).1) = sym l ∙ end in
          let ends : has (length pattern) (canon pattern w).1 ≡ true =
            ap (λ (l : Label). has (length pattern) l.1) whole
            ∙ first_here (length pattern) (lab f).1 in
          (
            f,
            record {
              drained = rw ends (drain-end n f e on);
              on = on;
              same = λ j.
                  ap (λ p. step pattern j (p, (lab f).1)) p
                  ∙ (step-end j (lab f).1 ∙ ap (step pattern j) (sym whole));
            },
          )
    ]
      where
        first_here : (k : ℕ) (ds : List ℕ) → has k (k ∷ ds) ≡ true
        first_here k ds = ground arith

    -- Both transitions of a byte.
    read_byte-canon :
        (c s n : ℕ) (w : List ℕ)
        → c < 256
        → Reads n w s
        → is_even w ≡ true
        → (t : ℕ) × (read_byte fsm c s ≡ some t)
          × (t < fsm.node_count)
          × (lab t ≡ canon pattern (c % 16 ∷ c / 16 ∷ w))
    read_byte-canon c s n w small r even =
        let (f, e, inside, l) = r.on (c / 16) (omega arith) in
        let first : lab (f (c / 16)) ≡ canon pattern (c / 16 ∷ w) = l ∙ r.same (c / 16) in
        let on = odd-on (f (c / 16)) (c / 16 ∷ w) inside first (ap not even) in
        let (g, e', inside', l') = on (c % 16) (omega arith) in
        (g (c % 16), rw (e, e') refl, inside', l' ∙ ap (step pattern (c % 16)) first)
      where
        odd-on :
            (m : ℕ) (v : List ℕ)
            → m < fsm.node_count
            → lab m ≡ canon pattern v
            → is_even v ≡ false
            → IsDone pattern (build_of fsm) lab m
        odd-on m v h l odd = elim (machine.states m h) [
          | inl on ↦ on.0
          | inr (g, e, i, l', p, _) ↦
              let never : true ≡ false =
                sym (ap (λ (l : Label). l.0) l')
                ∙ (ap (λ (l : Label). l.0) l ∙ (canon-is_even pattern v ∙ odd)) in
              absurd (cc)
        ]

    pub run-founds :
        (bytes : List ℕ) (n : ℕ) (w : List ℕ)
        → All (λ c. c < 256) bytes
        → n < fsm.node_count
        → lab n ≡ canon pattern w
        → is_even w ≡ true
        → run 1 fsm n bytes ≡ some (founds pattern symbol w bytes)
    unfolding run
    run-founds [] n w small h l even =
        let (s, r) = state-Reads n w h l in
        let here =
          r.drained
          ∙ ap (λ b. some ((if b then symbol ∷ [] else []), s))
              (has-canon pattern (length pattern) w) in
        rw here refl
    run-founds (c ∷ cs) n w small h l even =
        let (s, r) = state-Reads n w h l in
        let here =
          r.drained
          ∙ ap (λ b. some ((if b then symbol ∷ [] else []), s))
              (has-canon pattern (length pattern) w) in
        let (t, goes, inside, l') = read_byte-canon c s n w small.0 r even in
        let even' : is_even (c % 16 ∷ c / 16 ∷ w) ≡ true = ap (λ b. not (not b)) even in
        rw (here, goes, run-founds cs t (c % 16 ∷ c / 16 ∷ w) small.1 inside l' even') refl
