-- ===== src/Netplay/Ioctl/Allocate.antt =====
-- What `IoctlBufferAllocator` gives its callers.
use netslugplus.Base.{
  ℕ, ◌≤◌, ◌<◌, ◌≡◌, ◌≢◌, refl, sym, arith, inl, inr, false, none, some, List, get_elem?, set,
  length, Option-cases, lt_of_get_elem?, get_elem?-set_self, get_elem?-set_ne, ℕ_discrete,
  length-set,
}
use netslugplus.Netplay.Types.{IoctlManager, Outcome, done, wait, fault}
use netslugplus.Netplay.Ioctl.{find_sector, find_free, claim, allocate}
use netslugplus.Netplay.Ioctl.Unique.{
  IsUnique, Separate, find_sector-eq_some, find_sector-eq_none, find_free-eq_some,
  find_free-eq_none,
}

abbrev fresh : ℕ → IoctlManager → IoctlManager
fresh sector e = record e {
  state = 1;
  sector = sector;
  have_callback = λ _. false;
  have_sent = false;
}

claim_live :
    (s i : ℕ) (b : List IoctlManager) (e : IoctlManager)
    → get_elem? b i ≡ some e
    → 1 ≤ e.state
    → claim s i b ≡ b
unfolding claim
claim_live s i b e g h = ground arith

claim_free :
    (s i : ℕ) (b : List IoctlManager) (e : IoctlManager)
    → get_elem? b i ≡ some e
    → e.state ≡ 0
    → claim s i b ≡ set b i (fresh s e)
unfolding claim
claim_free s i b e g h = ground arith

-- The entry at the index stands for the sector, the other entries are as they were, and no sector
-- has two entries.
pub record Allocated (s : ℕ) (b : List IoctlManager) (i : ℕ) (b' : List IoctlManager) : Type 0 where
  pub entry : IoctlManager
  pub at_index : get_elem? b' i ≡ some entry
  pub live : 1 ≤ entry.state
  pub for_sector : entry.sector ≡ s
  pub others : (j : ℕ) → j ≢ i → get_elem? b' j ≡ get_elem? b j
  pub unique : IsUnique b'
  pub same_length : length b' ≡ length b

Separate-get :
    (b : List IoctlManager) (v : IoctlManager)
    → ((j : ℕ) (e : IoctlManager) → get_elem? b j ≡ some e → 1 ≤ e.state → e.sector ≢ v.sector)
    → (i j : ℕ) → Separate (some v) (get_elem? b j) i j × Separate (get_elem? b j) (some v) j i
Separate-get b v other i j = elim (Option-cases (get_elem? b j)) [
  | inl e ↦ rw e (tt, tt)
  | inr (e, g) ↦ rw g (
    (λ _ live same. absurd (other j e g live (sym same))),
    (λ live _ same. absurd (other j e g live same)),
  )
]

IsUnique-set :
    (b : List IoctlManager) (k : ℕ) (v : IoctlManager)
    → k < length b
    → IsUnique b
    → ((j : ℕ) (e : IoctlManager) → get_elem? b j ≡ some e → 1 ≤ e.state → e.sector ≢ v.sector)
    → IsUnique (set b k v)
IsUnique-set b k v lt u other i j = elim (ℕ_discrete k i) [
  | yes p ↦ elim (ℕ_discrete k j) [
    | yes q ↦ rw (← p, ← q, get_elem?-set_self b k v lt) (λ _ _ _. refl)
    | no q ↦
        rw (← p, get_elem?-set_self b k v lt, get_elem?-set_ne b k j v q)
          (Separate-get b v other k j).0
  ]
  | no p ↦ elim (ℕ_discrete k j) [
    | yes q ↦
        rw (← q, get_elem?-set_self b k v lt, get_elem?-set_ne b k i v p)
          (Separate-get b v other k i).1
    | no q ↦ rw (get_elem?-set_ne b k i v p, get_elem?-set_ne b k j v q) (u i j)
  ]
]

found-Allocated :
    (s i : ℕ) (b : List IoctlManager)
    → IsUnique b
    → find_sector s b ≡ some i
    → Allocated s b i (claim s i b)
found-Allocated s i b u h =
    let (e, g, live, is) = find_sector-eq_some s b i h in
    rw (claim_live s i b e g live) (record {
      entry = e;
      at_index = g;
      live = live;
      for_sector = is;
      others = λ j ne. refl;
      unique = u;
      same_length = refl;
    })

free-Allocated :
    (s i : ℕ) (b : List IoctlManager)
    → IsUnique b
    → find_sector s b ≡ none
    → find_free b ≡ some i
    → Allocated s b i (claim s i b)
free-Allocated s i b u miss h =
    let (e, g, free) = find_free-eq_some b i h in
    rw (claim_free s i b e g free) (record {
      entry = fresh s e;
      at_index = get_elem?-set_self b i (fresh s e) (lt_of_get_elem? b i g);
      live = omega arith;
      for_sector = refl;
      others = λ j ne. get_elem?-set_ne b i j (fresh s e) (λ p. ne (sym p));
      unique =
          IsUnique-set b i (fresh s e) (lt_of_get_elem? b i g) u (find_sector-eq_none s b miss);
      same_length = length-set b i (fresh s e);
    })

-- What each outcome of an allocation means.
abbrev pub AllocateResult : ℕ → List IoctlManager → Outcome (ℕ × List IoctlManager) → Type 0
AllocateResult s b (done (i, b')) = Allocated s b i b'
AllocateResult s b wait =
    (j : ℕ) (e : IoctlManager) → get_elem? b j ≡ some e → (1 ≤ e.state) × (e.sector ≢ s)
AllocateResult s b fault = ⊥

-- `IoctlBufferAllocator` on a buffer in which no sector has two entries: if it returns an index,
-- the entry there is live and stands for the sector, all other entries and the length are
-- unchanged, and still no sector has two entries; it sleeps only if every entry is live and none
-- stands for the sector.
pub allocate-AllocateResult :
    (s : ℕ) (b : List IoctlManager) → IsUnique b → AllocateResult s b (allocate s b)
unfolding allocate
allocate-AllocateResult s b u = elim (Option-cases (find_sector s b)) [
  | inr (i, f) ↦ rw (f, allocate) (found-Allocated s i b u f)
  | inl f ↦ elim (Option-cases (find_free b)) [
    | inr (i, g) ↦ rw (f, g, allocate) (free-Allocated s i b u f g)
    | inl g ↦
        rw (f, g, allocate)
          (λ j e at_j.
            let live : 1 ≤ e.state = find_free-eq_none b g j e at_j in
            (live, find_sector-eq_none s b f j e at_j live))
  ]
]
