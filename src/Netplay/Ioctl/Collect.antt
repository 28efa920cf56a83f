-- ===== src/Netplay/Ioctl/Collect.antt =====
-- The loop of the send thread over `IoctlBuffer`, and the search of the retrace handler.
use netslugplus.Base.{
  ℕ, zero, suc, ◌≤◌, ◌<◌, ◌≡◌, ◌≢◌, refl, sym, ◌∙◌, arith, ◌⊎◌, inl, inr, true, false, some, List,
  [], ◌∷◌, get_elem?, if◌then◌else◌, Bool-cases, map,
}
use netslugplus.Netplay.Types.{IoctlManager}
use netslugplus.Netplay.Ioctl.{is_ready, collect_callbacks}
use netslugplus.Netplay.Ioctl.Unique.{IsUnique, Separate}

-- An entry that is ready gets marked as sent.
abbrev pub mark : IoctlManager → IoctlManager
mark e = if is_ready e then record e { have_sent = true } else e

collect-map : (f : ℕ) (b : List IoctlManager) → (collect_callbacks f b).1 ≡ map mark b
unfolding collect_callbacks
collect-map f [] = refl
collect-map f (e ∷ es) = rw (collect-map (if is_ready e then e.sector else f) es)

get_elem?-map :
    (b : List IoctlManager) (i : ℕ) (e : IoctlManager)
    → get_elem? b i ≡ some e
    → get_elem? (map mark b) i ≡ some (mark e)
get_elem?-map [] i e h = absurd (cc)
get_elem?-map (x ∷ xs) zero e h = ground arith
get_elem?-map (x ∷ xs) (suc i) e h = get_elem?-map xs i e h

-- A place from `j` on that is ready, and whose sector is `s`.
record ReadyFrom (b : List IoctlManager) (j s : ℕ) : Type 0 where
  index : ℕ
  entry : IoctlManager
  after : j ≤ index
  at_index : get_elem? b index ≡ some entry
  is : is_ready entry ≡ true
  has_sector : entry.sector ≡ s

ReadyFrom-cons :
    (x : IoctlManager) (b : List IoctlManager) (j s : ℕ)
    → ReadyFrom b j s
    → ReadyFrom (x ∷ b) (suc j) s
ReadyFrom-cons x b j s r = record {
  index = suc r.index;
  entry = r.entry;
  after = omega arith;
  at_index = r.at_index;
  is = r.is;
  has_sector = r.has_sector;
}

ReadyFrom-later :
    (x : IoctlManager) (b : List IoctlManager) (s : ℕ) → ReadyFrom b 0 s → ReadyFrom (x ∷ b) 0 s
ReadyFrom-later x b s r = record {
  index = suc r.index;
  entry = r.entry;
  after = omega arith;
  at_index = r.at_index;
  is = r.is;
  has_sector = r.has_sector;
}

ReadyFrom-here :
    (x : IoctlManager) (b : List IoctlManager) (s : ℕ)
    → is_ready x ≡ true
    → s ≡ x.sector
    → ReadyFrom (x ∷ b) 0 s
ReadyFrom-here x b s h e = record {
  index = 0;
  entry = x;
  after = omega arith;
  at_index = refl;
  is = h;
  has_sector = sym e;
}

ready_head :
    (x : IoctlManager) (xs : List IoctlManager) (s : ℕ)
    → is_ready x ≡ true
    → (s ≡ x.sector) ⊎ ReadyFrom xs 0 s
    → ReadyFrom (x ∷ xs) 0 s
ready_head x xs s h (inl e) = ReadyFrom-here x xs s h e
ready_head x xs s h (inr r) = ReadyFrom-later x xs s r

-- The sector that the loop settles on is the one that it came with, or that of a ready entry.
collect-from :
    (f : ℕ) (b : List IoctlManager)
    → ((collect_callbacks f b).0 ≡ f) ⊎ ReadyFrom b 0 (collect_callbacks f b).0
unfolding collect_callbacks
collect-from f [] = inl refl
collect-from f (x ∷ xs) = elim (Bool-cases (is_ready x)) [
  | inr idle ↦
      rw idle (elim (collect-from f xs) [ inl e ↦ inl e | inr r ↦ inr (ReadyFrom-later x xs _ r) ])
  | inl due ↦ rw due (inr (ready_head x xs _ due (collect-from x.sector xs)))
]

-- It is not that of an entry before one that is ready.
collect-last :
    (f : ℕ) (b : List IoctlManager) (j : ℕ) (e : IoctlManager)
    → get_elem? b j ≡ some e
    → is_ready e ≡ true
    → ReadyFrom b j (collect_callbacks f b).0
unfolding collect_callbacks
collect-last f [] j e g h = absurd (cc)
collect-last f (x ∷ xs) zero e g h =
    let due : is_ready x ≡ true = ground arith in
    rw due (ready_head x xs _ due (collect-from x.sector xs))
collect-last f (x ∷ xs) (suc j) e g h =
    ReadyFrom-cons x xs j _ (collect-last (if is_ready x then x.sector else f) xs j e g h)

is_ready-live : (e : IoctlManager) → is_ready e ≡ true → 1 ≤ e.state
is_ready-live e h = ground arith

Separate-at :
    (b : List IoctlManager) (i j : ℕ) (d e : IoctlManager)
    → IsUnique b
    → get_elem? b i ≡ some d
    → get_elem? b j ≡ some e
    → 1 ≤ d.state
    → 1 ≤ e.state
    → d.sector ≡ e.sector
    → i ≡ j
Separate-at b i j d e u g h =
    let both : Separate (some d) (some e) i j = rw (g, h) at (u i j) in both

-- Where the reads of two different entries are ready at once, the send thread marks the earlier one
-- as sent, but the sector that it sends is not that entry's.
pub collect_loses :
    (b : List IoctlManager) (i j : ℕ) (d e : IoctlManager)
    → IsUnique b
    → i < j
    → get_elem? b i ≡ some d
    → get_elem? b j ≡ some e
    → is_ready d ≡ true
    → is_ready e ≡ true
    → ((collect_callbacks 0 b).0 ≢ d.sector)
      × (get_elem? (collect_callbacks 0 b).1 i ≡ some (record d { have_sent = true }))
collect_loses b i j d e u lt g h rd re = (
  λ same.
      let r = collect-last 0 b j e h re in
      let one =
        Separate-at b i r.index d r.entry u g r.at_index (is_ready-live d rd)
          (is_ready-live r.entry r.is) (sym same ∙ sym r.has_sector) in
      omega (arith, r.after),
  rw (collect-map, get_elem?-map b i d g, rd),
)

-- When the send thread has filled in a packet, each entry of the buffer is still in its place with
-- all its fields but the mark of those that were ready, and it is not ready any more.
pub collect-map_ready :
    (b : List IoctlManager) (i : ℕ) (e : IoctlManager)
    → get_elem? b i ≡ some e
    → (get_elem? (collect_callbacks 0 b).1 i ≡ some (mark e)) × (is_ready (mark e) ≡ false)
collect-map_ready b i e g = (rw (collect-map, get_elem?-map b i e g), ground arith)
