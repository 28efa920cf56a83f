-- ===== src/Netplay/Ioctl/Unique.antt =====
-- No two live places of the buffer stand for one sector.
use netslugplus.Base.{
  ℕ, zero, suc, ◌≤◌, ◌≡◌, ◌≢◌, refl, arith, Option, none, some, List, [], ◌∷◌, get_elem?,
}
use netslugplus.Netplay.Types.{IoctlManager}
use netslugplus.Netplay.Ioctl.{find_sector, find_free}

-- The places `i` and `j` are one, if they are live and stand for one sector.
abbrev pub Separate : Option IoctlManager → Option IoctlManager → ℕ → ℕ → Type 0
Separate (some d) (some e) i j = 1 ≤ d.state → 1 ≤ e.state → d.sector ≡ e.sector → i ≡ j
Separate none _ i j = Unit
Separate (some _) none i j = Unit

abbrev pub IsUnique : List IoctlManager → Type 0
IsUnique b = (i j : ℕ) → Separate (get_elem? b i) (get_elem? b j) i j

-- What the search for a sector finds is a live place for it.
pub find_sector-eq_some :
    (s : ℕ) (b : List IoctlManager) (i : ℕ)
    → find_sector s b ≡ some i
    → (e : IoctlManager) × (get_elem? b i ≡ some e) × (1 ≤ e.state) × (e.sector ≡ s)
unfolding find_sector
find_sector-eq_some s [] i h = absurd (cc)
find_sector-eq_some s (x ∷ xs) zero h = (x, refl, ground arith, ground arith)
find_sector-eq_some s (x ∷ xs) (suc i) h = find_sector-eq_some s xs i (ground arith)

-- Where it finds nothing, no live place stands for the sector.
pub find_sector-eq_none :
    (s : ℕ) (b : List IoctlManager)
    → find_sector s b ≡ none
    → (i : ℕ) (e : IoctlManager) → get_elem? b i ≡ some e
    → 1 ≤ e.state
    → e.sector ≢ s
unfolding find_sector
find_sector-eq_none s [] h i e g = absurd (cc)
find_sector-eq_none s (x ∷ xs) h zero e g = ground arith
find_sector-eq_none s (x ∷ xs) h (suc i) e g = find_sector-eq_none s xs (ground arith) i e g

pub find_free-eq_some :
    (b : List IoctlManager) (i : ℕ)
    → find_free b ≡ some i
    → (e : IoctlManager) × (get_elem? b i ≡ some e) × (e.state ≡ 0)
unfolding find_free
find_free-eq_some [] i h = absurd (cc)
find_free-eq_some (x ∷ xs) zero h = (x, refl, ground arith)
find_free-eq_some (x ∷ xs) (suc i) h = find_free-eq_some xs i (ground arith)

pub find_free-eq_none :
    (b : List IoctlManager)
    → find_free b ≡ none
    → (i : ℕ) (e : IoctlManager) → get_elem? b i ≡ some e
    → 1 ≤ e.state
unfolding find_free
find_free-eq_none [] h i e g = absurd (cc)
find_free-eq_none (x ∷ xs) h zero e g = ground arith
find_free-eq_none (x ∷ xs) h (suc i) e g = find_free-eq_none xs (ground arith) i e g
