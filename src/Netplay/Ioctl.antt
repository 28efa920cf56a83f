-- ===== src/Netplay/Ioctl.antt =====
-- `IoctlBufferAllocator`, `ourCallback` and the two searches of `IoctlBuffer` by sector.
pub mod Unique
pub mod Collect
pub mod Allocate
use netslugplus.Base.{
  ℕ, suc, Bool, true, false, not, ◌&&◌, Option, none, some, List, [], ◌∷◌, ◌==◌, leb, if◌then◌else◌,
  get_elem?, set, update,
}
use netslugplus.Netplay.Types.{IoctlManager, Outcome, done, wait}

abbrev pub is_live : IoctlManager → Bool
is_live e = leb 1 e.state

-- The index found in the rest of the buffer, counted from its start.
abbrev pub shift : Option ℕ → Option ℕ
shift none = none
shift (some i) = some (suc i)

-- The first loop: the sector is in the buffer already.
unfoldable pub find_sector : ℕ → List IoctlManager → Option ℕ
find_sector sector [] = none
find_sector sector (e ∷ es) =
    if is_live e && e.sector == sector then some 0 else shift (find_sector sector es)

-- The second loop: a free place.
unfoldable pub find_free : List IoctlManager → Option ℕ
find_free [] = none
find_free (e ∷ es) = if e.state == 0 then some 0 else shift (find_free es)

-- A place that is free is set up for the sector; `user_data` and `callback` stay.
unfoldable pub claim : ℕ → ℕ → List IoctlManager → List IoctlManager
claim sector i b = elim (get_elem? b i) [
  | none ↦ b
  | some e ↦
      if e.state == 0
      then set b i
          (record e { state = 1; sector = sector; have_callback = λ _. false; have_sent = false })
      else b
]

-- The index that `IoctlBufferAllocator` returns, with the new buffer. Where the buffer is full the
-- thread sleeps and tries again.
unfoldable pub allocate : ℕ → List IoctlManager → Outcome (ℕ × List IoctlManager)
allocate sector b = elim (find_sector sector b) [
  | some i ↦ done (i, claim sector i b)
  | none ↦ elim (find_free b) [ some i ↦ done (i, claim sector i b) | none ↦ wait ]
]

-- One place of the buffer is changed.
unfoldable pub modify : ℕ → (IoctlManager → IoctlManager) → List IoctlManager → List IoctlManager
modify i f b = elim (get_elem? b i) [ none ↦ b | some e ↦ set b i (f e) ]

-- `ourCallback`
unfoldable pub our_callback : ℕ → List IoctlManager → List IoctlManager
our_callback i b = modify i (λ e. record e { state = 2 }) b

abbrev pub all_called_back : IoctlManager → Bool
all_called_back e = e.have_callback 0 && e.have_callback 1

abbrev pub is_ready : IoctlManager → Bool
is_ready e = is_live e && not e.have_sent && all_called_back e

-- The loop of the send thread: every read that both consoles have asked for is marked as sent, and
-- `callback_sector`, the first argument, becomes the sector of the last such read.
unfoldable pub collect_callbacks : ℕ → List IoctlManager → ℕ × List IoctlManager
collect_callbacks found [] = (found, [])
collect_callbacks found (e ∷ es) =
    let ready = is_ready e in
    let (found', es') = collect_callbacks (if ready then e.sector else found) es in
    (found', (if ready then record e { have_sent = true } else e) ∷ es')

-- What the retrace handler finds for a sector: the read is still going on, or its callback can be
-- made, or there is no such read.
pub data Found : Type 0 where
  pending : Found
  ready : ℕ → Found
  unknown : Found

abbrev later : Found → Found
later pending = pending
later (ready i) = ready (suc i)
later unknown = unknown

unfoldable pub find_callback : ℕ → List IoctlManager → Found
find_callback sector [] = unknown
find_callback sector (e ∷ es) =
    if e.state == 1 && sector == e.sector
    then pending
    else if e.state == 2 && sector == e.sector
    then ready 0
    else later (find_callback sector es)
