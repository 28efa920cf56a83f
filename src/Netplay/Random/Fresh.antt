-- ===== src/Netplay/Random/Fresh.antt =====
-- What two consoles draw.
use native.Mathlib.Nat.{mul-le-mul_right}
use netslugplus.Base.{
  ◌-◌, ℕ, zero, suc, ◌+◌, ◌*◌, ◌/◌, ◌^◌, ◌≤◌, ◌<◌, ◌≡◌, ◌⊎◌, inl, inr, refl, ap, arith, Bool, true,
  false, ◌==◌, if◌then◌else◌, update_self, ==_iff,
}
use netslugplus.Netplay.Types.{Machine}
use netslugplus.Netplay.Wpad.{current_slot}
use netslugplus.Netplay.Random.{
  RngThread, Rng, find_thread, take_thread, locate, draw, actual_rng, rng_rand, last_thread,
}

draw-lt : (frame seed : ℕ) (w : ℕ × Rng) → (draw frame seed w).0 < 2 ^ 16
unfolding draw
draw-lt frame seed (i, r) = omega arith

-- The entry that `actual_rng` uses for a place.
abbrev pub entry_of : ℕ → Rng → RngThread
entry_of id r = (locate id r).1.threads (locate id r).0

-- The loop gives a place of the number, or one that is free and is taken, or the shared last one.
find_thread-id :
    (n i id : ℕ) (ts : ℕ → RngThread)
    → (((find_thread n i id ts).1 ≡ true) ⊎ ((ts (find_thread n i id ts).0).id ≡ id))
      ⊎ ((find_thread n i id ts).0 ≡ i + n)
unfolding find_thread
find_thread-id zero i id ts = inr (omega arith)
find_thread-id (suc n) i id ts = ground (arith, find_thread-id n (suc i) id ts)

take_thread-id :
    (id : ℕ) (f : ℕ × Bool) (r : Rng)
    → ((f.1 ≡ true) ⊎ ((r.threads f.0).id ≡ id))
    → ((take_thread id f r).1.threads (take_thread id f r).0).id ≡ id
take_thread-id id (i, true) r h =
    ap (λ (t : RngThread). t.id) (update_self r.threads i (record (r.threads i) { id = id }))
take_thread-id id (i, false) r h = ground arith

abbrev IsOwn : ℕ → ℕ × Rng → Type 0
IsOwn id p = ((p.1.threads p.0).id ≡ id) ⊎ (p.0 ≡ last_thread)

if-IsOwn :
    (id : ℕ) (c : Bool) (p q : ℕ × Rng)
    → (c ≡ true → IsOwn id p)
    → IsOwn id q
    → IsOwn id (if c then p else q)
if-IsOwn id true p q f g = f refl
if-IsOwn id false p q f g = g

take_thread-IsOwn :
    (id : ℕ) (r : Rng) → IsOwn id (take_thread id (find_thread last_thread 0 id r.threads) r)
take_thread-IsOwn id r = elim (find_thread-id last_thread 0 id r.threads) [
  | inl h ↦ inl (take_thread-id id (find_thread last_thread 0 id r.threads) r h)
  | inr e ↦ inr e
]

-- The entry that a number is drawn from is the own one of the place in the game, or the last one of
-- the table.
pub locate-own : (id : ℕ) (r : Rng) → ((entry_of id r).id ≡ id) ⊎ ((locate id r).0 ≡ last_thread)
unfolding locate
locate-own id r =
    if-IsOwn id ((r.threads r.last_index).id == id) (r.last_index, r)
      (take_thread id (find_thread last_thread 0 id r.threads) r)
      (λ e. inl ((==_iff (r.threads r.last_index).id id).0 e)) (take_thread-IsOwn id r)

scaled-lt : (v max : ℕ) → v < 2 ^ 32 → 0 < max → v * max / 2 ^ 32 < max
scaled-lt v max h k = omega (arith, le_of_small)
  where
    le_of_small : v * max ≤ (2 ^ 32 - 1) * max
    le_of_small = mul-le-mul_right max (omega arith)

-- A random number is below `max`, for a `max` that is not 0.
pub rng_rand-lt : (id max : ℕ) (m : Machine) (r : Rng) → 0 < max → (rng_rand id max m r).0 < max
unfolding rng_rand actual_rng
rng_rand-lt id max m r h =
    scaled-lt ((actual_rng id m r).0 * 2 ^ 16 + (actual_rng id m (actual_rng id m r).1).0) max
      (omega (
        arith,
        draw-lt m.frame_count (current_slot m).frame_seed (locate id r),
        draw-lt m.frame_count (current_slot m).frame_seed (locate id (actual_rng id m r).1),
      ))
      h
