-- ===== src/Netplay/Random.antt =====
-- `ActualRNG` and `MyRNG_Rand`: the random numbers, by a sequence for each place in the game that asks
-- for them.
pub mod Fresh
mod Tests
use netslugplus.Base.{
  ℕ, zero, suc, ◌+◌, ◌*◌, ◌/◌, ◌%◌, ◌^◌, Bool, true, false, ◌==◌, ltb, if◌then◌else◌, update,
}
use netslugplus.Netplay.Types.{CtrlPacket, Machine}
use netslugplus.Netplay.Wpad.{current_slot}

-- The entries of `thread_id`, `thread_lastSeenFrame` and `thread_counter`.
pub record RngThread : Type 0 where
  pub id : ℕ
  pub last_seen_frame : ℕ
  pub counter : ℕ

pub record Rng : Type 0 where
  pub threads : ℕ → RngThread
  pub last_index : ℕ

-- `MAX_THREADS - 1`: the place that all threads share for which there is no other.
abbrev pub last_thread : ℕ
last_thread = 63

-- The loop from place `i` on, with the rounds left: the place, and whether it is free and is taken.
unfoldable pub find_thread : ℕ → ℕ → ℕ → (ℕ → RngThread) → ℕ × Bool
find_thread zero i id ts = (i, false)
find_thread (suc n) i id ts =
    let rest = find_thread n (suc i) id ts in
    if (ts i).id == id then (i, false) else if (ts i).id == 0 then (i, true) else rest

abbrev pub take_thread : ℕ → ℕ × Bool → Rng → ℕ × Rng
take_thread id (i, taken) r = (
  i,
  record {
    threads = if taken then update r.threads i (record (r.threads i) { id = id }) else r.threads;
    last_index = i;
  },
)

-- The place of `id`, with the table.
unfoldable pub locate : ℕ → Rng → ℕ × Rng
locate id r =
    if (r.threads r.last_index).id == id
    then (r.last_index, r)
    else take_thread id (find_thread last_thread 0 id r.threads) r

-- The counter's next value. After 100 frames it starts again from the frame's seed.
unfoldable pub next_counter : ℕ → ℕ → RngThread → ℕ
next_counter frame seed t =
    let start = if ltb (t.last_seen_frame + 100) frame then seed % 2 ^ 32 else t.counter in
    (start * 1664525 + 1013904223) % 2 ^ 32

unfoldable pub draw : ℕ → ℕ → ℕ × Rng → ℕ × Rng
draw frame seed (i, r) =
    let c = next_counter frame seed (r.threads i) in
    (
      c / 2 ^ 16 % 2 ^ 16,
      record r {
        threads =
            update r.threads i (record (r.threads i) { last_seen_frame = frame; counter = c });
      },
    )

-- `ActualRNG` in a frame, with the packet's seed.
unfoldable pub actual_rng : ℕ → Machine → Rng → ℕ × Rng
actual_rng id m r = draw m.frame_count (current_slot m).frame_seed (locate id r)

-- `MyRNG_Rand`, where the left operand of `|` is called first: the number, what is written to `*rng`, and
-- the table.
unfoldable pub rng_rand : ℕ → ℕ → Machine → Rng → ℕ × ℕ × Rng
rng_rand id max m r =
    let (high, r1) = actual_rng id m r in
    let (low, r2) = actual_rng id m r1 in
    let val = high * 2 ^ 16 + low in (val * max / 2 ^ 32, val, r2)
