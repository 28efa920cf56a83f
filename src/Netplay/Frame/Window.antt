-- ===== src/Netplay/Frame/Window.antt =====
-- The frames that the five places of `ctrlBuffer` stand for.
use netslugplus.Base.{
  ℕ, ◌+◌, ◌%◌, ◌≤◌, ◌<◌, ◌≡◌, ◌≢◌, arith, true, false, ◌⊎◌, inl, inr, Bool-cases,
}
use netslugplus.Netplay.Types.{Machine}
use netslugplus.Netplay.Frame.{retrace_handler, stalls, advance_frame}

-- Place `i` stands for the one frame of the next five, from the current one on, that is `i` modulo 5.
abbrev pub InWindow : ℕ → ℕ → ℕ → Type 0
InWindow now i frame = (frame % 5 ≡ i) × (now ≤ frame) × (frame < now + 5)

abbrev pub HasWindow : Machine → Type 0
HasWindow m = (i : ℕ) → i < 5 → InWindow m.frame_count i (m.ctrl_buffer i).frame_number

-- `now % 5` is the place of the current frame.
current : (now frame : ℕ) → InWindow now (now % 5) frame → frame ≡ now
current now frame w = omega arith

other : (now i frame : ℕ) → i ≢ now % 5 → InWindow now i frame → InWindow (now + 1) i frame
other now i frame ne w = omega arith

advance_frame-HasWindow : (m : Machine) → HasWindow m → HasWindow (advance_frame m).1
unfolding advance_frame
advance_frame-HasWindow m w i h = ground (arith, w i h)

-- The handler leaves the machine alone, or advances it by a frame.
pub retrace_handler-cases :
    (m : Machine)
    → ((retrace_handler m).1 ≡ m)
      ⊎ ((stalls m ≡ false)
          × (m.created_thread ≡ true)
          × ((retrace_handler m).1 ≡ (advance_frame m).1))
unfolding retrace_handler
retrace_handler-cases m = elim (Bool-cases (stalls m)) [
  | inl s ↦ inl (rw s)
  | inr s ↦ elim (Bool-cases m.created_thread) [
    | inl c ↦ inr (s, c, rw (s, c))
    | inr c ↦ inl (rw (s, c))
  ]
]

-- The retrace handler keeps the window: place `i` of `ctrlBuffer` stands for the only frame of
-- `frameCount` to `frameCount + 4` that is `i` modulo 5.
pub retrace_handler-HasWindow : (m : Machine) → HasWindow m → HasWindow (retrace_handler m).1
retrace_handler-HasWindow m w = elim (retrace_handler-cases m) [
  | inl e ↦ rw e w
  | inr (s, c, e) ↦ rw e (advance_frame-HasWindow m w)
]
