-- ===== src/Netplay/Frame.antt =====
-- `My__VIRetraceHandler`: whether the game may go on to the next frame, and what it is told then.
-- A call of a callback of the game, or of the original handler, is an event.
pub mod Window
use netslugplus.Base.{
  ℕ, zero, suc, ◌+◌, ◌*◌, ◌%◌, Bool, true, false, not, ◌&&◌, ◌||◌, ◌==◌, ltb, leb, if◌then◌else◌,
  update, List, [], ◌∷◌, ◌++◌, Option, none, some, get_elem?,
}
use netslugplus.Netplay.Types.{
  Controller, CtrlPacket, IoctlManager, Machine, Wpad, buffer_size, status_disconnected,
  extension_unknown,
}
use netslugplus.Netplay.Ioctl.{find_callback, modify, Found, pending, ready, unknown}

pub data Event : Type 0 where
  -- `on_frame_advance(stall)`
  frame_advance : Bool → Event
  -- `callback(1, userData)`
  ioctl_callback : ℕ → ℕ → Event
  -- the callback, the Wii Remote and its status or extension
  connect_callback : ℕ → ℕ → ℕ → Event
  extension_callback : ℕ → ℕ → ℕ → Event
  -- the buffer, the index in it, the Wii Remote
  auto_sample : ℕ → ℕ → ℕ → Event
  sampling_callback : ℕ → ℕ → Event
  -- `__VIRetraceHandler(isr, context)`
  retrace : Event

abbrev pub last_slot : Machine → CtrlPacket
last_slot m = m.ctrl_buffer (m.frame_count % buffer_size)

abbrev pub next_slot : Machine → CtrlPacket
next_slot m = m.ctrl_buffer ((m.frame_count + 1) % buffer_size)

-- The first three tests of `stall`.
unfoldable pub lacks_packet : Machine → Bool
lacks_packet m =
    let next = next_slot m in
    (m.created_thread && not (next.frame_number == m.frame_count + 1))
    || not next.have_sent_or_recv
    || not (next.have_input 0)
    || not (next.have_input 1)

-- The search of the read whose callback the host wants made with this frame, if there is one.
unfoldable pub wanted_read : Machine → Found
wanted_read m =
    let sector = (next_slot m).callback_sector in
    if m.created_thread && not (sector == 0) then find_callback sector m.ioctl_buffer else unknown

abbrev is_pending : Found → Bool
is_pending pending = true
is_pending _ = false

unfoldable pub stalls : Machine → Bool
unfolding lacks_packet wanted_read
stalls m = lacks_packet m || is_pending (wanted_read m)

-- The callback of the read is made and its place becomes free.
unfoldable pub finish_read : Found → List IoctlManager → List Event × List IoctlManager
finish_read (ready i) b = elim (get_elem? b i) [
  | none ↦ ([], b)
  | some e ↦ (ioctl_callback e.callback e.user_data ∷ [], modify i (λ d. record d { state = 0 }) b)
]
finish_read _ b = ([], b)

abbrev is_disconnected : Controller → Bool
is_disconnected c = c.status == status_disconnected

abbrev same : Bool → Bool → Bool
same true b = b
same false b = not b

-- Wii Remote `i` was connected or disconnected between two frames.
unfoldable pub announce_connection : ℕ → Controller → Controller → Wpad → List Event × Wpad
announce_connection i before now w =
    if same (is_disconnected before) (is_disconnected now) then ([], w) else (
      if w.connect_callback i == 0
          then []
          else connect_callback (w.connect_callback i) i
              (if is_disconnected now then status_disconnected else 0)
            ∷ [],
      if is_disconnected now
          then record w {
            auto_sampling_buffer = update w.auto_sampling_buffer i 0;
            extension_callback = update w.extension_callback i 0;
            current_format = update w.current_format i 0;
          }
          else w,
    )

-- Its extension changed.
unfoldable pub announce_extension : ℕ → Controller → Controller → Wpad → List Event
announce_extension i before now w =
    if before.extension == now.extension || w.extension_callback i == 0
    then []
    else (if before.extension == extension_unknown
        then []
        else extension_callback (w.extension_callback i) i extension_unknown ∷ [])
      ++ (if now.extension == extension_unknown
          then []
          else extension_callback (w.extension_callback i) i now.extension ∷ [])

-- The first loop over the Wii Remotes, from `i` on, with the rounds left.
unfoldable pub announce : ℕ → ℕ → CtrlPacket → CtrlPacket → Wpad → List Event × Wpad
unfolding announce_connection announce_extension
announce zero i before now w = ([], w)
announce (suc rounds) i before now w =
    let (events, w') = announce_connection i (before.controllers i) (now.controllers i) w in
    let extensions = announce_extension i (before.controllers i) (now.controllers i) w' in
    let (rest, w'') = announce rounds (i + 1) before now w' in (events ++ (extensions ++ rest), w'')

-- The second loop: data for the game's own buffers. `%` by a count of 0 is a fault of the machine;
-- here it leaves the number as it is.
unfoldable pub sample : ℕ → ℕ → CtrlPacket → Wpad → List Event × Wpad
sample zero i now w = ([], w)
sample (suc rounds) i now w =
    let on = (now.controllers i).status == 0 in
    let buffered = on && not (w.auto_sampling_buffer i == 0) in
    let next = (w.auto_sampling_buffer_index i + 1) % w.auto_sampling_buffer_count i in
    let w' =
      if buffered
      then record w { auto_sampling_buffer_index = update w.auto_sampling_buffer_index i next }
      else w in
    let (rest, w'') = sample rounds (i + 1) now w' in
    (
      (if buffered then auto_sample (w.auto_sampling_buffer i) next i ∷ [] else [])
          ++ ((if on && not (w.sampling_callback i == 0)
                then sampling_callback (w.sampling_callback i) i ∷ []
                else [])
              ++ rest),
      w'',
    )

-- The place of the frame that is over waits for the frame five later.
unfoldable pub recycle : CtrlPacket → CtrlPacket
recycle p = record p {
  have_sent_or_recv = false;
  have_input = λ i. if ltb i 4 then false else p.have_input i;
  frame_number = p.frame_number + buffer_size;
}

unfoldable pub advance_frame : Machine → List Event × Machine
unfolding recycle
advance_frame m =
    let (done_read, reads) = finish_read (wanted_read m) m.ioctl_buffer in
    let (changes, w) = announce 4 0 (last_slot m) (next_slot m) m.wpad in
    let (samples, w') = sample 4 0 (next_slot m) w in
    (
      done_read ++ (changes ++ samples),
      record m {
        frame_count = m.frame_count + 1;
        ioctl_buffer = reads;
        wpad = w';
        ctrl_buffer = update m.ctrl_buffer (m.frame_count % buffer_size) (recycle (last_slot m));
      },
    )

abbrev told : List Event × Machine → List Event × Machine
told (events, m) = (frame_advance false ∷ (events ++ (retrace ∷ [])), m)

unfoldable pub retrace_handler : Machine → List Event × Machine
retrace_handler m =
    if stalls m
    then (frame_advance true ∷ [], m)
    else told (if m.created_thread then advance_frame m else ([], m))
