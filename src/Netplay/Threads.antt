-- ===== src/Netplay/Threads.antt =====
-- `sendThread_main`, `recvThread_main` and `controllerThread_main`: what each does in one round of
-- its loop, from one wait to the next.
use netslugplus.Base.{
  ℕ, ◌+◌, ◌*◌, ◌%◌, ◌^◌, Bool, true, not, ◌&&◌, ◌||◌, ◌==◌, ltb, leb, if◌then◌else◌, update,
}
use netslugplus.Netplay.Types.{
  Controller, SendPacket, controller, CtrlPacket, Machine, Outcome, done, wait, buffer_size,
  status_disconnected,
}
use netslugplus.Netplay.Ioctl.{collect_callbacks}

-- What `SMNDance_GetUnkown_a6c9`, `SMNDance_GetMask` and `SMNDance_GetUnkown_a6cb` of the game
-- answer; `is_smn` is the test of the game's identifier.
pub record Dance : Type 0 where
  pub is_smn : Bool
  pub a6c9 : ℕ
  pub a6ca : ℕ
  pub a6cb : ℕ

-- The local variables of the send thread.
pub record Sender : Type 0 where
  pub send_buffer_pos : ℕ
  pub ctrl_buffer_pos : ℕ
  pub next_frame_to_send : ℕ
  pub frame_seed : ℕ

-- `frameSeed * 1103515245 + 12345`, a `long long`.
unfoldable pub next_seed : ℕ → ℕ
next_seed s = (s * 1103515245 + 12345) % 2 ^ 64

abbrev pub number_of_inputs : ℕ
number_of_inputs = 2

-- Before frame `buffer_size + 1` all four Wii Remotes count as disconnected, then those from 2 on.
unfoldable pub disconnect : ℕ → CtrlPacket → CtrlPacket
disconnect next p =
    let from = if ltb buffer_size next then number_of_inputs else 0 in
    record p {
      controllers = λ i.
          if leb from i && ltb i 4
          then record (p.controllers i) { status = status_disconnected }
          else p.controllers i;
      have_input = λ i. (leb from i && ltb i 4) || p.have_input i;
    }

abbrev advance : ℕ → ℕ
advance pos = if leb buffer_size (pos + 1) then 0 else pos + 1

-- The packet of the frame as the host completes it, and the reads that it takes note of.
unfoldable pub complete : Dance → Sender → Machine → CtrlPacket × Machine
unfolding disconnect next_seed
complete d s m =
    let slot = disconnect s.next_frame_to_send (m.ctrl_buffer s.ctrl_buffer_pos) in
    let (sector, reads) = collect_callbacks 0 m.ioctl_buffer in
    let packet : CtrlPacket = record slot {
      frame_seed = next_seed s.frame_seed;
      dance_a6c9 = if d.is_smn then d.a6c9 else slot.dance_a6c9;
      dance_a6ca = if d.is_smn then d.a6ca else slot.dance_a6ca;
      dance_a6cb = if d.is_smn then d.a6cb else slot.dance_a6cb;
      callback_sector = sector;
    } in
    (
      packet,
      record m {
        ctrl_buffer = update m.ctrl_buffer s.ctrl_buffer_pos packet;
        ioctl_buffer = reads;
      },
    )

-- What the host's round leaves once `packet` is on its way: the place is marked at that moment.
abbrev pub sent_host : Sender → CtrlPacket × Machine → CtrlPacket × Sender × Machine
sent_host s (packet, m) = (
  packet,
  record s {
    frame_seed = packet.frame_seed;
    ctrl_buffer_pos = advance s.ctrl_buffer_pos;
    next_frame_to_send = s.next_frame_to_send + 1;
  },
  record m {
    ctrl_buffer =
        update m.ctrl_buffer s.ctrl_buffer_pos (record packet { have_sent_or_recv = true });
  },
)

-- The host's round: the packet that goes out, the thread's variables and the machine.
unfoldable pub send_host : Dance → Sender → Machine → Outcome (CtrlPacket × Sender × Machine)
unfolding complete
send_host d s m =
    let slot = m.ctrl_buffer s.ctrl_buffer_pos in
    if not (slot.frame_number == s.next_frame_to_send)
    then wait
    else if ltb buffer_size s.next_frame_to_send && not (slot.have_input 0)
    then wait
    else done (sent_host s (complete d s m))

-- The client's round: the oldest packet that waits in `sendBuffer` goes out.
unfoldable pub send_client : Sender → Machine → Outcome (SendPacket × Sender × Machine)
send_client s m =
    let pos = s.send_buffer_pos in
    let slot = m.send_buffer pos in
    if slot.sent == 1
    then done (
      slot.packet,
      record s { send_buffer_pos = advance pos },
      record m { send_buffer = update m.send_buffer pos (record slot { sent = 2 }) },
    )
    else wait

-- Input that the packet lacks and the client has of its own is kept.
unfoldable pub merge_own : CtrlPacket → CtrlPacket → CtrlPacket
merge_own own packet = record packet {
  controllers = λ i.
      if ltb i 4 && not (packet.have_input i) && own.have_input i
      then own.controllers i
      else packet.controllers i;
  have_input = λ i. packet.have_input i || (ltb i 4 && own.have_input i);
}

-- The client's round of the receive thread, at the place `pos` of `ctrlBuffer`.
unfoldable pub recv_client : ℕ → CtrlPacket → Machine → Outcome (ℕ × Machine)
unfolding merge_own
recv_client pos packet m =
    let own = m.ctrl_buffer pos in
    if not (own.frame_number == 0) && not (own.frame_number == packet.frame_number)
    then wait
    else done (
      advance pos,
      record m {
        ctrl_buffer =
            update m.ctrl_buffer pos (record (merge_own own packet) { have_sent_or_recv = true });
      },
    )

-- The round of the controller thread: `pad` is what the WPAD functions tell of the first Wii Remote,
-- or a controller that is disconnected before `WPADInit` was called. The sums are unsigned.
unfoldable pub read_controller : Bool → ℕ → Controller → ℕ → Outcome (SendPacket × ℕ)
read_controller host frame_count pad next =
    if leb ((frame_count + buffer_size) % 2 ^ 32) ((next + 1) % 2 ^ 32)
    then wait
    else done (
      record {
        client_number = if host then 0 else 1;
        payload = controller next (if host then 0 else 1) pad;
      },
      (next + 1) % 2 ^ 32,
    )

abbrev pub first_input_frame : ℕ
first_input_frame = buffer_size

abbrev pub first_sender : Sender
first_sender = record {
  send_buffer_pos = 0;
  ctrl_buffer_pos = 0;
  next_frame_to_send = 0;
  frame_seed = 0;
}
