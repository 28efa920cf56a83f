-- ===== src/Netplay/World/FirstFrames.antt =====
-- What can go wrong in the first frames, which the host sends without waiting for input.
use netslugplus.Base.{
  ℕ, ◌+◌, ◌%◌, ◌≤◌, ◌<◌, ◌≡◌, ◌≢◌, ◌∙◌, refl, sym, ap, ◌==◌, arith, true, false, update,
  if◌then◌else◌,
}
use netslugplus.Netplay.Types.{
  Controller, SendPacket, controller, CtrlPacket, Machine, done, status_disconnected,
}
use netslugplus.Netplay.Packet.{deliver, deliver_payload, deliver_to, with_input}
use netslugplus.Netplay.Threads.{
  Sender, Dance, send_host, sent_host, recv_client, read_controller, complete, disconnect,
  merge_own, first_input_frame,
}
use netslugplus.Netplay.Frame.{retrace_handler, advance_frame, stalls, lacks_packet, wanted_read}
use netslugplus.Netplay.Frame.Window.{HasWindow}

-- The input that the host's controller thread sends first.
abbrev pub first_input : Controller → SendPacket
first_input pad = record { client_number = 0; payload = controller first_input_frame 0 pad }

reads_first :
    (frame_count : ℕ) (pad : Controller)
    → 1 < frame_count
    → frame_count < 6
    → read_controller true frame_count pad first_input_frame ≡ done (first_input pad, 6)
unfolding read_controller
reads_first frame_count pad more less = ground arith

sends_first :
    (d : Dance) (s : Sender) (m : Machine)
    → s.next_frame_to_send ≡ 5
    → s.ctrl_buffer_pos ≡ 0
    → (m.ctrl_buffer 0).frame_number ≡ 5
    → send_host d s m ≡ done (sent_host s (complete d s m))
unfolding send_host
sends_first d s m five place number = rw place (ground arith)

disconnects :
    (d : Dance) (s : Sender) (m : Machine) (i : ℕ)
    → s.next_frame_to_send ≤ 5
    → i < 4
    → ((complete d s m).0.controllers i).status ≡ status_disconnected
unfolding complete
disconnects d s m i early lt = ground arith

-- The host goes on with the packet that it sent.
abbrev after_send : Dance → Sender → Machine → Machine
after_send d s m = (sent_host s (complete d s m)).2

sent_number :
    (d : Dance) (s : Sender) (m : Machine)
    → s.ctrl_buffer_pos ≡ 0
    → ((after_send d s m).ctrl_buffer 0).frame_number ≡ (m.ctrl_buffer 0).frame_number
unfolding complete disconnect
sent_number d s m place = ground arith

delivers :
    (m : Machine) (pad : Controller)
    → (m.ctrl_buffer 0).frame_number ≡ 5
    → (m' : Machine) × ((deliver m (first_input pad) ≡ done m')
        × (((m'.ctrl_buffer 0).controllers 0 ≡ pad) × ((m'.ctrl_buffer 0).have_input 0 ≡ true)))
unfolding deliver_to deliver_payload
delivers m pad five =
    let m1 = record m {
      ctrl_buffer = update m.ctrl_buffer 0 (with_input (m.ctrl_buffer 0) 0 pad);
    } in
    (m1, (ground arith, (refl, refl)))

-- While the host is in one of the frames from 2 to 5 and is to send frame 5 from the first place: its
-- controller thread sends the input for frame 5; its send thread sends frame 5 without that input,
-- with the first Wii Remote disconnected; and the input, delivered after that, is still taken, so
-- that the host sees another state of the first Wii Remote in frame 5 than the one that it sent, if
-- this one is connected.
pub first_input-differs :
    (d : Dance) (s : Sender) (m : Machine) (pad : Controller)
    → 1 < m.frame_count
    → m.frame_count < 6
    → s.next_frame_to_send ≡ 5
    → s.ctrl_buffer_pos ≡ 0
    → (m.ctrl_buffer 0).frame_number ≡ 5
    → pad.status ≢ status_disconnected
    → (p : CtrlPacket) × ((s' : Sender) × ((sent : Machine) × ((after : Machine) × ((read_controller
                  true m.frame_count pad first_input_frame
                ≡ done (first_input pad, 6))
              × ((send_host d s m ≡ done (p, s', sent))
                  × ((deliver sent (first_input pad) ≡ done after)
                      × (((p.controllers 0).status ≡ status_disconnected)
                          × (((after.ctrl_buffer 0).have_input 0 ≡ true)
                              × (((after.ctrl_buffer 0).controllers 0 ≡ pad)
                                  × ((after.ctrl_buffer 0).controllers 0 ≢ p.controllers 0))))))))))
first_input-differs d s m pad more less five place number on =
    let p = (complete d s m).0 in
    let off = disconnects d s m 0 (omega (arith, five)) (omega arith) in
    let (after, (taken, (seen, input))) =
      delivers (after_send d s m) pad (sent_number d s m place ∙ number) in
    (
      p,
      (
        (sent_host s (complete d s m)).1,
        (
          after_send d s m,
          (
            after,
            (
              reads_first m.frame_count pad more less,
              (
                sends_first d s m five place number,
                (
                  taken,
                  (
                    off,
                    (
                      input,
                      (
                        seen,
                        λ same. on (ap (λ (c : Controller). c.status) (sym seen ∙ same) ∙ off),
                      ),
                    ),
                  ),
                ),
              ),
            ),
          ),
        ),
      ),
    )

-- What the client's receive thread leaves at the first place.
abbrev taken : CtrlPacket → Machine → Machine
taken p m = record m {
  ctrl_buffer =
      update m.ctrl_buffer 0 (record (merge_own (m.ctrl_buffer 0) p) { have_sent_or_recv = true });
}

takes :
    (p : CtrlPacket) (m : Machine)
    → (m.ctrl_buffer 0).frame_number ≡ 0
    → recv_client 0 p m ≡ done (1, taken p m)
unfolding recv_client
takes p m zero = ground arith

taken_number :
    (p : CtrlPacket) (m : Machine) → ((taken p m).ctrl_buffer 0).frame_number ≡ p.frame_number
unfolding merge_own
taken_number p m = refl

-- The next place is another one.
taken-stalls :
    (p : CtrlPacket) (m : Machine)
    → m.frame_count ≡ 0
    → stalls m ≡ false
    → stalls (taken p m) ≡ false
unfolding stalls lacks_packet wanted_read
taken-stalls p m zero go =
    let next : (m.frame_count + 1) % 5 ≡ 1 = omega (arith, zero) in
    let apart : ((m.frame_count + 1) % 5 == 0) ≡ false = rw next refl in rw apart go

advanced_number :
    (m : Machine) (i : ℕ)
    → m.frame_count ≡ 0
    → stalls m ≡ false
    → m.created_thread ≡ true
    → ((retrace_handler m).1.ctrl_buffer i).frame_number
      ≡ (if i == 0 then (m.ctrl_buffer 0).frame_number + 5 else (m.ctrl_buffer i).frame_number)
unfolding retrace_handler advance_frame
advanced_number m i z s c = ground arith

-- A client that is in frame 0, whose five places stand for the frames 0 to 4, and that has all it needs
-- to go on takes the packet of frame 5, when that comes for the first place; the next retrace makes
-- the place stand for frame 10, and then none of the five places is one for frame 5: its packet is
-- gone.
pub early_packet-lost :
    (p : CtrlPacket) (m : Machine) (i : ℕ)
    → m.frame_count ≡ 0
    → m.created_thread ≡ true
    → HasWindow m
    → stalls m ≡ false
    → p.frame_number ≡ 5
    → i < 5
    → (m' : Machine) × ((recv_client 0 p m ≡ done (1, m'))
        × (((m'.ctrl_buffer 0).frame_number ≡ 5)
            × ((((retrace_handler m').1.ctrl_buffer 0).frame_number ≡ 10)
                × (((retrace_handler m').1.ctrl_buffer i).frame_number ≢ 5))))
unfolding merge_own
early_packet-lost p m i zero made window go five lt =
    let m' = taken p m in
    let first = window 0 (omega arith) in
    let this = window i lt in
    let later = advanced_number m' i zero (taken-stalls p m zero go) made in
    (
      m',
      (
        takes p m (omega (arith, first, zero)),
        (
          five,
          (
            advanced_number m' 0 zero (taken-stalls p m zero go) made ∙ omega (arith, five),
            λ e. ground (arith, later, e, five, this, zero),
          ),
        ),
      ),
    )
