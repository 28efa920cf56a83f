-- ===== src/Netplay/Packet.antt =====
-- `ProcessPacket`. It can sleep in three places; what it does up to the first and what it does
-- after it are two functions, since other threads run in between.
use netslugplus.Base.{ℕ, ◌+◌, ◌%◌, true, ◌==◌, ltb, leb, if◌then◌else◌, update}
use netslugplus.Netplay.Types.{
  Controller, SendPacket, Payload, controller, di_read, unknown, CtrlPacket, Machine, Outcome, done,
  wait, fault, ◌>>=◌, buffer_size,
}
use netslugplus.Netplay.Ioctl.{allocate, modify}

-- A packet with the input of one Wii Remote written into it.
abbrev pub with_input : CtrlPacket → ℕ → Controller → CtrlPacket
with_input p wiimote c = record p {
  controllers = update p.controllers wiimote c;
  have_input = update p.have_input wiimote true;
}

-- The part on controller data. A Wii Remote's number comes from the network and is not checked: from
-- 4 on the writes leave the arrays.
unfoldable pub deliver_to : Machine → ℕ → ℕ → Controller → Outcome Machine
deliver_to m frame wiimote c =
    let index = frame % buffer_size in
    let slot = m.ctrl_buffer index in
    if slot.frame_number == frame
    then if ltb wiimote 4
      then done (record m { ctrl_buffer = update m.ctrl_buffer index (with_input slot wiimote c) })
      else fault
    else wait

unfoldable pub deliver_payload : Machine → Payload → Outcome Machine
deliver_payload m (controller frame wiimote c) = deliver_to m frame wiimote c
deliver_payload m (di_read _) = done m
deliver_payload m unknown = done m

abbrev pub deliver : Machine → SendPacket → Outcome Machine
deliver m p = deliver_payload m p.payload

-- The host's part: a read of the disc is entered for the console that asked for it.
unfoldable pub enter_read : Machine → ℕ → ℕ → Outcome Machine
enter_read m client sector = do
  (i, b) ← allocate sector m.ioctl_buffer
  if ltb client 2
      then done (record m {
        ioctl_buffer =
            modify i (λ e. record e { have_callback = update e.have_callback client true }) b;
      })
      else fault

-- The client's part: the packet goes to the send thread.
unfoldable pub enqueue : Machine → SendPacket → Outcome Machine
enqueue m p =
    let pos = m.send_buffer_pos in
    if (m.send_buffer pos).sent == 1
    then wait
    else done (record m {
      send_buffer = update m.send_buffer pos (record { sent = 1; packet = p });
      send_buffer_pos = if leb buffer_size (pos + 1) then 0 else pos + 1;
    })

unfoldable pub route_host : Machine → ℕ → Payload → Outcome Machine
route_host m client (di_read sector) = enter_read m client sector
route_host m client (controller _ _ _) = done m
route_host m client unknown = done m

unfoldable pub route : Machine → SendPacket → Outcome Machine
route m p = if m.host then route_host m p.client_number p.payload else enqueue m p

-- The whole of it, where no other thread comes between.
unfoldable pub process_packet : Machine → SendPacket → Outcome Machine
process_packet m p = do m' ← deliver m p; route m' p
