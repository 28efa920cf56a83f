-- ===== src/Netplay/Tests.antt =====
-- Runs of the definitions of this part, and its theorems at concrete inputs.
use netslugplus.Base.{
  ◌≤◌, ℕ, ◌≡◌, ◌≢◌, ◌↔◌, refl, arith, Bool, true, false, List, [], ◌∷◌, some, get_elem?, sym, ◌∙◌,
  zero, suc, update,
}
use netslugplus.Netplay.Types.{
  Controller, di_read, CtrlPacket, IoctlManager, Machine, Wpad, done, fault, status_disconnected,
}
use netslugplus.Netplay.Ioctl.{allocate, collect_callbacks, is_ready}
use netslugplus.Netplay.World.{start, initial, IsInitial}
use netslugplus.Netplay.World.Schedule.{Run, run, Act, go, poll, retrace, send, receive}
use netslugplus.Netplay.World.Lockstep.{InStep, lockstep}
use netslugplus.Netplay.Ioctl.Unique.{IsUnique}
use netslugplus.Netplay.Ioctl.Allocate.{AllocateResult, allocate-AllocateResult}
use netslugplus.Netplay.Ioctl.Collect.{collect_loses, collect-map_ready}
use netslugplus.Netplay.Reads.{ReadState, count_read}
use netslugplus.Netplay.Reads.Sector.{sector_of-injective, count_read-eq-fault}
use netslugplus.Netplay.Frame.Window.{HasWindow, retrace_handler-HasWindow}
use netslugplus.Netplay.World.FirstFrames.{first_input, first_input-differs, early_packet-lost}
use netslugplus.Netplay.Threads.{
  Sender, first_sender, Dance, send_host, read_controller, send_client, recv_client,
}
use netslugplus.Netplay.Frame.{
  retrace_handler, stalls, advance_frame, finish_read, wanted_read, lacks_packet,
}
use netslugplus.Netplay.Packet.{deliver, deliver_payload, deliver_to, route, route_host, enqueue}

abbrev pad : ℕ → ℕ → Controller
pad i n = record {
  format = 2;
  status = 0;
  extension = 0;
  inputs = n ∷ i ∷ [];
  gravity_unit0 = 7;
  gravity_unit1 = 9;
}

abbrev no_pad : Controller
no_pad = record {
  format = 0;
  status = 0;
  extension = 0;
  inputs = [];
  gravity_unit0 = 0;
  gravity_unit1 = 0;
}

abbrev empty_slot : ℕ → CtrlPacket
empty_slot n = record {
  frame_number = n;
  frame_seed = 0;
  have_sent_or_recv = false;
  have_input = λ _. false;
  controllers = λ _. no_pad;
  callback_sector = 0;
  dance_a6c9 = 0;
  dance_a6ca = 0;
  dance_a6cb = 0;
}

abbrev no_wpad : Wpad
no_wpad = record {
  connect_callback = λ _. 0;
  extension_callback = λ _. 0;
  sampling_callback = λ _. 0;
  auto_sampling_buffer = λ _. 0;
  auto_sampling_buffer_count = λ _. 0;
  auto_sampling_buffer_index = λ _. 0;
  current_format = λ _. 0;
}

abbrev machine : Bool → Machine
machine h = record {
  host = h;
  ctrl_buffer = empty_slot;
  send_buffer =
      λ _. record { sent = 0; packet = record { client_number = 0; payload = di_read 0 } };
  send_buffer_pos = 0;
  ioctl_buffer = [];
  frame_count = 0;
  created_thread = true;
  wpad = no_wpad;
}

machine-IsInitial : (h : Bool) → IsInitial (machine h)
machine-IsInitial h = record {
  numbered = λ i. refl;
  no_input = λ i j. refl;
  no_packet = λ i. refl;
  nothing_sent = λ i. refl;
  at_start = refl;
}

abbrev no_dance : Dance
no_dance = record { is_smn = false; a6c9 = 0; a6ca = 0; a6cb = 0 }

abbrev begin : Run pad no_dance
begin = record {
  last = initial (machine true) (machine false);
  reach =
      start (machine true) (machine false) refl refl (machine-IsInitial true)
        (machine-IsInitial false);
}

-- Five packets go out at once, then both consoles go on frame by frame up to frame 6.
abbrev script : List Act
script =
    send true
    ∷ send true
    ∷ send true
    ∷ send true
    ∷ send true
    ∷ receive false
    ∷ receive false
    ∷ receive false
    ∷ receive false
    ∷ receive false
    ∷ retrace true
    ∷ retrace false
    ∷ send true
    ∷ receive false
    ∷ retrace true
    ∷ retrace false
    ∷ poll true
    ∷ go true 0
    ∷ go true 0
    ∷ poll false
    ∷ go false 0
    ∷ go false 0
    ∷ retrace true
    ∷ retrace false
    ∷ poll true
    ∷ go true 0
    ∷ go true 0
    ∷ poll false
    ∷ go false 0
    ∷ go false 0
    ∷ send false
    ∷ send false
    ∷ send true
    ∷ receive false
    ∷ receive true
    ∷ go true 1
    ∷ go true 1
    ∷ receive true
    ∷ go true 1
    ∷ go true 1
    ∷ retrace true
    ∷ retrace false
    ∷ retrace true
    ∷ retrace false
    ∷ retrace true
    ∷ retrace false
    ∷ []

abbrev final : Run pad no_dance
final = run pad no_dance script begin

final_frames :
    (final.last.host.machine.frame_count ≡ 6) × (final.last.client.machine.frame_count ≡ 6)
unfolding run read_controller stalls lacks_packet wanted_read retrace_handler advance_frame
    send_host send_client recv_client deliver_payload route collect_callbacks deliver_to route_host
    enqueue finish_read
final_frames = (refl, refl)

lockstep_example : InStep pad final.last
lockstep_example =
    lockstep pad final.reach (final_frames.0 ∙ sym final_frames.1) (omega (arith, final_frames.0))

abbrev entry : ℕ → ℕ → Bool → IoctlManager
entry state sector b = record {
  state = state;
  sector = sector;
  user_data = 0;
  callback = 0;
  have_callback = λ _. b;
  have_sent = false;
}

-- A free place between two reads that both consoles have asked for.
abbrev buffer : List IoctlManager
buffer = entry 2 41 true ∷ entry 0 0 false ∷ entry 1 42 true ∷ []

buffer-IsUnique : IsUnique buffer
buffer-IsUnique zero zero = λ _ _ _. refl
buffer-IsUnique zero (suc zero) = λ _ live _. absurd (omega arith)
buffer-IsUnique zero (suc (suc zero)) = λ _ _ e. absurd (omega arith)
buffer-IsUnique (suc zero) zero = λ live _ _. absurd (omega arith)
buffer-IsUnique (suc zero) (suc zero) = λ _ _ _. refl
buffer-IsUnique (suc zero) (suc (suc zero)) = λ live _ _. absurd (omega arith)
buffer-IsUnique (suc (suc zero)) zero = λ _ _ e. absurd (omega arith)
buffer-IsUnique (suc (suc zero)) (suc zero) = λ _ live _. absurd (omega arith)
buffer-IsUnique (suc (suc zero)) (suc (suc zero)) = λ _ _ _. refl
buffer-IsUnique (suc (suc (suc i))) j = tt
buffer-IsUnique zero (suc (suc (suc j))) = tt
buffer-IsUnique (suc zero) (suc (suc (suc j))) = tt
buffer-IsUnique (suc (suc zero)) (suc (suc (suc j))) = tt

allocate-AllocateResult_example : AllocateResult 43 buffer (allocate 43 buffer)
allocate-AllocateResult_example = allocate-AllocateResult 43 buffer buffer-IsUnique

collect_loses_example :
    ((collect_callbacks 0 buffer).0 ≢ 41)
    × (get_elem? (collect_callbacks 0 buffer).1 0
        ≡ some (record (entry 2 41 true) { have_sent = true }))
collect_loses_example =
    collect_loses buffer 0 2 (entry 2 41 true) (entry 1 42 true) buffer-IsUnique (omega arith) refl
      refl refl refl

collect-map_ready_example :
    (get_elem? (collect_callbacks 0 buffer).1 1 ≡ some (entry 0 0 false))
    × (is_ready (entry 0 0 false) ≡ false)
collect-map_ready_example = collect-map_ready buffer 1 (entry 0 0 false) refl

sector_of-injective_example : ◌≡◌ {A = ℕ} 3 3 × ◌≡◌ {A = ℕ} 7 7
sector_of-injective_example =
    sector_of-injective 3 3 7 7 (omega arith) (omega arith) (omega arith) (omega arith) refl

abbrev counted : ReadState
counted = record { skip_count = 39; file_access_counts = λ _. 0 }

count_read-eq-fault_example :
    (count_read (true, 4096) counted ≡ fault)
    ↔ (◌≡◌ {A = Bool} true true × (39 ≤ counted.skip_count) × ◌≡◌ {A = ℕ} 4096 4096)
count_read-eq-fault_example = count_read-eq-fault true 4096 counted

machine-HasWindow : HasWindow (machine true)
machine-HasWindow i h = ground arith

retrace_handler-HasWindow_example : HasWindow (retrace_handler (machine true)).1
retrace_handler-HasWindow_example = retrace_handler-HasWindow (machine true) machine-HasWindow

-- The host in frame 2, which is to send frame 5 at the place of frame 0.
abbrev host_two : Machine
host_two = record (machine true) {
  frame_count = 2;
  ctrl_buffer = update (update empty_slot 0 (empty_slot 5)) 1 (empty_slot 6);
}

abbrev fifth_sender : Sender
fifth_sender = record first_sender { next_frame_to_send = 5 }

first_input-differs_example :
    (p : CtrlPacket) × ((s' : Sender) × ((sent : Machine) × ((after : Machine) × ((read_controller
                true 2
                (pad 0 0)
                5
              ≡ done (first_input (pad 0 0), 6))
            × ((send_host no_dance fifth_sender host_two ≡ done (p, s', sent))
                × ((deliver sent (first_input (pad 0 0)) ≡ done after)
                    × (((p.controllers 0).status ≡ status_disconnected)
                        × (((after.ctrl_buffer 0).have_input 0 ≡ true)
                            × (((after.ctrl_buffer 0).controllers 0 ≡ pad 0 0)
                                × ((after.ctrl_buffer 0).controllers 0 ≢ p.controllers 0))))))))))
first_input-differs_example =
    first_input-differs no_dance fifth_sender host_two (pad 0 0) (omega arith) (omega arith) refl
      refl refl (omega arith)

-- Frame 1 has come, with the input of both players, and then that of frame 5 comes.
abbrev client_one : Machine
client_one = record (machine false) {
  ctrl_buffer =
      update empty_slot 1
        (record (empty_slot 1) { have_sent_or_recv = true; have_input = λ _. true });
}

client_one-HasWindow : HasWindow client_one
client_one-HasWindow i h = ground arith

client_one-goes : stalls client_one ≡ false
unfolding stalls lacks_packet wanted_read
client_one-goes = refl

early_packet-lost_example :
    (m' : Machine) × ((recv_client 0 (empty_slot 5) client_one ≡ done (1, m'))
      × (((m'.ctrl_buffer 0).frame_number ≡ 5)
          × ((((retrace_handler m').1.ctrl_buffer 0).frame_number ≡ 10)
              × (((retrace_handler m').1.ctrl_buffer 3).frame_number ≢ 5))))
early_packet-lost_example =
    early_packet-lost (empty_slot 5) client_one 3 refl refl client_one-HasWindow client_one-goes
      refl (omega arith)
