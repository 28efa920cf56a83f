-- ===== src/Netplay/World.antt =====
-- The two consoles and the connection between them, as a step relation. Each console runs its
-- threads and its retrace handler in any order; the connection keeps the order of the packets.
pub mod Faithful
pub mod Packets
pub mod Frames
pub mod Sends
pub mod Consoles
pub mod Lockstep
pub mod Schedule
pub mod FirstFrames
use netslugplus.Base.{
  ℕ, zero, suc, ◌≡◌, Bool, true, false, List, [], ◌∷◌, ◌++◌, Option, some, none, update,
  if◌then◌else◌,
}
use netslugplus.Netplay.Types.{
  Controller, SendPacket, CtrlPacket, IoctlManager, Machine, Outcome, done, Wpad,
}
use netslugplus.Netplay.Ioctl.{our_callback}
use netslugplus.Netplay.Packet.{deliver, route}
use netslugplus.Netplay.Threads.{
  Sender, Dance, send_host, send_client, recv_client, read_controller, first_sender,
  first_input_frame,
}
use netslugplus.Netplay.Frame.{retrace_handler}
use netslugplus.Netplay.Reads.{issue_read}

-- Where a thread is that calls `ProcessPacket`: before its part on controller data, or before the
-- rest.
pub data Job : Type 0 where
  idle : Job
  to_deliver : SendPacket → Job
  to_route : SendPacket → Job

-- A thread is a number: the controller thread, the receive thread (on the host), the game's.
pub record Console : Type 0 where
  pub machine : Machine
  pub jobs : ℕ → Job
  pub next_input : ℕ

abbrev pub controller_thread : ℕ
controller_thread = 0

abbrev pub receive_thread : ℕ
receive_thread = 1

abbrev pub game_thread : ℕ
game_thread = 2

abbrev pub with_machine : Console → Machine → Console
with_machine c m = record c { machine = m }

abbrev pub with_job : Console → ℕ → Job → Console
with_job c t j = record c { jobs = update c.jobs t j }

-- What a thread posts, if anything, it goes on to deliver.
abbrev pub posted : Option SendPacket → Job
posted none = idle
posted (some p) = to_deliver p

-- The number of the Wii Remote that a console's own one counts as.
abbrev pub player : Machine → ℕ
player m = if m.host then 0 else 1

-- The steps that host and client share. `pads i n` is what is read from player `i` for frame `n`.
pub data ConsoleStep (pads : ℕ → ℕ → Controller) (c : Console) : Console → Type 0 where
  delivered :
      (t : ℕ) (p : SendPacket) {m : Machine}
      → c.jobs t ≡ to_deliver p
      → deliver c.machine p ≡ done m
      → ConsoleStep pads c (with_job (with_machine c m) t (to_route p))
  routed :
      (t : ℕ) (p : SendPacket) {m : Machine}
      → c.jobs t ≡ to_route p
      → route c.machine p ≡ done m
      → ConsoleStep pads c (with_job (with_machine c m) t idle)
  retraced : ConsoleStep pads c (with_machine c (retrace_handler c.machine).1)
  polled :
      {p : SendPacket} {next : ℕ}
      → c.jobs controller_thread ≡ idle
      → read_controller c.machine.host c.machine.frame_count
          (pads (player c.machine) c.next_input)
          c.next_input
        ≡ done (p, next)
      → ConsoleStep pads c
          (record (with_job c controller_thread (to_deliver p)) { next_input = next })
  issued :
      (sector user_data cb : ℕ) (failed : Bool) {o : Option SendPacket} {m : Machine}
      → c.jobs game_thread ≡ idle
      → issue_read sector user_data cb failed c.machine ≡ done (o, m)
      → ConsoleStep pads c (with_job (with_machine c m) game_thread (posted o))
  read_ended :
      (i : ℕ)
      → ConsoleStep pads c (
          with_machine c
            (record c.machine { ioctl_buffer = our_callback i c.machine.ioctl_buffer }))
  wpad_called : (w : Wpad) → ConsoleStep pads c (with_machine c (record c.machine { wpad = w }))

pub record World : Type 0 where
  pub host : Console
  pub client : Console
  pub host_sender : Sender
  pub client_sender : Sender
  -- the client's `ctrlBufferPos` in `recvThread_main`
  pub client_pos : ℕ
  pub to_client : List CtrlPacket
  pub to_host : List SendPacket

pub data Step (pads : ℕ → ℕ → Controller) (w : World) : World → Type 0 where
  on_host : {c : Console} → ConsoleStep pads w.host c → Step pads w (record w { host = c })
  on_client : {c : Console} → ConsoleStep pads w.client c → Step pads w (record w { client = c })
  host_sends :
      (d : Dance) {p : CtrlPacket} {s : Sender} {m : Machine}
      → send_host d w.host_sender w.host.machine ≡ done (p, s, m)
      → Step pads w (record w {
        host = with_machine w.host m;
        host_sender = s;
        to_client = w.to_client ++ (p ∷ []);
      })
  client_sends :
      {p : SendPacket} {s : Sender} {m : Machine}
      → send_client w.client_sender w.client.machine ≡ done (p, s, m)
      → Step pads w (record w {
        client = with_machine w.client m;
        client_sender = s;
        to_host = w.to_host ++ (p ∷ []);
      })
  host_receives :
      (p : SendPacket) (ps : List SendPacket)
      → w.to_host ≡ p ∷ ps
      → w.host.jobs receive_thread ≡ idle
      → Step pads w
          (record w { host = with_job w.host receive_thread (to_deliver p); to_host = ps })
  client_receives :
      (p : CtrlPacket) (ps : List CtrlPacket) {pos : ℕ} {m : Machine}
      → w.to_client ≡ p ∷ ps
      → recv_client w.client_pos p w.client.machine ≡ done (pos, m)
      → Step pads w
          (record w { client = with_machine w.client m; client_pos = pos; to_client = ps })

-- The send thread has numbered the places of `ctrlBuffer`, and nothing has arrived.
pub record IsInitial (m : Machine) : Type 0 where
  pub numbered : (i : ℕ) → (m.ctrl_buffer i).frame_number ≡ i
  pub no_input : (i j : ℕ) → (m.ctrl_buffer i).have_input j ≡ false
  pub no_packet : (i : ℕ) → (m.ctrl_buffer i).have_sent_or_recv ≡ false
  pub nothing_sent : (i : ℕ) → (m.send_buffer i).sent ≡ 0
  pub at_start : m.frame_count ≡ 0

abbrev pub initial_console : Machine → Console
initial_console m = record { machine = m; jobs = λ _. idle; next_input = first_input_frame }

abbrev pub initial : Machine → Machine → World
initial h c = record {
  host = initial_console h;
  client = initial_console c;
  host_sender = first_sender;
  client_sender = first_sender;
  client_pos = 0;
  to_client = [];
  to_host = [];
}

pub data Reach (pads : ℕ → ℕ → Controller) : World → Type 0 where
  start :
      (h c : Machine)
      → h.host ≡ true
      → c.host ≡ false
      → IsInitial h
      → IsInitial c
      → Reach pads (initial h c)
  later : {w w' : World} → Reach pads w → Step pads w w' → Reach pads w'
