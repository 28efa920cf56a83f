-- ===== src/Netplay/World/Consoles.antt =====
-- Every step of one console keeps the input of each frame.
use netslugplus.Base.{
  ℕ, ◌≡◌, refl, arith, Bool, true, false, Option, some, none, update, update_self, update_ne,
  ℕ_discrete, if◌then◌else◌,
}
use netslugplus.Netplay.Types.{Controller, SendPacket, controller, di_read, Machine, done}
use netslugplus.Netplay.Threads.{read_controller}
use netslugplus.Netplay.Reads.{issue_read}
use netslugplus.Netplay.World.{
  Job, idle, to_deliver, to_route, Console, ConsoleStep, delivered, routed, retraced, polled,
  issued, read_ended, wpad_called, posted, controller_thread, game_thread,
}
use netslugplus.Netplay.World.Faithful.{PayloadHasRead, IsFaithful, Keeps, same-Keeps, refl-Keeps}
use netslugplus.Netplay.World.Packets.{deliver_payload-Keeps, route-Keeps}
use netslugplus.Netplay.World.Frames.{retrace_handler-Keeps}

abbrev pub PacketHasRead : (ℕ → ℕ → Controller) → SendPacket → Type 0
PacketHasRead pads p = PayloadHasRead pads p.payload

abbrev pub JobHasRead : (ℕ → ℕ → Controller) → Job → Type 0
JobHasRead pads idle = Unit
JobHasRead pads (to_deliver p) = PacketHasRead pads p
JobHasRead pads (to_route p) = PacketHasRead pads p

pub record IsSound (pads : ℕ → ℕ → Controller) (c : Console) : Type 0 where
  pub faithful : IsFaithful pads c.machine
  pub jobs : (t : ℕ) → JobHasRead pads (c.jobs t)

pub record KeepsConsole (pads : ℕ → ℕ → Controller) (c c' : Console) : Type 0 where
  pub machine : Keeps pads c.machine c'.machine
  pub jobs : (t : ℕ) → JobHasRead pads (c'.jobs t)

module _ (pads : ℕ → ℕ → Controller) where
  pub update-JobHasRead :
      (jobs : ℕ → Job) (t : ℕ) (j : Job)
      → ((u : ℕ) → JobHasRead pads (jobs u))
      → JobHasRead pads j
      → (u : ℕ) → JobHasRead pads (update jobs t j u)
  update-JobHasRead jobs t j h k u = elim (ℕ_discrete u t) [
    | yes e ↦ rw (e, update_self jobs t j) k
    | no ne ↦ rw (update_ne jobs t u j ne) (h u)
  ]

  payload-read_controller :
      (host : Bool) (now next : ℕ) (pad : Controller) {p : SendPacket} {next' : ℕ}
      → read_controller host now pad next ≡ done (p, next')
      → p.payload ≡ controller next (if host then 0 else 1) pad
  unfolding read_controller
  payload-read_controller host now next pad e = ground arith

  read_controller-PacketHasRead :
      (host : Bool) (now next : ℕ) {p : SendPacket} {next' : ℕ}
      → read_controller host now (pads (if host then 0 else 1) next) next ≡ done (p, next')
      → PacketHasRead pads p
  read_controller-PacketHasRead host now next e =
      rw (payload-read_controller host now next _ e) (λ _. refl)

  posted-JobHasRead :
      (failed : Bool) (p : SendPacket)
      → PacketHasRead pads p
      → JobHasRead pads (posted (if failed then none else some p))
  posted-JobHasRead true p h = tt
  posted-JobHasRead false p h = h

  issue_read-Keeps :
      (sector user_data cb : ℕ) (failed : Bool) (m : Machine) {o : Option SendPacket} {m' : Machine}
      → IsFaithful pads m
      → issue_read sector user_data cb failed m ≡ done (o, m')
      → Keeps pads m m' × JobHasRead pads (posted o)
  unfolding issue_read
  issue_read-Keeps sector user_data cb failed m {o} {m'} f e =
      let packet : SendPacket = record {
        client_number = if m.host then 0 else 1;
        payload = di_read sector;
      } in
      let is : o ≡ (if failed then none else some packet) = ground arith in
      (
        same-Keeps pads m m' f (ground arith) (ground arith) (ground arith) (ground arith),
        rw is (posted-JobHasRead failed packet tt),
      )

  pub ConsoleStep-KeepsConsole :
      {c c' : Console} → ConsoleStep pads c c' → IsSound pads c → KeepsConsole pads c c'
  ConsoleStep-KeepsConsole {c} (delivered t p job e) s =
      let has : PacketHasRead pads p = rw job at (s.jobs t) in
      record {
        machine = deliver_payload-Keeps pads c.machine p.payload s.faithful has e;
        jobs = update-JobHasRead c.jobs t (to_route p) s.jobs has;
      }
  ConsoleStep-KeepsConsole {c} (routed t p job e) s =
      let has : PacketHasRead pads p = rw job at (s.jobs t) in
      record {
        machine = route-Keeps pads c.machine p s.faithful has e;
        jobs = update-JobHasRead c.jobs t idle s.jobs tt;
      }
  ConsoleStep-KeepsConsole {c} retraced s = record {
    machine = retrace_handler-Keeps pads c.machine s.faithful;
    jobs = s.jobs;
  }
  ConsoleStep-KeepsConsole {c} (polled {p} free e) s = record {
    machine = refl-Keeps pads c.machine s.faithful;
    jobs =
        update-JobHasRead c.jobs controller_thread (to_deliver p) s.jobs
          (read_controller-PacketHasRead c.machine.host c.machine.frame_count c.next_input e);
  }
  ConsoleStep-KeepsConsole {c} (issued sector user_data cb failed {o} free e) s =
      let (machine, job) = issue_read-Keeps sector user_data cb failed c.machine s.faithful e in
      record {
        machine = machine;
        jobs = update-JobHasRead c.jobs game_thread (posted o) s.jobs job;
      }
  ConsoleStep-KeepsConsole {c} (read_ended i) s = record {
    machine = same-Keeps pads c.machine _ s.faithful refl refl refl refl;
    jobs = s.jobs;
  }
  ConsoleStep-KeepsConsole {c} (wpad_called w) s = record {
    machine = same-Keeps pads c.machine _ s.faithful refl refl refl refl;
    jobs = s.jobs;
  }
