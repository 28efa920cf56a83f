-- ===== src/Netplay/World/Lockstep.antt =====
-- Both consoles see the same input and the same random seed in every frame.
use netslugplus.Base.{
  ℕ, zero, suc, ◌+◌, ◌%◌, ◌≤◌, ◌<◌, ◌≡◌, refl, sym, ap, ◌∙◌, arith, true, List, [], ◌∷◌, ◌++◌,
  length, length-append, update, update_self, update_ne, ℕ_discrete, if◌then◌else◌, leb, All,
  All-append_one,
}
use netslugplus.Netplay.Types.{Controller, CtrlPacket, Machine}
use netslugplus.Netplay.Threads.{merge_own}
use netslugplus.Netplay.World.{
  to_deliver, Console, receive_thread, World, Step, on_host, on_client, host_sends, client_sends,
  host_receives, client_receives, IsInitial, Reach, start, later, initial_console,
}
use netslugplus.Netplay.Wpad.{current_slot}
use netslugplus.Netplay.World.Faithful.{seeds, HasRead, HasSeed, IsCurrent, IsFaithful}
use netslugplus.Netplay.World.Consoles.{
  PacketHasRead, IsSound, KeepsConsole, ConsoleStep-KeepsConsole, update-JobHasRead,
}
use netslugplus.Netplay.World.Sends.{
  send_host-Sent, send_host-IsFaithful, Received, recv_client-Received, recv_client-IsFaithful,
  send_client-Keeps,
}

-- The packets under way have consecutive frame numbers, and `next` is the number after the last.
abbrev Numbered : ℕ → List CtrlPacket → Type 0
Numbered next [] = Unit
Numbered next (p ∷ ps) = (p.frame_number + suc (length ps) ≡ next) × Numbered next ps

Numbered-append_one :
    (next : ℕ) (ps : List CtrlPacket) (p : CtrlPacket)
    → Numbered next ps
    → p.frame_number ≡ next
    → Numbered (next + 1) (ps ++ (p ∷ []))
Numbered-append_one next [] p h e = (omega arith, tt)
Numbered-append_one next (q ∷ ps) p h e =
    (omega (arith, h.0, length-append ps (p ∷ [])), Numbered-append_one next ps p h.1 e)

abbrev CtrlHasRead : (ℕ → ℕ → Controller) → CtrlPacket → Type 0
CtrlHasRead pads p = HasRead pads p × HasSeed p

-- What holds in every state. `received` is the number of packets that the client has taken.
record Inv (pads : ℕ → ℕ → Controller) (w : World) : Type 0 where
  host : IsSound pads w.host
  client : IsSound pads w.client
  to_client : All (CtrlHasRead pads) w.to_client
  to_host : All (PacketHasRead pads) w.to_host
  seed : w.host_sender.frame_seed ≡ seeds w.host_sender.next_frame_to_send
  numbered : Numbered w.host_sender.next_frame_to_send w.to_client
  received : ℕ
  in_order : received + length w.to_client ≡ w.host_sender.next_frame_to_send
  place : w.client_pos ≡ received % 5
  zero_place :
      (i : ℕ) → (w.client.machine.ctrl_buffer i).frame_number ≡ 0 → (i ≡ 0) × (received ≤ 5)

next_place :
    (pos k pos' : ℕ)
    → pos ≡ k % 5
    → pos' ≡ (if leb 5 (pos + 1) then 0 else pos + 1)
    → pos' ≡ suc k % 5
next_place pos k pos' e f = ground arith

-- For both players the two consoles hold the input that was read for the frame, and both hold the
-- random seed of the frame.
pub record InStep (pads : ℕ → ℕ → Controller) (w : World) : Type 0 where
  pub read :
      (i : ℕ)
      → i < 2
      → (current_slot w.host.machine).controllers i ≡ pads i w.host.machine.frame_count
  pub same_input :
      (i : ℕ)
      → i < 2
      → (current_slot w.client.machine).controllers i ≡ (current_slot w.host.machine).controllers i
  pub seed : (current_slot w.host.machine).frame_seed ≡ seeds (suc w.host.machine.frame_count)
  pub same_seed :
      (current_slot w.client.machine).frame_seed ≡ (current_slot w.host.machine).frame_seed

have_both : {now : ℕ} {p : CtrlPacket} → IsCurrent now p → (i : ℕ) → i < 2 → p.have_input i ≡ true
have_both c zero lt = c.input0
have_both c (suc zero) lt = c.input1
have_both c (suc (suc i)) lt = absurd (omega arith)

module _ (pads : ℕ → ℕ → Controller) where
  sound : {c c' : Console} → KeepsConsole pads c c' → IsSound pads c'
  sound k = record { faithful = k.machine.faithful; jobs = k.jobs }

  -- The client takes the next packet.
  receives-zero_place :
      (w : World) (p : CtrlPacket) (k : ℕ) {pos : ℕ} {m : Machine}
      → p.frame_number ≡ k
      → w.client_pos ≡ k % 5
      → ((i : ℕ) → (w.client.machine.ctrl_buffer i).frame_number ≡ 0 → (i ≡ 0) × (k ≤ 5))
      → Received w.client_pos p w.client.machine pos m
      → (i : ℕ) → (m.ctrl_buffer i).frame_number ≡ 0
      → (i ≡ 0) × (suc k ≤ 5)
  unfolding merge_own
  receives-zero_place w p k number place zero_place r i z =
      let before = w.client.machine.ctrl_buffer in
      let pos = w.client_pos in
      let taken : CtrlPacket = record (merge_own (before pos) p) { have_sent_or_recv = true } in
      let at_i : (update before pos taken i).frame_number ≡ 0 = rw r.machine at z in
      elim (ℕ_discrete i pos) [
        | yes e ↦
            let zero : p.frame_number ≡ 0 = rw (e, update_self before pos taken) at at_i in
            omega arith
        | no ne ↦
            let old = zero_place i (rw (update_ne before pos i taken ne) at at_i) in omega arith
      ]

  Step-Inv : {w w' : World} → Step pads w w' → Inv pads w → Inv pads w'
  Step-Inv {w} (on_host st) v =
      let k = ConsoleStep-KeepsConsole pads st v.host in
      record {
        host = sound k;
        client = v.client;
        to_client = v.to_client;
        to_host = v.to_host;
        seed = v.seed;
        numbered = v.numbered;
        received = v.received;
        in_order = v.in_order;
        place = v.place;
        zero_place = v.zero_place;
      }
  Step-Inv {w} (on_client st) v =
      let k = ConsoleStep-KeepsConsole pads st v.client in
      record {
        host = v.host;
        client = sound k;
        to_client = v.to_client;
        to_host = v.to_host;
        seed = v.seed;
        numbered = v.numbered;
        received = v.received;
        in_order = v.in_order;
        place = v.place;
        zero_place = λ i z. v.zero_place i (k.machine.zeros i z);
      }
  Step-Inv {w} (host_sends d {p} e) v =
      let sent = send_host-Sent d w.host_sender w.host.machine e in
      let (has, seeded, number, k) =
        send_host-IsFaithful pads d w.host_sender w.host.machine v.host.faithful v.seed sent in
      record {
        host = record { faithful = k.faithful; jobs = v.host.jobs };
        client = v.client;
        to_client = All-append_one (CtrlHasRead pads) w.to_client p v.to_client (has, seeded);
        to_host = v.to_host;
        seed =
            sent.seed
            ∙ seeded
            ∙ ap seeds {x = suc p.frame_number} (omega (arith, number, sent.next));
        numbered =
            rw sent.next (
              Numbered-append_one w.host_sender.next_frame_to_send w.to_client p v.numbered number);
        received = v.received;
        in_order = omega (arith, v.in_order, sent.next, length-append w.to_client (p ∷ []));
        place = v.place;
        zero_place = v.zero_place;
      }
  Step-Inv {w} (client_sends {p} e) v =
      let (k, has) = send_client-Keeps pads w.client_sender w.client.machine v.client.faithful e in
      record {
        host = v.host;
        client = record { faithful = k.faithful; jobs = v.client.jobs };
        to_client = v.to_client;
        to_host = All-append_one (PacketHasRead pads) w.to_host p v.to_host has;
        seed = v.seed;
        numbered = v.numbered;
        received = v.received;
        in_order = v.in_order;
        place = v.place;
        zero_place = λ i z. v.zero_place i (k.zeros i z);
      }
  Step-Inv {w} (host_receives p ps q free) v =
      let (has, rest) = rw q at v.to_host in
      record {
        host = record {
          faithful = v.host.faithful;
          jobs = update-JobHasRead pads w.host.jobs receive_thread (to_deliver p) v.host.jobs has;
        };
        client = v.client;
        to_client = v.to_client;
        to_host = rest;
        seed = v.seed;
        numbered = v.numbered;
        received = v.received;
        in_order = v.in_order;
        place = v.place;
        zero_place = v.zero_place;
      }
  Step-Inv {w} (client_receives p ps q e) v =
      let ((has, seeded), rest) = rw q at v.to_client in
      let (number, numbered) = rw q at v.numbered in
      let order : v.received + suc (length ps) ≡ w.host_sender.next_frame_to_send =
        rw q at v.in_order in
      let r = recv_client-Received w.client_pos p w.client.machine e in
      let is : p.frame_number ≡ v.received = omega arith in
      record {
        host = v.host;
        client = record {
          faithful =
              recv_client-IsFaithful pads w.client_pos p w.client.machine v.client.faithful has
                seeded (λ z. omega (arith, (v.zero_place w.client_pos z).1)) r;
          jobs = v.client.jobs;
        };
        to_client = rest;
        to_host = v.to_host;
        seed = v.seed;
        numbered = numbered;
        received = suc v.received;
        in_order = omega arith;
        place = omega (arith, r.next, next_place w.client_pos v.received _ v.place r.next);
        zero_place = receives-zero_place w p v.received is v.place v.zero_place r;
      }

  initial-IsSound : (m : Machine) → IsInitial m → IsSound pads (initial_console m)
  initial-IsSound m i = record {
    faithful = record {
      read = λ j k lt have late. absurd (cc (i.no_input j k));
      seed = λ j sr. absurd (cc (i.no_packet j));
      current = λ pos. absurd (omega (arith, i.at_start));
      outbox = λ j sent. absurd (omega (arith, i.nothing_sent j));
    };
    jobs = λ t. tt;
  }

  Reach-Inv : {w : World} → Reach pads w → Inv pads w
  Reach-Inv (start h c _ _ ih ic) = record {
    host = initial-IsSound h ih;
    client = initial-IsSound c ic;
    to_client = tt;
    to_host = tt;
    seed = refl;
    numbered = tt;
    received = 0;
    in_order = refl;
    place = refl;
    zero_place = λ i z. omega (arith, ic.numbered i);
  }
  Reach-Inv (later r st) = Step-Inv st (Reach-Inv r)

  current-read :
      (m : Machine) (i : ℕ)
      → IsFaithful pads m
      → 5 < m.frame_count
      → i < 2
      → (current_slot m).controllers i ≡ pads i m.frame_count
  current-read m i f late lt =
      let c = f.current (omega arith) in
      f.read (m.frame_count % 5) i lt (have_both c i lt) (omega (arith, c.number))
      ∙ ap (pads i) c.number

  current-seed :
      (m : Machine)
      → IsFaithful pads m
      → 0 < m.frame_count
      → (current_slot m).frame_seed ≡ seeds (suc m.frame_count)
  current-seed m f pos =
      let c = f.current pos in
      f.seed (m.frame_count % 5) c.sent_or_recv ∙ ap (λ (k : ℕ). seeds (suc k)) c.number

  -- In every state that the two consoles can reach, however their threads, retraces and packets
  -- follow on one another: while both games are in one frame after frame 5, both see for each of
  -- the two players the input that was read for this player and this frame, and both have the same
  -- random seed, that of the frame.
  pub lockstep :
      {w : World}
      → Reach pads w
      → w.host.machine.frame_count ≡ w.client.machine.frame_count
      → 5 < w.host.machine.frame_count
      → InStep pads w
  lockstep {w} r same late =
      let v = Reach-Inv r in
      let h = w.host.machine in
      let c = w.client.machine in
      let fh = v.host.faithful in
      let fc = v.client.faithful in
      record {
        read = λ i lt. current-read h i fh late lt;
        same_input = λ i lt.
            current-read c i fc (omega arith) lt
            ∙ ap (pads i) (sym same)
            ∙ sym (current-read h i fh late lt);
        seed = current-seed h fh (omega arith);
        same_seed =
            current-seed c fc (omega arith)
            ∙ ap (λ (k : ℕ). seeds (suc k)) (sym same)
            ∙ sym (current-seed h fh (omega arith));
      }
