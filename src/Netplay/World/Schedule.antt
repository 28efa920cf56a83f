-- ===== src/Netplay/World/Schedule.antt =====
-- Runs of the two consoles, by a list of what happens next; what cannot happen is skipped.
use netslugplus.Base.{ℕ, ◌≡◌, refl, ◌⊎◌, inl, inr, Bool, true, false, List, [], ◌∷◌}
use netslugplus.Netplay.Types.{Controller, SendPacket, Outcome, done, wait, fault}
use netslugplus.Netplay.Packet.{deliver, route}
use netslugplus.Netplay.Threads.{Dance, send_host, send_client, recv_client, read_controller}
use netslugplus.Netplay.World.{
  Job, idle, to_deliver, to_route, Console, ConsoleStep, delivered, routed, retraced, polled, World,
  on_host, on_client, host_sends, client_sends, host_receives, client_receives, Reach, later,
  player, controller_thread, receive_thread,
}

pub data Act : Type 0 where
  -- a thread of the console goes on, the first argument says of the host
  go : Bool → ℕ → Act
  poll : Bool → Act
  retrace : Bool → Act
  send : Bool → Act
  receive : Bool → Act

abbrev outcome {ℓ} : {A : Type ℓ} (o : Outcome A) → ((a : A) × (o ≡ done a)) ⊎ Unit {0}
outcome (done a) = inl (a, refl)
outcome wait = inr tt
outcome fault = inr tt

abbrev pending :
    (j : Job)
    → ((p : SendPacket) × (j ≡ to_deliver p)) ⊎ ((p : SendPacket) × (j ≡ to_route p)) ⊎ (j ≡ idle)
pending idle = inr (inr refl)
pending (to_deliver p) = inl (p, refl)
pending (to_route p) = inr (inl (p, refl))

abbrev first {ℓ} : {A : Type ℓ} (l : List A) → ((a : A) × (r : List A) × (l ≡ a ∷ r)) ⊎ Unit {0}
first [] = inr tt
first (a ∷ r) = inl (a, r, refl)

module _ (pads : ℕ → ℕ → Controller) (d : Dance) where
  abbrev Next : Console → Type 0
  Next c = ((c' : Console) × ConsoleStep pads c c') ⊎ Unit {0}

  go_on : (c : Console) (t : ℕ) → Next c
  go_on c t = elim (pending (c.jobs t)) [
    | inl (p, e) ↦ elim (outcome (deliver c.machine p)) [
      | inl (m, o) ↦ inl (_, delivered t p e o)
      | inr _ ↦ inr tt
    ]
    | inr (inl (p, e)) ↦ elim (outcome (route c.machine p)) [
      | inl (m, o) ↦ inl (_, routed t p e o)
      | inr _ ↦ inr tt
    ]
    | inr (inr e) ↦ inr tt
  ]

  poll_one : (c : Console) → Next c
  poll_one c = elim (pending (c.jobs controller_thread)) [
    | inr (inr e) ↦
        elim (outcome (
          read_controller c.machine.host c.machine.frame_count
            (pads (player c.machine) c.next_input) c.next_input)) [
              | inl ((p, n), o) ↦ inl (_, polled e o)
              | inr _ ↦ inr tt
            ]
    | _ ↦ inr tt
  ]

  pub record Run : Type 0 where
    pub last : World
    pub reach : Reach pads last

  on_console : (h : Bool) (r : Run) → Next r.last.host → Next r.last.client → Run
  on_console true r (inl (c, s)) _ = record { last = _; reach = later r.reach (on_host s) }
  on_console true r (inr _) _ = r
  on_console false r _ (inl (c, s)) = record { last = _; reach = later r.reach (on_client s) }
  on_console false r _ (inr _) = r

  sends : Bool → Run → Run
  sends true r = elim (outcome (send_host d r.last.host_sender r.last.host.machine)) [
    | inl ((p, s, m), o) ↦ record { last = _; reach = later r.reach (host_sends d o) }
    | inr _ ↦ r
  ]
  sends false r = elim (outcome (send_client r.last.client_sender r.last.client.machine)) [
    | inl ((p, s, m), o) ↦ record { last = _; reach = later r.reach (client_sends o) }
    | inr _ ↦ r
  ]

  receives : Bool → Run → Run
  receives true r = elim (first r.last.to_host) [
    | inl (p, ps, e) ↦ elim (pending (r.last.host.jobs receive_thread)) [
      | inr (inr free) ↦ record { last = _; reach = later r.reach (host_receives p ps e free) }
      | _ ↦ r
    ]
    | inr _ ↦ r
  ]
  receives false r = elim (first r.last.to_client) [
    | inl (p, ps, e) ↦ elim (outcome (recv_client r.last.client_pos p r.last.client.machine)) [
      | inl ((pos, m), o) ↦ record { last = _; reach = later r.reach (client_receives p ps e o) }
      | inr _ ↦ r
    ]
    | inr _ ↦ r
  ]

  act : Act → Run → Run
  unfolding go_on poll_one on_console sends receives
  act (go h t) r = on_console h r (go_on r.last.host t) (go_on r.last.client t)
  act (poll h) r = on_console h r (poll_one r.last.host) (poll_one r.last.client)
  act (retrace h) r = on_console h r (inl (_, retraced)) (inl (_, retraced))
  act (send h) r = sends h r
  act (receive h) r = receives h r

  unfoldable pub run : List Act → Run → Run
  unfolding act
  run [] r = r
  run (a ∷ as_) r = run as_ (act a r)
