-- ===== src/Netplay/World/Sends.antt =====
-- The host's send thread and the client's receive thread keep the input of each frame.
use netslugplus.Base.{
  ℕ, ◌+◌, ◌≤◌, ◌<◌, ◌≡◌, ◌≢◌, refl, sym, ap, ◌∙◌, arith, true, update, update_self, update_ne,
  update_twice, ℕ_discrete, leb, if◌then◌else◌,
}
use netslugplus.Netplay.Types.{Controller, SendPacket, SendSlot, CtrlPacket, Machine, done}
use netslugplus.Netplay.Threads.{
  Sender, Dance, send_host, send_client, recv_client, next_seed, complete, merge_own,
}
use netslugplus.Netplay.World.Faithful.{
  seeds, HasSeed, HasRead, PayloadHasRead, IsCurrent, IsFaithful, Keeps, place-IsFaithful,
  same-Keeps,
}

-- What the host's round needs and gives.
pub record Sent (d : Dance) (s : Sender) (m : Machine) (p : CtrlPacket) (s' : Sender) (m' : Machine)
    : Type 0 where
  pub in_turn : (m.ctrl_buffer s.ctrl_buffer_pos).frame_number ≡ s.next_frame_to_send
  pub packet : p ≡ (complete d s m).0
  pub next : s'.next_frame_to_send ≡ s.next_frame_to_send + 1
  pub seed : s'.frame_seed ≡ p.frame_seed
  pub ctrl :
      m'.ctrl_buffer
      ≡ update m.ctrl_buffer s.ctrl_buffer_pos (record p { have_sent_or_recv = true })
  pub outbox : m'.send_buffer ≡ m.send_buffer
  pub count : m'.frame_count ≡ m.frame_count
  pub side : m'.host ≡ m.host

pub send_host-Sent :
    (d : Dance) (s : Sender) (m : Machine) {p : CtrlPacket} {s' : Sender} {m' : Machine}
    → send_host d s m ≡ done (p, s', m')
    → Sent d s m p s' m'
unfolding send_host
send_host-Sent d s m {p} e = record {
  in_turn = ground arith;
  packet = ground arith;
  next = ground arith;
  seed = ground arith;
  ctrl = ground (
    arith,
    update_twice m.ctrl_buffer s.ctrl_buffer_pos p (record p { have_sent_or_recv = true }),
  );
  outbox = ground arith;
  count = ground arith;
  side = ground arith;
}

-- What the client's round needs and gives.
pub record Received (pos : ℕ) (p : CtrlPacket) (m : Machine) (pos' : ℕ) (m' : Machine)
    : Type 0 where
  pub in_turn :
      (m.ctrl_buffer pos).frame_number ≢ 0 → (m.ctrl_buffer pos).frame_number ≡ p.frame_number
  pub next : pos' ≡ (if leb 5 (pos + 1) then 0 else pos + 1)
  pub machine : m' ≡ record m {
    ctrl_buffer =
        update m.ctrl_buffer pos
          (record (merge_own (m.ctrl_buffer pos) p) { have_sent_or_recv = true });
  }

pub recv_client-Received :
    (pos : ℕ) (p : CtrlPacket) (m : Machine) {pos' : ℕ} {m' : Machine}
    → recv_client pos p m ≡ done (pos', m')
    → Received pos p m pos' m'
unfolding recv_client
recv_client-Received pos p m e = record {
  in_turn = λ ne. ground arith;
  next = ground arith;
  machine = ground arith;
}

module _ (pads : ℕ → ℕ → Controller) (d : Dance) (s : Sender) (m : Machine) where
  complete-number : (complete d s m).0.frame_number ≡ (m.ctrl_buffer s.ctrl_buffer_pos).frame_number
  unfolding complete
  complete-number = refl

  complete-seed : (complete d s m).0.frame_seed ≡ next_seed s.frame_seed
  unfolding complete
  complete-seed = refl

  -- After frame 5 the host sends the input of the players as it has it.
  complete-input :
      (i : ℕ)
      → i < 2
      → 5 < s.next_frame_to_send
      → ((complete d s m).0.have_input i ≡ (m.ctrl_buffer s.ctrl_buffer_pos).have_input i)
        × ((complete d s m).0.controllers i ≡ (m.ctrl_buffer s.ctrl_buffer_pos).controllers i)
  unfolding complete
  complete-input i lt late = (ground arith, ground arith)

  complete-HasRead :
      (m.ctrl_buffer s.ctrl_buffer_pos).frame_number ≡ s.next_frame_to_send
      → HasRead pads (m.ctrl_buffer s.ctrl_buffer_pos)
      → HasRead pads (complete d s m).0
  complete-HasRead turn read i lt have late =
      let after : 5 < s.next_frame_to_send = omega (arith, complete-number) in
      let (input, co) = complete-input i lt after in
      co
      ∙ read i lt (sym input ∙ have) (omega (arith, complete-number))
      ∙ ap (pads i) (sym complete-number)

  complete-IsCurrent :
      (now : ℕ) → IsCurrent now (m.ctrl_buffer s.ctrl_buffer_pos) → IsCurrent now (complete d s m).0
  unfolding complete
  complete-IsCurrent now c = record {
    number = c.number;
    sent_or_recv = c.sent_or_recv;
    input0 = ground arith;
    input1 = ground arith;
  }

marked-IsCurrent :
    (now : ℕ) (p : CtrlPacket)
    → IsCurrent now p
    → IsCurrent now (record p { have_sent_or_recv = true })
marked-IsCurrent now p c = record {
  number = c.number;
  sent_or_recv = refl;
  input0 = c.input0;
  input1 = c.input1;
}

-- The packet that the host sends, and its machine afterwards.
pub send_host-IsFaithful :
    (pads : ℕ → ℕ → Controller) (d : Dance) (s : Sender) (m : Machine) {p : CtrlPacket}
    {s' : Sender} {m' : Machine}
    → IsFaithful pads m
    → s.frame_seed ≡ seeds s.next_frame_to_send
    → Sent d s m p s' m'
    → HasRead pads p × HasSeed p × (p.frame_number ≡ s.next_frame_to_send) × Keeps pads m m'
send_host-IsFaithful pads d s m {p} {m'} f seed sent =
    let pos = s.ctrl_buffer_pos in
    let number : p.frame_number ≡ s.next_frame_to_send =
      rw sent.packet (complete-number pads d s m ∙ sent.in_turn) in
    let has : HasRead pads p =
      rw sent.packet (complete-HasRead pads d s m sent.in_turn (f.read pos)) in
    let seeded : HasSeed p =
      rw (number, sent.packet) (complete-seed pads d s m ∙ ap next_seed seed) in
    let marked : CtrlPacket = record p { have_sent_or_recv = true } in
    let one =
      place-IsFaithful pads m pos marked f has (λ _. seeded)
        (λ _ c.
          marked-IsCurrent m.frame_count p
            (rw sent.packet (complete-IsCurrent pads d s m m.frame_count c))) in
    (
      has,
      seeded,
      number,
      record {
        faithful =
            (same-Keeps pads (record m { ctrl_buffer = update m.ctrl_buffer pos marked }) m' one
              sent.ctrl sent.outbox sent.count sent.side).faithful;
        same_host = sent.side;
        zeros = λ i. rw sent.ctrl (λ z. ground (arith, sent.in_turn));
      },
    )

merge_own-HasRead :
    (pads : ℕ → ℕ → Controller) (own p : CtrlPacket)
    → HasRead pads own
    → HasRead pads p
    → (own.frame_number ≢ 0 → own.frame_number ≡ p.frame_number)
    → (own.frame_number ≡ 0 → p.frame_number ≤ 5)
    → HasRead pads (merge_own own p)
unfolding merge_own
merge_own-HasRead pads own p mine theirs turn first i lt have late =
    let in_turn : own.frame_number ≡ p.frame_number = ground arith in
    ground (arith, mine i lt, theirs i lt)

merge_own-IsCurrent :
    (now : ℕ) (own p : CtrlPacket)
    → own.frame_number ≡ p.frame_number
    → IsCurrent now own
    → IsCurrent now (record (merge_own own p) { have_sent_or_recv = true })
unfolding merge_own
merge_own-IsCurrent now own p turn c = ground arith

-- What the client's receive thread makes of its machine.
pub recv_client-IsFaithful :
    (pads : ℕ → ℕ → Controller) (pos : ℕ) (p : CtrlPacket) (m : Machine) {pos' : ℕ} {m' : Machine}
    → IsFaithful pads m
    → HasRead pads p
    → HasSeed p
    → ((m.ctrl_buffer pos).frame_number ≡ 0 → p.frame_number ≤ 5)
    → Received pos p m pos' m'
    → IsFaithful pads m'
unfolding merge_own
recv_client-IsFaithful pads pos p m f has seeded first r =
    let own = m.ctrl_buffer pos in
    rw r.machine (
      place-IsFaithful pads m pos (record (merge_own own p) { have_sent_or_recv = true }) f
        (merge_own-HasRead pads own p (f.read pos) has r.in_turn first) (λ _. seeded)
        (λ started c.
          merge_own-IsCurrent m.frame_count own p (r.in_turn (λ z. omega (arith, c.number))) c))

send_client-eq_done :
    (s : Sender) (m : Machine) {p : SendPacket} {s' : Sender} {m' : Machine}
    → send_client s m ≡ done (p, s', m')
    → let slot = m.send_buffer s.send_buffer_pos in
      (slot.sent ≡ 1)
      × (p ≡ slot.packet)
      × (m' ≡ record m {
        send_buffer = update m.send_buffer s.send_buffer_pos (record slot { sent = 2 });
      })
unfolding send_client
send_client-eq_done s m e = (ground arith, ground arith, ground arith)

-- The client's send thread sends what was read, and keeps its machine.
pub send_client-Keeps :
    (pads : ℕ → ℕ → Controller) (s : Sender) (m : Machine) {p : SendPacket} {s' : Sender}
    {m' : Machine}
    → IsFaithful pads m
    → send_client s m ≡ done (p, s', m')
    → Keeps pads m m' × PayloadHasRead pads p.payload
send_client-Keeps pads s m f e =
    let (sent, packet, is) = send_client-eq_done s m e in
    let pos = s.send_buffer_pos in
    let used : SendSlot = record (m.send_buffer pos) { sent = 2 } in
    (
      rw is (record {
        faithful = record {
          read = f.read;
          seed = f.seed;
          current = f.current;
          outbox = λ j. elim (ℕ_discrete j pos) [
            | yes here ↦ rw (here, update_self m.send_buffer pos used) (λ two. absurd (omega arith))
            | no ne ↦ rw (update_ne m.send_buffer pos j used ne) (f.outbox j)
          ];
        };
        same_host = refl;
        zeros = λ i z. z;
      }),
      rw packet (f.outbox pos sent),
    )
