-- ===== src/Netplay/World/Packets.antt =====
-- `ProcessPacket` keeps the input of each frame.
use netslugplus.Base.{
  ℕ, ◌%◌, ◌<◌, ◌≡◌, refl, sym, ◌∙◌, arith, inl, inr, true, false, Bool-cases, update, update_self,
  update_ne, ℕ_discrete,
}
use netslugplus.Netplay.Types.{
  Controller, SendPacket, SendSlot, Payload, controller, di_read, unknown, CtrlPacket, Machine,
  Outcome, done,
}
use netslugplus.Netplay.Packet.{
  deliver_payload, deliver_to, with_input, route, route_host, enter_read, enqueue,
}
use netslugplus.Netplay.World.Faithful.{
  HasRead, PayloadHasRead, IsFaithful, Keeps, place-IsFaithful, same-Keeps, refl-Keeps,
}

done-injective : {m m' : Machine} → ◌≡◌ {A = Outcome Machine} (done m) (done m') → m ≡ m'
done-injective e = ground arith

module _ (pads : ℕ → ℕ → Controller) where
  with_input-HasRead :
      (p : CtrlPacket) (i : ℕ) (c : Controller)
      → HasRead pads p
      → (i < 2 → c ≡ pads i p.frame_number)
      → HasRead pads (with_input p i c)
  with_input-HasRead p i c read h j lt have late = elim (ℕ_discrete j i) [
    | yes e ↦ rw (e, update_self p.controllers i c) (h (omega arith))
    | no ne ↦
        rw (update_ne p.controllers i j c ne)
          (read j lt (rw (update_ne p.have_input i j true ne) at have) late)
  ]

  deliver_to-eq_done :
      (m : Machine) (frame i : ℕ) (c : Controller) {m' : Machine}
      → deliver_to m frame i c ≡ done m'
      → ((m.ctrl_buffer (frame % 5)).frame_number ≡ frame)
        × (m' ≡ record m {
          ctrl_buffer =
              update m.ctrl_buffer (frame % 5) (with_input (m.ctrl_buffer (frame % 5)) i c);
        })
  unfolding deliver_to
  deliver_to-eq_done m frame i c e = (ground arith, ground arith)

  deliver_to-Keeps :
      (m : Machine) (frame i : ℕ) (c : Controller) {m' : Machine}
      → IsFaithful pads m
      → (i < 2 → c ≡ pads i frame)
      → deliver_to m frame i c ≡ done m'
      → Keeps pads m m'
  deliver_to-Keeps m frame i c f h e =
      let (num, is) = deliver_to-eq_done m frame i c e in
      let k = frame % 5 in
      rw is (record {
        faithful =
            place-IsFaithful pads m k (with_input (m.ctrl_buffer k) i c) f
              (with_input-HasRead (m.ctrl_buffer k) i c (f.read k) (rw num h)) (f.seed k)
              (λ _ cur. ground arith);
        same_host = refl;
        zeros = λ j z. ground arith;
      })

  pub deliver_payload-Keeps :
      (m : Machine) (q : Payload) {m' : Machine}
      → IsFaithful pads m
      → PayloadHasRead pads q
      → deliver_payload m q ≡ done m'
      → Keeps pads m m'
  unfolding deliver_payload
  deliver_payload-Keeps m (controller frame i c) f h e = deliver_to-Keeps m frame i c f h e
  deliver_payload-Keeps m (di_read _) f h e = rw (done-injective (sym e)) (refl-Keeps pads m f)
  deliver_payload-Keeps m unknown f h e = rw (done-injective (sym e)) (refl-Keeps pads m f)

  enter_read-Keeps :
      (m : Machine) (client sector : ℕ) {m' : Machine}
      → IsFaithful pads m
      → enter_read m client sector ≡ done m'
      → Keeps pads m m'
  unfolding enter_read
  enter_read-Keeps m client sector {m'} f e =
      same-Keeps pads m m' f (ground arith) (ground arith) (ground arith) (ground arith)

  route_host-Keeps :
      (m : Machine) (client : ℕ) (q : Payload) {m' : Machine}
      → IsFaithful pads m
      → route_host m client q ≡ done m'
      → Keeps pads m m'
  unfolding route_host
  route_host-Keeps m client (di_read sector) f e = enter_read-Keeps m client sector f e
  route_host-Keeps m client (controller _ _ _) f e =
      rw (done-injective (sym e)) (refl-Keeps pads m f)
  route_host-Keeps m client unknown f e = rw (done-injective (sym e)) (refl-Keeps pads m f)

  enqueue-eq_done :
      (m : Machine) (p : SendPacket) {m' : Machine}
      → enqueue m p ≡ done m'
      → (m'.ctrl_buffer ≡ m.ctrl_buffer)
        × (m'.frame_count ≡ m.frame_count)
        × (m'.host ≡ m.host)
        × (m'.send_buffer
            ≡ update m.send_buffer m.send_buffer_pos (record { sent = 1; packet = p }))
  unfolding enqueue
  enqueue-eq_done m p e = (ground arith, ground arith, ground arith, ground arith)

  enqueue-Keeps :
      (m : Machine) (p : SendPacket) {m' : Machine}
      → IsFaithful pads m
      → PayloadHasRead pads p.payload
      → enqueue m p ≡ done m'
      → Keeps pads m m'
  enqueue-Keeps m p f h e =
      let (cb, fc, ho, sb) = enqueue-eq_done m p e in
      let new : SendSlot = record { sent = 1; packet = p } in
      record {
        faithful = record {
          read = rw cb f.read;
          seed = rw cb f.seed;
          current = rw (cb, fc) f.current;
          outbox = rw sb (λ j. elim (ℕ_discrete j m.send_buffer_pos) [
            | yes is ↦ rw (is, update_self m.send_buffer m.send_buffer_pos new) (λ _. h)
            | no ne ↦ rw (update_ne m.send_buffer m.send_buffer_pos j new ne) (f.outbox j)
          ]);
        };
        same_host = ho;
        zeros = rw cb (λ i z. z);
      }

  route_of_host :
      (m : Machine) (p : SendPacket)
      → m.host ≡ true
      → route m p ≡ route_host m p.client_number p.payload
  unfolding route
  route_of_host m p h = rw h

  route_of_client : (m : Machine) (p : SendPacket) → m.host ≡ false → route m p ≡ enqueue m p
  unfolding route
  route_of_client m p h = rw h

  pub route-Keeps :
      (m : Machine) (p : SendPacket) {m' : Machine}
      → IsFaithful pads m
      → PayloadHasRead pads p.payload
      → route m p ≡ done m'
      → Keeps pads m m'
  route-Keeps m p f h e = elim (Bool-cases m.host) [
    | inl is ↦ route_host-Keeps m p.client_number p.payload f (sym (route_of_host m p is) ∙ e)
    | inr is ↦ enqueue-Keeps m p f h (sym (route_of_client m p is) ∙ e)
  ]
