-- ===== src/Netplay/World/Frames.antt =====
-- The retrace handler, the send threads and the client's receive thread keep the input of each frame.
use netslugplus.Base.{
  ℕ, ◌+◌, ◌%◌, ◌≡◌, refl, arith, inl, inr, true, false, update_self, update_ne, ℕ_discrete,
}
use netslugplus.Netplay.Types.{Controller, CtrlPacket, Machine}
use netslugplus.Netplay.Frame.{retrace_handler, advance_frame, stalls, recycle}
use netslugplus.Netplay.Frame.Window.{retrace_handler-cases}
use netslugplus.Netplay.World.Faithful.{HasRead, IsCurrent, IsFaithful, Keeps, refl-Keeps}

module _ (pads : ℕ → ℕ → Controller) where
  stalls-lacks :
      (m : Machine)
      → stalls m ≡ false
      → m.created_thread ≡ true
      → IsCurrent (m.frame_count + 1) (m.ctrl_buffer ((m.frame_count + 1) % 5))
  unfolding stalls
  stalls-lacks m s c = record {
    number = ground arith;
    sent_or_recv = ground arith;
    input0 = ground arith;
    input1 = ground arith;
  }

  recycle-HasRead : (p : CtrlPacket) → HasRead pads (recycle p)
  unfolding recycle
  recycle-HasRead p i lt have late = absurd (ground arith)

  recycle_unsent : (p : CtrlPacket) → (recycle p).have_sent_or_recv ≡ true → ⊥
  unfolding recycle
  recycle_unsent p e = cc

  advance_frame-Keeps :
      (m : Machine)
      → IsFaithful pads m
      → stalls m ≡ false
      → m.created_thread ≡ true
      → Keeps pads m (advance_frame m).1
  unfolding advance_frame
  advance_frame-Keeps m f s c =
      let k = m.frame_count % 5 in
      let old = recycle (m.ctrl_buffer k) in
      record {
        faithful = record {
          read = λ j. elim (ℕ_discrete j k) [
            | yes e ↦ rw (e, update_self m.ctrl_buffer k old) (recycle-HasRead (m.ctrl_buffer k))
            | no ne ↦ rw (update_ne m.ctrl_buffer k j old ne) (f.read j)
          ];
          seed = λ j. elim (ℕ_discrete j k) [
            | yes e ↦
                rw (e, update_self m.ctrl_buffer k old)
                  (λ sr. absurd (recycle_unsent (m.ctrl_buffer k) sr))
            | no ne ↦ rw (update_ne m.ctrl_buffer k j old ne) (f.seed j)
          ];
          current = λ _.
              rw (update_ne m.ctrl_buffer k ((m.frame_count + 1) % 5) old (omega arith))
                (stalls-lacks m s c);
          outbox = f.outbox;
        };
        same_host = refl;
        zeros = λ j z. ground arith;
      }

  -- A new frame: the place of the old one is recycled, and that of the new one is complete.
  pub retrace_handler-Keeps : (m : Machine) → IsFaithful pads m → Keeps pads m (retrace_handler m).1
  retrace_handler-Keeps m f = elim (retrace_handler-cases m) [
    | inl e ↦ rw e (refl-Keeps pads m f)
    | inr (s, c, e) ↦ rw e (advance_frame-Keeps m f s c)
  ]
