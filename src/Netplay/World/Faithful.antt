-- ===== src/Netplay/World/Faithful.antt =====
-- What one console keeps of the input that was read for each frame.
use netslugplus.Base.{
  ℕ, zero, suc, ◌%◌, ◌<◌, ◌≡◌, refl, true, update, update_self, update_ne, ℕ_discrete,
}
use netslugplus.Netplay.Types.{
  Controller, Payload, controller, di_read, unknown, CtrlPacket, Machine,
}
use netslugplus.Netplay.Threads.{next_seed}

-- The value of `frameSeed` before round `n` of the host's send thread.
abbrev pub seeds : ℕ → ℕ
seeds zero = 0
seeds (suc n) = next_seed (seeds n)

-- The input that a packet has of the two players is what was read for its frame. The first frames,
-- up to frame 5, are left out: the host sends them without waiting for input.
abbrev pub HasRead : (ℕ → ℕ → Controller) → CtrlPacket → Type 0
HasRead pads p =
    (i : ℕ)
    → i < 2
    → p.have_input i ≡ true
    → 5 < p.frame_number
    → p.controllers i ≡ pads i p.frame_number

abbrev pub PayloadHasRead : (ℕ → ℕ → Controller) → Payload → Type 0
PayloadHasRead pads (controller frame i c) = i < 2 → c ≡ pads i frame
PayloadHasRead pads (di_read _) = Unit
PayloadHasRead pads unknown = Unit

abbrev pub HasSeed : CtrlPacket → Type 0
HasSeed p = p.frame_seed ≡ seeds (suc p.frame_number)

-- The place of the current frame still holds the packet of that frame, complete.
pub record IsCurrent (now : ℕ) (p : CtrlPacket) : Type 0 where
  pub number : p.frame_number ≡ now
  pub sent_or_recv : p.have_sent_or_recv ≡ true
  pub input0 : p.have_input 0 ≡ true
  pub input1 : p.have_input 1 ≡ true

pub record IsFaithful (pads : ℕ → ℕ → Controller) (m : Machine) : Type 0 where
  pub read : (i : ℕ) → HasRead pads (m.ctrl_buffer i)
  pub seed : (i : ℕ) → (m.ctrl_buffer i).have_sent_or_recv ≡ true → HasSeed (m.ctrl_buffer i)
  pub current : 0 < m.frame_count → IsCurrent m.frame_count (m.ctrl_buffer (m.frame_count % 5))
  pub outbox :
      (i : ℕ) → (m.send_buffer i).sent ≡ 1 → PayloadHasRead pads (m.send_buffer i).packet.payload

module _ (pads : ℕ → ℕ → Controller) where
  -- One place is written.
  pub place-IsFaithful :
      (m : Machine) (k : ℕ) (p : CtrlPacket)
      → IsFaithful pads m
      → HasRead pads p
      → (p.have_sent_or_recv ≡ true → HasSeed p)
      → (0 < m.frame_count → IsCurrent m.frame_count (m.ctrl_buffer k) → IsCurrent m.frame_count p)
      → IsFaithful pads (record m { ctrl_buffer = update m.ctrl_buffer k p })
  place-IsFaithful m k p f read seed current = record {
    read = λ j. elim (ℕ_discrete j k) [
      | yes e ↦ rw (e, update_self m.ctrl_buffer k p) read
      | no ne ↦ rw (update_ne m.ctrl_buffer k j p ne) (f.read j)
    ];
    seed = λ j. elim (ℕ_discrete j k) [
      | yes e ↦ rw (e, update_self m.ctrl_buffer k p) seed
      | no ne ↦ rw (update_ne m.ctrl_buffer k j p ne) (f.seed j)
    ];
    current = λ pos. elim (ℕ_discrete (m.frame_count % 5) k) [
      | yes e ↦ rw (e, update_self m.ctrl_buffer k p) (current pos (rw e at (f.current pos)))
      | no ne ↦ rw (update_ne m.ctrl_buffer k (m.frame_count % 5) p ne) (f.current pos)
    ];
    outbox = f.outbox;
  }

  -- What a step makes of one machine.
  pub record Keeps (m m' : Machine) : Type 0 where
    pub faithful : IsFaithful pads m'
    pub same_host : m'.host ≡ m.host
    pub zeros : (i : ℕ) → (m'.ctrl_buffer i).frame_number ≡ 0 → (m.ctrl_buffer i).frame_number ≡ 0

  -- Steps that touch neither `ctrlBuffer` nor `sendBuffer` nor the count of frames.
  pub same-Keeps :
      (m m' : Machine)
      → IsFaithful pads m
      → m'.ctrl_buffer ≡ m.ctrl_buffer
      → m'.send_buffer ≡ m.send_buffer
      → m'.frame_count ≡ m.frame_count
      → m'.host ≡ m.host
      → Keeps m m'
  same-Keeps m m' f cb sb fc h = record {
    faithful = record {
      read = rw cb f.read;
      seed = rw cb f.seed;
      current = rw (cb, fc) f.current;
      outbox = rw sb f.outbox;
    };
    same_host = h;
    zeros = rw cb (λ i z. z);
  }

  pub refl-Keeps : (m : Machine) → IsFaithful pads m → Keeps m m
  refl-Keeps m f = same-Keeps m m f refl refl refl refl
