-- ===== src/Netplay/Types.antt =====
-- The data of modules/netslug_main/main.c.
use netslugplus.Base.{ℕ, ◌-◌, ◌^◌, Bool, List}

-- What the parallel arrays `formats`, `status`, `extension`, `inputs` and `gravityUnit` of a
-- `ctrlPacket` hold for one Wii Remote, and what the `controller` part of a `sendPacket` carries.
-- `inputs` is the bytes of a `WPADData_t`. A `WPADAccGravityUnit_t` is only copied or cleared, so it
-- is a number here, 0 if it is clear.
pub record Controller : Type 0 where
  pub format : ℕ
  pub status : ℕ
  pub extension : ℕ
  pub inputs : List ℕ
  pub gravity_unit0 : ℕ
  pub gravity_unit1 : ℕ

-- WPAD_STATUS_DISCONNECTED is -1, by its bit pattern.
abbrev pub status_disconnected : ℕ
status_disconnected = 2 ^ 32 - 1

abbrev pub extension_unknown : ℕ
extension_unknown = 255

-- The union `data`, by the field `type` of a `sendPacket`: 0, 1 or any other number.
pub data Payload : Type 0 where
  controller : ℕ → ℕ → Controller → Payload
  di_read : ℕ → Payload
  unknown : Payload

pub record SendPacket : Type 0 where
  pub client_number : ℕ
  pub payload : Payload

-- A place of `sendBuffer`: the packet, and its field `sent`.
pub record SendSlot : Type 0 where
  pub sent : ℕ
  pub packet : SendPacket

pub record CtrlPacket : Type 0 where
  pub frame_number : ℕ
  pub frame_seed : ℕ
  pub have_sent_or_recv : Bool
  pub have_input : ℕ → Bool
  pub controllers : ℕ → Controller
  pub callback_sector : ℕ
  pub dance_a6c9 : ℕ
  pub dance_a6ca : ℕ
  pub dance_a6cb : ℕ

-- `struct IoctlManager`; `state` is 0 (free), 1 (the read was issued) or 2 (the read has ended).
pub record IoctlManager : Type 0 where
  pub state : ℕ
  pub sector : ℕ
  pub user_data : ℕ
  pub callback : ℕ
  pub have_callback : ℕ → Bool
  pub have_sent : Bool

abbrev pub ioctl_buffer_size : ℕ
ioctl_buffer_size = 20

abbrev pub buffer_size : ℕ
buffer_size = 5

-- The arrays of four that the replaced WPAD functions keep; a callback that is not set is 0.
pub record Wpad : Type 0 where
  pub connect_callback : ℕ → ℕ
  pub extension_callback : ℕ → ℕ
  pub sampling_callback : ℕ → ℕ
  pub auto_sampling_buffer : ℕ → ℕ
  pub auto_sampling_buffer_count : ℕ → ℕ
  pub auto_sampling_buffer_index : ℕ → ℕ
  pub current_format : ℕ → ℕ

-- The variables of one console that its threads and the retrace handler share.
pub record Machine : Type 0 where
  pub host : Bool
  pub ctrl_buffer : ℕ → CtrlPacket
  pub send_buffer : ℕ → SendSlot
  pub send_buffer_pos : ℕ
  pub ioctl_buffer : List IoctlManager
  pub frame_count : ℕ
  pub created_thread : Bool
  pub wpad : Wpad

-- A step of a thread ends, or the thread sleeps with the state as it was, or memory outside an
-- array would be written.
pub data Outcome {ℓ} (A : Type ℓ) : Type ℓ where
  done : A → Outcome A
  wait : Outcome A
  fault : Outcome A

infixl 5 ◌>>=◌
abbrev pub ◌>>=◌ {ℓ κ} : {A : Type ℓ} {B : Type κ} → Outcome A → (A → Outcome B) → Outcome B
done a >>= f = f a
wait >>= f = wait
fault >>= f = fault
