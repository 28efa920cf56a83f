-- ===== src/Netplay/Wpad.antt =====
-- The replacements of the game's WPAD functions: what they answer comes from the packet of the
-- current frame, not from the Wii Remotes.
use Prim.Native.Nat.{bit_and}
use netslugplus.Base.{
  ℕ, ◌-◌, ◌%◌, Bool, not, ◌==◌, leb, if◌then◌else◌, update, List, ◌++◌, take, replicate,
}
use netslugplus.Netplay.Types.{CtrlPacket, Machine, Wpad, buffer_size, status_disconnected}

abbrev pub current_slot : Machine → CtrlPacket
current_slot m = m.ctrl_buffer (m.frame_count % buffer_size)

-- `WPADDataFormatSize`
unfoldable pub data_format_size : ℕ → ℕ
data_format_size format =
    if leb format 2
    then 0x2a
    else if leb format 5
    then 0x32
    else if leb format 8
    then 0x36
    else 0x5a

-- `MyWPADRead`: the bytes that it leaves at `data`.
unfoldable pub read_data : Machine → ℕ → List ℕ
unfolding data_format_size
read_data m wiimote =
    let c = (current_slot m).controllers wiimote in
    let size = data_format_size (m.wpad.current_format wiimote) in
    if c.format == m.wpad.current_format wiimote
    then take size c.inputs
    else take (data_format_size 0) c.inputs ++ replicate (size - data_format_size 0) 0

-- `MyWPADProbe`: the status, and what it leaves at `extension`.
unfoldable pub probe : Machine → ℕ → ℕ × ℕ
probe m wiimote = let c = (current_slot m).controllers wiimote in (c.status, c.extension)

-- `MyWPADGetAccGravityUnit`
unfoldable pub gravity_unit : Machine → ℕ → ℕ → ℕ
gravity_unit m wiimote extension =
    let c = (current_slot m).controllers wiimote in
    if extension == 0 then c.gravity_unit0 else if extension == 1 then c.gravity_unit1 else 0

-- `MyWPADSetConnectCallback` and its like: the callback before, and the new arrays.
unfoldable pub set_connect_callback : ℕ → ℕ → Wpad → ℕ × Wpad
set_connect_callback i f w =
    (w.connect_callback i, record w { connect_callback = update w.connect_callback i f })

unfoldable pub set_extension_callback : ℕ → ℕ → Wpad → ℕ × Wpad
set_extension_callback i f w =
    (w.extension_callback i, record w { extension_callback = update w.extension_callback i f })

unfoldable pub set_sampling_callback : ℕ → ℕ → Wpad → ℕ × Wpad
set_sampling_callback i f w =
    (w.sampling_callback i, record w { sampling_callback = update w.sampling_callback i f })

-- `MyWPADSetAutoSamplingBuf` and `MyWPADGetLatestIndexInBuf`
unfoldable pub set_auto_sampling_buf : ℕ → ℕ → ℕ → Wpad → Wpad
set_auto_sampling_buf i buffer count w = record w {
  auto_sampling_buffer = update w.auto_sampling_buffer i buffer;
  auto_sampling_buffer_count = update w.auto_sampling_buffer_count i count;
}

unfoldable pub latest_index_in_buf : ℕ → Wpad → ℕ
latest_index_in_buf i w = w.auto_sampling_buffer_index i

-- `MyWPADSetDataFormat`: the new arrays, and what is returned. `real` is what the function of the
-- console answers for its own Wii Remote; -1 is by its bit pattern.
unfoldable pub set_data_format : Bool → ℕ → ℕ → ℕ → Wpad → Wpad × ℕ
set_data_format host real i format w = (
  record w { current_format = update w.current_format i format },
  if i == 0
      then if host then real else 0
      else if i == 1
      then if host then 0 else real
      else status_disconnected,
)

-- `MySMNDance_GetUnkown_a6c9`
abbrev pub dance_a6c9_now : Machine → ℕ
dance_a6c9_now m = (current_slot m).dance_a6c9

-- `MySMNDance_GetUnkown_a6c9Mask`
abbrev pub dance_a6c9_mask : ℕ → Machine → Bool
dance_a6c9_mask mask m = dance_a6c9_now m == mask

-- `MySMNDance_GetMask`
abbrev pub dance_mask : Machine → ℕ
dance_mask m = (current_slot m).dance_a6ca

-- `MySMNDance_Enabled`
abbrev pub dance_enabled : ℕ → Machine → Bool
dance_enabled mask m = not (bit_and (dance_mask m) mask == 0)

-- `MySMNDance_GetUnkown_a6cb`
abbrev pub dance_a6cb_now : Machine → ℕ
dance_a6cb_now m = (current_slot m).dance_a6cb
