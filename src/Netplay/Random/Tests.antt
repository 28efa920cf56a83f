-- ===== src/Netplay/Random/Tests.antt =====
-- Random numbers on two consoles.
use netslugplus.Base.{◌<◌, ◌≡◌, ◌⊎◌, arith, Bool, true, [], if◌then◌else◌, ◌==◌}
use netslugplus.Netplay.Types.{Controller, CtrlPacket, Machine, unknown}
use netslugplus.Netplay.Random.{Rng, rng_rand, locate, last_thread}
use netslugplus.Netplay.Random.Fresh.{entry_of, locate-own, rng_rand-lt}

abbrev no_pad : Controller
no_pad = record {
  format = 0;
  status = 0;
  extension = 0;
  inputs = [];
  gravity_unit0 = 0;
  gravity_unit1 = 0;
}

abbrev slot : CtrlPacket
slot = record {
  frame_number = 0;
  frame_seed = 5;
  have_sent_or_recv = true;
  have_input = λ _. true;
  controllers = λ _. no_pad;
  callback_sector = 0;
  dance_a6c9 = 0;
  dance_a6ca = 0;
  dance_a6cb = 0;
}

abbrev console : Bool → Machine
console host = record {
  host = host;
  ctrl_buffer = λ _. slot;
  send_buffer = λ _. record { sent = 0; packet = record { client_number = 0; payload = unknown } };
  send_buffer_pos = 0;
  ioctl_buffer = [];
  frame_count = 400;
  created_thread = true;
  wpad = record {
    connect_callback = λ _. 0;
    extension_callback = λ _. 0;
    sampling_callback = λ _. 0;
    auto_sampling_buffer = λ _. 0;
    auto_sampling_buffer_count = λ _. 0;
    auto_sampling_buffer_index = λ _. 0;
    current_format = λ _. 0;
  };
}

-- A table whose first two entries are in use, and one with nothing in it.
abbrev used : Rng
used = record {
  threads = λ i.
      if i == 0
      then record { id = 70; last_seen_frame = 399; counter = 17 }
      else if i == 1
      then record { id = 80; last_seen_frame = 200; counter = 18 }
      else record { id = 0; last_seen_frame = 0; counter = 0 };
  last_index = 0;
}

abbrev unused : Rng
unused = record {
  threads = λ _. record { id = 0; last_seen_frame = 0; counter = 0 };
  last_index = 0;
}

locate-own_example : ((entry_of 80 used).id ≡ 80) ⊎ ((locate 80 used).0 ≡ last_thread)
locate-own_example = locate-own 80 used

rng_rand-lt_example : (rng_rand 80 6 (console true) used).0 < 6
rng_rand-lt_example = rng_rand-lt 80 6 (console true) used (omega arith)
