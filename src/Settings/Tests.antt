-- ===== src/Settings/Tests.antt =====
-- Configuration files, loaded and saved.
use netslugplus.Base.{
  ℕ, ◌%◌, ◌^◌, ◌≡◌, refl, arith, ◌⊎◌, List, [], ◌∷◌, codes, some, none, bytes_eq, if◌then◌else◌,
  ◌==◌, false,
}
use netslugplus.Settings.Types.{
  int, Setting, Category, Store, FileParseState, settings_categories, init_categories,
  host_ip_setting, port_setting, same_name, to_lower,
}
use netslugplus.Settings.Commit.{
  commit, commit_option, commit_value, commit_int, parse_ip, parse_int, read_sign, read_radix,
  read_digits, digit_value, signed_lt,
}
use netslugplus.Settings.Parser.{
  parse_byte, parse_update, load, fresh, on_newline, on_hash, on_open, on_close, on_equals,
  on_blank, put_char, parse_category, parse_name, find_category, find_setting,
}
use netslugplus.Settings.Save.{save, print_ip}
use netslugplus.Settings.Buffer.{Fits, parse_update-Fits, parse_update-spaced}
use netslugplus.Settings.Load.{Within, load-Within}
use netslugplus.Settings.Port.{port-zero}
use netslugplus.Settings.Address.{parse_ip-print_ip}
use netslugplus.Settings.RoundTrip.{load-save}

abbrev no_store : Store
no_store = record { ints = λ _. 0; texts = λ _. [] }

-- Host 192.168.1.77 and port 5029.
abbrev saved : Store
saved = record { ints = λ a. if a == 0 then 3232235853 else 5029; texts = λ _. [] }

abbrev volume : Setting
volume = record {
  hidden = false;
  name = codes "volume";
  address = 3;
  kind = int;
  min = 1;
  max = 100;
  comment = none;
  default_value = 10;
}

abbrev audio : Category
audio = record { name = codes "audio"; settings = volume ∷ [] }

abbrev at_volume : List ℕ → FileParseState
at_volume t = record { category = some audio; value = some volume; state = 0; buffer = t }

abbrev audio_file : List ℕ
audio_file = codes "[audio]\nVolume = 0x4B # loud\n"

audio_file-loads : (load (audio ∷ []) audio_file no_store).ints 3 ≡ 75
unfolding load parse_update parse_byte on_newline on_hash on_open on_close on_equals on_blank
    put_char parse_category parse_name commit commit_option commit_value commit_int find_category
    find_setting same_name to_lower bytes_eq parse_int read_sign read_radix read_digits digit_value
    signed_lt
audio_file-loads = refl

parse_update-Fits_example : Fits (parse_update (audio ∷ []) audio_file (fresh, no_store))
parse_update-Fits_example =
    parse_update-Fits (audio ∷ []) audio_file (fresh, no_store) (omega arith)

abbrev spaced_state : FileParseState
spaced_state = record (at_volume (codes "a")) { state = 4 }

-- "a bc" is kept as "a b c".
parse_update-spaced_example :
    parse_update (audio ∷ []) (codes "bc") (spaced_state, no_store)
    ≡ (record spaced_state { buffer = codes "a b c" }, no_store)
parse_update-spaced_example =
    parse_update-spaced (audio ∷ []) (codes "bc") spaced_state no_store (refl, (refl, tt)) refl
      (omega arith)

load-Within_example : Within 3 1 100 0 ((load (audio ∷ []) audio_file no_store).ints 3)
load-Within_example =
    load-Within 3 1 100 (audio ∷ []) audio_file no_store ((λ _. (refl, refl, refl), tt), tt)

port-zero_example :
    ((load
          (init_categories no_store settings_categories)
          (codes "[network]\nport = 5029\n")
          no_store).ints
        port_setting.address
      ≡ no_store.ints port_setting.address)
    ⊎ ((load
              (init_categories no_store settings_categories)
              (codes "[network]\nport = 5029\n")
              no_store).ints
            port_setting.address
          % 2 ^ 32
        ≡ 0)
port-zero_example = port-zero (codes "[network]\nport = 5029\n") no_store no_store

parse_ip-print_ip_example : parse_ip (print_ip 3232235853) ≡ some 3232235853
parse_ip-print_ip_example = parse_ip-print_ip 3232235853 (omega arith)

load-save_example :
    (load
        (init_categories no_store settings_categories)
        (save (init_categories no_store settings_categories) saved)
        no_store).ints
      host_ip_setting.address
    ≡ 3232235853
load-save_example = load-save no_store saved no_store (omega arith)
