-- ===== src/Settings/RoundTrip.antt =====
-- `settings_save`, and `settings_load` of the file that it wrote.
use netslugplus.Base.{
  ℕ, ◌^◌, ◌<◌, ◌≡◌, ◌∙◌, ap, refl, arith, List, [], ◌∷◌, ◌++◌, append_nil, append_assoc, codes,
  bytes_eq, some, update, update_self,
}
use netslugplus.Settings.Types.{
  int, Setting, Category, Store, FileParseState, settings_categories, init_categories,
  host_ip_setting, port_setting, init_setting, init_category, same_name, to_lower,
}
use netslugplus.Settings.Parser.{
  parse_byte, parse_update, load, at_eof, fresh, on_newline, on_hash, on_open, on_close, on_equals,
  on_blank, put_char, parse_category, parse_name, find_category, find_setting,
}
use netslugplus.Settings.Commit.{commit, commit_option, commit_value}
use netslugplus.Settings.Save.{
  save, print_ip, print_int, save_categories, save_settings, save_setting, print_value,
}
use netslugplus.Settings.Text.{
  parse_update-append, parse_update-text, print_ip-IsText, print_int-IsText, length-print_ip,
  length-print_int,
}
use netslugplus.Settings.Address.{parse_ip-print_ip}
use netslugplus.Settings.Load.{commit_value-other}

module _ (st0 : Store) where
  abbrev host_ip : Setting
  host_ip = record host_ip_setting { default_value = st0.ints 0 }

  abbrev port : Setting
  port = record port_setting { default_value = st0.ints 1 }

  abbrev network : Category
  network = record { name = codes "network"; settings = host_ip ∷ port ∷ [] }

  abbrev cats : List Category
  cats = network ∷ []

  init-cats : init_categories st0 settings_categories ≡ cats
  unfolding init_categories init_category init_setting
  init-cats = refl

  abbrev head_text : List ℕ
  head_text = codes "# Auto generated config for netslug\r\n\r\n[network]\r\nhost_ip = "

  abbrev port_text : List ℕ
  port_text = codes "\r\nport = "

  abbrev end_text : List ℕ
  end_text = codes "\r\n"

  save-text :
      (st : Store)
      → save cats st
        ≡ head_text ++ (print_ip (st.ints 0) ++ (port_text ++ (print_int (st.ints 1) ++ end_text)))
  unfolding save save_categories save_settings save_setting print_value
  save-text st =
      ap (λ t. head_text ++ t)
        (append_nil _
          ∙ (append_assoc (print_ip (st.ints 0)) end_text _
              ∙ ap (λ t. print_ip (st.ints 0) ++ (port_text ++ t))
                  (append_nil (print_int (st.ints 1) ++ end_text))))

  after_head :
      (st : Store)
      → parse_update cats head_text (fresh, st)
        ≡ (record { category = some network; value = some host_ip; state = 0; buffer = [] }, st)
  unfolding parse_update parse_byte on_newline on_hash on_open on_close on_equals on_blank put_char
      parse_category parse_name commit commit_option find_category find_setting same_name to_lower
      bytes_eq
  after_head st = refl

  abbrev at_value : Setting → List ℕ → FileParseState
  at_value s t = record { category = some network; value = some s; state = 0; buffer = t }

  -- The line of the address, read.
  after_ip :
      (v : ℕ) (st : Store)
      → v < 2 ^ 32
      → parse_update cats port_text (at_value host_ip (print_ip v), st)
        ≡ (at_value port [], record st { ints = update st.ints 0 v })
  unfolding parse_update parse_byte on_newline on_hash on_open on_close on_equals on_blank put_char
      parse_category parse_name commit commit_option commit_value find_category find_setting
      same_name to_lower bytes_eq
  after_ip v st h = rw (parse_ip-print_ip v h) refl

  -- The line of the port, read, does not touch the address.
  after_port :
      (t : List ℕ) (st : Store)
      → (at_eof (parse_update cats end_text (at_value port t, st))).ints 0 ≡ st.ints 0
  unfolding parse_update parse_byte on_newline commit commit_option
  after_port t st =
      commit_value-other 0 0 0 int port (at_value port t) st (λ e. absurd (omega arith))

  load-rest :
      (v q : ℕ) (st : Store)
      → v < 2 ^ 32
      → (at_eof (
            parse_update cats
              (port_text ++ (print_int q ++ end_text))
              (at_value host_ip (print_ip v), st))).ints
          0
        ≡ v
  load-rest v q st h =
      let st' = record st { ints = update st.ints 0 v } in
      rw
        (parse_update-append cats port_text (print_int q ++ end_text)
          (at_value host_ip (print_ip v), st))
        (rw (after_ip v st h) (
          rw (parse_update-append cats (print_int q) end_text (at_value port [], st')) (
            rw
              (parse_update-text cats (print_int q) (at_value port []) st' (print_int-IsText q) refl
                (omega (arith, length-print_int q)))
              (after_port (print_int q) st' ∙ update_self st.ints 0 v))))

  load-text :
      (v q : ℕ) (st : Store)
      → v < 2 ^ 32
      → (load cats (head_text ++ (print_ip v ++ (port_text ++ (print_int q ++ end_text)))) st).ints
          0
        ≡ v
  unfolding load
  load-text v q st h =
      rw
        (parse_update-append cats head_text (print_ip v ++ (port_text ++ (print_int q ++ end_text)))
          (fresh, st))
        (rw (after_head st) (
          rw
            (parse_update-append cats (print_ip v) (port_text ++ (print_int q ++ end_text))
              (at_value host_ip [], st))
            (rw
              (parse_update-text cats (print_ip v) (at_value host_ip []) st (print_ip-IsText v) refl
                (omega (arith, length-print_ip v)))
              (load-rest v q st h))))

-- With the program's own settings, whose defaults are the variables' values at the start: to load
-- the file that was saved gives back the host's address, where it is a number of 32 bits, whatever
-- the variables held before the load.
pub load-save :
    (st0 saved st : Store)
    → saved.ints host_ip_setting.address < 2 ^ 32
    → (load
          (init_categories st0 settings_categories)
          (save (init_categories st0 settings_categories) saved)
          st).ints
        host_ip_setting.address
      ≡ saved.ints host_ip_setting.address
load-save st0 saved st h =
    rw (init-cats st0) (rw (save-text st0 saved) (load-text st0 (saved.ints 0) (saved.ints 1) st h))
