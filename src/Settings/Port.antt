-- ===== src/Settings/Port.antt =====
-- The setting `port`, whose `min` and `max` are left at 0.
use netslugplus.Base.{ℕ, ◌%◌, ◌^◌, ◌≡◌, refl, arith, ◌⊎◌, inl, inr, false, List}
use netslugplus.Settings.Types.{
  Store, port_setting, settings_categories, init_categories, init_category, init_setting,
}
use netslugplus.Settings.Commit.{signed_lt}
use netslugplus.Settings.Parser.{load}
use netslugplus.Settings.Load.{load-Within}

-- The only signed number that is not below 0 and not above 0.
signed-zero : (v : ℕ) → signed_lt v 0 ≡ false → signed_lt 0 v ≡ false → v % 2 ^ 32 ≡ 0
unfolding signed_lt
signed-zero v l h = ground arith

-- With the program's own settings, whatever the file holds: to load it leaves the port as it was,
-- or sets it to a number whose low 32 bits are 0. No file sets another port.
pub port-zero :
    (file : List ℕ) (st0 st : Store)
    → ((load (init_categories st0 settings_categories) file st).ints port_setting.address
        ≡ st.ints port_setting.address)
      ⊎ ((load (init_categories st0 settings_categories) file st).ints port_setting.address % 2 ^ 32
          ≡ 0)
unfolding init_categories init_category init_setting
port-zero file st0 st =
    elim (load-Within 1 0 0 (init_categories st0 settings_categories) file st
      ((λ e. absurd (omega arith), (λ e. (refl, refl, refl), tt)), tt)) [
        | inl e ↦ inl e
        | inr (l, h) ↦ inr (signed-zero _ l h)
      ]
