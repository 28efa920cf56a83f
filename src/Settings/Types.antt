-- ===== src/Settings/Types.antt =====
-- The data of src/settings/settings.c. A pointer to a constant description is the description.
use netslugplus.Base.{
  ℕ, Bool, false, ◌&&◌, leb, if◌then◌else◌, List, Option, map, bytes_eq, none, ◌+◌, ◌∷◌, [], codes,
}

pub data VariableType : Type 0 where
  int bool char_ptr ip : VariableType

-- `settings_value_t`. An `int` is its bit pattern; a comment that is not there is `none`.
pub record Setting : Type 0 where
  pub hidden : Bool
  pub name : List ℕ
  pub address : ℕ
  pub kind : VariableType
  pub min : ℕ
  pub max : ℕ
  pub comment : Option (List ℕ)
  pub default_value : ℕ

pub record Category : Type 0 where
  pub name : List ℕ
  pub settings : List Setting

-- The variables at the settings' addresses: numbers, and texts.
pub record Store : Type 0 where
  pub ints : ℕ → ℕ
  pub texts : ℕ → List ℕ

-- `settings_fileParseState_t`; `buffer` is the first `bufferLocation` bytes of the array. The low
-- two bits of `state` are 0 in `x = y`, 1 in a comment, 2 after an error and 3 in `[ ]`; bit 2 is
-- set when a space was met.
pub record FileParseState : Type 0 where
  pub category : Option Category
  pub value : Option Setting
  pub state : ℕ
  pub buffer : List ℕ

-- `sizeof(state->buffer) - 1`
abbrev pub buffer_room : ℕ
buffer_room = 255

unfoldable pub to_lower : ℕ → ℕ
to_lower c = if leb b'A' c && leb c b'Z' then c + 32 else c

-- `!strcasecmp(a, b)`
unfoldable pub same_name : List ℕ → List ℕ → Bool
unfolding to_lower
same_name a b = bytes_eq (map to_lower a) (map to_lower b)

-- `network_settings`: the initialisers leave `min` and `max` at 0. The addresses are 0 and 1.
abbrev pub host_ip_setting : Setting
host_ip_setting = record {
  hidden = false;
  name = codes "host_ip";
  address = 0;
  kind = ip;
  min = 0;
  max = 0;
  comment = none;
  default_value = 0;
}

abbrev pub port_setting : Setting
port_setting = record {
  hidden = false;
  name = codes "port";
  address = 1;
  kind = int;
  min = 0;
  max = 0;
  comment = none;
  default_value = 0;
}

abbrev pub settings_categories : List Category
settings_categories =
    record { name = codes "network"; settings = host_ip_setting ∷ port_setting ∷ [] } ∷ []

-- `settings_init`: the defaults are the variables' values at the start.
unfoldable pub init_setting : Store → Setting → Setting
init_setting st s = record s { default_value = st.ints s.address }

unfoldable pub init_category : Store → Category → Category
unfolding init_setting
init_category st c = record c { settings = map (init_setting st) c.settings }

unfoldable pub init_categories : Store → List Category → List Category
unfolding init_category
init_categories st cs = map (init_category st) cs
