-- ===== src/Module/Size.antt =====
-- The size of a module that `Module_LoadElf` of src/modules/module.c computes, and that of all, which
-- `Module_Main` rounds up. The sizes of what fits a console's memory are below 2 ^ 32.
use netslugplus.Base.{ℕ, ◌+◌, ◌-◌, ◌*◌, ◌/◌, ◌%◌, if◌then◌else◌, List, [], ◌∷◌, none, some}
use netslugplus.Module.Elf.{Section, Sections}
use netslugplus.Module.Place.{nameless, meta, load_entries, body, role, is_loaded, unit}

-- `n += -n & (u - 1)`, for a power of two.
unfoldable pub round_up : ℕ → ℕ → ℕ
round_up n u = n + (u - n % u) % u

unfoldable pub add_size : Section → ℕ → ℕ
add_size s n =
    if is_loaded s
    then (elim (role s.name) [
      | nameless ↦ n
      | meta ↦ n
      | load_entries ↦ n + s.size / 12 * 12
      | body ↦ round_up (n + s.size) (unit s.align)
    ])
    else n

unfoldable pub sizes : Sections → ℕ → ℕ
sizes [] n = n
sizes (none ∷ ss) n = sizes ss n
sizes (some s ∷ ss) n = sizes ss (add_size s n)

-- `metadata->size`
unfoldable pub module_size : Sections → ℕ
module_size file = round_up (sizes file 0) 4

-- `module_list_size`, of modules each with the place of its entries.
unfoldable pub modules_size : List (ℕ × Sections) → ℕ
modules_size [] = 0
modules_size ((heap, file) ∷ ms) = module_size file + modules_size ms

unfoldable pub list_size : List (ℕ × Sections) → ℕ
list_size ms = round_up (modules_size ms) 32
