-- ===== src/Module/Tests.antt =====
-- Relocations and stubs on concrete words.
use netslugplus.Base.{
  suc, ◌-◌, ℕ, ◌+◌, ◌*◌, ◌^◌, ◌≤◌, ◌<◌, ◌≡◌, ◌⊎◌, ◌↔◌, inl, refl, arith, true, Option, none, some,
  [], ◌==◌, if◌then◌else◌,
}
use netslugplus.Module.Relocation.{
  addr16_ha, addr16_lo, rel24, wrap, minus, link_one, half, word, relocation_value, field_of, patch,
}
use netslugplus.Module.PowerPc.{next_pc, follow, sign16, sign_half}
use netslugplus.Module.Lands.{link_one-ha_lo, link_one-rel24}
use netslugplus.Module.Capacity.{list_allocate, list_allocate-room, list_allocate-hangs}
use netslugplus.Module.Replace.{Loader, hook, stub_size, original}
use netslugplus.Module.Stub.{hook-Stands}

ha : link_one addr16_ha 2 0 0x81700000 0x8001fff0 0x3c600000 ≡ some (half 0x8002)
unfolding link_one relocation_value field_of patch
ha = refl

lo : link_one addr16_lo 6 0 0x81700000 0x8001fff0 0x38630000 ≡ some (half 0xfff0)
unfolding link_one relocation_value field_of patch
lo = refl

-- 0x8001fff0, whose low half is negative: 0x8002 and 0xfff0.
link_one-ha_lo_example : wrap (0x8002 * 2 ^ 16 + sign_half 0xfff0) ≡ wrap (0x8001fff0 + 0)
link_one-ha_lo_example =
    link_one-ha_lo 0x8001fff0 0 2 6 0x81700000 0x81700000 0x3c600000 0x38630000 0x8002 0xfff0 ha lo

abbrev never : ℕ → Option ℕ
never w = none

patched : link_one rel24 0x10 0 0x81700000 0x80004000 0x48000001 ≡ some (word 0x4a903ff1)
unfolding link_one relocation_value field_of patch
patched = refl

-- `bl` at 0x81700010 to 0x80004000.
link_one-rel24_example :
    (next_pc never true (0x81700000 + 0x10) 0x4a903ff1 ≡ wrap (0x80004000 + 0)) ↔ (
      (minus (0x80004000 + 0) (0x81700000 + 0x10) < 2 ^ 25)
      ⊎ (2 ^ 32 - 2 ^ 25 ≤ minus (0x80004000 + 0) (0x81700000 + 0x10)))
link_one-rel24_example =
    link_one-rel24 never true 0x80004000 0 0x10 0x81700000 0x48000001 0x4a903ff1 patched refl
      (omega arith) refl refl

list_allocate-room_example :
    (c : ℕ) × ((list_allocate (suc (100 + 60)) 60 128 128 100 ≡ some (100, 100 + 60, c))
      × (100 + 60 ≤ c))
list_allocate-room_example = list_allocate-room 60 128 128 100 (inl (omega arith, omega arith))

-- The first module has 200 entries.
list_allocate-hangs_example : list_allocate 1000 200 128 0 0 ≡ none
list_allocate-hangs_example = list_allocate-hangs 1000 200 128 0 (omega arith) (omega arith)

-- `bne` at 0x80005000, to 0x80005040.
abbrev loader : Loader
loader = record {
  memory = λ a. if a == 0x80005000 then 0x40820040 else 0x60000000;
  space = 0x81700000;
  tables = record { module_symbols = []; sorted_count = 0; globals = []; start = 0 };
}

stub_end : (hook 0x80005000 0x81710000 loader).space ≡ 0x816ffff4
unfolding hook stub_size original
stub_end = refl

goes_on : next_pc never true 0x80005000 0x40820040 ≡ 0x80005040
unfolding next_pc sign16
goes_on = refl

hook-Stands_example :
    (next_pc never true 0x80005000 ((hook 0x80005000 0x81710000 loader).memory 0x80005000)
      ≡ 0x81710000)
    × (follow 3 never true
          (hook 0x80005000 0x81710000 loader).memory
          (hook 0x80005000 0x81710000 loader).space
          0x81700000
          (hook 0x80005000 0x81710000 loader).space
        ≡ next_pc never true 0x80005000 0x40820040)
hook-Stands_example =
    hook-Stands never true 0x80005000 0x81710000 loader (omega arith, omega arith, omega arith)
      (omega arith, omega arith, omega arith) refl (omega arith) (omega arith)
      (rw goes_on (omega arith, omega arith, omega arith)) (rw (goes_on, stub_end) (omega arith))
