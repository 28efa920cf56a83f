-- ===== src/Module/PowerPc.antt =====
-- Where the processor goes after an instruction: by the PowerPC's manual, not by the loader.
use netslugplus.Base.{
  ℕ, zero, suc, ◌+◌, ◌-◌, ◌*◌, ◌/◌, ◌%◌, ◌^◌, Bool, ◌&&◌, ◌==◌, ltb, leb, if◌then◌else◌, Option,
  none, some,
}
use netslugplus.Module.Relocation.{wrap}

-- The displacement of `b`, of 26 bits, and that of `bc`, of 16 bits, with their signs.
unfoldable pub sign26 : ℕ → ℕ
sign26 w = let d = w % 2 ^ 26 / 4 * 4 in if ltb d (2 ^ 25) then d else d + (2 ^ 32 - 2 ^ 26)

unfoldable pub sign16 : ℕ → ℕ
sign16 w = let d = w % 2 ^ 16 / 4 * 4 in if ltb d (2 ^ 15) then d else d + (2 ^ 32 - 2 ^ 16)

-- A half word with its sign.
unfoldable pub sign_half : ℕ → ℕ
sign_half h = if ltb h (2 ^ 15) then h else h + (2 ^ 32 - 2 ^ 16)

-- The opcode, of six bits, where the bit for an absolute address is not set.
abbrev pub is_relative : ℕ → ℕ → Bool
is_relative opcode w = w / 2 ^ 26 == opcode && w / 2 % 2 == 0

-- The next address. `taken` says whether the condition of a `bc` holds. Where another instruction
-- than these two jumps to does not depend on its own place: `jump` of it, if it jumps.
unfoldable pub next_pc : (ℕ → Option ℕ) → Bool → ℕ → ℕ → ℕ
next_pc jump taken pc w =
    if is_relative 18 w
    then wrap (pc + sign26 w)
    else if is_relative 16 w
    then wrap (pc + (if taken then sign16 w else 4))
    else elim (jump w) [ none ↦ wrap (pc + 4) | some t ↦ t ]

-- From an address on, through at most `n` instructions, until the processor leaves `from..to`.
unfoldable pub follow : ℕ → (ℕ → Option ℕ) → Bool → (ℕ → ℕ) → ℕ → ℕ → ℕ → ℕ
follow zero jump taken m from to pc = pc
follow (suc n) jump taken m from to pc =
    let next = follow n jump taken m from to (next_pc jump taken pc (m pc)) in
    if leb from pc && ltb pc to then next else pc
