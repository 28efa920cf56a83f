-- ===== src/Module/Lands.antt =====
-- Relocations put the symbol's address where the processor reads it.
use netslugplus.Base.{
  ℕ, ◌+◌, ◌-◌, ◌*◌, ◌%◌, ◌^◌, ◌≤◌, ◌<◌, ◌≡◌, ◌⊎◌, ◌↔◌, refl, sym, ap, ◌∙◌, arith, Bool, true,
  Option, some,
}
use netslugplus.Module.Relocation.{
  addr16_ha, addr16_lo, rel24, wrap, minus, link_one, relocation_value, field_of, patch, half, word,
  with_low24,
}
use netslugplus.Module.PowerPc.{sign26, sign_half, next_pc, is_relative}

-- `lis` and `addi`: the two halves that the relocations HA and LO of one symbol leave.
pub link_one-ha_lo :
    (symbol addend o1 o2 d1 d2 old1 old2 h l : ℕ)
    → link_one addr16_ha o1 addend d1 symbol old1 ≡ some (half h)
    → link_one addr16_lo o2 addend d2 symbol old2 ≡ some (half l)
    → wrap (h * 2 ^ 16 + sign_half l) ≡ wrap (symbol + addend)
unfolding link_one relocation_value field_of patch sign_half
link_one-ha_lo symbol addend o1 o2 d1 d2 old1 old2 h l e1 e2 = ground arith

-- A displacement of 26 bits reaches the value that it was made from exactly if the value is in its
-- range.
sign26-with_low24 :
    (old v : ℕ)
    → v < 2 ^ 32
    → v % 4 ≡ 0
    → (sign26 (with_low24 old v) ≡ v) ↔ ((v < 2 ^ 25) ⊎ (2 ^ 32 - 2 ^ 25 ≤ v))
unfolding sign26
sign26-with_low24 old v h z = (λ e. ground arith, λ e. ground arith)

-- The patched word is still the branch, and how far it goes.
relocated_branch :
    (jump : ℕ → Option ℕ) (taken : Bool) (pc old v : ℕ)
    → is_relative 18 old ≡ true
    → next_pc jump taken pc (with_low24 old v) ≡ wrap (pc + sign26 (with_low24 old v))
unfolding next_pc
relocated_branch jump taken pc old v b = ground arith

reach : (v s p : ℕ) → minus s p ≡ v → p < 2 ^ 32 → wrap (p + v) ≡ wrap s
reach v s p e h = omega arith

not-reach : (v d s p : ℕ) → minus s p ≡ v → p < 2 ^ 32 → d < 2 ^ 32 → wrap (p + d) ≡ wrap s → d ≡ v
not-reach v d s p e h k q = omega arith

sign26-lt : (w : ℕ) → sign26 w < 2 ^ 32
unfolding sign26
sign26-lt w = ground arith

rel24-word :
    (symbol addend offset destination old w : ℕ)
    → link_one rel24 offset addend destination symbol old ≡ some (word w)
    → w ≡ with_low24 old (minus (symbol + addend) (destination + offset))
unfolding link_one relocation_value field_of patch
rel24-word symbol addend offset destination old w e = ground arith

-- A relative branch whose target REL24 fills in: the place and the target are multiples of 4. The
-- processor goes to the target, whatever the branch's other bits, exactly if the displacement is
-- one of 26 bits with its sign.
pub link_one-rel24 :
    (jump : ℕ → Option ℕ) (taken : Bool) (symbol addend offset destination old w : ℕ)
    → link_one rel24 offset addend destination symbol old ≡ some (word w)
    → is_relative 18 old ≡ true
    → destination + offset < 2 ^ 32
    → (destination + offset) % 4 ≡ 0
    → (symbol + addend) % 4 ≡ 0
    → (next_pc jump taken (destination + offset) w ≡ wrap (symbol + addend)) ↔ (
        (minus (symbol + addend) (destination + offset) < 2 ^ 25)
        ⊎ (2 ^ 32 - 2 ^ 25 ≤ minus (symbol + addend) (destination + offset)))
link_one-rel24 jump taken symbol addend offset destination old w e b small z1 z2 =
    let v = minus (symbol + addend) (destination + offset) in
    let is_word = rel24-word symbol addend offset destination old w e in
    let goes = relocated_branch jump taken (destination + offset) old v b in
    let iff = sign26-with_low24 old v (omega arith) (omega arith) in
    (
      λ q. iff.0 (
          not-reach v (sign26 (with_low24 old v)) (symbol + addend) (destination + offset) refl
            small (sign26-lt (with_low24 old v))
            (sym goes ∙ (ap (next_pc jump taken (destination + offset)) (sym is_word) ∙ q))),
      λ r.
          ap (next_pc jump taken (destination + offset)) is_word
          ∙ (goes
              ∙ (ap (λ d. wrap (destination + offset + d)) (iff.1 r)
                  ∙ reach v (symbol + addend) (destination + offset) refl small)),
    )
