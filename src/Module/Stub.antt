-- ===== src/Module/Stub.antt =====
-- The stub does what the function's first instruction did.
use netslugplus.Base.{
  ℕ, ◌+◌, ◌-◌, ◌%◌, ◌≤◌, ◌<◌, ◌≡◌, refl, ap, ◌∙◌, arith, Bool, Option, update, update_self,
}
use netslugplus.Module.PowerPc.{next_pc, follow}
use netslugplus.Module.Replace.{
  Loader, branch_word, Original, bc, b, plain, original, stub_size, write_stub, hook,
}
use netslugplus.Module.Words.{IsCode, branch_word-lands, plain-follows, b-follows, bc-follows}

-- From its stub on, the processor leaves the stub to where the instruction `w` at `at` leads.
abbrev Stands : (ℕ → Option ℕ) → Bool → ℕ → ℕ → (ℕ → ℕ) → ℕ → ℕ → Type 0
Stands jump taken at w m space to = follow 3 jump taken m space to space ≡ next_pc jump taken at w

abbrev hooked : Original → ℕ → ℕ → ℕ → ℕ → (ℕ → ℕ) → ℕ → ℕ
hooked k at w target space m = update (write_stub k w at space m) at (branch_word at target)

hooked-Stands :
    (k : Original) (jump : ℕ → Option ℕ) (taken : Bool) (at target to : ℕ) (m : ℕ → ℕ)
    → original (m at) ≡ k
    → IsCode at
    → to % 4 ≡ 0
    → to ≤ 0x81800000
    → at + 16 < to
    → IsCode (next_pc jump taken at (m at))
    → next_pc jump taken at (m at) < to - stub_size k
    → Stands jump taken at
        (m at)
        (hooked k at (m at) target (to - stub_size k) m)
        (to - stub_size k)
        to
unfolding stub_size write_stub
hooked-Stands bc jump taken at target to m e a z top low n below =
    bc-follows jump taken at (m at) (to - 12) to _ a (omega arith, omega arith, omega arith) n
      (omega arith) below e (omega arith) (ground arith) (ground arith) (ground arith)
      (omega arith, omega arith, omega arith)
hooked-Stands b jump taken at target to m e a z top low n below =
    b-follows jump taken at (m at) (to - 8) to _ a (omega arith, omega arith, omega arith) n
      (omega arith) below e (omega arith) (ground arith)
hooked-Stands plain jump taken at target to m e a z top low n below =
    plain-follows jump taken at (m at) (to - 8) to _ a (omega arith, omega arith, omega arith) n
      (omega arith) below e (omega arith) (ground arith) (ground arith)

-- A function of the game is replaced, where the function, the replacement and the instruction's
-- own target lie in the game's memory and the function's code ends below the stub. From the
-- function's address the processor goes to the replacement. From the stub's address it goes, on
-- each outcome of a condition, to where the replaced instruction led, whatever instruction it was.
pub hook-Stands :
    (jump : ℕ → Option ℕ) (taken : Bool) (at target : ℕ) (l : Loader)
    → IsCode at
    → IsCode target
    → l.space % 4 ≡ 0
    → l.space ≤ 0x81800000
    → at + 16 < l.space
    → IsCode (next_pc jump taken at (l.memory at))
    → next_pc jump taken at (l.memory at) < (hook at target l).space
    → (next_pc jump taken at ((hook at target l).memory at) ≡ target)
      × (follow 3 jump taken
            (hook at target l).memory
            (hook at target l).space
            l.space
            (hook at target l).space
          ≡ next_pc jump taken at (l.memory at))
unfolding hook
hook-Stands jump taken at target l a t z top low n below = (
  ap (next_pc jump taken at) (
        update_self
          (write_stub (original (l.memory at)) (l.memory at) at
            (l.space - stub_size (original (l.memory at))) l.memory)
          at (branch_word at target))
      ∙ branch_word-lands jump taken at target a t,
  hooked-Stands (original (l.memory at)) jump taken at target l.space l.memory refl a z top low n
      below,
)
