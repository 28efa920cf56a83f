-- ===== src/Module/Words.antt =====
-- Where the words of a stub lead.
use netslugplus.Base.{
  ℕ, zero, suc, ◌+◌, ◌*◌, ◌/◌, ◌%◌, ◌^◌, ◌≤◌, ◌<◌, ◌≡◌, ◌⊎◌, inl, inr, refl, sym, ap, subst, ◌∙◌,
  arith, Bool, if◌then◌else◌, Option, none, some, Bool-cases, Option-cases,
}
use netslugplus.Module.Relocation.{wrap, minus}
use netslugplus.Module.PowerPc.{sign26, sign16, next_pc, follow}
use netslugplus.Module.Replace.{branch_word, offset16, offset26, bc, b, plain, original}

-- The game's memory, in steps of one word.
abbrev pub IsCode : ℕ → Type 0
IsCode a = (0x80000000 ≤ a) × (a < 0x81800000) × (a % 4 ≡ 0)

offset16-sign16 : (w : ℕ) → offset16 w ≡ sign16 w
unfolding offset16 sign16
offset16-sign16 w = ground arith

offset26-sign26 : (w : ℕ) → offset26 w ≡ sign26 w
unfolding offset26 sign26
offset26-sign26 w = ground arith

-- A word that is a branch with the displacement of `to` from `from`.
displaced :
    (from to v : ℕ)
    → IsCode from
    → IsCode to
    → v % 2 ^ 26 / 4 * 4 ≡ minus to from % 2 ^ 26 / 4 * 4
    → wrap (from + sign26 v) ≡ to
unfolding sign26
displaced from to v f t e = ground arith

branch_word-next :
    (jump : ℕ → Option ℕ) (taken : Bool) (pc from to : ℕ)
    → next_pc jump taken pc (branch_word from to) ≡ wrap (pc + sign26 (branch_word from to))
unfolding next_pc branch_word
branch_word-next jump taken pc from to = ground arith

branch_word-displaced :
    (from to : ℕ) → branch_word from to % 2 ^ 26 / 4 * 4 ≡ minus to from % 2 ^ 26 / 4 * 4
unfolding branch_word
branch_word-displaced from to = omega arith

pub branch_word-lands :
    (jump : ℕ → Option ℕ) (taken : Bool) (from to : ℕ)
    → IsCode from
    → IsCode to
    → next_pc jump taken from (branch_word from to) ≡ to
branch_word-lands jump taken from to f t =
    branch_word-next jump taken from from to
    ∙ displaced from to (branch_word from to) f t (branch_word-displaced from to)

-- The branch in the second word of a stub, made for the first.
branch_word-second :
    (jump : ℕ → Option ℕ) (taken : Bool) (from to : ℕ)
    → IsCode from
    → IsCode to
    → next_pc jump taken (from + 4) (branch_word from to) ≡ to + 4
branch_word-second jump taken from to f t =
    let v = sign26 (branch_word from to) in
    let e = displaced from to (branch_word from to) f t (branch_word-displaced from to) in
    branch_word-next jump taken (from + 4) from to ∙ omega arith

-- The copied branches.
next-bc :
    (jump : ℕ → Option ℕ) (taken : Bool) (pc w : ℕ)
    → original w ≡ bc
    → next_pc jump taken pc w ≡ wrap (pc + (if taken then sign16 w else 4))
unfolding original next_pc
next-bc jump taken pc w e = ground arith

next-b :
    (jump : ℕ → Option ℕ) (taken : Bool) (pc w : ℕ)
    → original w ≡ b
    → next_pc jump taken pc w ≡ wrap (pc + sign26 w)
unfolding original next_pc
next-b jump taken pc w e = ground arith

abbrev goes : ℕ → Option ℕ → ℕ
goes pc none = wrap (pc + 4)
goes pc (some t) = t

next-plain :
    (jump : ℕ → Option ℕ) (taken : Bool) (pc w : ℕ)
    → original w ≡ plain
    → next_pc jump taken pc w ≡ goes pc (jump w)
unfolding original next_pc
next-plain jump taken pc w e = ground arith

short_bc :
    (jump : ℕ → Option ℕ) (taken : Bool) (pc w : ℕ)
    → original w ≡ bc
    → next_pc jump taken pc (w / 2 ^ 16 * 2 ^ 16 + w % 4 + 8) ≡ wrap (pc + (if taken then 8 else 4))
unfolding original next_pc sign16
short_bc jump taken pc w e = ground arith

copied_b :
    (jump : ℕ → Option ℕ) (taken : Bool) (pc to w : ℕ)
    → original w ≡ b
    → IsCode pc
    → IsCode to
    → next_pc jump taken pc (w / 2 ^ 26 * 2 ^ 26 + w % 4 + minus to pc % 2 ^ 26 / 4 * 4) ≡ to
unfolding original next_pc
copied_b jump taken pc to w e f t =
    let d =
      displaced pc to (w / 2 ^ 26 * 2 ^ 26 + w % 4 + minus to pc % 2 ^ 26 / 4 * 4) f t
        (omega arith) in
    ground (arith, d)

wrap-small : (a : ℕ) → IsCode a → wrap (a + 4) ≡ a + 4
wrap-small a c = omega arith

follow-out :
    (n : ℕ) (jump : ℕ → Option ℕ) (taken : Bool) (m : ℕ → ℕ) (from to pc : ℕ)
    → ((pc < from) ⊎ (to ≤ pc))
    → follow n jump taken m from to pc ≡ pc
unfolding follow
follow-out zero jump taken m from to pc o = refl
follow-out (suc n) jump taken m from to pc o = ground arith

follow-in :
    (n : ℕ) (jump : ℕ → Option ℕ) (taken : Bool) (m : ℕ → ℕ) (from to pc : ℕ) {w next : ℕ}
    → from ≤ pc
    → pc < to
    → m pc ≡ w
    → next_pc jump taken pc w ≡ next
    → follow (suc n) jump taken m from to pc ≡ follow n jump taken m from to next
unfolding follow
follow-in n jump taken m from to pc {w} {next} h k e q =
    let r : next_pc jump taken pc (m pc) ≡ next = ap (next_pc jump taken pc) e ∙ q in
    rw r (ground arith)

module _ (jump : ℕ → Option ℕ) (taken : Bool) (at w space to : ℕ) (m : ℕ → ℕ) (a : IsCode at)
    (s : IsCode space) (n : IsCode (next_pc jump taken at w)) (below : at + 4 < space)
    (leaves : next_pc jump taken at w < space) where
  -- The second word of each stub.
  second :
      (k : ℕ)
      → space + 4 < to
      → m (space + 4) ≡ branch_word space at
      → follow (suc k) jump taken m space to (space + 4) ≡ at + 4
  second k lt e =
      follow-in k jump taken m space to (space + 4) (omega arith) lt e
        (branch_word-second jump taken space at s a)
      ∙ follow-out k jump taken m space to (at + 4) (inl below)

  pub plain-follows :
      original w ≡ plain
      → to ≡ space + 8
      → m space ≡ w
      → m (space + 4) ≡ branch_word space at
      → follow 3 jump taken m space to space ≡ next_pc jump taken at w
  plain-follows k e m0 m1 = elim (Option-cases (jump w)) [
    | inl none_e ↦
        follow-in 2 jump taken m space to space (omega arith) (omega arith) m0
          (next-plain jump taken space w k ∙ (ap (goes space) none_e ∙ wrap-small space s))
        ∙ (second 1 (omega arith) m1
            ∙ sym (next-plain jump taken at w k ∙ (ap (goes at) none_e ∙ wrap-small at a)))
    | inr (t, some_e) ↦
        let n' : next_pc jump taken at w ≡ t = next-plain jump taken at w k ∙ ap (goes at) some_e in
        follow-in 2 jump taken m space to space (omega arith) (omega arith) m0
          (next-plain jump taken space w k ∙ ap (goes space) some_e)
        ∙ (follow-out 2 jump taken m space to t (inl (omega (arith, n'))) ∙ sym n')
  ]

  pub b-follows :
      original w ≡ b
      → to ≡ space + 8
      → m space
        ≡ w / 2 ^ 26 * 2 ^ 26 + w % 4 + minus (wrap (at + offset26 w)) space % 2 ^ 26 / 4 * 4
      → follow 3 jump taken m space to space ≡ next_pc jump taken at w
  b-follows k e m0 =
      let same : wrap (at + offset26 w) ≡ next_pc jump taken at w =
        ap (λ o. wrap (at + o)) (offset26-sign26 w) ∙ sym (next-b jump taken at w k) in
      follow-in 2 jump taken m space to space (omega arith) (omega arith) m0
        (copied_b jump taken space (wrap (at + offset26 w)) w k s (subst IsCode (sym same) n))
      ∙ (follow-out 2 jump taken m space to (wrap (at + offset26 w)) (inl (omega (arith, same)))
          ∙ same)

  pub bc-follows :
      original w ≡ bc
      → to ≡ space + 12
      → m space ≡ w / 2 ^ 16 * 2 ^ 16 + w % 4 + 8
      → m (space + 4) ≡ branch_word space at
      → m (space + 8) ≡ branch_word (space + 8) (wrap (at + offset16 w))
      → IsCode (space + 8)
      → follow 3 jump taken m space to space ≡ next_pc jump taken at w
  bc-follows k e m0 m1 m2 s8 =
      let first = short_bc jump taken space w k in
      let same = next-bc jump taken at w k in
      elim (Bool-cases taken) [
        | inl t ↦
            let t8 : next_pc jump taken space (w / 2 ^ 16 * 2 ^ 16 + w % 4 + 8) ≡ space + 8 =
              first ∙ (ap (λ c. wrap (space + (if c then 8 else 4))) t ∙ omega arith) in
            let goal : wrap (at + offset16 w) ≡ next_pc jump taken at w =
              ap (λ o. wrap (at + o)) (offset16-sign16 w)
              ∙ sym (same ∙ ap (λ c. wrap (at + (if c then sign16 w else 4))) t) in
            follow-in 2 jump taken m space to space (omega arith) (omega arith) m0 t8
            ∙ (follow-in 1 jump taken m space to (space + 8) (omega arith) (omega arith) m2 (
                  branch_word-lands jump taken (space + 8) (wrap (at + offset16 w)) s8
                    (subst IsCode (sym goal) n))
                ∙ (follow-out 1 jump taken m space to (wrap (at + offset16 w))
                      (inl (omega (arith, goal)))
                    ∙ goal))
        | inr f ↦
            follow-in 2 jump taken m space to space (omega arith) (omega arith) m0
              (first ∙ (ap (λ c. wrap (space + (if c then 8 else 4))) f ∙ wrap-small space s))
            ∙ (second 1 (omega arith) m1
                ∙ sym (
                    same ∙ (ap (λ c. wrap (at + (if c then sign16 w else 4))) f ∙ wrap-small at a)))
      ]
