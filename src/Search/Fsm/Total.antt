-- ===== src/Search/Fsm/Total.antt =====
-- Sums over the pairs of a table.
use Prim.Native.Nat.mul
use netslugplus.Base.{
  ℕ, zero, suc, ◌+◌, ◌*◌, ◌≤◌, ◌<◌, ◌≡◌, ◌≢◌, ◌⊎◌, inl, inr, refl, sym, arith, ℕ_discrete,
}

abbrev pub row : (ℕ → ℕ) → ℕ → ℕ
row f zero = 0
row f (suc n) = row f n + f n

abbrev pub total : (ℕ → ℕ → ℕ) → ℕ → ℕ → ℕ
total f zero n = 0
total f (suc l) n = total f l n + row (f l) n

row_mono : (f g : ℕ → ℕ) (n : ℕ) → ((r : ℕ) → r < n → f r ≤ g r) → row f n ≤ row g n
row_mono f g zero h = omega arith
row_mono f g (suc n) h =
    omega (arith, row_mono f g n (λ r lt. h r (omega arith)), h n (omega arith))

pub total_mono :
    (f g : ℕ → ℕ → ℕ) (l n : ℕ)
    → ((a r : ℕ) → a < l → r < n → f a r ≤ g a r)
    → total f l n ≤ total g l n
total_mono f g zero n h = omega arith
total_mono f g (suc l) n h = omega (
  arith,
  total_mono f g l n (λ a r lt. h a r (omega arith)),
  row_mono (f l) (g l) n (λ r. h l r (omega arith)),
)

row-same :
    (f g : ℕ → ℕ) (n : ℕ)
    → ((r : ℕ) → r < n → f r ≤ g r)
    → row f n ≡ row g n
    → (r : ℕ) → r < n
    → f r ≡ g r
row-same f g zero h e r lt = absurd (omega arith)
row-same f g (suc n) h e r lt =
    let m = row_mono f g n (λ a b. h a (omega arith)) in
    let last = h n (omega arith) in
    elim (ℕ_discrete r n) [
      | yes q ↦ rw q (omega arith)
      | no ne ↦ row-same f g n (λ a b. h a (omega arith)) (omega arith) r (omega arith)
    ]

-- Where one function is below another and the sums are equal, the functions are.
pub total-same :
    (f g : ℕ → ℕ → ℕ) (l n : ℕ)
    → ((a r : ℕ) → a < l → r < n → f a r ≤ g a r)
    → total f l n ≡ total g l n
    → (a r : ℕ) → a < l
    → r < n
    → f a r ≡ g a r
total-same f g zero n h e a r la lr = absurd (omega arith)
total-same f g (suc l) n h e a r la lr =
    let m = total_mono f g l n (λ b c lt. h b c (omega arith)) in
    let last = row_mono (f l) (g l) n (λ c. h l c (omega arith)) in
    elim (ℕ_discrete a l) [
      | yes q ↦ rw q (row-same (f l) (g l) n (λ c. h l c (omega arith)) (omega arith) r lr)
      | no ne ↦
          total-same f g l n (λ b c lt. h b c (omega arith)) (omega arith) a r (omega arith) lr
    ]

row-ext : (f g : ℕ → ℕ) (n : ℕ) → ((r : ℕ) → r < n → f r ≡ g r) → row f n ≡ row g n
row-ext f g zero h = refl
row-ext f g (suc n) h = omega (arith, row-ext f g n (λ r lt. h r (omega arith)), h n (omega arith))

pub total-ext :
    (f g : ℕ → ℕ → ℕ) (l n : ℕ)
    → ((a r : ℕ) → a < l → r < n → f a r ≡ g a r)
    → total f l n ≡ total g l n
total-ext f g zero n h = refl
total-ext f g (suc l) n h = omega (
  arith,
  total-ext f g l n (λ a r lt. h a r (omega arith)),
  row-ext (f l) (g l) n (λ r. h l r (omega arith)),
)

row-step :
    (f g : ℕ → ℕ) (n b : ℕ)
    → b < n
    → ((r : ℕ) → r ≢ b → f r ≡ g r)
    → g b ≡ suc (f b)
    → row g n ≡ suc (row f n)
row-step f g zero b lt h s = absurd (omega arith)
row-step f g (suc n) b lt h s = elim (ℕ_discrete b n) [
  | yes q ↦
      let below = row-ext f g n (λ r k. h r (omega arith)) in
      let last : g n ≡ suc (f n) = rw (sym q) s in omega arith
  | no ne ↦ omega (arith, row-step f g n b (omega arith) h s, h n (λ e. ne (sym e)))
]

-- One more at one pair.
pub total-step :
    (f g : ℕ → ℕ → ℕ) (l n a b : ℕ)
    → a < l
    → b < n
    → ((c r : ℕ) → ((c ≢ a) ⊎ (r ≢ b)) → f c r ≡ g c r)
    → g a b ≡ suc (f a b)
    → total g l n ≡ suc (total f l n)
total-step f g zero n a b la lb h s = absurd (omega arith)
total-step f g (suc l) n a b la lb h s = elim (ℕ_discrete a l) [
  | yes q ↦
      let below = total-ext f g l n (λ c r k _. h c r (inl (omega arith))) in
      let last : row (g l) n ≡ suc (row (f l) n) =
        rw (sym q) (row-step (f a) (g a) n b lb (λ r ne. h a r (inr ne)) s) in
      omega arith
  | no ne ↦ omega (
    arith,
    total-step f g l n a b (omega arith) lb h s,
    row-ext (f l) (g l) n (λ r k. h l r (inl (λ e. ne (sym e)))),
  )
]

row-ones : (f : ℕ → ℕ) (n : ℕ) → ((r : ℕ) → f r ≤ 1) → row f n ≤ n
row-ones f zero h = omega arith
row-ones f (suc n) h = omega (arith, row-ones f n h, h n)

pub total-ones : (f : ℕ → ℕ → ℕ) (l n : ℕ) → ((a r : ℕ) → f a r ≤ 1) → total f l n ≤ l * n
total-ones f zero n h = omega arith
total-ones f (suc l) n h = omega (arith, total-ones f l n h, row-ones (f l) n (h l), mul.suc l n)

row-zero : (n : ℕ) → row (λ _. 0) n ≡ 0
row-zero zero = refl
row-zero (suc n) = omega (arith, row-zero n)

pub total-zero : (l n : ℕ) → total (λ _ _. 0) l n ≡ 0
total-zero zero n = refl
total-zero (suc l) n = omega (arith, total-zero l n, row-zero n)
