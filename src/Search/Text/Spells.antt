-- ===== src/Search/Text/Spells.antt =====
-- What a text spells, and what `Symbol_ParseFile` of src/search/symbol.c reads of it.
use netslugplus.Base.{ℕ, zero, suc, ◌+◌, ◌<◌, ◌≤◌, ◌≡◌, ◌⊎◌, arith, List, [], ◌∷◌, ◌++◌}
use netslugplus.Search.Fsm.Create.{Nibble, Masked}
use netslugplus.Search.Text.{blank, hex, glyph, Bytes}

-- The byte `c` is a digit of the value `v`, in small or in capital letters.
abbrev pub IsDigit : ℕ → ℕ → Type 0
IsDigit v c =
    ((v < 10) × (c ≡ b'0' + v))
    ⊎ ((10 ≤ v) × (v < 16) × ((c + 10 ≡ b'a' + v) ⊎ (c + 10 ≡ b'A' + v)))

abbrev pub IsBlank : ℕ → Type 0
IsBlank c = (c ≡ 32) ⊎ (c ≡ 9) ⊎ (c ≡ 13) ⊎ (c ≡ 10)

-- A text and the half bytes that it spells; `?` leaves one open.
pub data Spells : List ℕ → List Nibble → Type 0 where
  no_text : Spells [] []
  after_blank :
      {c : ℕ} {cs : List ℕ} {ds : List Nibble} → IsBlank c → Spells cs ds → Spells (c ∷ cs) ds
  open_half :
      {cs : List ℕ} {ds : List Nibble}
      → Spells cs ds
      → Spells (b'?' ∷ cs) (record { value = 0; mask = 0 } ∷ ds)
  fixed_half :
      {v c : ℕ} {cs : List ℕ} {ds : List Nibble}
      → IsDigit v c
      → Spells cs ds
      → Spells (c ∷ cs) (record { value = v; mask = 15 } ∷ ds)

-- The texts one after another.
abbrev pub joined : List (List ℕ) → List ℕ
joined [] = []
joined (t ∷ ts) = t ++ joined ts

-- The first `n` bytes from the place `k` on.
abbrev pub bytes_from : ℕ → ℕ → (ℕ → ℕ) → (ℕ → ℕ) → List Masked
bytes_from zero k bytes masks = []
bytes_from (suc n) k bytes masks =
    record { byte = bytes k; byte_mask = masks k } ∷ bytes_from n (suc k) bytes masks

abbrev pub symbol_bytes : Bytes → List Masked
symbol_bytes b = bytes_from b.data_size 0 b.bytes b.masks

pub glyph-IsDigit : (v c : ℕ) → IsDigit v c → glyph c ≡ hex v
unfolding glyph
glyph-IsDigit v c h = ground (arith, h)

pub glyph-IsBlank : (c : ℕ) → IsBlank c → glyph c ≡ blank
unfolding glyph
glyph-IsBlank c h = ground (arith, h)
