-- ===== src/Search/Text/Fill.antt =====
-- The two loops of `Symbol_ParseFile` of src/search/symbol.c over the digits of a symbol's bytes.
use netslugplus.Base.{
  ℕ, suc, ◌+◌, ◌<◌, ◌≡◌, refl, sym, ap, ◌∙◌, arith, List, [], ◌∷◌, ◌++◌, none, some, length, All,
}
use netslugplus.Search.Fsm.Create.{Nibble}
use netslugplus.Search.Text.{
  digit, blank, stray, glyph, count_text, count_more, count_texts, Filling, put_digit, put_glyph,
  fill_text, fill_texts,
}
use netslugplus.Search.Text.Spells.{
  Spells, no_text, after_blank, open_half, fixed_half, joined, glyph-IsDigit, glyph-IsBlank,
}

count_text-append : (t u : List ℕ) (n : ℕ) → count_text (t ++ u) n ≡ count_more u (count_text t n)
unfolding count_text
count_text-append [] u n = refl
count_text-append (c ∷ cs) u n =
    elim (glyph c)
      as (λ g.
        (elim g [
          | digit d ↦ count_text (cs ++ u) (suc n)
          | blank ↦ count_text (cs ++ u) n
          | stray ↦ none
        ])
        ≡ count_more u
            (elim g [ digit d ↦ count_text cs (suc n) | blank ↦ count_text cs n | stray ↦ none ])) [
              | digit d ↦ count_text-append cs u (suc n)
              | blank ↦ count_text-append cs u n
              | stray ↦ refl
            ]

fill_text-append : (t u : List ℕ) (f : Filling) → fill_text (t ++ u) f ≡ fill_text u (fill_text t f)
unfolding fill_text
fill_text-append [] u f = refl
fill_text-append (c ∷ cs) u f = fill_text-append cs u (put_glyph (glyph c) f)

count_texts-none : (ts : List (List ℕ)) → count_texts ts none ≡ none
unfolding count_texts
count_texts-none [] = refl
count_texts-none (t ∷ ts) = count_texts-none ts

pub count_texts-joined :
    (ts : List (List ℕ)) (n : ℕ) → count_texts ts (some n) ≡ count_text (joined ts) n
unfolding count_texts count_text
count_texts-joined [] n = refl
count_texts-joined (t ∷ ts) n =
    rw (count_text-append t (joined ts) n)
      (elim (count_text t n) as (λ m. count_texts ts m ≡ count_more (joined ts) m) [
        | none ↦ count_texts-none ts
        | some m ↦ count_texts-joined ts m
      ])

pub fill_texts-joined :
    (ts : List (List ℕ)) (f : Filling) → fill_texts ts f ≡ fill_text (joined ts) f
unfolding fill_texts fill_text
fill_texts-joined [] f = refl
fill_texts-joined (t ∷ ts) f =
    fill_texts-joined ts (fill_text t f) ∙ sym (fill_text-append t (joined ts) f)

abbrev pub put_digits : List Nibble → Filling → Filling
put_digits [] f = f
put_digits (d ∷ ds) f = put_digits ds (put_digit d f)

pub count_text-Spells :
    {cs : List ℕ} {ds : List Nibble} (n : ℕ) → Spells cs ds → count_text cs n ≡ some (n + length ds)
unfolding count_text glyph
count_text-Spells n no_text = ap some (omega arith)
count_text-Spells n (after_blank {c} {cs} {ds} h s) =
    rw (count_text, glyph-IsBlank c h) (count_text-Spells n s)
count_text-Spells n (open_half s) = count_text-Spells (suc n) s ∙ ap some (omega arith)
count_text-Spells n (fixed_half {v} {c} {cs} {ds} h s) =
    rw (count_text, glyph-IsDigit v c h) (count_text-Spells (suc n) s ∙ ap some (omega arith))

pub fill_text-Spells :
    {cs : List ℕ} {ds : List Nibble} (f : Filling) → Spells cs ds → fill_text cs f ≡ put_digits ds f
unfolding fill_text glyph
fill_text-Spells f no_text = refl
fill_text-Spells f (after_blank {c} {cs} {ds} h s) = rw (glyph-IsBlank c h) (fill_text-Spells f s)
fill_text-Spells f (open_half s) = fill_text-Spells (put_digit (record { value = 0; mask = 0 }) f) s
fill_text-Spells f (fixed_half {v} {c} {cs} {ds} h s) =
    rw (glyph-IsDigit v c h) (fill_text-Spells (put_digit (record { value = v; mask = 15 }) f) s)

-- Half bytes have four bits.
abbrev pub IsHalf : Nibble → Type 0
IsHalf d = (d.value < 16) × (d.mask < 16)

pub Spells-IsHalf : {cs : List ℕ} {ds : List Nibble} → Spells cs ds → All IsHalf ds
Spells-IsHalf no_text = tt
Spells-IsHalf (after_blank h s) = Spells-IsHalf s
Spells-IsHalf (open_half s) = ((omega arith, omega arith), Spells-IsHalf s)
Spells-IsHalf (fixed_half {v} {c} {cs} {ds} h s) =
    ((ground (arith, h), omega arith), Spells-IsHalf s)
