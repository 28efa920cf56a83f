-- ===== src/Search/Text/Parsed.antt =====
-- The bytes that `Symbol_ParseFile` of src/search/symbol.c makes of a text.
use netslugplus.Base.{
  ℕ, suc, ◌+◌, ◌/◌, ◌%◌, ◌<◌, ◌≡◌, ◌≢◌, refl, ap, ◌∙◌, arith, List, [], ◌∷◌, some, length, All,
}
use mathlib.Core.Option
use netslugplus.Search.Fsm.Create.{Masked, high, low}
use netslugplus.Search.Fsm.Halves.{nibbles}
use netslugplus.Search.Text.{count_texts, Filling, put_digit, fill_texts, parse_data}
use netslugplus.Search.Text.Spells.{Spells, joined, bytes_from, symbol_bytes}
use netslugplus.Search.Text.Fill.{
  put_digits, count_texts-joined, fill_texts-joined, count_text-Spells, fill_text-Spells, IsHalf,
  Spells-IsHalf,
}

-- A byte is filled by two digits, whatever stood there; no other byte changes.
record Put (x : Masked) (k : ℕ) (f g : Filling) : Type 0 where
  count : g.count ≡ suc k + suc k
  byte : g.bytes k ≡ x.byte
  mask : g.masks k ≡ x.byte_mask
  same_bytes : (j : ℕ) → j ≢ k → g.bytes j ≡ f.bytes j
  same_masks : (j : ℕ) → j ≢ k → g.masks j ≡ f.masks j

two_digits-Put :
    (x : Masked) (k : ℕ) (f : Filling)
    → f.count ≡ k + k
    → IsHalf (high x)
    → Put x k f (put_digit (low x) (put_digit (high x) f))
two_digits-Put x k f h half =
    let place : f.count / 2 ≡ k = omega (arith, h) in
    let place' : suc f.count / 2 ≡ k = omega (arith, h) in
    record {
      count = omega (arith, h);
      byte = ground (arith, place, place', half.0);
      mask = ground (arith, place, place', half.1);
      same_bytes = λ j ne. ground (arith, place, place', ne);
      same_masks = λ j ne. ground (arith, place, place', ne);
    }

-- The bytes from place `k` on are those of `xs`, and those before it are as they were.
record Puts (xs : List Masked) (k : ℕ) (f g : Filling) : Type 0 where
  read : bytes_from (length xs) k g.bytes g.masks ≡ xs
  same_bytes : (j : ℕ) → j < k → g.bytes j ≡ f.bytes j
  same_masks : (j : ℕ) → j < k → g.masks j ≡ f.masks j

masked_eq :
    (x : Masked) (b m : ℕ)
    → b ≡ x.byte
    → m ≡ x.byte_mask
    → ◌≡◌ {A = Masked} (record { byte = b; byte_mask = m }) x
masked_eq x b m p q =
    ap (λ z. record { byte = z; byte_mask = m }) p
    ∙ ap (λ z. record { byte = x.byte; byte_mask = z }) q

put_digits-Puts :
    (xs : List Masked) (k : ℕ) (f : Filling)
    → f.count ≡ k + k
    → All IsHalf (nibbles xs)
    → Puts xs k f (put_digits (nibbles xs) f)
put_digits-Puts [] k f h all = record {
  read = refl;
  same_bytes = λ j lt. refl;
  same_masks = λ j lt. refl;
}
put_digits-Puts (x ∷ xs) k f h all =
    let first = two_digits-Put x k f h all.0 in
    let rest =
      put_digits-Puts xs (suc k) (put_digit (low x) (put_digit (high x) f)) first.count all.1.1 in
    record {
      read =
          ap
            (λ y.
              y
              ∷ bytes_from (length xs) (suc k) (put_digits (nibbles (x ∷ xs)) f).bytes
                  (put_digits (nibbles (x ∷ xs)) f).masks)
            (masked_eq x _ _ (rest.same_bytes k (omega arith) ∙ first.byte)
              (rest.same_masks k (omega arith) ∙ first.mask))
          ∙ ap (λ ys. x ∷ ys) rest.read;
      same_bytes = λ j lt.
          rest.same_bytes j (omega (arith, lt)) ∙ first.same_bytes j (λ e. omega (arith, e, lt));
      same_masks = λ j lt.
          rest.same_masks j (omega (arith, lt)) ∙ first.same_masks j (λ e. omega (arith, e, lt));
    }

length-nibbles : (xs : List Masked) → length (nibbles xs) ≡ length xs + length xs
length-nibbles [] = refl
length-nibbles (x ∷ xs) = omega (arith, length-nibbles xs)

-- Texts that together spell the halves of the bytes `xs` are read as these bytes with their masks,
-- whatever the two arrays held before.
pub parse_data-symbol_bytes :
    (ts : List (List ℕ)) (bytes masks : ℕ → ℕ) (xs : List Masked)
    → Spells (joined ts) (nibbles xs)
    → Option.map symbol_bytes (parse_data ts bytes masks) ≡ some xs
unfolding parse_data
parse_data-symbol_bytes ts bytes masks xs s =
    let start : Filling = record { bytes = bytes; masks = masks; count = 0 } in
    let count : count_texts ts (some 0) ≡ some (length xs + length xs) =
      count_texts-joined ts 0
      ∙ count_text-Spells 0 s
      ∙ ap some (omega (arith, length-nibbles xs)) in
    let fill : fill_texts ts start ≡ put_digits (nibbles xs) start =
      fill_texts-joined ts start ∙ fill_text-Spells start s in
    let even : (length xs + length xs) % 2 ≡ 0 = omega arith in
    let half : (length xs + length xs) / 2 ≡ length xs = omega arith in
    let puts = put_digits-Puts xs 0 start refl (Spells-IsHalf s) in
    rw (count, even, half, fill) (ap some puts.read)
