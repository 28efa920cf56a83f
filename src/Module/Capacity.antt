-- ===== src/Module/Capacity.antt =====
-- `Module_ListAllocate` of src/modules/module.c: the loop that makes room in an array.
use netslugplus.Base.{
  ℕ, zero, suc, ◌+◌, ◌*◌, ◌≤◌, ◌<◌, ◌≡◌, ap, arith, ◌⊎◌, Bool-cases, inl, inr, ◌==◌, ltb,
  if◌then◌else◌, Option, none, some,
}

abbrev pub entries_capacity_default : ℕ
entries_capacity_default = 128

-- The capacity after the loop, where memory is enough, in at most `fuel` rounds; `none` if they are
-- not enough.
unfoldable pub grow : ℕ → ℕ → ℕ → ℕ → ℕ → Option ℕ
grow zero count num default capacity = if ltb capacity (count + num) then none else some capacity
grow (suc fuel) count num default capacity =
    let from_new = grow fuel count num default default in
    let from_double = grow fuel count num default (capacity * 2) in
    if ltb capacity (count + num)
    then (if count == 0 then from_new else from_double)
    else some capacity

abbrev extended : ℕ → ℕ → Option ℕ → Option (ℕ × ℕ × ℕ)
extended count num none = none
extended count num (some c) = some (count, count + num, c)

-- The index of the new elements, with the new count and capacity.
unfoldable pub list_allocate : ℕ → ℕ → ℕ → ℕ → ℕ → Option (ℕ × ℕ × ℕ)
list_allocate fuel num default capacity count =
    extended count num (grow fuel count num default capacity)

-- Twice in each round.
grow-doubles :
    (fuel count num default capacity : ℕ)
    → 0 < count
    → 0 < capacity
    → count + num ≤ capacity + fuel
    → (c : ℕ) × ((grow fuel count num default capacity ≡ some c) × (count + num ≤ c))
unfolding grow
grow-doubles zero count num default capacity h k r = (capacity, (ground arith, omega arith))
grow-doubles (suc fuel) count num default capacity h k r =
    elim (Bool-cases (ltb capacity (count + num))) [
      | inl e ↦
          let (c, (q, le)) =
            grow-doubles fuel count num default (capacity * 2) h (omega arith) (omega arith) in
          (c, (ground arith, le))
      | inr e ↦ (capacity, (ground arith, ground arith))
    ]

-- Where the first array is large enough it is taken as it is.
grow-fits :
    (fuel count num default : ℕ)
    → num ≤ default
    → count ≡ 0
    → grow fuel count num default default ≡ some default
unfolding grow
grow-fits zero count num default le z = ground arith
grow-fits (suc fuel) count num default le z = ground arith

grow-hangs :
    (fuel num default capacity : ℕ)
    → capacity < num
    → default < num
    → grow fuel 0 num default capacity ≡ none
unfolding grow
grow-hangs zero num default capacity h k = ground arith
grow-hangs (suc fuel) num default capacity h k =
    ground (arith, grow-hangs fuel num default default k k)

-- The array holds something, or what it is to hold fits the first array.
abbrev pub IsGrowable : ℕ → ℕ → ℕ → ℕ → Type 0
IsGrowable num default capacity count =
    ((0 < count) × (count ≤ capacity)) ⊎ ((count ≡ 0) × (num ≤ default))

grow-growable :
    (fuel num default capacity count : ℕ)
    → IsGrowable num default capacity count
    → count + num ≤ fuel
    → (c : ℕ) × ((grow (suc fuel) count num default capacity ≡ some c) × (count + num ≤ c))
unfolding grow
grow-growable fuel num default capacity count (inl (pos, le)) room =
    grow-doubles (suc fuel) count num default capacity pos (omega arith) (omega arith)
grow-growable fuel num default capacity count (inr (z, le)) room =
    elim (Bool-cases (ltb capacity (count + num))) [
      | inl e ↦ (default, (ground (arith, grow-fits fuel count num default le z), omega arith))
      | inr e ↦ (capacity, (ground arith, ground arith))
    ]

-- Where the array holds something, or what is to be added fits the first array: `count + num + 1`
-- rounds are enough for the loop, the new elements follow the old ones, and the new capacity has
-- room for all.
pub list_allocate-room :
    (num default capacity count : ℕ)
    → IsGrowable num default capacity count
    → (c : ℕ) × ((list_allocate (suc (count + num)) num default capacity count
          ≡ some (count, count + num, c))
        × (count + num ≤ c))
unfolding list_allocate
list_allocate-room num default capacity count g =
    let (c, (e, le)) = grow-growable (count + num) num default capacity count g (omega arith) in
    (c, (ap (extended count num) e, le))

-- An empty array that is to take more than the first array holds: the loop allocates the first
-- array again and again and never ends.
pub list_allocate-hangs :
    (fuel num default capacity : ℕ)
    → capacity < num
    → default < num
    → list_allocate fuel num default capacity 0 ≡ none
unfolding list_allocate
list_allocate-hangs fuel num default capacity lt ltd =
    ap (extended 0 num) (grow-hangs fuel num default capacity lt ltd)
