-- ===== src/Settings/Load.antt =====
-- What `settings_load` can store for a number, whatever the file holds.
use netslugplus.Base.{
  ℕ, ◌%◌, ◌≡◌, ◌≢◌, refl, sym, subst, ◌∙◌, arith, ◌⊎◌, inl, inr, false, Option, none, some, List,
  ◌==◌, [], ◌∷◌, update, update_ne, Bool-cases, Option-cases, All, ℕ_discrete,
}
use netslugplus.Settings.Types.{Setting, Category, Store, FileParseState, VariableType, int}
use netslugplus.Settings.Commit.{commit, commit_option, commit_value, commit_int, signed_lt}
use netslugplus.Settings.Parser.{
  find_category, find_setting, parse_category, parse_name, parse_byte, parse_update, put_char,
  on_hash, on_newline, on_open, on_close, on_equals, on_blank, load, at_eof, fresh,
}

module _ (a lo hi : ℕ) where
  -- A setting of the variable `a` is a number with these bounds.
  abbrev pub Bounded : Setting → Type 0
  Bounded s = s.address ≡ a → (s.kind ≡ int) × (s.min ≡ lo) × (s.max ≡ hi)

  abbrev pub AllBounded : Category → Type 0
  AllBounded c = All Bounded c.settings

  abbrev IsValue : Option Setting → Type 0
  IsValue none = Unit
  IsValue (some s) = Bounded s

  abbrev IsCategory : Option Category → Type 0
  IsCategory none = Unit
  IsCategory (some c) = AllBounded c

  abbrev pub Within : ℕ → ℕ → Type 0
  Within old v = (v ≡ old) ⊎ ((signed_lt v lo ≡ false) × (signed_lt hi v ≡ false))

  abbrev Inv : ℕ → FileParseState × Store → Type 0
  Inv old (p, st) = IsCategory p.category × IsValue p.value × Within old (st.ints a)

  find_setting-IsValue :
      (t : List ℕ) (ss : List Setting) → All Bounded ss → IsValue (find_setting t ss)
  unfolding find_setting
  find_setting-IsValue t [] h = tt
  find_setting-IsValue t (s ∷ ss) (h, hs) = ground (arith, find_setting-IsValue t ss hs)

  find_category-IsCategory :
      (t : List ℕ) (cs : List Category) → All AllBounded cs → IsCategory (find_category t cs)
  unfolding find_category
  find_category-IsCategory t [] h = tt
  find_category-IsCategory t (c ∷ cs) (h, hs) = ground (arith, find_category-IsCategory t cs hs)

  -- A number of another variable.
  write-other :
      (s : Setting) (st : Store) (v : ℕ) → s.address ≢ a → update st.ints s.address v a ≡ st.ints a
  write-other s st v ne = update_ne st.ints s.address a v (λ e. ne (sym e))

  pub commit_value-other :
      (k : VariableType) (s : Setting) (p : FileParseState) (st : Store)
      → s.address ≢ a
      → (commit_value k s (p, st)).1.ints a ≡ st.ints a
  unfolding commit_value commit_int
  commit_value-other k s p st ne = ground (arith, write-other s st)

  commit_value-own :
      (old : ℕ) (s : Setting) (p : FileParseState) (st : Store)
      → s.address ≡ a
      → s.min ≡ lo
      → s.max ≡ hi
      → Within old (st.ints a)
      → Within old ((commit_value int s (p, st)).1.ints a)
  unfolding commit_value commit_int
  commit_value-own old s p st e l h w = ground arith

  commit_value-Within :
      (old : ℕ) (k : VariableType) (s : Setting) (p : FileParseState) (st : Store)
      → k ≡ s.kind
      → Bounded s
      → Within old (st.ints a)
      → Within old ((commit_value k s (p, st)).1.ints a)
  commit_value-Within old k s p st e b w = elim (ℕ_discrete s.address a) [
    | yes q ↦ rw (e ∙ (b q).0) (commit_value-own old s p st q (b q).1 (b q).2 w)
    | no ne ↦ rw (commit_value-other k s p st ne) w
  ]

  commit_value-fields :
      (k : VariableType) (s : Setting) (w : FileParseState × Store)
      → ((commit_value k s w).0.category ≡ w.0.category)
        × ((commit_value k s w).0.value ≡ w.0.value)
  unfolding commit_value commit_int
  commit_value-fields k s w = ground arith

  commit_option-Inv :
      (old : ℕ) (o : Option Setting) (w : FileParseState × Store)
      → IsValue o
      → Inv old w
      → Inv old (commit_option o w)
  unfolding commit_option
  commit_option-Inv old none w b h = h
  commit_option-Inv old (some s) (p, st) b (c, v, i) = elim (Bool-cases (p.state % 4 == 0)) [
    | inl e ↦ rw e (
      rw (commit_value-fields s.kind s (p, st)).0 c,
      rw (commit_value-fields s.kind s (p, st)).1 v,
      commit_value-Within old s.kind s p st refl b i,
    )
    | inr e ↦ rw e (c, v, i)
  ]

  commit-Inv : (old : ℕ) (w : FileParseState × Store) → Inv old w → Inv old (commit w)
  unfolding commit
  commit-Inv old (p, st) h = commit_option-Inv old p.value (p, st) h.1 h

  on_hash-Inv : (old : ℕ) (w : FileParseState × Store) → Inv old w → Inv old (on_hash w)
  unfolding on_hash
  on_hash-Inv old (p, st) h = ground (arith, commit-Inv old (p, st) h)

  on_newline-Inv : (old : ℕ) (w : FileParseState × Store) → Inv old w → Inv old (on_newline w)
  unfolding on_newline
  on_newline-Inv old (p, st) h = ground (arith, commit-Inv old (p, st) h)

  on_close-Inv :
      (old : ℕ) (cats : List Category) (p : FileParseState) (st : Store)
      → All AllBounded cats
      → Inv old (p, st)
      → Inv old (on_close cats p, st)
  unfolding on_close parse_category
  on_close-Inv old cats p st b h = ground (arith, find_category-IsCategory p.buffer cats b)

  parse_name-Inv :
      (old : ℕ) (c : Category) (p : FileParseState) (st : Store)
      → AllBounded c
      → Inv old (p, st)
      → Inv old (parse_name c p, st)
  unfolding parse_name
  parse_name-Inv old c p st b h = (h.0, find_setting-IsValue p.buffer c.settings b, h.2)

  on_equals-Inv :
      (old : ℕ) (p : FileParseState) (st : Store) → Inv old (p, st) → Inv old (on_equals p, st)
  unfolding on_equals
  on_equals-Inv old p st h = elim (Option-cases p.category) [
    | inl e ↦ ground arith
    | inr (c, e) ↦
        let b : AllBounded c = subst IsCategory e h.0 in
        rw e (ground (arith, parse_name-Inv old c p st b h))
  ]

  -- The other bytes touch neither the variables nor what is chosen.
  open-Inv : (old : ℕ) (p : FileParseState) (st : Store) → Inv old (p, st) → Inv old (on_open p, st)
  unfolding on_open
  open-Inv old p st h = ground arith

  blank-Inv :
      (old : ℕ) (p : FileParseState) (st : Store) → Inv old (p, st) → Inv old (on_blank p, st)
  unfolding on_blank
  blank-Inv old p st h = ground arith

  put-Inv :
      (old c : ℕ) (p : FileParseState) (st : Store) → Inv old (p, st) → Inv old (put_char c p, st)
  unfolding put_char
  put-Inv old c p st h = ground arith

  parse_byte-Inv :
      (old : ℕ) (cats : List Category) (c : ℕ) (w : FileParseState × Store)
      → All AllBounded cats
      → Inv old w
      → Inv old (parse_byte cats c w)
  unfolding parse_byte
  parse_byte-Inv old cats c (p, st) b h =
      let i1 = on_hash-Inv old (p, st) h in
      let i2 = on_newline-Inv old (p, st) h in
      let i3 = open-Inv old p st h in
      let i4 = on_close-Inv old cats p st b h in
      let i5 = on_equals-Inv old p st h in
      let i6 = blank-Inv old p st h in let i7 = put-Inv old c p st h in ground arith

  parse_update-Inv :
      (old : ℕ) (cats : List Category) (file : List ℕ) (w : FileParseState × Store)
      → All AllBounded cats
      → Inv old w
      → Inv old (parse_update cats file w)
  unfolding parse_update
  parse_update-Inv old cats [] w b h = h
  parse_update-Inv old cats (c ∷ cs) w b h =
      parse_update-Inv old cats cs (parse_byte cats c w) b (parse_byte-Inv old cats c w b h)

  at_eof-Inv : (old : ℕ) (w : FileParseState × Store) → Inv old w → Within old ((at_eof w).ints a)
  at_eof-Inv old (p, st) h = ground (arith, commit-Inv old (p, st) h)

  -- Where every setting of the variable `a` is a number with the bounds `lo` and `hi`: whatever the
  -- file holds, to load it leaves the variable as it was, or gives it a number that is not below
  -- `lo` and not above `hi`.
  pub load-Within :
      (cats : List Category) (file : List ℕ) (st : Store)
      → All AllBounded cats
      → Within (st.ints a) ((load cats file st).ints a)
  unfolding load
  load-Within cats file st b =
      at_eof-Inv (st.ints a) (parse_update cats file (fresh, st))
        (parse_update-Inv (st.ints a) cats file (fresh, st) b (tt, tt, inl refl))
