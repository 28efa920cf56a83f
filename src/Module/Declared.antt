-- ===== src/Module/Declared.antt =====
-- The declarations of a module, as the macro `BSLUG_META` of bslug_include/bslug.h writes them and as
-- `Module_MetadataRead` reads them.
use netslugplus.Base.{
  ℕ, ◌≡◌, ◌≢◌, refl, ap, ◌∙◌, arith, false, ◌==◌, if◌then◌else◌, List, [], ◌∷◌, ◌++◌, Option, none,
  some, Option-cases, inl, inr, append_assoc, codes, All,
}
use mathlib.Core.Path.{fun_ext}
use netslugplus.Module.Metadata.{
  strncmp_eq, find_char, Key, key_game, key_name, key_author, key_version, key_license, key_bslug,
  key_of, Fields, declare, read_text, texts, read_next, read_texts,
}

abbrev pub key_text : Key → List ℕ
key_text key_game = codes "game"
key_text key_name = codes "name"
key_text key_author = codes "author"
key_text key_version = codes "version"
key_text key_license = codes "license"
key_text key_bslug = codes "bslug"

-- `#id "=" value`, an array of characters with its NUL.
unfoldable pub bslug_meta : Key → List ℕ → List ℕ
bslug_meta k value = key_text k ++ (b'=' ∷ value) ++ (0 ∷ [])

abbrev pub section_of : List (Key × List ℕ) → List ℕ
section_of [] = []
section_of ((k, v) ∷ ds) = bslug_meta k v ++ section_of ds

-- What is declared, by the key alone: a second declaration of a key is an error.
abbrev pub Values : Type 0
Values = Key → Option (List ℕ)

abbrev pub key_index : Key → ℕ
key_index key_game = 0
key_index key_name = 1
key_index key_author = 2
key_index key_version = 3
key_index key_license = 4
key_index key_bslug = 5

abbrev pub put : Key → List ℕ → Values → Values
put k v w j = if key_index j == key_index k then some v else w j

abbrev pub put_new : Key → List ℕ → Values → Option (List ℕ) → Option Values
put_new k v w none = some (put k v w)
put_new k v w (some old) = none

abbrev pub put_next : (Values → Option Values) → Option Values → Option Values
put_next rest none = none
put_next rest (some w) = rest w

abbrev pub put_all : List (Key × List ℕ) → Values → Option Values
put_all [] w = some w
put_all ((k, v) ∷ ds) w = put_next (put_all ds) (put_new k v w (w k))

-- The fields of the code, by their keys.
abbrev pub view : Fields → Values
view f key_game = f.game
view f key_name = f.name
view f key_author = f.author
view f key_version = f.version
view f key_license = f.license
view f key_bslug = f.bslug

abbrev pub viewed : Option Fields → Option Values
viewed none = none
viewed (some f) = some (view f)

declare-put :
    (k : Key) (v : List ℕ) (f : Fields) → viewed (declare k v f) ≡ put_new k v (view f) (view f k)
unfolding declare
declare-put key_game v f = elim (Option-cases f.game) [
  | inl e ↦ rw e (ap some (fun_ext λ j. ground arith))
  | inr (old, e) ↦ rw e refl
]
declare-put key_name v f = elim (Option-cases f.name) [
  | inl e ↦ rw e (ap some (fun_ext λ j. ground arith))
  | inr (old, e) ↦ rw e refl
]
declare-put key_author v f = elim (Option-cases f.author) [
  | inl e ↦ rw e (ap some (fun_ext λ j. ground arith))
  | inr (old, e) ↦ rw e refl
]
declare-put key_version v f = elim (Option-cases f.version) [
  | inl e ↦ rw e (ap some (fun_ext λ j. ground arith))
  | inr (old, e) ↦ rw e refl
]
declare-put key_license v f = elim (Option-cases f.license) [
  | inl e ↦ rw e (ap some (fun_ext λ j. ground arith))
  | inr (old, e) ↦ rw e refl
]
declare-put key_bslug v f = elim (Option-cases f.bslug) [
  | inl e ↦ rw e (ap some (fun_ext λ j. ground arith))
  | inr (old, e) ↦ rw e refl
]

abbrev pub IsChar : ℕ → Type 0
IsChar c = c ≢ 0

All-append : (xs ys : List ℕ) → All IsChar xs → All IsChar ys → All IsChar (xs ++ ys)
All-append [] ys h k = k
All-append (x ∷ xs) ys h k = (h.0, All-append xs ys h.1 k)

key_text-IsChar : (k : Key) → All IsChar (key_text k)
key_text-IsChar key_game = omega arith
key_text-IsChar key_name = omega arith
key_text-IsChar key_author = omega arith
key_text-IsChar key_version = omega arith
key_text-IsChar key_license = omega arith
key_text-IsChar key_bslug = omega arith

texts-append : (t rest : List ℕ) → All IsChar t → texts (t ++ (0 ∷ rest)) ≡ t ∷ texts rest
unfolding texts
texts-append [] rest h = refl
texts-append (c ∷ t) rest h =
    let other : (c == 0) ≡ false = ground (arith, h.0) in rw (other, texts-append t rest h.1) refl

read_text-declared :
    (k : Key) (v : List ℕ) (f : Fields) → read_text (key_text k ++ (b'=' ∷ v)) f ≡ declare k v f
unfolding read_text find_char key_of strncmp_eq
read_text-declared key_game v f = refl
read_text-declared key_name v f = refl
read_text-declared key_author v f = refl
read_text-declared key_version v f = refl
read_text-declared key_license v f = refl
read_text-declared key_bslug v f = refl

texts-meta :
    (k : Key) (v rest : List ℕ)
    → All IsChar v
    → texts (bslug_meta k v ++ rest) ≡ (key_text k ++ (b'=' ∷ v)) ∷ texts rest
unfolding bslug_meta
texts-meta k v rest h =
    ap texts (append_assoc (key_text k ++ (b'=' ∷ v)) (0 ∷ []) rest)
    ∙ texts-append (key_text k ++ (b'=' ∷ v)) rest
        (All-append (key_text k) (b'=' ∷ v) (key_text-IsChar k) (omega arith, h))

viewed-read_next :
    (g : Fields → Option Fields) (h : Values → Option Values) (o : Option Fields)
    → ((f : Fields) → viewed (g f) ≡ h (view f))
    → viewed (read_next g o) ≡ put_next h (viewed o)
viewed-read_next g h none e = refl
viewed-read_next g h (some f) e = e f

-- What the loader reads of a section that the macro wrote, with values that have no NUL, are the
-- declarations, in any order and number, after any that were read before: each key has its value,
-- and the second declaration of a key is an error.
pub read_texts-section_of :
    (ds : List (Key × List ℕ)) (f : Fields)
    → All (λ (k, v). All IsChar v) ds
    → viewed (read_texts (texts (section_of ds)) f) ≡ put_all ds (view f)
unfolding texts read_texts
read_texts-section_of [] f h = refl
read_texts-section_of ((k, v) ∷ ds) f h =
    ap (λ ts. viewed (read_texts ts f)) (texts-meta k v (section_of ds) h.0)
    ∙ (ap (λ o. viewed (read_next (read_texts (texts (section_of ds))) o))
          (read_text-declared k v f)
        ∙ (viewed-read_next (read_texts (texts (section_of ds))) (put_all ds) (declare k v f)
              (λ f'. read_texts-section_of ds f' h.1)
            ∙ ap (put_next (put_all ds)) (declare-put k v f)))
