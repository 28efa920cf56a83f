-- ===== src/Search/Build/Reports.antt =====
-- What `FSM_Run` finds with the machine of `Search_BuildFSM` of src/search/search.c.
use netslugplus.Base.{
  ℕ, suc, ◌*◌, ◌<◌, ◌≡◌, refl, sym, ap, ◌∙◌, subst, if◌then◌else◌, List, [], ◌∷◌, ◌++◌, Option,
  none, some, length, All, append_nil, append_assoc, length-append,
}
use netslugplus.Search.Fsm.{Fsm, run, merge}
use netslugplus.Search.Fsm.Complete.{IsClosed}
use netslugplus.Search.Fsm.Follow.{both}
use netslugplus.Search.Fsm.Run.{merge-run}
use netslugplus.Search.Fsm.Closed.{merge-IsClosed, create_machine-IsClosed}
use netslugplus.Search.Fsm.Create.{Masked, create}
use netslugplus.Search.Fsm.Found.{ends_with, reports, create-run, create-machine}
use netslugplus.Search.Text.Spells.{symbol_bytes}
use netslugplus.Search.Parse.{GameSymbol, Content, content, no_content, unset_content}

-- A symbol that is sought: its index and its bytes.
abbrev pub Sought : Type 0
Sought = ℕ × List Masked

abbrev pub sought_content : ℕ → Content → List Sought
sought_content index (content b) = (index, symbol_bytes b) ∷ []
sought_content index no_content = []
sought_content index unset_content = []

abbrev pub sought_symbol : Option GameSymbol → List Sought
sought_symbol none = []
sought_symbol (some s) = sought_content s.index s.bytes

abbrev pub sought : List (Option GameSymbol) → List Sought
sought [] = []
sought (o ∷ os) = sought_symbol o ++ sought os

-- The symbols whose bytes the bytes that were read end with, in their order.
abbrev pub ended : List Sought → List ℕ → List ℕ
ended [] seen = []
ended ((index, xs) ∷ ss) seen =
    (if ends_with xs (length xs) seen then index ∷ [] else []) ++ ended ss seen

-- At each place of the bytes, and at their end.
abbrev pub all_reports : List Sought → List ℕ → List ℕ → List (List ℕ)
all_reports ss seen [] = ended ss seen ∷ []
all_reports ss seen (c ∷ cs) = ended ss seen ∷ all_reports ss (c ∷ seen) cs

ended-append :
    (ss ts : List Sought) (seen : List ℕ) → ended (ss ++ ts) seen ≡ ended ss seen ++ ended ts seen
ended-append [] ts seen = refl
ended-append ((index, xs) ∷ ss) ts seen =
    ap (λ r. (if ends_with xs (length xs) seen then index ∷ [] else []) ++ r)
      (ended-append ss ts seen)
    ∙ sym (
        append_assoc (if ends_with xs (length xs) seen then index ∷ [] else []) (ended ss seen)
          (ended ts seen))

ended-one :
    (index : ℕ) (xs : List Masked) (seen : List ℕ)
    → ended ((index, xs) ∷ []) seen ≡ (if ends_with xs (length xs) seen then index ∷ [] else [])
ended-one index xs seen = append_nil (if ends_with xs (length xs) seen then index ∷ [] else [])

all_reports-one :
    (index : ℕ) (xs : List Masked) (seen cs : List ℕ)
    → reports index xs seen cs ≡ all_reports ((index, xs) ∷ []) seen cs
all_reports-one index xs seen [] = ap (λ r. r ∷ []) (sym (ended-one index xs seen))
all_reports-one index xs seen (c ∷ cs) =
    ap (λ r. r ∷ reports index xs (c ∷ seen) cs) (sym (ended-one index xs seen))
    ∙ ap (λ rs. ended ((index, xs) ∷ []) seen ∷ rs) (all_reports-one index xs (c ∷ seen) cs)

all_reports-append :
    (ss ts : List Sought) (seen cs : List ℕ)
    → both (all_reports ss seen cs) (all_reports ts seen cs) ≡ all_reports (ss ++ ts) seen cs
all_reports-append ss ts seen [] = ap (λ r. r ∷ []) (sym (ended-append ss ts seen))
all_reports-append ss ts seen (c ∷ cs) =
    ap (λ r. r ∷ both (all_reports ss (c ∷ seen) cs) (all_reports ts (c ∷ seen) cs))
      (sym (ended-append ss ts seen))
    ∙ ap (λ rs. ended (ss ++ ts) seen ∷ rs) (all_reports-append ss ts (c ∷ seen) cs)

-- A machine that finds these symbols, and no others.
pub record Finds (ss : List Sought) (fsm : Fsm) : Type 0 where
  pub is_closed : IsClosed fsm
  pub finds :
      (bytes : List ℕ)
      → All (λ c. c < 256) bytes
      → run (length ss) fsm fsm.initial bytes ≡ some (all_reports ss [] bytes)

pub create-Finds :
    (index : ℕ) (x : Masked) (xs : List Masked) {fsm : Fsm}
    → create index (x ∷ xs) ≡ some fsm
    → Finds ((index, x ∷ xs) ∷ []) fsm
create-Finds index x xs made = record {
  is_closed =
      subst IsClosed (create-machine index (x ∷ xs) made) (create_machine-IsClosed index x xs);
  finds = λ bytes small.
      create-run index x xs bytes small made ∙ ap some (all_reports-one index (x ∷ xs) [] bytes);
}

pub merge-Finds :
    (ss ts : List Sought) (left right fsm : Fsm)
    → Finds ss left
    → Finds ts right
    → merge (suc (left.node_count * right.node_count)) left right ≡ some fsm
    → Finds (ss ++ ts) fsm
merge-Finds ss ts left right fsm l r made = record {
  is_closed = merge-IsClosed left right fsm l.is_closed r.is_closed made;
  finds = λ bytes small.
      subst (λ n. run n fsm fsm.initial bytes ≡ some (all_reports (ss ++ ts) [] bytes))
        (sym (length-append ss ts))
        (merge-run left right fsm (length ss) (length ts) bytes _ _ l.is_closed r.is_closed made
            small (l.finds bytes small) (r.finds bytes small)
          ∙ ap some (all_reports-append ss ts [] bytes));
}
