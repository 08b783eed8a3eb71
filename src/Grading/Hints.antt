-- ===== src/Grading/Hints.antt =====
-- internal/grading/score.go: the ledger of hints. A ledger on disk is a file that is there or not and
-- decodes or not; the lock of `AppendHint` is not modelled, it makes one append at a time.
pub mod Merged
use interviews.Base.{
  ℕ, Bool, true, false, ◌&&◌, not, List, [], ◌∷◌, ◌++◌, Option, none, some, Str, ◌==◌, ◌=?◌, any,
  leb, Result, ok, err, if◌then◌else◌,
}
use interviews.Base.Sort.{sort}
use interviews.Interview.Store.{Time}

pub record Hint : Type 0 where
  pub minute : ℕ
  pub text : Str
  pub at : Time
  pub zone : ℕ  -- which Location the time `at` points to

-- Go's `==` on hints, the key of the `seen` map; of the two times it compares the instants and the Locations
unfoldable pub same_hint : Hint → Hint → Bool
same_hint a b = (a.minute =? b.minute) && (a.text == b.text) && (a.at =? b.at) && (a.zone =? b.zone)

abbrev pub is_seen : Hint → List Hint → Bool
is_seen h = any (same_hint h)

-- the inner loop of `MergeHints`, from the hints kept so far
unfoldable pub collect : List Hint → List Hint → List Hint
unfolding same_hint
collect kept [] = []
collect kept (h ∷ hints) =
    let skip = collect kept hints in
    let take = collect (h ∷ kept) hints in if is_seen h kept then skip else h ∷ take

abbrev pub all_of : List (List Hint) → List Hint
all_of [] = []
all_of (hints ∷ sets) = hints ++ all_of sets

abbrev pub earlier : Hint → Hint → Bool
earlier a b = leb a.minute b.minute

-- `MergeHints`
unfoldable pub merge_hints : List (List Hint) → List Hint
unfolding collect sort
merge_hints sets = sort earlier (collect [] (all_of sets))

pub data Ledger : Type 0 where
  hints_file : List Hint → Ledger
  garbled : Ledger

-- `LoadHints`: `none` is its error.
abbrev pub load_hints : Option Ledger → Option (List Hint)
load_hints none = some []
load_hints (some garbled) = none
load_hints (some (hints_file hints)) = some hints

-- `AppendHint`, with the ledger it writes
unfoldable pub append_hint : Option Ledger → Hint → Option Ledger
append_hint ledger h = elim (load_hints ledger) [
  | none ↦ none
  | some hints ↦ some (hints_file (hints ++ h ∷ []))
]
