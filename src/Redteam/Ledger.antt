-- ===== src/Redteam/Ledger.antt =====
-- internal/redteam/ledger.go: `Judge`, `Latest` and `Stale`. A share is compared with 0.6 as the fraction that it
-- is: a quotient of float64s answers the same below 2^40 faults. A map by key is the list of its entries in the
-- order of their keys.
pub mod Recent
use interviews.Base.{
  ℕ, ◌+◌, ◌*◌, Bool, true, false, ◌||◌, List, [], ◌∷◌, ◌++◌, Option, none, some, Str, codes, ◌==◌,
  ◌=?◌, leb, ltb, if◌then◌else◌,
}
use interviews.Base.Sort.{str_le}
use interviews.Interview.Store.{Time}

pub data Verdict : Type 0 where
  holds too_easy inconclusive : Verdict
  other_verdict : Str → Verdict

-- `Entry`, without what only the sheet prints
pub record Attempt : Type 0 where
  pub problem : Str
  pub pack : Str
  pub at : Time
  pub fixed_count : ℕ
  pub total : ℕ
  pub verified : Bool
  pub verdict : Verdict

-- `Share` of at least `tooEasyShare`
unfoldable pub is_easy_share : Attempt → Bool
is_easy_share e = leb (3 * e.total) (5 * e.fixed_count)

-- `Judge`
unfoldable pub judge : Attempt → Verdict
unfolding is_easy_share
judge e =
    if e.total =? 0 then inconclusive else if e.verified || is_easy_share e then too_easy else holds

-- the key of `Latest`
unfoldable pub key_of : Attempt → Str
key_of e = e.problem ++ codes "/" ++ e.pack

unfoldable pub look : List (Str × Attempt) → Str → Option Attempt
look [] key = none
look ((k, e) ∷ entries) key = let rest = look entries key in if k == key then some e else rest

unfoldable pub enter : List (Str × Attempt) → Str → Attempt → List (Str × Attempt)
enter [] key e = (key, e) ∷ []
enter ((k, d) ∷ entries) key e =
    let rest = enter entries key e in
    if k == key
    then (key, e) ∷ entries
    else if str_le key k
    then (key, e) ∷ (k, d) ∷ entries
    else (k, d) ∷ rest

-- one turn of the loop of `Latest`
unfoldable pub take_in : List (Str × Attempt) → Attempt → List (Str × Attempt)
unfolding look enter key_of
take_in out e = elim (look out (key_of e)) [
  | none ↦ enter out (key_of e) e
  | some prev ↦ if ltb prev.at e.at then enter out (key_of e) e else out
]

unfoldable pub latest_from : List (Str × Attempt) → List Attempt → List (Str × Attempt)
unfolding take_in
latest_from out [] = out
latest_from out (e ∷ entries) = latest_from (take_in out e) entries

-- `Latest`
unfoldable pub latest : List Attempt → List (Str × Attempt)
unfolding latest_from
latest entries = latest_from [] entries

abbrev pub is_too_easy : Verdict → Bool
is_too_easy holds = false
is_too_easy too_easy = true
is_too_easy inconclusive = false
is_too_easy (other_verdict v) = false

unfoldable pub rework : List (Str × Attempt) → List Attempt
rework [] = []
rework ((k, e) ∷ entries) =
    let rest = rework entries in if is_too_easy e.verdict then e ∷ rest else rest

-- `Stale`
unfoldable pub stale : List Attempt → List Attempt
unfolding latest rework
stale entries = rework (latest entries)
