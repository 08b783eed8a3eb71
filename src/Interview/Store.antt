-- ===== src/Interview/Store.antt =====
-- internal/interview/interview.go: the registry of sessions and the current marker. The state is
-- what stands under the registry's home: a document for each seed, in the order of their file
-- names as `os.ReadDir` gives them, and the text of the marker file. Writes go through
-- `fileio.WriteAtomic`, so a document is there whole or not at all.
pub mod Docs
pub mod Current
pub mod Fresh
pub mod Refined
use mathlib.Core.List.{filter_map}
use interviews.Base.{
  ℕ, ◌≡◌, refl, Bool, true, false, ◌&&◌, ◌||◌, not, List, [], ◌∷◌, ◌++◌, Option, none, some, Str,
  codes, ◌==◌, keep, leb, ◌=?◌, trim_space, newline, Result, ok, err, ◌>>=◌, if◌then◌else◌, map,
}
use interviews.Base.Sort.{sort, str_le}
use interviews.Interview.Seed.{SeedError, valid_seed, seed_of}

pub data Mode : Type 0 where
  local aws offline : Mode
  other_mode : Str → Mode

pub data Stage : Type 0 where
  created sent returned reviewed : Stage
  other_stage : Str → Stage

-- A time is a count from Go's zero time, which is 0.
abbrev pub Time : Type 0
Time = ℕ

abbrev pub is_zero : Time → Bool
is_zero t = t =? 0

-- `Session`, without the provenance of an offline drop, which no operation here reads.
pub record Session : Type 0 where
  pub seed : Str
  pub problem : Str
  pub kind : Str  -- `Type`
  pub level : Str
  pub mode : Mode
  pub created_at : Time
  pub ended_at : Time
  pub ttl_minutes : ℕ
  pub provisioned_at : Time
  pub workdir : Str
  pub content_root : Str
  pub terraform_dir : Str
  pub content_version : Str
  pub evidence : Str
  pub stage : Stage
  pub bundle_path : Str
  pub submission_path : Str
  pub due_at : Time
  pub reviewed_at : Time
  pub candidate_url : Str
  pub observer_url : Str
  pub app_url : Str
  pub host : Str

-- A file under `sessions`: a record, or bytes that do not decode.
pub data Doc : Type 0 where
  recorded : Session → Doc
  garbled : Doc

pub record Home : Type 0 where
  pub docs : List (Str × Doc)
  pub marker : Option Str

pub data HomeError : Type 0 where
  bad_seed : SeedError → HomeError
  no_session : Str → HomeError
  undecodable : Str → HomeError
  no_current : HomeError
  ambiguous : List Str → HomeError

unfoldable pub get : List (Str × Doc) → Str → Option Doc
get [] seed = none
get ((k, d) ∷ docs) seed = let rest = get docs seed in if k == seed then some d else rest

-- `<seed>.json`
abbrev pub file_name : Str → Str
file_name seed = seed ++ codes ".json"

abbrev pub is_key : Str → Str × Doc → Bool
is_key seed (k, d) = k == seed

unfoldable pub delete : List (Str × Doc) → Str → List (Str × Doc)
delete docs seed = keep (λ kd. not (is_key seed kd)) docs

-- A name goes where `os.ReadDir` will list it.
unfoldable pub place : List (Str × Doc) → Str → Doc → List (Str × Doc)
place [] seed d = (seed, d) ∷ []
place ((k, e) ∷ docs) seed d =
    let rest = place docs seed d in
    if str_le (file_name seed) (file_name k) then (seed, d) ∷ (k, e) ∷ docs else (k, e) ∷ rest

-- A write replaces the document of that name.
unfoldable pub put : List (Str × Doc) → Str → Doc → List (Str × Doc)
unfolding delete place
put docs seed d = place (delete docs seed) seed d

-- `Save`
unfoldable pub save : Session → Home → Result HomeError Home
unfolding put
save s h = elim (valid_seed s.seed) [
  | err e ↦ err (bad_seed e)
  | ok _ ↦ ok (record h { docs = put h.docs s.seed (recorded s) })
]

-- `Load`
unfoldable pub load : Str → Home → Result HomeError Session
unfolding get
load seed h = elim (get h.docs seed) [
  | none ↦ err (no_session seed)
  | some garbled ↦ err (undecodable seed)
  | some (recorded s) ↦ ok s
]

abbrev pub newest_first : Session → Session → Bool
newest_first a b = leb b.created_at a.created_at

abbrev pub readable : Str × Doc → Option Session
readable (k, garbled) = none
readable (k, recorded s) = some s

-- `List`: an unreadable record does not hide the rest. `slices.SortFunc` promises no order among records of one time;
-- here these keep the order of the documents.
unfoldable pub list : Home → List Session
unfolding sort
list h = sort newest_first (filter_map readable h.docs)

-- `currentSeed`
unfoldable pub current_seed : Home → Option Str
unfolding trim_space
current_seed h = elim (h.marker) [ none ↦ none | some text ↦ some (trim_space text) ]

-- `SetCurrent`, what it writes
unfoldable pub set_current : Str → Home → Home
set_current seed h = record h { marker = some (seed ++ newline ∷ []) }

abbrev pub names_seed : Option Str → Str → Bool
names_seed none seed = false
names_seed (some cur) seed = cur == seed

-- `ClearCurrent`, what it leaves where the file is removed
unfoldable pub clear_current : Str → Home → Home
unfolding current_seed
clear_current seed h = if names_seed (current_seed h) seed then record h { marker = none } else h

-- `Remove`, what it leaves where the files are removed
unfoldable pub remove : Str → Home → Home
unfolding delete clear_current
remove seed h = clear_current seed (record h { docs = delete h.docs seed })

abbrev pub is_open : Session → Bool
is_open s = is_zero s.ended_at

-- the sessions that `Current` falls back to
unfoldable pub open_sessions : Home → List Session
unfolding list
open_sessions h = keep is_open (list h)

abbrev pub only_open : List Session → Result HomeError Session
only_open [] = err no_current
only_open (s ∷ []) = ok s
only_open (s ∷ t ∷ rest) = err (ambiguous (map (λ (r : Session). r.seed) (s ∷ t ∷ rest)))

-- the marker's session, where the marker names one that loads
unfoldable pub marked : Home → Option Session
unfolding current_seed load
marked h = elim (current_seed h) [
  | none ↦ none
  | some seed ↦ if seed == [] then none else elim (load seed h) [ ok s ↦ some s | err e ↦ none ]
]

-- `Current`
unfoldable pub current : Home → Result HomeError Session
unfolding marked open_sessions
current h = elim (marked h) [ some s ↦ ok s | none ↦ only_open (open_sessions h) ]

-- `SetCurrentIfIdle`
unfoldable pub set_current_if_idle : Str → Home → Home
unfolding set_current
set_current_if_idle seed h = elim (current h) [
  | err e ↦ set_current seed h
  | ok cur ↦ if not (cur.seed == seed) && is_open cur then h else set_current seed h
]

-- The loop of `NewSeed`, a pair of drawn words for each round; `none` is its error.
unfoldable pub new_seed : List (Str × Str) → Str → Home → Option Str
unfolding seed_of get
new_seed [] stamp h = none
new_seed ((a, n) ∷ draws) stamp h =
    let rest = new_seed draws stamp h in
    elim (get h.docs (seed_of a n stamp)) [ none ↦ some (seed_of a n stamp) | some d ↦ rest ]
