-- ===== src/Interview/Tests.antt =====
-- Runs of the registry, and its theorems at concrete inputs.
use mathlib.Core.List.{filter_map}
use interviews.Base.{
  ◌≡◌, ◌≢◌, refl, true, false, List, [], ◌∷◌, Memᴰ, none, some, Str, codes, ◌==◌, ok, err,
}
use interviews.Base.Sort.{str_le}
use interviews.Interview.Seed.{reserved, bad_character, valid_seed, adjectives, nouns}
use interviews.Interview.Store.{
  no_session, current_seed, local, created, Time, Session, recorded, Home, HomeError, no_current,
  get, save, load, set_current, clear_current, remove, is_open, current, set_current_if_idle,
}
use interviews.Interview.Store.Refined.{
  Operation, saves, removes, marks, clears, Registry, Refines, apply_all, promise_all,
  apply_all-Refines,
}
use interviews.Interview.Store.Current.{set_current_if_idle-current}

reserved_refused : valid_seed (codes "tarballs") ≡ err (reserved (codes "tarballs"))
unfolding valid_seed ◌==◌
reserved_refused = refl

slash_refused : valid_seed (codes "a/b") ≡ err (bad_character (codes "a/b"))
unfolding valid_seed ◌==◌
slash_refused = refl

abbrev bison : Str
bison = codes "calm-bison-0731"

abbrev heron : Str
heron = codes "keen-heron-0801"

bison_valid : valid_seed bison ≡ ok tt
unfolding valid_seed ◌==◌
bison_valid = refl

calm_listed : Memᴰ (codes "calm") adjectives
unfolding adjectives
calm_listed = Memᴰ.tail (Memᴰ.tail (Memᴰ.head refl))

bison_listed : Memᴰ (codes "bison") nouns
unfolding nouns
bison_listed = Memᴰ.tail (Memᴰ.head refl)

abbrev session : Str → Time → Time → Session
session seed from to = record {
  seed = seed;
  problem = codes "toy-cache";
  kind = codes "debugging";
  level = [];
  mode = local;
  created_at = from;
  ended_at = to;
  ttl_minutes = 0;
  provisioned_at = 0;
  workdir = codes "/w";
  content_root = [];
  terraform_dir = [];
  content_version = [];
  evidence = [];
  stage = created;
  bundle_path = [];
  submission_path = [];
  due_at = 0;
  reviewed_at = 0;
  candidate_url = [];
  observer_url = [];
  app_url = [];
  host = [];
}

abbrev live : Session
live = session bison 10 0

abbrev ended : Session
ended = session bison 10 70

abbrev other : Session
other = session heron 20 0

abbrev home : Home
home = record { docs = []; marker = none }

abbrev one : Home
one = record { docs = (bison, recorded live) ∷ []; marker = none }

one_saved : save live home ≡ ok one
unfolding save valid_seed ◌==◌
one_saved = refl

abbrev two : Home
two = record {
  docs = (bison, recorded live) ∷ (heron, recorded other) ∷ [];
  marker = some (codes "calm-bison-0731\n");
}

heron_valid : valid_seed heron ≡ ok tt
unfolding valid_seed ◌==◌
heron_valid = refl

heron_loads : load heron two ≡ ok other
unfolding load ◌==◌
heron_loads = refl

current-two : current two ≡ ok live
unfolding current ◌==◌
current-two = refl

set_current_if_idle-current_example :
    ((cur : Session)
      → current two ≡ ok cur
      → cur.seed ≢ heron
      → (is_open cur ≡ true → set_current_if_idle heron two ≡ two)
        × (is_open cur ≡ false → current (set_current_if_idle heron two) ≡ ok other))
    × ((e : HomeError) → current two ≡ err e → current (set_current_if_idle heron two) ≡ ok other)
set_current_if_idle-current_example =
    set_current_if_idle-current other heron two heron_valid heron_loads

abbrev two_after : Home
two_after = record {
  docs = (bison, recorded ended) ∷ (heron, recorded other) ∷ [];
  marker = some (codes "calm-bison-0731\n");
}

ended_saved : save ended two ≡ ok two_after
unfolding save valid_seed ◌==◌ str_le
ended_saved = refl

after_end : current (clear_current bison two_after) ≡ ok other
unfolding current clear_current ◌==◌ filter_map
after_end = refl

after_remove : current (remove bison two) ≡ ok other
unfolding current remove ◌==◌ filter_map
after_remove = refl

nobody : current home ≡ err no_current
unfolding current filter_map
nobody = refl

abbrev draws : List (Str × Str)
draws = (codes "calm", codes "bison") ∷ []

-- a registry that nothing was done to, and what it promises
abbrev blank : Registry
blank = record { lookup = λ j. err (no_session j); focus = none }

blank-Refines : Refines home blank
unfolding load get current_seed
blank-Refines = record { loads = λ j. refl; marks = refl }

abbrev day : List Operation
day = saves live ∷ marks bison ∷ removes heron ∷ clears bison ∷ []

day_done : (h : Home) × (apply_all day home ≡ ok h)
unfolding save valid_seed set_current remove clear_current current_seed ◌==◌
day_done = (_, refl)

apply_all-Refines_example : Refines day_done.0 (promise_all day blank)
apply_all-Refines_example =
    apply_all-Refines day home day_done.0 blank (tt, (bison_valid, (tt, (tt, tt)))) blank-Refines
      day_done.1
