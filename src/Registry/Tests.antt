-- ===== src/Registry/Tests.antt =====
-- A content root where two directories have one id.
use interviews.Base.{
  ◌≡◌, refl, Bool, true, List, Memᴰ, ◌⊎◌, [], ◌∷◌, some, Str, codes, ◌==◌, ok, if◌then◌else◌,
}
use interviews.Content.Taxonomy.{debugging, types}
use interviews.Registry.Load.{
  absent, listed, already_used, Entry, Registry, Checks, get, problem_dir, load,
}
use interviews.Registry.Load.Complete.{decoded, load-get}

-- a problem is its id
abbrev checks : Checks Str Bool
checks = record {
  root = listed ((codes "debugging", true) ∷ []);
  type_dir = λ kind.
      if kind == debugging then listed ((codes "a", true) ∷ (codes "b", true) ∷ []) else absent;
  load = λ kind name. (some (codes "x"), []);
  id = λ p. p;
  templates = λ p. [];
  scenario = λ p. [];
  spread = λ p. [];
  review = λ p. [];
  take_home_issues = λ p. [];
}

root_loaded : (r : Registry Str Bool) × (load checks ≡ ok r)
unfolding load ◌==◌
root_loaded = (_, refl)

abbrev names : List (Str × Bool)
names = (codes "a", true) ∷ (codes "b", true) ∷ []

listing : checks.type_dir debugging ≡ listed names
unfolding ◌==◌
listing = refl

debugging_type : Memᴰ debugging types
debugging_type = Memᴰ.head refl

load-get_example :
    Memᴰ (decoded checks debugging (codes "b") (codes "x")) (root_loaded.0).entries
    × ((f : Entry Str) × (get (root_loaded.0) (codes "x") ≡ some f)
        × ((f ≡ decoded checks debugging (codes "b") (codes "x"))
            ⊎ Memᴰ
                (record {
                  dir = problem_dir checks debugging (codes "b");
                  issue = already_used (codes "x") f.dir;
                })
                (root_loaded.0).findings))
load-get_example =
    load-get checks debugging (codes "b") (codes "x") refl names (root_loaded.0) debugging_type
      listing (Memᴰ.tail (Memᴰ.head refl)) root_loaded.1
