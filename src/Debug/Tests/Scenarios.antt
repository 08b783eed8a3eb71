-- ===== src/Debug/Tests/Scenarios.antt =====
-- A scenario of one fault that loads, and one whose pack is empty.
use interviews.Base.{◌≡◌, refl, true, false, List, [], ◌∷◌, none, some, Str, codes, ◌==◌}
use interviews.Content.Taxonomy.{valid_id}
use interviews.Debug.Scenario.{easy, FaultSpec}
use interviews.Debug.Load.{EnvSpec, Tree, Declared, Scenario, empty_pack, load_scenario}
use interviews.Debug.Load.Sound.{IsSound, load_scenario-IsSound}

abbrev env : EnvSpec
env = record {
  provider = codes "compose";
  kind = none;
  compose = some (record { file = codes "compose.yaml"; configs = [] });
  verify = codes "verify.sh";
  app = none;
}

abbrev spec : FaultSpec
spec = record {
  id = codes "a";
  title = codes "A";
  tier = easy;
  packs = codes "p" ∷ [];
  masks = [];
  settle_seconds = 0;
  fix_timeout_seconds = 0;
}

abbrev tree : Tree
tree = record {
  env = some env;
  is_file = λ path. true;
  is_executable = λ path. true;
  has_entries = λ path. true;
  faults = some ((codes "a", true) ∷ []);
  fault_doc = λ name. some (record { spec = spec; is_negative = false });
}

abbrev declared : List Str → Declared
declared packs = record { flavor = codes "compose-linux"; packs = some packs }

abbrev scenario : Scenario
scenario = record { env = env; faults = record { spec = spec; dir = codes "faults/a" } ∷ [] }

loads : load_scenario tree (declared (codes "p" ∷ [])) ≡ (some scenario, [])
unfolding load_scenario valid_id ◌==◌
loads = refl

empty_pack_found :
    (load_scenario tree (declared (codes "p" ∷ codes "q" ∷ []))).1 ≡ empty_pack (codes "q") ∷ []
unfolding load_scenario valid_id ◌==◌
empty_pack_found = refl

load_scenario-IsSound_example : IsSound tree (declared (codes "p" ∷ [])) scenario
load_scenario-IsSound_example =
    load_scenario-IsSound tree (declared (codes "p" ∷ [])) scenario loads
