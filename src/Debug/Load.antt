-- ===== src/Debug/Load.antt =====
-- internal/debug/scenario.go: `LoadScenario`, with what it reads of the problem's tree as a `Tree`, a parameter.
-- `none` is a file or a directory that cannot be read or does not decode.
pub mod Usable
pub mod Sound
use interviews.Base.{
  ℕ, Bool, true, false, ◌&&◌, ◌||◌, not, List, [], ◌∷◌, ◌++◌, note_if, Option, none, some, Str,
  codes, ◌==◌, elem, if◌then◌else◌,
}
use interviews.Base.Sort.{sort, str_le}
use interviews.Content.Taxonomy.{valid_id}
use interviews.Debug.Scenario.{
  Tier, easy, medium, hard, other_tier, FaultSpec, Fault, script_path, pack_faults, find_fault,
}

-- `BuildSpec`
pub record BuildSpec : Type 0 where
  pub image : Str
  pub context : Str

-- `KindSpec`, as far as it is checked
pub record KindSpec : Type 0 where
  pub manifests : Str
  pub namespace : Str
  pub build : List BuildSpec

-- `ComposeSpec`
pub record ComposeSpec : Type 0 where
  pub file : Str
  pub configs : Str

-- of `AppSpec` what is checked
pub record AppCheck : Type 0 where
  pub service : Str
  pub port : Str

-- `EnvSpec`
pub record EnvSpec : Type 0 where
  pub provider : Str
  pub kind : Option KindSpec
  pub compose : Option ComposeSpec
  pub verify : Str
  pub app : Option AppCheck

-- a fault.yaml, and whether one of its two times is below zero
pub record FaultDoc : Type 0 where
  pub spec : FaultSpec
  pub is_negative : Bool

pub record Tree : Type 0 where
  pub env : Option EnvSpec
  pub is_file : Str → Bool
  pub is_executable : Str → Bool
  pub has_entries : Str → Bool
  pub faults : Option (List (Str × Bool))  -- the names under faults/, and which are directories
  pub fault_doc : Str → Option FaultDoc

-- of the manifest what a scenario is checked against: `none` where the fault_pack parameter is no choice
pub record Declared : Type 0 where
  pub flavor : Str
  pub packs : Option (List Str)

pub data Issue : Type 0 where
  no_env : Issue
  bad_provider other_section no_section : Str → Issue
  required missing not_executable : Str → Str → Issue
  only_kind : Issue
  no_faults no_pack_param : Issue
  not_a_fault no_fault_doc bad_id no_title bad_tier no_packs negative_time : Str → Issue
  other_id undeclared_pack unknown_mask : Str → Str → Issue
  empty_pack : Str → Issue

pub record Scenario : Type 0 where
  pub env : EnvSpec
  pub faults : List Fault

-- `providersByFlavor`
abbrev pub providers_of : Str → List Str
providers_of flavor =
    if flavor == codes "kubernetes"
    then codes "kind" ∷ []
    else if flavor == codes "compose-linux"
    then codes "compose" ∷ []
    else []

-- `Tiers`
abbrev pub is_tier : Tier → Bool
is_tier easy = true
is_tier medium = true
is_tier hard = true
is_tier (other_tier t) = false

abbrev pub is_some : {A : Type 0} → Option A → Bool
is_some none = false
is_some (some a) = true

abbrev pub is_none_given : {A : Type 0} → List A → Bool
is_none_given [] = true
is_none_given (x ∷ xs) = false

abbrev pub id_issues : Str → Str → List Issue
id_issues id dir_name =
    if not (valid_id id)
    then bad_id id ∷ []
    else note_if (not (id == dir_name)) (other_id id dir_name)

abbrev pub fault_dir : Str → Str
fault_dir name = codes "faults/" ++ name

abbrev pub by_id : Fault → Fault → Bool
by_id f g = str_le f.spec.id g.spec.id

module _ (t : Tree) where
  -- `requireFile`
  unfoldable pub require_file : Str → Str → List Issue
  require_file path field =
      if path == []
      then required field [] ∷ []
      else note_if (not (t.is_file path)) (missing path field)

  -- `requireDir`
  unfoldable pub require_dir : Str → Str → List Issue
  require_dir path field =
      if path == []
      then required field [] ∷ []
      else note_if (not (t.has_entries path)) (missing path field)

  abbrev pub or_not_executable : Str → Str → List Issue → List Issue
  or_not_executable path field [] = note_if (not (t.is_executable path)) (not_executable path field)
  or_not_executable path field (i ∷ is) = i ∷ is

  -- `requireExecutable`
  unfoldable pub require_executable : Str → Str → List Issue
  unfolding require_file
  require_executable path field = or_not_executable path field (require_file path field)

  -- the built images of a kind environment
  unfoldable pub build_issues : List BuildSpec → List Issue
  unfolding require_dir
  build_issues [] = []
  build_issues (b ∷ bs) =
      note_if (b.image == []) (required (codes "kind.build.image") b.context)
      ++ (require_dir b.context (codes "kind.build.context") ++ build_issues bs)

  abbrev pub kind_issues : Option KindSpec → List Issue
  kind_issues none = no_section (codes "kind") ∷ []
  kind_issues (some k) =
      note_if (k.namespace == []) (required (codes "kind.namespace") [])
      ++ (require_dir k.manifests (codes "kind.manifests") ++ build_issues k.build)

  abbrev pub compose_issues : Option ComposeSpec → List Issue
  compose_issues none = no_section (codes "compose") ∷ []
  compose_issues (some c) =
      require_file c.file (codes "compose.file")
      ++ (if c.configs == [] then [] else require_dir c.configs (codes "compose.configs"))

  -- the section of the provider, and the other one
  unfoldable pub provider_issues : EnvSpec → List Issue
  unfolding build_issues require_file require_dir
  provider_issues env =
      if env.provider == codes "kind"
      then note_if (is_some env.compose) (other_section (codes "compose")) ++ kind_issues env.kind
      else if env.provider == codes "compose"
      then note_if (is_some env.kind) (other_section (codes "kind")) ++ compose_issues env.compose
      else []

  unfoldable pub app_issues : Str → Option AppCheck → List Issue
  app_issues provider none = []
  app_issues provider (some app) =
      note_if (app.port == []) (required (codes "app.port") [])
      ++ (if provider == codes "kind"
          then note_if (app.service == []) (required (codes "app.service") [])
          else if provider == codes "compose"
          then note_if (not (app.service == [])) only_kind
          else [])

  -- what `LoadScenario` asks of env.yaml
  unfoldable pub env_issues : Declared → EnvSpec → List Issue
  unfolding provider_issues require_executable app_issues
  env_issues d env =
      note_if (not (elem env.provider (providers_of d.flavor))) (bad_provider env.provider)
      ++ (provider_issues env
          ++ (require_executable env.verify (codes "verify") ++ app_issues env.provider env.app))

  -- `faultFiles`, of a fault
  abbrev pub file_issues : Fault → List Issue
  file_issues f =
      require_executable (script_path f (codes "inject.sh")) (codes "inject.sh")
      ++ (require_executable (script_path f (codes "check.sh")) (codes "check.sh")
          ++ (require_executable (script_path f (codes "fix.sh")) (codes "fix.sh")
              ++ require_file (script_path f (codes "notes.md")) (codes "notes.md")))

  -- `validateFault`
  unfoldable pub validate_fault : FaultDoc → Fault → Str → List Issue
  unfolding require_executable require_file
  validate_fault doc f dir_name =
      id_issues f.spec.id dir_name
      ++ (note_if (f.spec.title == []) (no_title f.dir)
          ++ (note_if (not (is_tier f.spec.tier)) (bad_tier f.dir)
              ++ (note_if (is_none_given f.spec.packs) (no_packs f.dir)
                  ++ (note_if doc.is_negative (negative_time f.dir) ++ file_issues f))))

  abbrev pub with_fault : Str → Option FaultDoc → List Fault × List Issue → List Fault × List Issue
  with_fault name none (fs, is) = (fs, no_fault_doc name ∷ is)
  with_fault name (some doc) (fs, is) =
      let f : Fault = record { spec = doc.spec; dir = fault_dir name } in
      (f ∷ fs, validate_fault doc f name ++ is)

  -- the loop of `loadFaults`
  unfoldable pub read_faults : List (Str × Bool) → List Fault × List Issue
  unfolding validate_fault
  read_faults [] = ([], [])
  read_faults ((name, is_dir) ∷ entries) =
      let (fs, is) = read_faults entries in
      if not is_dir
      then (fs, not_a_fault name ∷ is)
      else with_fault name (t.fault_doc name) (fs, is)

  abbrev pub loaded : Option (List (Str × Bool)) → List Fault × List Issue
  loaded none = ([], no_faults ∷ [])
  loaded (some entries) =
      let (fs, is) = read_faults entries in
      (sort by_id fs, is ++ note_if (is_none_given fs && is_none_given is) no_faults)

  -- `loadFaults`
  unfoldable pub load_faults : List Fault × List Issue
  unfolding read_faults sort
  load_faults = loaded t.faults

-- what `checkPacks` says of one fault's packs, and of its masks
unfoldable pub pack_issues : List Str → Fault → List Str → List Issue
pack_issues declared f [] = []
pack_issues declared f (pack ∷ packs) =
    note_if (not (elem pack declared)) (undeclared_pack f.spec.id pack)
    ++ pack_issues declared f packs

unfoldable pub mask_issues : List Fault → Fault → List Str → List Issue
unfolding find_fault
mask_issues faults f [] = []
mask_issues faults f (masked ∷ masks) =
    note_if (not (is_some (find_fault faults masked))) (unknown_mask f.spec.id masked)
    ++ mask_issues faults f masks

unfoldable pub member_issues : List Str → List Fault → List Fault → List Issue
unfolding pack_issues mask_issues
member_issues declared faults [] = []
member_issues declared faults (f ∷ fs) =
    pack_issues declared f f.spec.packs
    ++ (mask_issues faults f f.spec.masks ++ member_issues declared faults fs)

unfoldable pub empty_packs : List Fault → List Str → List Issue
unfolding pack_faults
empty_packs faults [] = []
empty_packs faults (pack ∷ packs) =
    note_if (is_none_given (pack_faults faults pack)) (empty_pack pack) ++ empty_packs faults packs

-- `checkPacks`
unfoldable pub check_packs : Option (List Str) → List Fault → List Issue
unfolding member_issues empty_packs
check_packs none faults = no_pack_param ∷ []
check_packs (some declared) faults =
    member_issues declared faults faults ++ empty_packs faults declared

-- `LoadScenario`
abbrev pub with_env : Tree → Declared → Option EnvSpec → Option Scenario × List Issue
with_env t d none = (none, no_env ∷ [])
with_env t d (some env) =
    let (faults, issues) = load_faults t in
    (
      some (record { env = env; faults = faults }),
      env_issues t d env ++ (issues ++ check_packs d.packs faults),
    )

unfoldable pub load_scenario : Tree → Declared → Option Scenario × List Issue
unfolding env_issues load_faults check_packs
load_scenario t d = with_env t d t.env
