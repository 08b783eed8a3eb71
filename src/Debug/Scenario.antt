-- ===== src/Debug/Scenario.antt =====
-- internal/debug/spec.go and scenario.go: the faults of a scenario and the two lookups of the
-- engine. Field by field as fault.yaml has them; a negative number of seconds acts as 0 does
-- everywhere here.
use interviews.Base.{
  ℕ, List, [], ◌∷◌, ◌++◌, Option, none, some, Str, codes, ◌==◌, elem, keep, if◌then◌else◌,
}

pub data Tier : Type 0 where
  easy medium hard : Tier
  other_tier : Str → Tier

pub record FaultSpec : Type 0 where
  pub id : Str
  pub title : Str
  pub tier : Tier
  pub packs : List Str
  pub masks : List Str
  pub settle_seconds : ℕ
  pub fix_timeout_seconds : ℕ

pub record Fault : Type 0 where
  pub spec : FaultSpec
  pub dir : Str

-- `Fault.Script`
abbrev pub script_path : Fault → Str → Str
script_path f name = f.dir ++ codes "/" ++ name

-- `PackFaults`
unfoldable pub pack_faults : List Fault → Str → List Fault
pack_faults faults pack = keep (λ f. elem pack f.spec.packs) faults

-- `Scenario.Fault`
unfoldable pub find_fault : List Fault → Str → Option Fault
find_fault [] id = none
find_fault (f ∷ faults) id =
    let rest = find_fault faults id in if f.spec.id == id then some f else rest
