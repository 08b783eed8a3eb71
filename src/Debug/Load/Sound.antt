-- ===== src/Debug/Load/Sound.antt =====
-- What a scenario without issues is.
use interviews.Base.{
  ◌≡◌, refl, ap, subst, true, false, not, List, [], ◌∷◌, ◌++◌, Memᴰ, All, note_if, append-silent,
  note_if-silent, note_if-silent_not, Option, none, some, Str, codes, elem,
}
use interviews.Base.Sort.{IsSorted}
use interviews.Debug.Scenario.{Fault, pack_faults, find_fault}
use interviews.Debug.Load.{
  EnvSpec, Tree, Declared, Issue, bad_provider, undeclared_pack, unknown_mask, empty_pack, Scenario,
  providers_of, is_some, is_none_given, require_executable, provider_issues, app_issues, env_issues,
  by_id, load_faults, pack_issues, mask_issues, member_issues, empty_packs, check_packs, with_env,
  load_scenario,
}
use interviews.Debug.Load.Usable.{IsUsable, require_executable-silent, load_faults-IsUsable}

-- A fault whose packs are declared and whose masks are faults.
pub record IsMember (declared : List Str) (faults : List Fault) (f : Fault) : Type 0 where
  pub packs : All (λ p. elem p declared ≡ true) f.spec.packs
  pub masks : All (λ m. is_some (find_fault faults m) ≡ true) f.spec.masks

pub record IsSound (t : Tree) (d : Declared) (s : Scenario) : Type 0 where
  pub provided : elem s.env.provider (providers_of d.flavor) ≡ true
  pub verifies : t.is_executable s.env.verify ≡ true
  pub inhabited : (f : Fault) × Memᴰ f s.faults
  pub usable : All (IsUsable t) s.faults
  pub sorted : IsSorted by_id s.faults
  pub members :
      (declared : List Str) × (d.packs ≡ some declared)
      × All (IsMember declared s.faults) s.faults
      × All (λ p. is_none_given (pack_faults s.faults p) ≡ false) declared

pack_issues-silent :
    (declared : List Str) (f : Fault) (packs : List Str)
    → pack_issues declared f packs ≡ []
    → All (λ p. elem p declared ≡ true) packs
unfolding pack_issues
pack_issues-silent declared f [] h = tt
pack_issues-silent declared f (p ∷ packs) h =
    let (a, b) =
      append-silent (note_if (not (elem p declared)) (undeclared_pack f.spec.id p))
        (pack_issues declared f packs) h in
    (
      note_if-silent_not (elem p declared) (undeclared_pack f.spec.id p) a,
      pack_issues-silent declared f packs b,
    )

mask_issues-silent :
    (faults : List Fault) (f : Fault) (masks : List Str)
    → mask_issues faults f masks ≡ []
    → All (λ m. is_some (find_fault faults m) ≡ true) masks
unfolding mask_issues
mask_issues-silent faults f [] h = tt
mask_issues-silent faults f (m ∷ masks) h =
    let (a, b) =
      append-silent (note_if (not (is_some (find_fault faults m))) (unknown_mask f.spec.id m))
        (mask_issues faults f masks) h in
    (
      note_if-silent_not (is_some (find_fault faults m)) (unknown_mask f.spec.id m) a,
      mask_issues-silent faults f masks b,
    )

member_issues-silent :
    (declared : List Str) (faults fs : List Fault)
    → member_issues declared faults fs ≡ []
    → All (IsMember declared faults) fs
unfolding member_issues
member_issues-silent declared faults [] h = tt
member_issues-silent declared faults (f ∷ fs) h =
    let (a, h1) = append-silent (pack_issues declared f f.spec.packs) _ h in
    let (b, c) =
      append-silent (mask_issues faults f f.spec.masks) (member_issues declared faults fs) h1 in
    (
      record {
        packs = pack_issues-silent declared f f.spec.packs a;
        masks = mask_issues-silent faults f f.spec.masks b;
      },
      member_issues-silent declared faults fs c,
    )

empty_packs-silent :
    (faults : List Fault) (packs : List Str)
    → empty_packs faults packs ≡ []
    → All (λ p. is_none_given (pack_faults faults p) ≡ false) packs
unfolding empty_packs
empty_packs-silent faults [] h = tt
empty_packs-silent faults (p ∷ packs) h =
    let (a, b) =
      append-silent (note_if (is_none_given (pack_faults faults p)) (empty_pack p))
        (empty_packs faults packs) h in
    (
      note_if-silent (is_none_given (pack_faults faults p)) (empty_pack p) a,
      empty_packs-silent faults packs b,
    )

check_packs-silent :
    (o : Option (List Str)) (faults : List Fault)
    → check_packs o faults ≡ []
    → (declared : List Str) × (o ≡ some declared)
      × All (IsMember declared faults) faults
      × All (λ p. is_none_given (pack_faults faults p) ≡ false) declared
unfolding check_packs
check_packs-silent none faults h = cc
check_packs-silent (some declared) faults h =
    let (a, b) =
      append-silent (member_issues declared faults faults) (empty_packs faults declared) h in
    (
      declared,
      refl,
      member_issues-silent declared faults faults a,
      empty_packs-silent faults declared b,
    )

env_issues-silent :
    (t : Tree) (d : Declared) (env : EnvSpec)
    → env_issues t d env ≡ []
    → (elem env.provider (providers_of d.flavor) ≡ true) × (t.is_executable env.verify ≡ true)
unfolding env_issues
env_issues-silent t d env h =
    let known = elem env.provider (providers_of d.flavor) in
    let (a, h1) = append-silent (note_if (not known) (bad_provider env.provider)) _ h in
    let (_, h2) = append-silent (provider_issues t env) _ h1 in
    let (b, _) =
      append-silent (require_executable t env.verify (codes "verify"))
        (app_issues t env.provider env.app) h2 in
    (
      note_if-silent_not known (bad_provider env.provider) a,
      require_executable-silent t env.verify (codes "verify") b,
    )

-- A scenario that loads without an issue: its provider hosts the flavor, its verify script can run, it has a fault, and
-- its faults stand in the order of their ids, each in the directory of its id with a title, a tier, a pack and the
-- four files; its packs and masks are there, and no declared pack is empty.
pub load_scenario-IsSound :
    (t : Tree) (d : Declared) (s : Scenario) → load_scenario t d ≡ (some s, []) → IsSound t d s
unfolding load_scenario
load_scenario-IsSound t d s = go t.env
  where
    scenario-inj : (a b : Scenario) → some a ≡ some b → a ≡ b
    scenario-inj a b h = cc

    nothing : (a : Scenario) → ◌≡◌ {A = Option Scenario} none (some a) → ⊥
    nothing a h = cc

    go : (o : Option EnvSpec) → with_env t d o ≡ (some s, []) → IsSound t d s
    go none h = absurd (nothing s (ap (λ (r : Option Scenario × List Issue). r.0) h))
    go (some env) h =
        let (faults, issues) = load_faults t in
        let (a, h1) =
          append-silent (env_issues t d env) (issues ++ check_packs d.packs faults)
            (ap (λ (r : Option Scenario × List Issue). r.1) h) in
        let (b, c) = append-silent issues (check_packs d.packs faults) h1 in
        let (provided, verifies) = env_issues-silent t d env a in
        let (usable, sorted, inhabited) = load_faults-IsUsable t b in
        let made : IsSound t d (record { env = env; faults = faults }) = record {
          provided = provided;
          verifies = verifies;
          inhabited = inhabited;
          usable = usable;
          sorted = sorted;
          members = check_packs-silent d.packs faults c;
        } in
        subst (IsSound t d)
          (scenario-inj (record { env = env; faults = faults }) s
            (ap (λ (r : Option Scenario × List Issue). r.0) h))
          made
