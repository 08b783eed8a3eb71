-- ===== src/Content/Tests.antt =====
-- A debugging problem's manifest.
use interviews.Base.{◌≡◌, ◌+◌, refl, false, [], ◌∷◌, none, some, codes, ◌==◌}
use interviews.Content.Params.{choice, validate_param, spec_issues, repeats, is_param_name}
use interviews.Content.Taxonomy.{
  debugging, valid_type, valid_flavor, valid_class, valid_discipline, valid_level, id_rest,
  valid_id,
}
use interviews.Content.Manifest.{
  Manifest, no_minutes, units, each_value, validate_set, validate_manifest,
}
use interviews.Content.Manifest.Passed.{IsSound, validate_manifest_passes}

abbrev manifest : Manifest
manifest = record {
  schema = 1;
  id = codes "shop-down";
  kind = debugging;
  title = codes "Shop";
  summary = codes "It is down";
  disciplines = codes "infra" ∷ codes "systems" ∷ [];
  levels = codes "mid" ∷ [];
  flavor = codes "kubernetes";
  class = [];
  time = record { session_minutes = no_minutes + 60; soft_budget_hours = units 0 };
  params =
      (
        codes "fault_pack",
        record {
          kind = choice;
          of = some (codes "red" ∷ codes "blue" ∷ []);
          min = none;
          max = none;
          default = none;
          secret = false;
        },
      )
      ∷ [];
  visibility = codes "brief.md" ∷ [];
}

manifest_passes : validate_manifest manifest debugging (codes "shop-down") ≡ []
unfolding validate_manifest validate_set each_value validate_param spec_issues repeats is_param_name
    valid_type valid_flavor valid_class valid_discipline valid_level id_rest valid_id ◌==◌
manifest_passes = refl

validate_manifest_passes_example : IsSound manifest debugging (codes "shop-down")
validate_manifest_passes_example =
    validate_manifest_passes manifest debugging (codes "shop-down") manifest_passes
