-- ===== src/Variant/Tests.antt =====
-- A choice and a range, resolved.
use interviews.Base.{
  ℕ, ◌-◌, ◌≡◌, refl, false, List, [], ◌∷◌, none, some, Str, codes, ◌==◌, ok, arith,
}
use interviews.Content.Params.{
  choice, int, Value, text, number, ParamSpec, validate_param, spec_issues, repeats, is_param_name,
}
use interviews.Variant.{
  Sources, lookup, convert_override, drawn, resolve_param, check_overrides, resolve_each, resolve,
}
use interviews.Variant.Sound.{HasStream, AreUsable, Variation, resolve-Variation}

abbrev sources : Sources
sources = record { draw = λ problem id name n. n - 1; atoi = λ raw. some 7 }

sources-HasStream : HasStream sources
sources-HasStream = record { below = λ problem id name n h. ground arith }

abbrev pack_spec : ParamSpec
pack_spec = record {
  kind = choice;
  of = some (codes "red" ∷ codes "blue" ∷ []);
  min = none;
  max = none;
  default = none;
  secret = false;
}

abbrev port_spec : ParamSpec
port_spec = record {
  kind = int;
  of = none;
  min = some 3;
  max = some 9;
  default = none;
  secret = false;
}

abbrev specs : List (Str × ParamSpec)
specs = (codes "pack", pack_spec) ∷ (codes "port", port_spec) ∷ []

pack_passes : validate_param (codes "pack") pack_spec ≡ []
unfolding validate_param spec_issues repeats is_param_name ◌==◌
pack_passes = refl

port_passes : validate_param (codes "port") port_spec ≡ []
unfolding validate_param spec_issues repeats is_param_name ◌==◌
port_passes = refl

some-inj : (a b : ℕ) → some a ≡ some b → a ≡ b
some-inj a b h = cc

specs-AreUsable : AreUsable specs
specs-AreUsable = (
  record { passes = pack_passes; fits = λ lo hi p q. cc },
  (
    record {
      passes = port_passes;
      fits = λ lo hi p q. ground (arith, some-inj 3 lo p, some-inj 9 hi q);
    },
    tt,
  ),
)

abbrev overrides : List (Str × Str)
overrides = (codes "port", codes "7") ∷ []

abbrev params : List (Str × Value)
params = (codes "pack", text (codes "blue")) ∷ (codes "port", number 7) ∷ []

resolve_run : resolve sources (codes "shop") specs (codes "s1") overrides ≡ ok params
unfolding resolve check_overrides resolve_each resolve_param convert_override drawn lookup ◌==◌
resolve_run = refl

resolve-Variation_example : Variation sources (codes "shop") (codes "s1") overrides specs params
resolve-Variation_example =
    resolve-Variation sources (codes "shop") (codes "s1") sources-HasStream overrides specs params
      specs-AreUsable resolve_run
