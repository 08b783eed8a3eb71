-- ===== src/Cli/Target/Tests.antt =====
-- A session that was started with an override, and a command on it that gives another one.
use mathlib.Core.List.{filter_map}
use interviews.Base.{◌≡◌, refl, false, List, [], ◌∷◌, none, some, Str, codes, ◌==◌, ok, err}
use interviews.Content.Params.{string, text, ParamSpec}
use interviews.Interview.Store.{local, recorded, get, current, load}
use interviews.Registry.Load
use interviews.Registry.Load.{Registry}
use interviews.Variant.{lookup, convert_override, resolve}
use interviews.Cli.Commands.{blank}
use interviews.Cli.Target.{
  other_problem, parse_overrides, copy_into, same_entries, resolve_target, Target, Site,
  own_problem, with_recorded, resolve_as, resolve_problem,
}
use interviews.Cli.Target.Resolved.{IsResolved, resolve_problem-IsResolved}

abbrev fixed : Str → ParamSpec
fixed v = record {
  kind = string;
  of = none;
  min = none;
  max = none;
  default = some (text v);
  secret = false;
}

abbrev site : Site Str Unit
site = record {
  home = record {
    docs =
        (
          codes "s1",
          recorded (record (blank (codes "s1") (codes "shop") local 1) { workdir = codes "/w" }),
        )
        ∷ [];
    marker = none;
  };
  content = some (record {
    entries = [];
    by_id =
        (
          codes "shop",
          record { dir = codes "d"; kind = codes "debugging"; problem = some (codes "shop") },
        )
        ∷ (
          codes "cart",
          record { dir = codes "e"; kind = codes "debugging"; problem = some (codes "cart") },
        )
        ∷ [];
    findings = [];
  });
  specs = λ p. (codes "pack", fixed (codes "red")) ∷ (codes "port", fixed (codes "1")) ∷ [];
  sources = record { draw = λ problem id name n. 0; atoi = λ raw. none };
  default_workdir = λ v. none;
  recorded = λ dir. some ((codes "pack", codes "blue") ∷ (codes "port", codes "7") ∷ []);
}

abbrev sets : List Str
sets = codes "port=9" ∷ []

abbrev target : Target Str
target = record {
  problem = codes "shop";
  variant = record {
    problem = codes "shop";
    id = codes "s1";
    params = (codes "pack", text (codes "blue")) ∷ (codes "port", text (codes "9")) ∷ [];
    overrides = (codes "pack", codes "blue") ∷ (codes "port", codes "9") ∷ [];
  };
  workdir = codes "/w";
  seed = codes "s1";
}

resolved : resolve_problem site (codes "shop") [] [] sets ≡ ok target
unfolding resolve_problem resolve_as resolve_target current load get own_problem with_recorded
    parse_overrides copy_into same_entries Load.get resolve lookup convert_override ◌==◌ filter_map
resolved = refl

other_refused : resolve_problem site (codes "cart") [] [] sets ≡ err (other_problem (codes "cart"))
unfolding resolve_problem resolve_as resolve_target current load get own_problem with_recorded
    parse_overrides copy_into same_entries Load.get resolve lookup convert_override ◌==◌ filter_map
other_refused = refl

resolve_problem-IsResolved_example : IsResolved site (codes "shop") [] sets target
resolve_problem-IsResolved_example =
    resolve_problem-IsResolved site (codes "shop") [] [] sets target resolved
