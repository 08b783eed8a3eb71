-- ===== src/Cli/Target.antt =====
-- internal/cli/common.go: what a problem id, a seed and the flags of a command come to. The content root is a
-- Registry that loaded, or none; a state file is what `debug.LoadState` reads in a workdir. A map of overrides is
-- the list of its entries; the warnings are left out.
pub mod Maps
pub mod Recorded
pub mod Resolved
mod Tests
use interviews.Base.{
  ℕ, ◌=?◌, Bool, true, false, ◌&&◌, ◌||◌, not, List, [], ◌∷◌, length, all, Option, none, some, Str,
  codes, ◌==◌, Result, ok, err, ◌>>=◌, ◌>>◌, if◌then◌else◌,
}
use interviews.Content.Params.{Value, ParamSpec}
use interviews.Interview.Store.{Session, Home, HomeError, no_current, current, load}
use interviews.Registry.Load.{Registry, Entry, get}
use interviews.Variant.{ResolveError, Sources, lookup, resolve}

pub data TargetError : Type 0 where
  no_session_yet no_content no_cache : TargetError
  registry : HomeError → TargetError
  bad_override no_problem other_problem : Str → TargetError
  unresolved : ResolveError → TargetError

abbrev pub Overrides : Type 0
Overrides = List (Str × Str)

abbrev pub behind : ℕ → Option (Str × Str) → Option (Str × Str)
behind c none = none
behind c (some (k, v)) = some (c ∷ k, v)

-- `strings.Cut` at an equals sign
unfoldable pub cut : Str → Option (Str × Str)
cut [] = none
cut (c ∷ s) = let rest = behind c (cut s) in if c =? b'=' then some ([], s) else rest

-- `m[k] = v`
unfoldable pub put : Str → Str → Overrides → Overrides
put k v [] = (k, v) ∷ []
put k v ((j, w) ∷ m) = let rest = put k v m in if k == j then (k, v) ∷ m else (j, w) ∷ rest

abbrev pub taken : Str → Option (Str × Str) → Overrides → Result TargetError Overrides
taken p none out = err (bad_override p)
taken p (some (k, v)) out = if k == [] then err (bad_override p) else ok (put k v out)

-- `parseOverrides`, from what it has read so far
unfoldable pub parse_overrides : List Str → Overrides → Result TargetError Overrides
unfolding cut put
parse_overrides [] out = ok out
parse_overrides (p ∷ ps) out = taken p (cut p) out >>= parse_overrides ps

-- `maps.Copy`
unfoldable pub copy_into : Overrides → Overrides → Overrides
unfolding put
copy_into dst [] = dst
copy_into dst ((k, v) ∷ src) = copy_into (put k v dst) src

abbrev pub is_value : Str → Option Str → Bool
is_value v none = false
is_value v (some w) = v == w

-- `maps.Equal`
unfoldable pub same_entries : Overrides → Overrides → Bool
same_entries m o = length m =? length o && all (λ ((k, v) : Str × Str). is_value v (lookup o k)) m

abbrev pub or_given : Str → Str → Str
or_given given recorded = if given == [] then recorded else given

abbrev pub of_current : Str → Result HomeError Session → Result TargetError (Str × Str)
of_current workdir (ok s) = ok (s.seed, or_given workdir s.workdir)
of_current workdir (err no_current) = err no_session_yet
of_current workdir (err e) = err (registry e)

abbrev pub recorded_workdir : Result HomeError Session → Str
recorded_workdir (ok s) = s.workdir
recorded_workdir (err e) = []

-- `resolveTarget`
unfoldable pub resolve_target : Home → Str → Str → Result TargetError (Str × Str)
resolve_target h seed workdir =
    if seed == []
    then of_current workdir (current h)
    else ok (seed, or_given workdir (recorded_workdir (load seed h)))

-- `variant.Resolved`
pub record Variant : Type 0 where
  pub problem : Str
  pub id : Str
  pub params : List (Str × Value)
  pub overrides : Overrides

-- `resolvedProblem`
pub record Target (P : Type 0) : Type 0 where
  pub problem : P
  pub variant : Variant
  pub workdir : Str
  pub seed : Str

pub record Site (P I : Type 0) : Type 0 where
  pub home : Home
  pub content : Option (Registry P I)  -- `openRegistry`
  pub specs : P → List (Str × ParamSpec)
  pub sources : Sources
  pub default_workdir : Variant → Option Str
  pub recorded : Str → Option Overrides  -- the overrides of the state file in a workdir

module _ {P I : Type 0} (c : Site P I) where
  abbrev pub given : {A : Type 0} → TargetError → Option A → Result TargetError A
  given e none = err e
  given e (some a) = ok a

  -- `reg.Get`; every problem under an id has decoded
  abbrev pub problem_of : Option (Entry P) → Option P
  problem_of none = none
  problem_of (some e) = e.problem

  abbrev pub as_variant :
      Str → Str → Overrides → Result ResolveError (List (Str × Value)) → Result TargetError Variant
  as_variant id seed o (err e) = err (unresolved e)
  as_variant id seed o (ok params) =
      ok (record { problem = id; id = seed; params = params; overrides = o })

  abbrev pub variant_of : Str → P → Str → Overrides → Result TargetError Variant
  variant_of id p seed o = as_variant id seed o (resolve c.sources id (c.specs p) seed o)

  abbrev pub is_other : Str → Result HomeError Session → Bool
  is_other id (ok s) = not (s.problem == []) && not (s.problem == id)
  is_other id (err e) = false

  -- what a record says against the problem that is named
  unfoldable pub own_problem : Str → Str → Result TargetError Unit
  own_problem id seed = if is_other id (load seed c.home) then err (other_problem id) else ok tt

  abbrev pub workdir_for : Str → Variant → Result TargetError Str
  workdir_for [] v = given no_cache (c.default_workdir v)
  workdir_for (a ∷ s) v = ok (a ∷ s)

  -- a variant that does not resolve with what was recorded is the one without it
  abbrev pub or_kept : Variant → Result TargetError Variant → Variant
  or_kept v (ok u) = u
  or_kept v (err e) = v

  unfoldable pub with_recorded : Str → P → Str → Overrides → Variant → Option Overrides → Variant
  with_recorded id p seed o v none = v
  with_recorded id p seed o v (some []) = v
  with_recorded id p seed o v (some (r ∷ rs)) =
      let merged = copy_into (r ∷ rs) o in
      if same_entries merged o then v else or_kept v (variant_of id p seed merged)

  -- `resolveProblem`, past its seed
  unfoldable pub resolve_as : Str → List Str → Str × Str → Result TargetError (Target P)
  unfolding own_problem with_recorded
  resolve_as id sets (seed, workdir) = do
    o ← parse_overrides sets []
    reg ← given no_content c.content
    p ← given (no_problem id) (problem_of (get reg id))
    own_problem id seed
    v ← variant_of id p seed o
    dir ← workdir_for workdir v
    let u = with_recorded id p seed o v (c.recorded dir)
    ok (record { problem = p; variant = u; workdir = dir; seed = seed })

  -- `resolveProblem`
  unfoldable pub resolve_problem : Str → Str → Str → List Str → Result TargetError (Target P)
  unfolding resolve_as
  resolve_problem id seed workdir sets = resolve_target c.home seed workdir >>= resolve_as id sets
