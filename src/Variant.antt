-- ===== src/Variant.antt =====
-- internal/variant/variant.go: the parameters of one interview. A map of parameters or overrides is
-- the list of its entries in the order of their names, which is the order `Resolve` takes. The random
-- stream of `paramRNG` and `strconv.Atoi` are parameters: `draw` gives the number below a bound that the
-- stream of a problem, an interview and a parameter begins with, `atoi` the number that a text spells, in
-- excess form.
pub mod Sound
pub mod Frame
pub mod Lint
mod Tests
use interviews.Base.{
  ℕ, zero, suc, ◌+◌, ◌-◌, ◌/◌, ◌%◌, ◌^◌, Bool, true, false, ◌&&◌, not, List, [], ◌∷◌, ◌++◌, Option,
  none, some, Str, ◌==◌, elem, leb, ltb, length, Result, ok, err, ◌>>=◌, if◌then◌else◌,
}
use interviews.Content.Params.{
  ParamType, choice, int, string, other_type, Value, text, number, ParamSpec, values, outside,
}

pub data ResolveError : Type 0 where
  no_such_parameter : Str → ResolveError
  empty_choice invalid_bounds no_default unknown_type not_listed not_a_number out_of_range
        bound_panics :
      Str → ResolveError

unfoldable pub lookup : {A : Type 0} → List (Str × A) → Str → Option A
lookup [] name = none
lookup ((k, a) ∷ entries) name =
    let rest = lookup entries name in if k == name then some a else rest

abbrev pub nth : Str → List Str → ℕ → Str
nth v vs zero = v
nth v [] (suc i) = v
nth v (w ∷ vs) (suc i) = nth w vs i

-- what the system gives
pub record Sources : Type 0 where
  pub draw : Str → Str → Str → ℕ → ℕ
  pub atoi : Str → Option ℕ

-- `convertOverride`
unfoldable pub convert_override :
    Sources → Str → ParamSpec → ParamType → Str → Result ResolveError Value
convert_override src name p choice raw =
    if elem raw (values p.of) then ok (text raw) else err (not_listed name)
convert_override src name p int raw = elim (src.atoi raw) [
  | none ↦ err (not_a_number name)
  | some n ↦ if outside p.min p.max n then err (out_of_range name) else ok (number n)
]
convert_override src name p string raw = ok (text raw)
convert_override src name p (other_type t) raw = err (unknown_type name)

abbrev pub pick : (ℕ → ℕ) → Str → List Str → Result ResolveError Value
pick draw name [] = err (empty_choice name)
pick draw name (v ∷ vs) = ok (text (nth v vs (draw (suc (length vs)))))

-- `rng.IntN` panics on a bound that is not positive, which is what one of 2^63 and more wraps to.
abbrev pub pick_between : (ℕ → ℕ) → Str → Option ℕ → Option ℕ → Result ResolveError Value
pick_between draw name (some lo) (some hi) =
    if ltb hi lo
    then err (invalid_bounds name)
    else if leb (2 ^ 63) (hi - lo + 1)
    then err (bound_panics name)
    else ok (number (lo + draw (hi - lo + 1)))
pick_between draw name none hi = err (invalid_bounds name)
pick_between draw name (some lo) none = err (invalid_bounds name)

-- the `switch` of `resolveParam`
unfoldable pub drawn : (ℕ → ℕ) → Str → ParamSpec → ParamType → Result ResolveError Value
drawn draw name p choice = pick draw name (values p.of)
drawn draw name p int = pick_between draw name p.min p.max
drawn draw name p string = err (no_default name)
drawn draw name p (other_type t) = err (unknown_type name)

-- `resolveParam`, of the parameter's own override
unfoldable pub resolve_param :
    Sources → Str → Str → Str → ParamSpec → Option Str → Result ResolveError Value
unfolding convert_override drawn
resolve_param src problem id name p (some raw) = convert_override src name p p.kind raw
resolve_param src problem id name p none = elim (p.default) [
  | some v ↦ ok v
  | none ↦ drawn (src.draw problem id name) name p p.kind
]

-- the first loop of `Resolve`
unfoldable pub check_overrides :
    List (Str × ParamSpec) → List (Str × Str) → Result ResolveError Unit
unfolding lookup
check_overrides specs [] = ok tt
check_overrides specs ((name, raw) ∷ overrides) =
    let rest = check_overrides specs overrides in
    elim (lookup specs name) [ none ↦ err (no_such_parameter name) | some p ↦ rest ]

-- the second loop of `Resolve`
unfoldable pub resolve_each :
    Sources
    → Str
    → Str
    → List (Str × Str)
    → List (Str × ParamSpec)
    → Result ResolveError (List (Str × Value))
unfolding resolve_param lookup
resolve_each src problem id overrides [] = ok []
resolve_each src problem id overrides ((name, p) ∷ specs) =
    resolve_param src problem id name p (lookup overrides name) >>= λ v.
    resolve_each src problem id overrides specs >>= λ rest. ok ((name, v) ∷ rest)

-- `Resolve`
unfoldable pub resolve :
    Sources
    → Str
    → List (Str × ParamSpec)
    → Str
    → List (Str × Str)
    → Result ResolveError (List (Str × Value))
unfolding check_overrides resolve_each
resolve src problem specs id overrides =
    check_overrides specs overrides >>= λ _. resolve_each src problem id overrides specs

-- `binary.BigEndian.PutUint32` of a length
unfoldable pub put_uint32 : ℕ → Str
put_uint32 n = n / 2 ^ 24 % 256 ∷ n / 2 ^ 16 % 256 ∷ n / 2 ^ 8 % 256 ∷ n % 256 ∷ []

-- what `HashParts` feeds to the hash
unfoldable pub frame : List Str → Str
unfolding put_uint32
frame [] = []
frame (s ∷ parts) = put_uint32 (length s) ++ s ++ frame parts
