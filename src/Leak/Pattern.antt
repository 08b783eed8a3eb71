-- ===== src/Leak/Pattern.antt =====
-- Go's `path.Match` on one segment, as its documentation gives the pattern language:
-- `*` any run of bytes but the slash, `?` any byte but the slash, `[a-z]` and `[^a-z]` classes,
-- `\x` the byte x. The classifier compares ASCII texts only, where a byte is a character.
use interviews.Base.{
  ℕ, ◌≡◌, refl, Bool, true, false, not, ◌&&◌, ◌||◌, List, [], ◌∷◌, ◌++◌, Option, none, some, Str,
  codes, leb, ◌=?◌, if◌then◌else◌,
}
use mathlib.Core.Option
use interviews.Leak.Path.{slash}

pub record Span : Type 0 where
  pub lo : ℕ
  pub hi : ℕ

pub data Item : Type 0 where
  star : Item
  any_byte : Item
  literal : ℕ → Item
  class : Bool → List Span → Item

-- What the bytes read so far leave open.
pub data Mode : Type 0 where
  plain : Mode  -- between items
  escaped : Mode  -- after a backslash
  opened : Mode  -- after `[`
  lower_end : Bool → List Span → Mode  -- a range may begin, or the class may end
  lower_escaped : Bool → List Span → Mode
  after_lower : Bool → List Span → ℕ → Mode  -- a range has begun
  upper_end : Bool → List Span → ℕ → Mode  -- after the dash of a range
  upper_escaped : Bool → List Span → ℕ → Mode

abbrev pub backslash : ℕ
backslash = 92

abbrev pub caret : ℕ
caret = b'^'

unfoldable pub plain_byte : ℕ → Mode × List Item
plain_byte c =
    if c =? b'*'
    then (plain, star ∷ [])
    else if c =? b'?'
    then (plain, any_byte ∷ [])
    else if c =? backslash
    then (escaped, [])
    else if c =? b'['
    then (opened, [])
    else (plain, literal c ∷ [])

abbrev pub is_empty {ℓ} : {A : Type ℓ} → List A → Bool
is_empty [] = true
is_empty (x ∷ xs) = false

-- A class is closed only once it has a range; a range begins with neither `-` nor `]`.
unfoldable pub lower_byte : Bool → List Span → ℕ → Option (Mode × List Item)
lower_byte negated spans c =
    if c =? b']' && not (is_empty spans)
    then some (plain, class negated spans ∷ [])
    else if c =? b'-' || c =? b']'
    then none
    else if c =? backslash
    then some (lower_escaped negated spans, [])
    else some (after_lower negated spans c, [])

-- One byte of the pattern; `none` is `path.ErrBadPattern`.
unfoldable pub step : Mode → ℕ → Option (Mode × List Item)
unfolding plain_byte lower_byte
step plain c = some (plain_byte c)
step escaped c = some (plain, literal c ∷ [])
step opened c = if c =? caret then some (lower_end true [], []) else lower_byte false [] c
step (lower_end negated spans) c = lower_byte negated spans c
step (lower_escaped negated spans) c = some (after_lower negated spans c, [])
step (after_lower negated spans lo) c =
    if c =? b'-'
    then some (upper_end negated spans lo, [])
    else lower_byte negated (spans ++ record { lo = lo; hi = lo } ∷ []) c
step (upper_end negated spans lo) c =
    if c =? b'-' || c =? b']'
    then none
    else if c =? backslash
    then some (upper_escaped negated spans lo, [])
    else some (lower_end negated (spans ++ record { lo = lo; hi = c } ∷ []), [])
step (upper_escaped negated spans lo) c =
    some (lower_end negated (spans ++ record { lo = lo; hi = c } ∷ []), [])

unfoldable pub parse : Mode → Str → Option (List Item)
unfolding step
parse plain [] = some []
parse _ [] = none
parse mode (c ∷ rest) = elim (step mode c) [
  | none ↦ none
  | some (mode', items) ↦ Option.map (λ more. items ++ more) (parse mode' rest)
]

pub in_spans : List Span → ℕ → Bool
in_spans [] c = false
in_spans (span ∷ spans) c = (leb span.lo c && leb c span.hi) || in_spans spans c

pub differ : Bool → Bool → Bool
differ true b = not b
differ false b = b

-- `*` and `?` do not take the slash; a class may.
unfoldable pub accepts : List Item → Str → Bool
unfolding in_spans differ
accepts [] [] = true
accepts [] (c ∷ s) = false
accepts (star ∷ items) [] = accepts items []
accepts (star ∷ items) (c ∷ s) =
    let here = accepts items (c ∷ s) in
    let later = accepts (star ∷ items) s in
    if here then true else if c =? slash then false else later
accepts (any_byte ∷ items) [] = false
accepts (any_byte ∷ items) (c ∷ s) = let rest = accepts items s in not (c =? slash) && rest
accepts (literal x ∷ items) [] = false
accepts (literal x ∷ items) (c ∷ s) = let rest = accepts items s in c =? x && rest
accepts (class negated spans ∷ items) [] = false
accepts (class negated spans ∷ items) (c ∷ s) =
    let rest = accepts items s in differ negated (in_spans spans c) && rest

-- `path.Match`; `none` is its error.
unfoldable pub path_match : Str → Str → Option Bool
unfolding parse accepts
path_match pattern name = Option.map (λ items. accepts items name) (parse plain pattern)

match_runs :
    (path_match (codes "*.m[a-d]") (codes "brief.md") ≡ some true)
    × (path_match (codes "a?c") (codes "a/c") ≡ some false)
    × (path_match (codes "[^x]") (codes "x") ≡ some false)
    × (path_match (codes "[]a]") (codes "a") ≡ none)
    × (path_match (codes "\\*") (codes "*") ≡ some true)
unfolding path_match
match_runs = (refl, refl, refl, refl, refl)
