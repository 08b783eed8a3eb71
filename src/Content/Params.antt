-- ===== src/Content/Params.antt =====
-- internal/content/content.go and validate.go: the parameters of a manifest. An `int` is kept in
-- excess 2^63 form, a number below 2^64 that stands for itself less 2^63: order and distance are those of
-- the numbers. Each message of `validateParam` is a constructor.
pub mod Passed
use interviews.Base.{
  note_if, append-silent, note_if-silent, note_if-silent_not, ℕ, Bool, true, false, ◌&&◌, ◌||◌, not,
  List, [], ◌∷◌, ◌++◌, Option, none, some, Str, codes, ◌==◌, ◌=?◌, elem, all, leb, ltb,
  if◌then◌else◌,
}

pub data ParamType : Type 0 where
  choice int string : ParamType
  other_type : Str → ParamType

-- what YAML decodes a default to
pub data Value : Type 0 where
  text : Str → Value
  number : ℕ → Value
  other_value : Value

pub record ParamSpec : Type 0 where
  pub kind : ParamType  -- `Type`
  pub of : Option (List Str)
  pub min : Option ℕ
  pub max : Option ℕ
  pub default : Option Value
  pub secret : Bool

pub data ParamIssue : Type 0 where
  bad_name takes_of_only empty_of default_not_text default_not_listed takes_bounds_only : ParamIssue
  missing_bounds min_over_max default_not_number default_outside takes_default_only needs_default :
      ParamIssue
  bad_kind : ParamIssue
  listed_twice : Str → ParamIssue

-- what `len` and `range` see of a list that may be nil
abbrev pub values : Option (List Str) → List Str
values none = []
values (some l) = l

abbrev pub is_some : {A : Type 0} → Option A → Bool
is_some none = false
is_some (some x) = true

abbrev pub within : ℕ → ℕ → ℕ → Bool
within lo hi n = leb lo n && leb n hi

abbrev pub is_lower : ℕ → Bool
is_lower c = leb 97 c && leb c 122

abbrev pub is_digit : ℕ → Bool
is_digit c = leb 48 c && leb c 57

-- `paramRe`
unfoldable pub is_param_name : Str → Bool
is_param_name [] = false
is_param_name (c ∷ cs) = is_lower c && all (λ d. is_lower d || is_digit d || (d =? 95)) cs

-- the values that stand again further on, noted at the later place
unfoldable pub repeats : List Str → List Str → List ParamIssue
repeats seen [] = []
repeats seen (v ∷ vs) = note_if (elem v seen) (listed_twice v) ++ repeats (v ∷ seen) vs

abbrev pub choice_default : List Str → Option Value → List ParamIssue
choice_default of none = []
choice_default [] (some (text s)) = []
choice_default (v ∷ of) (some (text s)) = note_if (not (elem s (v ∷ of))) default_not_listed
choice_default of (some (number n)) = default_not_text ∷ []
choice_default of (some other_value) = default_not_text ∷ []

abbrev pub bounds : Option ℕ → Option ℕ → List ParamIssue
bounds (some lo) (some hi) = note_if (ltb hi lo) min_over_max
bounds none hi = missing_bounds ∷ []
bounds (some lo) none = missing_bounds ∷ []

abbrev pub outside : Option ℕ → Option ℕ → ℕ → Bool
outside (some lo) (some hi) n = not (within lo hi n)
outside none hi n = false
outside (some lo) none n = false

abbrev pub int_default : Option ℕ → Option ℕ → Option Value → List ParamIssue
int_default lo hi none = []
int_default lo hi (some (number n)) = note_if (outside lo hi n) default_outside
int_default lo hi (some (text s)) = default_not_number ∷ []
int_default lo hi (some other_value) = default_not_number ∷ []

abbrev pub string_default : Option Value → List ParamIssue
string_default none = needs_default ∷ []
string_default (some (text s)) = []
string_default (some (number n)) = default_not_text ∷ []
string_default (some other_value) = default_not_text ∷ []

abbrev pub is_empty : List Str → Bool
is_empty [] = true
is_empty (x ∷ xs) = false

-- the `switch` of `validateParam`
unfoldable pub spec_issues : ParamType → ParamSpec → List ParamIssue
unfolding repeats
spec_issues choice p =
    note_if (is_some p.min || is_some p.max) takes_of_only
    ++ (note_if (is_empty (values p.of)) empty_of
        ++ (repeats [] (values p.of) ++ choice_default (values p.of) p.default))
spec_issues int p =
    note_if (is_some p.of) takes_bounds_only
    ++ (bounds p.min p.max ++ int_default p.min p.max p.default)
spec_issues string p =
    note_if (is_some p.of || is_some p.min || is_some p.max) takes_default_only
    ++ string_default p.default
spec_issues (other_type s) p = bad_kind ∷ []

-- `validateParam`
unfoldable pub validate_param : Str → ParamSpec → List ParamIssue
unfolding is_param_name spec_issues
validate_param name p = note_if (not (is_param_name name)) bad_name ++ spec_issues p.kind p
