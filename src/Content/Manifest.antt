-- ===== src/Content/Manifest.antt =====
-- internal/content/content.go `Manifest` and validate.go `validateManifest`. The minutes, an int, are in excess 2^63
-- form, as in Content.Params; the hours, a float64, are a number of the smallest positive one, or no number.
pub mod Timed
pub mod Passed
use interviews.Base.{
  note_if, append-silent, note_if-silent, note_if-silent_not, ℕ, Bool, true, false, ◌&&◌, ◌||◌, not,
  List, [], ◌∷◌, ◌++◌, Option, none, some, Str, codes, ◌==◌, ◌=?◌, leb, ◌^◌, elem, if◌then◌else◌,
}
use interviews.Content.Params.{ParamSpec, ParamIssue, validate_param}
use interviews.Content.Taxonomy.{
  debugging, take_home, valid_type, valid_flavor, valid_class, valid_discipline, valid_level,
  valid_id,
}

-- a float64: a count of units, of one more below zero, an infinity, or NaN
pub data Hours : Type 0 where
  units minus_units : ℕ → Hours
  endless bottomless not_a_number : Hours

-- `<= 0`
abbrev pub is_none_left : Hours → Bool
is_none_left (units n) = n =? 0
is_none_left (minus_units n) = true
is_none_left endless = false
is_none_left bottomless = true
is_none_left not_a_number = false

-- `!= 0`
abbrev pub is_set : Hours → Bool
is_set (units n) = not (n =? 0)
is_set (minus_units n) = true
is_set endless = true
is_set bottomless = true
is_set not_a_number = true

-- the int 0
abbrev pub no_minutes : ℕ
no_minutes = 2 ^ 63

pub record TimeSpec : Type 0 where
  pub session_minutes : ℕ
  pub soft_budget_hours : Hours

pub record Manifest : Type 0 where
  pub schema : ℕ
  pub id : Str
  pub kind : Str  -- `Type`
  pub title : Str
  pub summary : Str
  pub disciplines : List Str
  pub levels : List Str
  pub flavor : Str
  pub class : Str
  pub time : TimeSpec
  pub params : List (Str × ParamSpec)  -- in the order of their names
  pub visibility : List Str  -- `Visibility.Candidate`

pub data Issue : Type 0 where
  bad_schema bad_id other_id bad_type other_type no_title no_summary : Issue
  none_given unknown_value listed_twice : Str → Issue
  no_flavor bad_flavor only_debugging_flavor no_class bad_class only_take_home_class : Issue
  needs_minutes needs_hours uses_minutes uses_hours : Issue
  bad_param : Str → ParamIssue → Issue

abbrev pub supported_schema : ℕ
supported_schema = 1

-- the loop of `validateSet`
unfoldable pub each_value : (Str → Bool) → List Str → List Str → List Issue
each_value valid seen [] = []
each_value valid seen (v ∷ vs) =
    note_if (not (valid v)) (unknown_value v)
    ++ (note_if (elem v seen) (listed_twice v) ++ each_value valid (v ∷ seen) vs)

-- `validateSet`
unfoldable pub validate_set : Str → (Str → Bool) → List Str → List Issue
unfolding each_value
validate_set field valid [] = none_given field ∷ []
validate_set field valid (v ∷ vs) = each_value valid [] (v ∷ vs)

abbrev pub id_issues : Str → Str → List Issue
id_issues id dir_name =
    if not (valid_id id) then bad_id ∷ [] else note_if (not (id == dir_name)) other_id

abbrev pub type_issues : Str → Str → List Issue
type_issues kind want =
    if not (valid_type kind) then bad_type ∷ [] else note_if (not (kind == want)) other_type

-- the two `switch`es: a word that problems of one type have, and no other
abbrev pub word_issues : Bool → (Str → Bool) → Str → Issue → Issue → Issue → List Issue
word_issues wanted valid word missing bad extra =
    if wanted
    then (if word == [] then missing ∷ [] else note_if (not (valid word)) bad)
    else note_if (not (word == [])) extra

abbrev pub time_issues : Str → TimeSpec → List Issue
time_issues kind t =
    if kind == debugging
    then note_if (leb t.session_minutes no_minutes) needs_minutes
      ++ note_if (is_set t.soft_budget_hours) uses_minutes
    else if valid_type kind
    then note_if (is_none_left t.soft_budget_hours) needs_hours
      ++ note_if (not (t.session_minutes =? no_minutes)) uses_hours
    else []

abbrev pub tagged : Str → List ParamIssue → List Issue
tagged name [] = []
tagged name (i ∷ issues) = bad_param name i ∷ tagged name issues

abbrev pub param_issues : List (Str × ParamSpec) → List Issue
param_issues [] = []
param_issues ((name, p) ∷ params) = tagged name (validate_param name p) ++ param_issues params

-- `validateManifest`
unfoldable pub validate_manifest : Manifest → Str → Str → List Issue
unfolding validate_set valid_type valid_flavor valid_class valid_discipline valid_level valid_id
    validate_param
validate_manifest m want dir_name =
    note_if (not (m.schema =? supported_schema)) bad_schema
    ++ (id_issues m.id dir_name
        ++ (type_issues m.kind want
            ++ (note_if (m.title == []) no_title
                ++ (note_if (m.summary == []) no_summary
                    ++ (validate_set (codes "disciplines") valid_discipline m.disciplines
                        ++ (validate_set (codes "levels") valid_level m.levels
                            ++ (word_issues (m.kind == debugging) valid_flavor m.flavor no_flavor
                                  bad_flavor only_debugging_flavor
                                ++ (word_issues (m.kind == take_home) valid_class m.class no_class
                                      bad_class only_take_home_class
                                    ++ (time_issues m.kind m.time ++ param_issues m.params)))))))))
