-- ===== src/Grading/Rubric.antt =====
-- internal/grading/rubric.go: the rubric and its validation. YAML decoding is a library's, so a rubric is what it
-- decodes to: a map that is only read is a function that gives the empty text for a missing key, and the
-- map that is ranged over is its entries in the order of that range.
pub mod Passed
mod Tests
use interviews.Base.{
  ℕ, Bool, true, false, ◌||◌, not, List, [], ◌∷◌, Str, codes, ◌==◌, ◌=?◌, elem, Result, ok, err,
  ◌>>◌, if◌then◌else◌,
}
use interviews.Content.Taxonomy.{valid_type, levels, types}

pub record Dimension : Type 0 where
  pub key : Str
  pub title : Str
  pub question : Str
  pub anchors : ℕ → Str

pub record Rubric : Type 0 where
  pub version : ℕ
  pub dimensions : List Dimension
  pub bands : Str → Str
  pub prompts : List (Str × List Str)

pub data RubricError : Type 0 where
  not_supported : ℕ → RubricError
  no_dimensions : RubricError
  not_named defined_twice : Str → RubricError
  no_anchor : Str → ℕ → RubricError
  no_band not_a_type no_prompts : Str → RubricError
  no_wrangling : RubricError

-- `SupportedVersion`
abbrev pub supported_version : ℕ
supported_version = 1

abbrev pub refuse_if : Bool → RubricError → Result RubricError Unit
refuse_if true e = err e
refuse_if false e = ok tt

-- a loop that returns at its first error
abbrev pub check_each :
    {A : Type 0} → (A → Result RubricError Unit) → List A → Result RubricError Unit
check_each f [] = ok tt
check_each f (x ∷ xs) = f x >> check_each f xs

abbrev pub scores : List ℕ
scores = 1 ∷ 2 ∷ 3 ∷ 4 ∷ []

abbrev pub check_anchor : Dimension → ℕ → Result RubricError Unit
check_anchor d n = refuse_if (d.anchors n == []) (no_anchor d.key n)

unfoldable pub check_dimensions : List Str → List Dimension → Result RubricError Unit
check_dimensions seen [] = ok tt
check_dimensions seen (d ∷ ds) =
    refuse_if (d.key == [] || d.title == []) (not_named d.key)
    >> (refuse_if (elem d.key seen) (defined_twice d.key)
        >> (check_each (check_anchor d) scores >> check_dimensions (d.key ∷ seen) ds))

-- `r.Types[typ]`
unfoldable pub prompts_of : List (Str × List Str) → Str → List Str
prompts_of [] kind = []
prompts_of ((k, prompts) ∷ ts) kind =
    let rest = prompts_of ts kind in if k == kind then prompts else rest

abbrev pub is_empty : {A : Type 0} → List A → Bool
is_empty [] = true
is_empty (x ∷ xs) = false

abbrev pub check_band : Rubric → Str → Result RubricError Unit
check_band r level = refuse_if (r.bands level == []) (no_band level)

abbrev pub check_kind : Str × List Str → Result RubricError Unit
check_kind (kind, prompts) = refuse_if (not (valid_type kind)) (not_a_type kind)

abbrev pub check_prompts : Rubric → Str → Result RubricError Unit
check_prompts r kind = refuse_if (is_empty (prompts_of r.prompts kind)) (no_prompts kind)

unfoldable pub keeps_wrangling : List Dimension → Bool
keeps_wrangling [] = false
keeps_wrangling (d ∷ ds) = d.key == codes "wrangling" || keeps_wrangling ds

-- `validate`
unfoldable pub validate : Rubric → Result RubricError Unit
validate r =
    refuse_if (not (r.version =? supported_version)) (not_supported r.version)
    >> (refuse_if (is_empty r.dimensions) no_dimensions
        >> (check_dimensions [] r.dimensions
            >> (check_each (check_band r) levels
                >> (check_each check_kind r.prompts
                    >> (check_each (check_prompts r) types
                        >> refuse_if (not (keeps_wrangling r.dimensions)) no_wrangling)))))
