-- ===== src/Grading/Rubric/Tests.antt =====
-- A rubric with two dimensions.
use interviews.Base.{◌≡◌, refl, List, [], ◌∷◌, Str, codes, ok, err, ◌==◌, elem}
use interviews.Content.Taxonomy.{valid_type}
use interviews.Grading.Rubric.{
  Dimension, Rubric, defined_twice, check_dimensions, prompts_of, keeps_wrangling, validate,
}
use interviews.Grading.Rubric.Passed.{IsRubric, validate-IsRubric}

abbrev dimension : Str → Dimension
dimension key = record { key = key; title = codes "T"; question = []; anchors = λ n. codes "a" }

abbrev rubric : List Dimension → Rubric
rubric ds = record {
  version = 1;
  dimensions = ds;
  bands = λ level. codes "band";
  prompts =
      (codes "takehome", codes "t" ∷ [])
      ∷ (codes "debugging", codes "d" ∷ [])
      ∷ (codes "sysdesign", codes "s" ∷ [])
      ∷ [];
}

abbrev two : Rubric
two = rubric (dimension (codes "scoping") ∷ dimension (codes "wrangling") ∷ [])

two_pass : validate two ≡ ok tt
unfolding validate check_dimensions prompts_of keeps_wrangling valid_type elem ◌==◌
two_pass = refl

twice_refused :
    validate (rubric (dimension (codes "wrangling") ∷ dimension (codes "wrangling") ∷ []))
    ≡ err (defined_twice (codes "wrangling"))
unfolding validate check_dimensions prompts_of keeps_wrangling valid_type elem ◌==◌
twice_refused = refl

validate-IsRubric_example : IsRubric two
validate-IsRubric_example = validate-IsRubric two two_pass
