-- ===== src/Variant/Lint/Tests.antt =====
-- A brief that reads a declared parameter inside a branch, and one that reads through `$`.
use interviews.Base.{◌≡◌, refl, ◌↔◌, true, List, [], ◌∷◌, All, some, Str, codes, ◌==◌}
use interviews.Leak.Path.{lower}
use interviews.Variant.Lint.{
  Node, field, variable, absent, list, action, pipe, command, branch, nil, cons, Texts, undeclared,
  is_templated, ext_back, visit, walk_node, walk_nodes, walk_all, check_refs, check_templates,
}
use interviews.Variant.Lint.Linted.{IsLinted, check_templates_iff}

abbrev shows : Node → Node
shows n = action (pipe (cons (command (cons n nil)) nil))

abbrev texts : Node → Texts
texts n = record {
  read = λ name. some (codes "text");
  parse = λ name raw.
      some (list (cons (branch (shows (field (codes "a" ∷ []))) (shows n) absent) nil) ∷ []);
}

abbrev files : List Str
files = codes "candidate/brief.MD" ∷ codes "candidate/data.bin" ∷ []

hole_found :
    check_templates (texts (field (codes "scal" ∷ []))) (codes "a" ∷ []) files
    ≡ undeclared (codes "candidate/brief.MD") (codes "scal") ∷ []
unfolding check_templates is_templated ext_back lower walk_all walk_node walk_nodes visit check_refs
    ◌==◌
hole_found = refl

-- `{{$.scal}}` reads the same parameter and is not looked at.
dollar_missed :
    check_templates (texts (variable (codes "$" ∷ codes "scal" ∷ []))) (codes "a" ∷ []) files ≡ []
unfolding check_templates is_templated ext_back lower walk_all walk_node walk_nodes visit check_refs
    ◌==◌
dollar_missed = refl

check_templates_iff_example :
    (check_templates (texts (field (codes "a" ∷ []))) (codes "a" ∷ []) files ≡ [])
    ↔ All
        (λ name.
          is_templated name ≡ true
          → IsLinted (texts (field (codes "a" ∷ []))) (codes "a" ∷ []) name)
        files
check_templates_iff_example =
    check_templates_iff (texts (field (codes "a" ∷ []))) (codes "a" ∷ []) files
