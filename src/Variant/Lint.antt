-- ===== src/Variant/Lint.antt =====
-- internal/variant/lint.go: the files that render as templates, and what `CheckTemplates` says of them. Parsing is
-- text/template's and a parameter; its trees are the nodes of text/template/parse, those that `walkNode` tells
-- apart and the rest in one.
pub mod Refs
pub mod Linted
mod Tests
use interviews.Base.{
  ◌=?◌, Bool, true, false, not, List, [], ◌∷◌, ◌++◌, map, Option, none, some, Str, codes, elem,
  ◌==◌, keep, note_if, if◌then◌else◌,
}
use mathlib.Core.List.{reverse}
use interviews.Leak.Path.{lower}

mutual
  pub data Node : Type 0 where
    absent : Node  -- a nil node
    field : List Str → Node
    variable : List Str → Node
    other : Node
    list : Nodes → Node
    action : Node → Node
    pipe : Nodes → Node
    command : Nodes → Node
    branch : Node → Node → Node → Node  -- if, range and with
    template : Node → Node
    chain : Node → Node

  pub data Nodes : Type 0 where
    nil : Nodes
    cons : Node → Nodes → Nodes

-- The visitor of `fieldRefs`: its `seen` and its `out` hold the same names.
unfoldable pub visit : List Str → List Str → List Str
visit [] out = out
visit (name ∷ rest) out = if elem name out then out else out ++ name ∷ []

-- `walkNode` with that visitor, `walkBranch` being the case of a branch
unfoldable mutual
  unfolding visit

  pub walk_node : Node → List Str → List Str
  walk_node absent out = out
  walk_node (field ident) out = visit ident out
  walk_node (variable ident) out = out
  walk_node other out = out
  walk_node (list ns) out = walk_nodes ns out
  walk_node (action p) out = walk_node p out
  walk_node (pipe ns) out = walk_nodes ns out
  walk_node (command ns) out = walk_nodes ns out
  walk_node (branch p body otherwise) out = walk_node otherwise (walk_node body (walk_node p out))
  walk_node (template p) out = walk_node p out
  walk_node (chain n) out = walk_node n out

  pub walk_nodes : Nodes → List Str → List Str
  walk_nodes nil out = out
  walk_nodes (cons n ns) out = walk_nodes ns (walk_node n out)

-- the loop of `fieldRefs` over the templates of one text
unfoldable pub walk_all : List Node → List Str → List Str
unfolding walk_node
walk_all [] out = out
walk_all (t ∷ ts) out = walk_all ts (walk_node t out)

-- `fieldRefs`
abbrev pub field_refs : List Node → List Str
field_refs ts = walk_all ts []

abbrev pub extensions : List Str
extensions =
    codes ".md"
    ∷ codes ".txt"
    ∷ codes ".yaml"
    ∷ codes ".yml"
    ∷ codes ".json"
    ∷ codes ".py"
    ∷ codes ".go"
    ∷ codes ".sh"
    ∷ codes ".csv"
    ∷ codes ".html"
    ∷ codes ".js"
    ∷ codes ".ts"
    ∷ codes ".tsx"
    ∷ codes ".css"
    ∷ codes ".sql"
    ∷ codes ".tf"
    ∷ codes ".toml"
    ∷ codes ".conf"
    ∷ codes ".xml"
    ∷ []

-- `path.Ext`, from the end of the name
unfoldable pub ext_back : Str → Str → Str
ext_back [] tail = []
ext_back (c ∷ cs) tail =
    let rest = ext_back cs (c ∷ tail) in
    if c =? b'/' then [] else if c =? b'.' then c ∷ tail else rest

-- `IsTemplated`. No extension of the table holds an i or a k, the letters that a byte beyond ASCII folds to.
unfoldable pub is_templated : Str → Bool
unfolding ext_back lower
is_templated name =
    let ext = map lower (ext_back (reverse name) []) in
    if ext == [] then true else elem ext extensions

pub data TemplateIssue : Type 0 where
  unread unparsed : Str → TemplateIssue
  undeclared : Str → Str → TemplateIssue

-- The candidate's files and the parser.
pub record Texts : Type 0 where
  pub read : Str → Option Str
  pub parse : Str → Str → Option (List Node)

unfoldable pub check_refs : List Str → Str → List Str → List TemplateIssue
check_refs declared name [] = []
check_refs declared name (r ∷ rs) =
    note_if (not (elem r declared)) (undeclared name r) ++ check_refs declared name rs

abbrev pub check_parsed : List Str → Str → Option (List Node) → List TemplateIssue
check_parsed declared name none = unparsed name ∷ []
check_parsed declared name (some ts) = check_refs declared name (field_refs ts)

abbrev pub check_text : Texts → List Str → Str → Option Str → List TemplateIssue
check_text t declared name none = unread name ∷ []
check_text t declared name (some raw) = check_parsed declared name (t.parse name raw)

-- `CheckTemplates`
unfoldable pub check_templates : Texts → List Str → List Str → List TemplateIssue
unfolding check_refs
check_templates t declared [] = []
check_templates t declared (name ∷ names) =
    (if is_templated name then check_text t declared name (t.read name) else [])
    ++ check_templates t declared names
