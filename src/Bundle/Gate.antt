-- ===== src/Bundle/Gate.antt =====
-- internal/bundle/gate.go: `writtenPaths` and `checkGate`. The finished tree is the list of what
-- `fs.WalkDir` visits, each file with the bytes that reading it gives, or none where that fails.
pub mod Passed
use interviews.Base.{
  ◌≡◌, refl, Bool, true, false, ◌&&◌, ◌||◌, not, List, [], ◌∷◌, ◌++◌, Option, none, some, Str,
  codes, ◌==◌, any, keep, has_prefix, contains, Result, ok, err, ◌>>=◌, if◌then◌else◌, map,
}
use interviews.Leak.Pattern.{is_empty}
use interviews.Leak.Classifier.{Classifier, protected}
use interviews.Leak.Scan.{File, Entry, unreadable, directory, file, WalkError, leaks}

pub record Written : Type 0 where
  pub entry : Entry
  pub content : Option Str

pub data GateError : Type 0 where
  walk_failed : WalkError → GateError
  not_visible : List Str → GateError
  unreadable_file : Str → GateError
  has_marker : Str → Str → GateError

abbrev pub about_name : Str
about_name = codes "ABOUT.md"

abbrev pub git_prefix : Str
git_prefix = codes ".git/"

abbrev pub forbidden : List Str
forbidden = codes "interviewer/" ∷ codes "faults/" ∷ codes "{{" ∷ []

-- The two additions that a bundle may hold: its front page and a repository's own directory.
abbrev pub is_addition : Str → Bool
is_addition name = name == about_name || has_prefix name git_prefix

-- `writtenPaths`
unfoldable pub written_paths : List Written → List Str
written_paths [] = []
written_paths (w ∷ ws) = elim (w.entry) [
  | unreadable p ↦ written_paths ws
  | directory p ↦ written_paths ws
  | file f ↦ f.path ∷ written_paths ws
]

-- the files that the first half of `checkGate` refuses
unfoldable pub bad_files : List Written → List Str → List Str
unfolding written_paths
bad_files ws leaked =
    keep (λ name. protected name && not (is_addition name)) (written_paths ws)
    ++ keep (λ name. not (is_addition name)) leaked

-- the inner loop over the markers
unfoldable pub grep_markers : Str → Str → List Str → Result GateError (Unit {0})
grep_markers name content [] = ok tt
grep_markers name content (needle ∷ needles) =
    let rest = grep_markers name content needles in
    if contains content needle then err (has_marker name needle) else rest

unfoldable pub grep_file : Str → Option Str → Result GateError (Unit {0})
unfolding grep_markers
grep_file name none = err (unreadable_file name)
grep_file name (some content) = grep_markers name content forbidden

-- The second walk. `fs.SkipDir` at `.git` keeps it from what stands below.
unfoldable pub grep : List Written → Result GateError (Unit {0})
unfolding grep_file
grep [] = ok tt
grep (w ∷ ws) =
    let rest = grep ws in
    elim (w.entry) [
      | unreadable p ↦ if has_prefix p git_prefix then rest else err (walk_failed p)
      | directory p ↦ rest
      | file f ↦
          if has_prefix f.path git_prefix then rest else grep_file f.path w.content >>= λ _. rest
    ]

abbrev pub entries : List Written → List Entry
entries ws = map (λ w. w.entry) ws

-- `checkGate`
unfoldable pub check_gate : Classifier → List Written → Result GateError (Unit {0})
unfolding bad_files grep
check_gate c ws = elim (leaks c (entries ws)) [
  | err e ↦ err (walk_failed e)
  | ok leaked ↦
      let rest = grep ws in
      if is_empty (bad_files ws leaked) then rest else err (not_visible (bad_files ws leaked))
]
