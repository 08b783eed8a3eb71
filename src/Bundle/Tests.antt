-- ===== src/Bundle/Tests.antt =====
-- A bundle that passes the gate, two that do not, and the gate's theorem at the first.
mod Drops
use interviews.Base.{
  ◌≡◌, refl, true, List, [], ◌∷◌, Memᴰ, some, Str, codes, ◌==◌, has_prefix, contains, ok, err,
}
use interviews.Leak.Path.{split, clean, is_ascii, equal_fold}
use interviews.Leak.Pattern.{path_match}
use interviews.Leak.Glob.{stars, seg_match, match_segs}
use interviews.Leak.Classifier.{Classifier, protected}
use interviews.Leak.Scan.{File, links, file, leaks}
use interviews.Bundle.Gate.{Written, not_visible, has_marker, check_gate}
use interviews.Bundle.Gate.Passed.{IsPassed, check_gate_passes}

abbrev sample : Classifier
sample = record {
  candidate = record { src = codes "candidate/**"; segs = codes "candidate" ∷ stars ∷ [] } ∷ [];
}

abbrev named : Str → File
named p = record { path = p; is_regular = true; info = links 1 }

abbrev with_text : Str → Str → Written
with_text p text = record { entry = file (named p); content = some text }

abbrev drop : List Written
drop =
    with_text (codes "candidate/brief.md") (codes "hello")
    ∷ with_text (codes "ABOUT.md") (codes "about")
    ∷ with_text (codes ".git/config") (codes "{{")
    ∷ []

drop_passes : check_gate sample drop ≡ ok tt
unfolding check_gate leaks protected clean split is_ascii equal_fold match_segs seg_match path_match
    ◌==◌ has_prefix contains
drop_passes = refl

note_refused :
    check_gate sample (with_text (codes "notes.md") (codes "x") ∷ drop)
    ≡ err (not_visible (codes "notes.md" ∷ []))
unfolding check_gate leaks protected clean split is_ascii equal_fold match_segs seg_match path_match
    ◌==◌ has_prefix contains
note_refused = refl

hole_refused :
    check_gate sample (with_text (codes "candidate/a") (codes "a {{.x}}") ∷ [])
    ≡ err (has_marker (codes "candidate/a") (codes "{{"))
unfolding check_gate leaks protected clean split is_ascii equal_fold match_segs seg_match path_match
    ◌==◌ has_prefix contains
hole_refused = refl
