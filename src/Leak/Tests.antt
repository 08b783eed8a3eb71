-- ===== src/Leak/Tests.antt =====
-- Runs of the classifier, and its theorems at concrete inputs.
use interviews.Base.{
  ◌≡◌, refl, ◌↔◌, true, false, List, [], ◌∷◌, Memᴰ, Str, codes, ◌==◌, inl, ok, err,
}
use interviews.Leak.Path.{split, clean, is_ascii, equal_fold}
use interviews.Leak.Pattern.{path_match}
use interviews.Leak.Glob.{stars, seg_match, match_segs, compile_glob, never_visible, stars_inside}
use interviews.Leak.Glob.Covers.{Covers, match_segs_iff}
use interviews.Leak.Classifier.{
  Classifier, candidate_visible, interviewer_only, is_protected_name, protected, new_classifier,
  classify,
}
use interviews.Leak.Classifier.Closed.{IsProtected, IsNamed, classify_of_IsProtected, classify_iff}
use interviews.Leak.Scan.{links, no_link_count, directory, file, Tree, Scan, scan}

abbrev sample_globs : List Str
sample_globs = codes "candidate/**" ∷ codes "*.md" ∷ []

abbrev sample : Classifier
sample = record {
  candidate =
      record { src = codes "candidate/**"; segs = codes "candidate" ∷ stars ∷ [] }
      ∷ record { src = codes "*.md"; segs = codes "*.md" ∷ [] }
      ∷ [];
}

sample_compiles : new_classifier sample_globs ≡ ok sample
unfolding new_classifier compile_glob clean split is_protected_name is_ascii equal_fold path_match
    ◌==◌
sample_compiles = refl

protected_glob_refused :
    new_classifier (codes "Interviewer/**" ∷ [])
    ≡ err (never_visible (codes "Interviewer/**") (codes "Interviewer"))
unfolding new_classifier compile_glob clean split is_protected_name is_ascii equal_fold path_match
    ◌==◌
protected_glob_refused = refl

stars_refused : compile_glob (codes "a**/b") ≡ err (stars_inside (codes "a**/b"))
unfolding compile_glob clean split path_match ◌==◌
stars_refused = refl

faults_in_candidate : classify sample (codes "candidate/x/../FAULTS/inject.sh") ≡ interviewer_only
unfolding classify protected clean split is_ascii equal_fold match_segs seg_match path_match ◌==◌
faults_in_candidate = refl

brief_shown : classify sample (codes "candidate/brief.md") ≡ candidate_visible
unfolding classify protected clean split is_ascii equal_fold match_segs seg_match path_match ◌==◌
brief_shown = refl

match_segs_iff_example :
    (match_segs (stars ∷ codes "*.md" ∷ []) (codes "a" ∷ codes "b.md" ∷ []) ≡ true)
    ↔ Covers (stars ∷ codes "*.md" ∷ []) (codes "a" ∷ codes "b.md" ∷ [])
match_segs_iff_example = match_segs_iff (stars ∷ codes "*.md" ∷ []) (codes "a" ∷ codes "b.md" ∷ [])

deep_fault : IsProtected (split (clean (codes "candidate/faults/x")))
unfolding split clean is_protected_name is_ascii equal_fold ◌==◌
deep_fault = inl (codes "faults", Memᴰ.tail (Memᴰ.head refl), refl)

classify_of_IsProtected_example : classify sample (codes "candidate/faults/x") ≡ interviewer_only
classify_of_IsProtected_example =
    classify_of_IsProtected sample (codes "candidate/faults/x") deep_fault

classify_iff_example : (classify sample (codes "candidate/brief.md") ≡ candidate_visible) ↔ (
    (protected (codes "candidate/brief.md") ≡ false) × IsNamed sample (codes "candidate/brief.md"))
classify_iff_example = classify_iff sample (codes "candidate/brief.md")

abbrev sample_tree : Tree
sample_tree =
    directory (codes ".")
    ∷ file (record { path = codes "problem.yaml"; is_regular = true; info = no_link_count })
    ∷ file (record { path = codes "candidate/brief.md"; is_regular = true; info = links 1 })
    ∷ file (record { path = codes "candidate/key"; is_regular = true; info = links 2 })
    ∷ file (record { path = codes "candidate/a"; is_regular = true; info = links 1 })
    ∷ []

abbrev sample_scan : Scan
sample_scan = record {
  candidate = codes "candidate/a" ∷ codes "candidate/brief.md" ∷ [];
  interviewer = codes "candidate/key" ∷ codes "problem.yaml" ∷ [];
  unmatched_globs = codes "*.md" ∷ [];
  irregular = codes "candidate/key" ∷ [];
}

sample_scanned : scan sample sample_tree ≡ ok sample_scan
unfolding scan protected clean split is_ascii equal_fold match_segs seg_match path_match ◌==◌
sample_scanned = refl
