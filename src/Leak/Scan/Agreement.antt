-- ===== src/Leak/Scan/Agreement.antt =====
-- The one walk of `Scan` agrees with `Classify` file by file.
use mathlib.Core.List.{append_assoc, append-nil}
use interviews.Base.{
  ◌≡◌, refl, sym, ap, ◌∙◌, Bool, true, false, ◌&&◌, not, List, [], ◌∷◌, ◌++◌, Str, arith, keep, inl,
  inr, Bool-cases, Result, ok, err, if◌then◌else◌, map,
}
use interviews.Base.Sort.{sort, str_le}
use interviews.Leak.Classifier.{
  Class, interviewer_only, candidate_visible, Classifier, protected, classify,
}
use interviews.Leak.Classifier.Closed.{protected-clean}
use interviews.Leak.Scan.{
  File, unreadable, directory, file, Tree, WalkError, Scan, Walk, is_vouched, hits, visit, walk,
  start, finish, scan,
}

abbrev pub files : Tree → List File
files [] = []
files (unreadable p ∷ tree) = files tree
files (directory p ∷ tree) = files tree
files (file f ∷ tree) = f ∷ files tree

abbrev pub is_visible : Class → Bool
is_visible interviewer_only = false
is_visible candidate_visible = true

-- A regular file with one name, spelled in ASCII, that `Classify` lets a candidate see.
abbrev pub is_shown : Classifier → File → Bool
is_shown c f = is_vouched f && is_visible (classify c f.path)

abbrev pub paths : (File → Bool) → List File → List Str
paths p fs = map (λ f. f.path) (keep p fs)

is_visible-classify :
    (c : Classifier) (p : Str) → is_visible (classify c p) ≡ (not (protected p) && hits c p)
unfolding classify
is_visible-classify c p = rw (protected-clean p) (ground arith)

paths-cons :
    (p : File → Bool) (f : File) (fs : List File) (l : List Str)
    → l ++ paths p (f ∷ fs) ≡ (if p f then l ++ f.path ∷ [] else l) ++ paths p fs
paths-cons p f fs l = elim (Bool-cases (p f)) [
  | inl e ↦ rw e (sym (append_assoc l (f.path ∷ []) (paths p fs)))
  | inr e ↦ rw e
]

-- What a visit adds to each list.
module _ (c : Classifier) (f : File) (w : Walk) where
  visit_candidate :
      (visit c f w).seen_candidate
      ≡ (if is_shown c f then w.seen_candidate ++ f.path ∷ [] else w.seen_candidate)
  unfolding visit
  visit_candidate = ground (arith, is_visible-classify c f.path)

  visit_interviewer :
      (visit c f w).seen_interviewer
      ≡ (if not (is_shown c f) then w.seen_interviewer ++ f.path ∷ [] else w.seen_interviewer)
  unfolding visit
  visit_interviewer = ground (arith, is_visible-classify c f.path)

  visit_irregular :
      (visit c f w).seen_irregular
      ≡ (if not (is_vouched f) then w.seen_irregular ++ f.path ∷ [] else w.seen_irregular)
  unfolding visit
  visit_irregular = ground arith

-- The lists after a whole walk.
record IsWalked (c : Classifier) (fs : List File) (w w' : Walk) : Type 0 where
  candidates : w'.seen_candidate ≡ w.seen_candidate ++ paths (is_shown c) fs
  interviewers : w'.seen_interviewer ≡ w.seen_interviewer ++ paths (λ f. not (is_shown c f)) fs
  irregulars : w'.seen_irregular ≡ w.seen_irregular ++ paths (λ f. not (is_vouched f)) fs

walk-IsWalked :
    (c : Classifier) (tree : Tree) (w w' : Walk)
    → walk c tree w ≡ ok w'
    → IsWalked c (files tree) w w'
unfolding walk
walk-IsWalked c [] w w' h = record {
  candidates = rw append-nil (ground arith);
  interviewers = rw append-nil (ground arith);
  irregulars = rw append-nil (ground arith);
}
walk-IsWalked c (unreadable p ∷ tree) w w' h = absurd (ground arith)
walk-IsWalked c (directory p ∷ tree) w w' h = walk-IsWalked c tree w w' h
walk-IsWalked c (file f ∷ tree) w w' h =
    let rest = walk-IsWalked c tree (visit c f w) w' h in
    record {
      candidates =
          rest.candidates
          ∙ (rw (visit_candidate c f w)
              (sym (paths-cons (is_shown c) f (files tree) w.seen_candidate)));
      interviewers =
          rest.interviewers
          ∙ (rw (visit_interviewer c f w)
              (sym (paths-cons (λ g. not (is_shown c g)) f (files tree) w.seen_interviewer)));
      irregulars =
          rest.irregulars
          ∙ (rw (visit_irregular c f w)
              (sym (paths-cons (λ g. not (is_vouched g)) f (files tree) w.seen_irregular)));
    }

scan-ok :
    (c : Classifier) (tree : Tree) (s : Scan)
    → scan c tree ≡ ok s
    → (w : Walk) × (walk c tree (start c) ≡ ok w) × (s ≡ finish c w)
unfolding scan
scan-ok c tree s h = go (walk c tree (start c)) refl h
  where
    go :
        (r : Result WalkError Walk)
        → walk c tree (start c) ≡ r
        → elim r as (λ _. Result WalkError Scan) [ ok w ↦ ok (finish c w) | err e ↦ err e ] ≡ ok s
        → (w : Walk) × (walk c tree (start c) ≡ ok w) × (s ≡ finish c w)
    go (ok w) e q = (w, e, ground arith)
    go (err x) e q = absurd (ground arith)

-- A scan that returns has sorted every file of the tree: the candidate's are those that are
-- regular, have one name, are spelled in ASCII and are candidate-visible by `Classify`; all the
-- others are the interviewer's, and those that are not vouched for are reported as irregular.
pub scan_sorts :
    (c : Classifier) (tree : Tree) (s : Scan)
    → scan c tree ≡ ok s
    → (s.candidate ≡ sort str_le (paths (is_shown c) (files tree)))
      × (s.interviewer ≡ sort str_le (paths (λ f. not (is_shown c f)) (files tree)))
      × (s.irregular ≡ paths (λ f. not (is_vouched f)) (files tree))
unfolding finish
scan_sorts c tree s h =
    let (w, hw, e) = scan-ok c tree s h in
    let r = walk-IsWalked c tree (start c) w hw in
    (
      ap (λ (x : Scan). x.candidate) e ∙ ap (sort str_le) r.candidates,
      ap (λ (x : Scan). x.interviewer) e ∙ ap (sort str_le) r.interviewers,
      ap (λ (x : Scan). x.irregular) e ∙ r.irregulars,
    )
