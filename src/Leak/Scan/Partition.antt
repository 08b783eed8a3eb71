-- ===== src/Leak/Scan/Partition.antt =====
-- Every file that a walk meets ends on exactly one side.
use mathlib.Core.List.Permᴰ
use interviews.Base.{
  ◌≡◌, refl, Bool, not, List, [], ◌∷◌, ◌++◌, Permᴰ, Bool-cases, ok, map, inl, inr,
}
use interviews.Base.Sort.{str_le, sort-perm}
use interviews.Leak.Classifier.{Classifier}
use interviews.Leak.Scan.{File, Tree, Scan, scan}
use interviews.Leak.Scan.Agreement.{files, is_shown, paths, scan_sorts}

split-perm :
    (p : File → Bool) (fs : List File)
    → Permᴰ (paths p fs ++ paths (λ f. not (p f)) fs) (map (λ f. f.path) fs)
split-perm p [] = Permᴰ.nil
split-perm p (f ∷ fs) = elim (Bool-cases (p f)) [
  | inl e ↦ rw e (Permᴰ.cons refl (split-perm p fs))
  | inr e ↦ rw e (
      Permᴰ.trans (Permᴰ.middle f.path (paths p fs) (paths (λ g. not (p g)) fs))
        (Permᴰ.cons refl (split-perm p fs)))
]

-- The two sides of a scan hold together each file of the tree once, and nothing else.
pub scan-perm :
    (c : Classifier) (tree : Tree) (s : Scan)
    → scan c tree ≡ ok s
    → Permᴰ (s.candidate ++ s.interviewer) (map (λ f. f.path) (files tree))
scan-perm c tree s h =
    let (a, b, _) = scan_sorts c tree s h in
    rw (a, b)
      (Permᴰ.trans
        (Permᴰ.trans (Permᴰ.append_right _ (sort-perm str_le (paths (is_shown c) (files tree))))
          (Permᴰ.append_left _ (sort-perm str_le (paths (λ f. not (is_shown c f)) (files tree)))))
        (split-perm (is_shown c) (files tree)))
