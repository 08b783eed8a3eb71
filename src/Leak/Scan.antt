-- ===== src/Leak/Scan.antt =====
-- `Scan`, `Leaks` and `multiplyLinked` of internal/leak/leak.go. A tree is the list of entries
-- that `fs.WalkDir` visits, in its order; an entry that it cannot read ends the walk.
pub mod Partition
pub mod Agreement
use interviews.Base.{
  ℕ, ◌≡◌, refl, Bool, true, false, ◌&&◌, ◌||◌, not, List, [], ◌∷◌, ◌++◌, Str, codes, any, ltb,
  Result, ok, err, if◌then◌else◌, map,
}
use interviews.Base.Sort.{sort, str_le}
use interviews.Leak.Path.{split, clean, is_ascii}
use interviews.Leak.Pattern.{is_empty}
use interviews.Leak.Glob.{Glob, match_segs}
use interviews.Leak.Classifier.{Classifier, protected}

-- What `d.Info()` and its `Sys()` say about the names of a file.
pub data Info : Type 0 where
  no_info : Info
  no_link_count : Info
  links : ℕ → Info

pub record File : Type 0 where
  pub path : Str
  pub is_regular : Bool
  pub info : Info

pub data Entry : Type 0 where
  unreadable : Str → Entry  -- the walk's own error
  directory : Str → Entry
  file : File → Entry

abbrev pub Tree : Type 0
Tree = List Entry

-- The error that a walk returns names the entry it stopped at.
abbrev pub WalkError : Type 0
WalkError = Str

-- `multiplyLinked`
unfoldable pub multiply_linked : File → Bool
multiply_linked f = elim f.info [ no_info ↦ true | no_link_count ↦ false | links n ↦ ltb 1 n ]

pub record Scan : Type 0 where
  pub candidate : List Str
  pub interviewer : List Str
  pub unmatched_globs : List Str
  pub irregular : List Str

-- The variables of the walk; `matched` runs along the classifier's globs.
pub record Walk : Type 0 where
  pub seen_candidate : List Str
  pub seen_interviewer : List Str
  pub seen_irregular : List Str
  pub matched : List Bool

-- `matched[i] = true` for each glob that fits
unfoldable pub mark : List Glob → List Bool → List Str → List Bool
mark (g ∷ gs) (m ∷ ms) segs = (m || match_segs g.segs segs) ∷ mark gs ms segs
mark _ ms segs = ms

abbrev pub is_vouched : File → Bool
is_vouched f = f.is_regular && not (multiply_linked f) && is_ascii f.path

abbrev pub hits : Classifier → Str → Bool
hits c p = any (λ g. match_segs g.segs (split (clean p))) c.candidate

-- The callback on one file.
unfoldable pub visit : Classifier → File → Walk → Walk
unfolding mark multiply_linked
visit c f w =
    let p = f.path in
    if not (is_vouched f)
    then record w {
      seen_irregular = w.seen_irregular ++ p ∷ [];
      seen_interviewer = w.seen_interviewer ++ p ∷ [];
    }
    else if protected p
    then record w { seen_interviewer = w.seen_interviewer ++ p ∷ [] }
    else let w' = record w { matched = mark c.candidate w.matched (split (clean p)) } in
      if hits c p
      then record w' { seen_candidate = w.seen_candidate ++ p ∷ [] }
      else record w' { seen_interviewer = w.seen_interviewer ++ p ∷ [] }

unfoldable pub walk : Classifier → Tree → Walk → Result WalkError Walk
unfolding visit
walk c [] w = ok w
walk c (unreadable p ∷ tree) w = err p
walk c (directory p ∷ tree) w = walk c tree w
walk c (file f ∷ tree) w = walk c tree (visit c f w)

-- the globs that no file matched
unfoldable pub unmatched : List Glob → List Bool → List Str
unmatched (g ∷ gs) (m ∷ ms) = let rest = unmatched gs ms in if m then rest else g.src ∷ rest
unmatched _ ms = []

abbrev pub start : Classifier → Walk
start c = record {
  seen_candidate = [];
  seen_interviewer = [];
  seen_irregular = [];
  matched = map (λ _. false) c.candidate;
}

unfoldable pub finish : Classifier → Walk → Scan
unfolding unmatched sort str_le
finish c w = record {
  candidate = sort str_le w.seen_candidate;
  interviewer = sort str_le w.seen_interviewer;
  unmatched_globs = unmatched c.candidate w.matched;
  irregular = w.seen_irregular;
}

-- `Scan`
unfoldable pub scan : Classifier → Tree → Result WalkError Scan
unfolding walk finish
scan c tree = elim (walk c tree (start c)) [ ok w ↦ ok (finish c w) | err e ↦ err e ]

-- `Leaks`
unfoldable pub leaks : Classifier → Tree → Result WalkError (List Str)
unfolding scan
leaks c tree = elim (scan c tree) [ ok s ↦ ok s.interviewer | err e ↦ err e ]
