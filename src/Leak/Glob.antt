-- ===== src/Leak/Glob.antt =====
-- internal/leak/glob.go: compiled globs and their match.
pub mod Covers
use interviews.Base.{
  ◌≡◌, refl, Bool, true, false, ◌&&◌, ◌||◌, not, List, [], ◌∷◌, Option, none, some, Str, codes,
  ◌==◌, any, Result, ok, err, ◌>>=◌, if◌then◌else◌, ◌=?◌,
}
use interviews.Leak.Path.{split, clean, is_rooted}
use interviews.Leak.Pattern.{path_match, is_empty}

pub record Glob : Type 0 where
  pub src : Str
  pub segs : List Str

pub data GlobError : Type 0 where
  not_clean_relative : Str → GlobError
  stars_inside : Str → GlobError
  bad_pattern : Str → GlobError
  never_visible : Str → Str → GlobError  -- `NewClassifier`'s: the glob, the segment

abbrev pub stars : Str
stars = codes "**"

-- `strings.Contains(s, "**")`
unfoldable pub has_stars : Str → Bool
has_stars [] = false
has_stars (a ∷ []) = false
has_stars (a ∷ b ∷ s) = (a =? b'*' && b =? b'*') || has_stars (b ∷ s)

-- the loop of `compileGlob` over the segments
unfoldable pub check_segs : Str → List Str → Result GlobError (Unit {0})
unfolding has_stars
check_segs pattern [] = ok tt
check_segs pattern (s ∷ segs) =
    let rest = check_segs pattern segs in
    if s == stars
    then rest
    else if has_stars s
    then err (stars_inside pattern)
    else elim (path_match s []) [ none ↦ err (bad_pattern pattern) | some _ ↦ rest ]

unfoldable pub compile_glob : Str → Result GlobError Glob
unfolding check_segs
compile_glob pattern =
    if is_empty pattern || not (pattern == clean pattern) || is_rooted pattern
    then err (not_clean_relative pattern)
    else check_segs pattern (split pattern) >>= λ _.
        ok (record { src = pattern; segs = split pattern })

-- `ok, err := path.Match(p, n)` and the test `err != nil || !ok`, negated
unfoldable pub seg_match : Str → Str → Bool
seg_match p n = elim (path_match p n) [ none ↦ false | some b ↦ b ]

-- `matchSegs`
unfoldable pub match_segs : List Str → List Str → Bool
match_segs [] [] = true
match_segs [] (n ∷ name) = false
match_segs (p ∷ pat) [] = let rest = match_segs pat [] in if p == stars then rest else false
match_segs (p ∷ pat) (n ∷ name) =
    let here = match_segs pat (n ∷ name) in
    let later = match_segs (p ∷ pat) name in
    let next = match_segs pat name in
    if p == stars then (if here then true else later) else if seg_match p n then next else false

-- `glob.match`
unfoldable pub match : Glob → Str → Bool
unfolding match_segs
match g name = match_segs g.segs (split name)
