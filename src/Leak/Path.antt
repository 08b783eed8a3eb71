-- ===== src/Leak/Path.antt =====
-- The parts of Go's `strings` and `path` that the classifier uses: `strings.Split` and
-- `strings.Join` at a slash, `path.Clean`, `strings.EqualFold` on ASCII names.
pub mod Idem
use mathlib.Core.List.{foldl, reverse}
use interviews.Base.{
  ℕ, ◌+◌, ◌≡◌, refl, Bool, true, false, ◌&&◌, ◌||◌, List, [], ◌∷◌, ◌++◌, map, Str, codes, ◌==◌, ltb,
  leb, ◌=?◌, all, if◌then◌else◌,
}

abbrev pub slash : ℕ
slash = b'/'

abbrev pub push_byte : ℕ → List Str → List Str
push_byte a [] = (a ∷ []) ∷ []
push_byte a (w ∷ ws) = (a ∷ w) ∷ ws

-- `strings.Split(s, "/")`
unfoldable pub split : Str → List Str
split [] = [] ∷ []
split (a ∷ s) = let rest = split s in if a =? slash then [] ∷ rest else push_byte a rest

-- `strings.Join(segs, "/")`
unfoldable pub join : List Str → Str
join [] = []
join (w ∷ []) = w
join (w ∷ v ∷ ws) = w ++ slash ∷ join (v ∷ ws)

abbrev pub dot : Str
dot = codes "."

abbrev pub dot_dot : Str
dot_dot = codes ".."

-- A `..` takes back the last name. It stays where there is none to take back, but at a root.
unfoldable pub back : Bool → List Str → List Str
back rooted [] = if rooted then [] else dot_dot ∷ []
back rooted (top ∷ out) = if top == dot_dot then dot_dot ∷ top ∷ out else out

-- One segment of the text; `out` is what is kept so far, the last name first.
unfoldable pub clean_step : Bool → List Str → Str → List Str
clean_step rooted out seg =
    if seg == [] || seg == dot then out else if seg == dot_dot then back rooted out else seg ∷ out

unfoldable pub render : Bool → List Str → Str
render true segs = slash ∷ join segs
render false [] = dot
render false (w ∷ ws) = join (w ∷ ws)

unfoldable pub is_rooted : Str → Bool
is_rooted [] = false
is_rooted (a ∷ s) = a =? slash

-- the segments that `path.Clean` keeps
unfoldable pub kept : Bool → List Str → List Str
unfolding clean_step back
kept rooted segs = reverse (foldl (clean_step rooted) [] segs)

-- `path.Clean`
unfoldable pub clean : Str → Str
unfolding split join render is_rooted kept
clean s = render (is_rooted s) (kept (is_rooted s) (split s))

-- `isASCII`
unfoldable pub is_ascii : Str → Bool
is_ascii s = all (λ a. ltb a 128) s

unfoldable pub lower : ℕ → ℕ
lower a = if leb b'A' a && leb a b'Z' then a + 32 else a

-- `strings.EqualFold`, which on ASCII texts folds the 26 letters and nothing else.
unfoldable pub equal_fold : Str → Str → Bool
unfolding lower ◌==◌
equal_fold s t = map lower s == map lower t

clean_runs :
    (clean (codes "a//b/../c/./d") ≡ codes "a/c/d")
    × (clean (codes "../a/..") ≡ codes "..")
    × (clean (codes "/../a/") ≡ codes "/a")
    × (clean [] ≡ codes ".")
unfolding clean ◌==◌
clean_runs = (refl, refl, refl, refl)

fold_runs : equal_fold (codes "InterViewer") (codes "interviewer") ≡ true
unfolding equal_fold
fold_runs = refl
