-- ===== src/Leak/Classifier.antt =====
-- internal/leak/leak.go: the classes, the protected names, `NewClassifier` and `Classify`.
pub mod Closed
use mathlib.Core.List.{map}
use interviews.Base.{
  ℕ, ◌≡◌, refl, Bool, true, false, ◌&&◌, ◌||◌, not, List, [], ◌∷◌, ◌++◌, Str, codes, ◌==◌, any,
  Result, ok, err, ◌>>=◌, if◌then◌else◌,
}
use interviews.Leak.Path.{split, clean, is_ascii, equal_fold}
use interviews.Leak.Glob.{Glob, GlobError, never_visible, compile_glob, match_segs}

pub data Class : Type 0 where
  interviewer_only candidate_visible : Class

abbrev pub protected_dirs : List Str
protected_dirs = codes "interviewer" ∷ codes "faults" ∷ []

abbrev pub manifest_file : Str
manifest_file = codes "problem.yaml"

abbrev pub env_file : Str
env_file = codes "env.yaml"

abbrev pub review_file : Str
review_file = codes "review.yaml"

abbrev pub protected_files : List Str
protected_files = env_file ∷ review_file ∷ manifest_file ∷ []

-- `isProtectedName`
unfoldable pub is_protected_name : Str → List Str → Bool
is_protected_name seg names = if not (is_ascii seg) then true else any (λ n. equal_fold seg n) names

-- The loop over `segs[:len(segs)-1]`, then the test of the last segment; `alone` is `len(segs) == 1`.
unfoldable pub protected_segs : Bool → List Str → Bool
unfolding is_protected_name
protected_segs alone [] = false
protected_segs alone (last ∷ []) =
    if is_protected_name last protected_dirs
    then true
    else alone && is_protected_name last protected_files
protected_segs alone (seg ∷ s ∷ segs) =
    let rest = protected_segs alone (s ∷ segs) in
    if is_protected_name seg protected_dirs then true else rest

abbrev pub is_single {ℓ} : {A : Type ℓ} → List A → Bool
is_single (x ∷ []) = true
is_single _ = false

-- `Protected`
unfoldable pub protected : Str → Bool
unfolding protected_segs
protected name = let segs = split (clean name) in protected_segs (is_single segs) segs

pub record Classifier : Type 0 where
  pub candidate : List Glob

-- the inner loop of `NewClassifier`
unfoldable pub refuse_segs : Str → List Str → Result GlobError (Unit {0})
refuse_segs p [] = ok tt
refuse_segs p (seg ∷ segs) =
    let rest = refuse_segs p segs in
    if is_protected_name seg protected_dirs then err (never_visible p seg) else rest

-- its outer loop; `acc` is `c.candidate`
unfoldable pub add_globs : List Glob → List Str → Result GlobError Classifier
unfolding refuse_segs
add_globs acc [] = ok (record { candidate = acc })
add_globs acc (p ∷ globs) =
    compile_glob p >>= λ g. refuse_segs p g.segs >>= λ _. add_globs (acc ++ g ∷ []) globs

-- `NewClassifier`
unfoldable pub new_classifier : List Str → Result GlobError Classifier
unfolding add_globs
new_classifier globs = add_globs [] globs

-- `Classify`
unfoldable pub classify : Classifier → Str → Class
classify c name =
    let name' = clean name in
    if protected name'
    then interviewer_only
    else if any (λ g. match_segs g.segs (split name')) c.candidate
    then candidate_visible
    else interviewer_only

-- `Globs`
unfoldable pub globs : Classifier → List Str
globs c = map (λ g. g.src) c.candidate
