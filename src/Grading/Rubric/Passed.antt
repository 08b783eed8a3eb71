-- ===== src/Grading/Rubric/Passed.antt =====
-- What a rubric that passes is.
use interviews.Base.{
  ◌≡◌, refl, ◌≢◌, inl, inr, Bool, true, false, ◌||◌, not, ||_true, List, [], ◌∷◌, map, Memᴰ, All,
  Str, codes, ◌==◌, ==→eq, =?_iff, ◌=?◌, elem, Result, ok, err, ◌>>◌,
}
use interviews.Content.Taxonomy.{valid_type, levels, types}
use interviews.Content.Manifest.Passed.{IsDistinct, ==-nil, elem-cons}
use interviews.Grading.Rubric.{
  Dimension, Rubric, RubricError, not_supported, no_dimensions, not_named, defined_twice, no_anchor,
  no_band, not_a_type, no_prompts, no_wrangling, supported_version, refuse_if, check_each, scores,
  check_anchor, check_dimensions, prompts_of, is_empty, check_band, check_kind, check_prompts,
  keeps_wrangling, validate,
}

-- A dimension that can be scored from 1 to 4.
pub record IsScored (d : Dimension) : Type 0 where
  pub named : d.key ≢ []
  pub titled : d.title ≢ []
  pub anchored : All (λ n. d.anchors n ≢ []) scores

pub record IsRubric (r : Rubric) : Type 0 where
  pub version : r.version ≡ supported_version
  pub scored : All IsScored r.dimensions
  pub distinct : IsDistinct (map (λ d. d.key) r.dimensions)
  pub banded : All (λ level. r.bands level ≢ []) levels
  pub typed : All (λ ((kind, prompts) : Str × List Str). valid_type kind ≡ true) r.prompts
  pub prompted : All (λ kind. prompts_of r.prompts kind ≢ []) types
  pub wrangling : (d : Dimension) × Memᴰ d r.dimensions × (d.key ≡ codes "wrangling")

then-ok : (a b : Result RubricError Unit) → (a >> b) ≡ ok tt → (a ≡ ok tt) × (b ≡ ok tt)
then-ok (err e) b h = cc
then-ok (ok tt) b h = (refl, h)

refuse_if-ok : (b : Bool) (e : RubricError) → refuse_if b e ≡ ok tt → b ≡ false
refuse_if-ok true e h = cc
refuse_if-ok false e h = refl

refuse_if-ok_not : (b : Bool) (e : RubricError) → refuse_if (not b) e ≡ ok tt → b ≡ true
refuse_if-ok_not true e h = refl
refuse_if-ok_not false e h = cc

check_each-ok :
    {A : Type 0} (P : A → Type 0) (f : A → Result RubricError Unit)
    → ((x : A) → f x ≡ ok tt → P x)
    → (xs : List A) → check_each f xs ≡ ok tt
    → All P xs
check_each-ok P f each [] h = tt
check_each-ok P f each (x ∷ xs) h =
    let (a, b) = then-ok (f x) (check_each f xs) h in (each x a, check_each-ok P f each xs b)

neither : (a b : Bool) → (a || b) ≡ false → (a ≡ false) × (b ≡ false)
neither true b h = cc
neither false b h = (refl, h)

not-empty : {A : Type 0} (xs : List A) → is_empty xs ≡ false → xs ≢ []
not-empty [] h = cc
not-empty (x ∷ xs) h = λ e. cc

-- Keys that were not seen stay apart from each key that was.
check_dimensions-ok :
    (seen : List Str) (ds : List Dimension)
    → check_dimensions seen ds ≡ ok tt
    → All IsScored ds
      × All (λ k. elem k seen ≡ false) (map (λ d. d.key) ds)
      × IsDistinct (map (λ d. d.key) ds)
unfolding check_dimensions
check_dimensions-ok seen [] h = (tt, tt, tt)
check_dimensions-ok seen (d ∷ ds) h =
    let rest = check_dimensions (d.key ∷ seen) ds in
    let (a, h1) =
      then-ok (refuse_if (d.key == [] || d.title == []) (not_named d.key))
        (refuse_if (elem d.key seen) (defined_twice d.key)
          >> (check_each (check_anchor d) scores >> rest))
        h in
    let (b, h2) =
      then-ok (refuse_if (elem d.key seen) (defined_twice d.key))
        (check_each (check_anchor d) scores >> rest) h1 in
    let (c, h3) = then-ok (check_each (check_anchor d) scores) rest h2 in
    let (key, title) =
      neither (d.key == []) (d.title == [])
        (refuse_if-ok (d.key == [] || d.title == []) (not_named d.key) a) in
    let (scored, fresh, distinct) = check_dimensions-ok (d.key ∷ seen) ds h3 in
    let (apart, unseen) = split (map (λ d. d.key) ds) d.key fresh in
    (
      (
        record {
          named = ==-nil d.key key;
          titled = ==-nil d.title title;
          anchored =
              check_each-ok (λ n. d.anchors n ≢ []) (check_anchor d)
                (λ n e.
                  ==-nil (d.anchors n) (refuse_if-ok (d.anchors n == []) (no_anchor d.key n) e))
                scores c;
        },
        scored,
      ),
      (refuse_if-ok (elem d.key seen) (defined_twice d.key) b, unseen),
      (apart, distinct),
    )
  where
    split :
        (ks : List Str) (key : Str)
        → All (λ k. elem k (key ∷ seen) ≡ false) ks
        → All (λ k. key ≢ k) ks × All (λ k. elem k seen ≡ false) ks
    split [] key f = (tt, tt)
    split (k ∷ ks) key (f, fs) =
        let (apart, unseen) = elem-cons k key seen f in
        let (a, u) = split ks key fs in ((apart, a), (unseen, u))

keeps_wrangling-mem :
    (ds : List Dimension)
    → keeps_wrangling ds ≡ true
    → (d : Dimension) × Memᴰ d ds × (d.key ≡ codes "wrangling")
unfolding keeps_wrangling
keeps_wrangling-mem [] h = cc
keeps_wrangling-mem (d ∷ ds) h =
    elim (||_true (d.key == codes "wrangling") (keeps_wrangling ds) h) [
      | inl e ↦ (d, Memᴰ.head refl, ==→eq d.key (codes "wrangling") e)
      | inr e ↦ let (w, m, k) = keeps_wrangling-mem ds e in (w, Memᴰ.tail m, k)
    ]

-- A rubric that passes has the supported version; its dimensions have a title, distinct keys and the four anchors;
-- each level has a band; it names no type that is not one, and each type has prompts; and a wrangling dimension
-- is among its own.
pub validate-IsRubric : (r : Rubric) → validate r ≡ ok tt → IsRubric r
unfolding validate
validate-IsRubric r h =
    let c7 = refuse_if (not (keeps_wrangling r.dimensions)) no_wrangling in
    let c6 = check_each (check_prompts r) types in
    let c5 = check_each check_kind r.prompts in
    let c4 = check_each (check_band r) levels in
    let c3 = check_dimensions [] r.dimensions in
    let c2 = refuse_if (is_empty r.dimensions) no_dimensions in
    let c1 = refuse_if (not (r.version =? supported_version)) (not_supported r.version) in
    let (h1, r1) = then-ok c1 (c2 >> (c3 >> (c4 >> (c5 >> (c6 >> c7))))) h in
    let (h2, r2) = then-ok c2 (c3 >> (c4 >> (c5 >> (c6 >> c7)))) r1 in
    let (h3, r3) = then-ok c3 (c4 >> (c5 >> (c6 >> c7))) r2 in
    let (h4, r4) = then-ok c4 (c5 >> (c6 >> c7)) r3 in
    let (h5, r5) = then-ok c5 (c6 >> c7) r4 in
    let (h6, h7) = then-ok c6 c7 r5 in
    let (scored, fresh, distinct) = check_dimensions-ok [] r.dimensions h3 in
    record {
      version =
          (=?_iff r.version supported_version).0
            (refuse_if-ok_not (r.version =? supported_version) (not_supported r.version) h1);
      scored = scored;
      distinct = distinct;
      banded =
          check_each-ok (λ level. r.bands level ≢ []) (check_band r)
            (λ level e.
              ==-nil (r.bands level) (refuse_if-ok (r.bands level == []) (no_band level) e))
            levels h4;
      typed =
          check_each-ok (λ ((kind, prompts) : Str × List Str). valid_type kind ≡ true) check_kind
            (λ t e. refuse_if-ok_not (valid_type t.0) (not_a_type t.0) e) r.prompts h5;
      prompted =
          check_each-ok (λ kind. prompts_of r.prompts kind ≢ []) (check_prompts r)
            (λ kind e.
              not-empty (prompts_of r.prompts kind)
                (refuse_if-ok (is_empty (prompts_of r.prompts kind)) (no_prompts kind) e))
            types h6;
      wrangling =
          keeps_wrangling-mem r.dimensions
            (refuse_if-ok_not (keeps_wrangling r.dimensions) no_wrangling h7);
    }
