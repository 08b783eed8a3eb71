-- ===== src/Content/Params/Passed.antt =====
-- What a parameter that passed has.
use interviews.Base.{
  note_if, append-silent, note_if-silent, ℕ, ◌≤◌, ◌≡◌, refl, ◌⊎◌, inl, inr, Bool, true, false, ◌||◌,
  not, List, [], ◌∷◌, ◌++◌, Option, none, some, Str, Memᴰ, elem, elem→mem, ltb, arith,
}
use interviews.Content.Params.{
  ParamType, choice, int, string, other_type, Value, text, number, other_value, ParamSpec, values,
  is_some, within, repeats, choice_default, bounds, int_default, string_default, is_empty,
  is_param_name, spec_issues, validate_param, default_not_listed, min_over_max, default_outside,
  bad_name, takes_of_only, empty_of, takes_bounds_only, takes_default_only,
}

-- A value that the specification admits.
pub data Admits (p : ParamSpec) : Value → Type 0 where
  listed : {s : Str} → p.kind ≡ choice → Memᴰ s (values p.of) → Admits p (text s)
  ranged :
      {lo hi n : ℕ}
      → p.kind ≡ int
      → p.min ≡ some lo
      → p.max ≡ some hi
      → lo ≤ n
      → n ≤ hi
      → Admits p (number n)
  free : {s : Str} → p.kind ≡ string → Admits p (text s)

-- Where the values without a default come from.
pub data Draws (p : ParamSpec) : Type 0 where
  from_list : {v : Str} {vs : List Str} → p.kind ≡ choice → values p.of ≡ v ∷ vs → Draws p
  from_range : {lo hi : ℕ} → p.kind ≡ int → p.min ≡ some lo → p.max ≡ some hi → lo ≤ hi → Draws p

choice_passes :
    (of : List Str) (d : Option Value)
    → is_empty of ≡ false
    → choice_default of d ≡ []
    → (v : Str) × (vs : List Str) × (of ≡ v ∷ vs)
      × (((s : Str) × (d ≡ some (text s)) × Memᴰ s of) ⊎ (d ≡ none))
choice_passes [] d e h = cc
choice_passes (v ∷ vs) none e h = (v, vs, refl, inr refl)
choice_passes (v ∷ vs) (some (text s)) e h = (
  v,
  vs,
  refl,
  inl (
    s,
    refl,
    elem→mem s (v ∷ vs)
        (not-false (elem s (v ∷ vs)) (note_if-silent (not (elem s (v ∷ vs))) default_not_listed h)),
  ),
)
  where
    not-false : (t : Bool) → not t ≡ false → t ≡ true
    not-false true h = refl
    not-false false h = cc
choice_passes (v ∷ vs) (some (number n)) e h = cc
choice_passes (v ∷ vs) (some other_value) e h = cc

int_passes :
    (lo hi : Option ℕ) (d : Option Value)
    → bounds lo hi ≡ []
    → int_default lo hi d ≡ []
    → (l h : ℕ) × (lo ≡ some l)
      × (hi ≡ some h)
      × (l ≤ h)
      × (((n : ℕ) × (d ≡ some (number n)) × (l ≤ n) × (n ≤ h)) ⊎ (d ≡ none))
int_passes (some l) (some h) none b i =
    (l, h, refl, refl, ground (arith, note_if-silent (ltb h l) min_over_max b), inr refl)
int_passes (some l) (some h) (some (number n)) b i = (
  l,
  h,
  refl,
  refl,
  ground (arith, note_if-silent (ltb h l) min_over_max b),
  inl (
    n,
    refl,
    ground (arith, note_if-silent (not (within l h n)) default_outside i),
    ground (arith, note_if-silent (not (within l h n)) default_outside i),
  ),
)
int_passes (some l) (some h) (some (text s)) b i = cc
int_passes (some l) (some h) (some other_value) b i = cc
int_passes (some l) none d b i = cc
int_passes none hi d b i = cc

string_passes : (d : Option Value) → string_default d ≡ [] → (s : Str) × (d ≡ some (text s))
string_passes (some (text s)) h = (s, refl)
string_passes none h = cc
string_passes (some (number n)) h = cc
string_passes (some other_value) h = cc

-- A parameter that passes has a default that its specification admits, or none and something to draw from.
pub validate_param_passes :
    (name : Str) (p : ParamSpec)
    → validate_param name p ≡ []
    → ((v : Value) × (p.default ≡ some v) × Admits p v) ⊎ ((p.default ≡ none) × Draws p)
unfolding validate_param spec_issues
validate_param_passes name p h =
    let (_, issues) =
      append-silent (note_if (not (is_param_name name)) bad_name) (spec_issues p.kind p) h in
    go p.kind refl issues
  where
    go :
        (k : ParamType)
        → p.kind ≡ k
        → spec_issues k p ≡ []
        → ((v : Value) × (p.default ≡ some v) × Admits p v) ⊎ ((p.default ≡ none) × Draws p)
    go choice k issues =
        let a = note_if (is_some p.min || is_some p.max) takes_of_only in
        let b = note_if (is_empty (values p.of)) empty_of in
        let c = repeats [] (values p.of) in
        let (_, i1) = append-silent a (b ++ (c ++ choice_default (values p.of) p.default)) issues in
        let (e, i2) = append-silent b (c ++ choice_default (values p.of) p.default) i1 in
        let (_, d) = append-silent c (choice_default (values p.of) p.default) i2 in
        let (v, vs, q, r) =
          choice_passes (values p.of) p.default (note_if-silent (is_empty (values p.of)) empty_of e)
            d in
        elim r [
          | inl (s, given, m) ↦ inl (text s, given, listed k m)
          | inr n ↦ inr (n, from_list k q)
        ]
    go int k issues =
        let a = note_if (is_some p.of) takes_bounds_only in
        let (_, i1) =
          append-silent a (bounds p.min p.max ++ int_default p.min p.max p.default) issues in
        let (b, i) = append-silent (bounds p.min p.max) (int_default p.min p.max p.default) i1 in
        let (lo, hi, q, r, l, d) = int_passes p.min p.max p.default b i in
        elim d [
          | inl (n, given, x, y) ↦ inl (number n, given, ranged k q r x y)
          | inr n ↦ inr (n, from_range k q r l)
        ]
    go string k issues =
        let a = note_if (is_some p.of || is_some p.min || is_some p.max) takes_default_only in
        let (_, d) = append-silent a (string_default p.default) issues in
        let (s, given) = string_passes p.default d in inl (text s, given, free k)
    go (other_type t) k issues = cc
