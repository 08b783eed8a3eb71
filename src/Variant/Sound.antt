-- ===== src/Variant/Sound.antt =====
-- The values of a resolved variant.
use interviews.Base.{
  ℕ, zero, suc, ◌+◌, ◌-◌, ◌^◌, ◌≤◌, ◌<◌, ◌≡◌, refl, sym, ap, ◌∙◌, subst, inl, inr, Bool, true,
  false, not, List, [], ◌∷◌, Memᴰ, Option, none, some, Str, elem, elem→mem, All, Bool-cases,
  Option-cases, &&_true, leb→le, leb, ltb, length, Result, ok, ◌>>=◌, >>=-eq-ok, arith,
}
use interviews.Content.Params.{
  ParamType, choice, int, string, other_type, Value, text, number, ParamSpec, values, outside,
  within, validate_param,
}
use interviews.Content.Params.Passed.{
  Admits, listed, ranged, free, Draws, from_list, from_range, validate_param_passes,
}
use interviews.Variant.{
  ResolveError, lookup, nth, Sources, convert_override, pick_between, drawn, resolve_param,
  check_overrides, resolve_each, resolve,
}

-- `IntN` stays below its bound.
pub record HasStream (src : Sources) : Type 0 where
  pub below : (problem id name : Str) (n : ℕ) → zero < n → src.draw problem id name n < n

-- The specification passes validation, and its range is one that `IntN` takes.
pub record IsUsable (name : Str) (p : ParamSpec) : Type 0 where
  pub passes : validate_param name p ≡ []
  pub fits : (lo hi : ℕ) → p.min ≡ some lo → p.max ≡ some hi → hi - lo + 1 < 2 ^ 63

nth-mem : (v : Str) (vs : List Str) (i : ℕ) → Memᴰ (nth v vs i) (v ∷ vs)
nth-mem v vs zero = Memᴰ.head refl
nth-mem v [] (suc i) = Memᴰ.head refl
nth-mem v (w ∷ vs) (suc i) = Memᴰ.tail (nth-mem w vs i)

ltb-no : (a b : ℕ) → b ≤ a → ltb a b ≡ false
ltb-no a b h = ground arith

leb-no : (a b : ℕ) → b < a → leb a b ≡ false
leb-no a b h = ground arith

pick_between-ranged :
    (draw : ℕ → ℕ) (name : Str) (lo hi : ℕ)
    → ((n : ℕ) → zero < n → draw n < n)
    → lo ≤ hi
    → hi - lo + 1 < 2 ^ 63
    → (n : ℕ) × (pick_between draw name (some lo) (some hi) ≡ ok (number n)) × (lo ≤ n) × (n ≤ hi)
pick_between-ranged draw name lo hi below l fits =
    let n = draw (hi - lo + 1) in
    let lower = below (hi - lo + 1) (ground arith) in
    let first = ltb-no hi lo (ground arith) in
    let second = leb-no (2 ^ 63) (hi - lo + 1) fits in
    (lo + n, rw first (rw second refl), ground arith, ground arith)

-- Without an override, a usable parameter resolves to a value that its specification admits.
resolve_param-total :
    (src : Sources) (problem id name : Str) (p : ParamSpec)
    → HasStream src
    → IsUsable name p
    → (v : Value) × (resolve_param src problem id name p none ≡ ok v) × Admits p v
unfolding resolve_param drawn
resolve_param-total src problem id name p stream u = elim (validate_param_passes name p u.passes) [
  | inl (v, given, ad) ↦ (v, rw given refl, ad)
  | inr (n, d) ↦ go n d
]
  where
    go :
        p.default ≡ none
        → Draws p
        → (v : Value) × (resolve_param src problem id name p none ≡ ok v) × Admits p v
    go n (from_list {v} {vs} k q) =
        let i = src.draw problem id name (suc (length vs)) in
        (
          text (nth v vs i),
          rw (n, resolve_param) (rw (k, drawn) (rw q refl)),
          listed k (subst (λ l. Memᴰ (nth v vs i) l) (sym q) (nth-mem v vs i)),
        )
    go n (from_range {lo} {hi} k q r l) =
        let (m, e, a, b) =
          pick_between-ranged (src.draw problem id name) name lo hi (stream.below problem id name) l
            (u.fits lo hi q r) in
        (number m, rw (n, resolve_param) (rw (k, drawn) (rw (q) (rw r e))), ranged k q r a b)

ok-value : (v w : Value) → Path (Result ResolveError Value) (ok v) (ok w) → v ≡ w
ok-value v w h = cc

ok-list :
    (v w : List (Str × Value))
    → Path (Result ResolveError (List (Str × Value))) (ok v) (ok w)
    → v ≡ w
ok-list v w h = cc

has_bounds :
    (name : Str) (p : ParamSpec)
    → validate_param name p ≡ []
    → p.kind ≡ int
    → (lo hi : ℕ) × (p.min ≡ some lo) × (p.max ≡ some hi)
has_bounds name p h k = elim (validate_param_passes name p h) [
  | inl (v, given, ad) ↦ of_Admits ad
  | inr (n, d) ↦ of_Draws d
]
  where
    of_Admits : {v : Value} → Admits p v → (lo hi : ℕ) × (p.min ≡ some lo) × (p.max ≡ some hi)
    of_Admits (listed j m) = cc
    of_Admits (ranged {lo} {hi} j q r a b) = (lo, hi, q, r)
    of_Admits (free j) = cc

    of_Draws : Draws p → (lo hi : ℕ) × (p.min ≡ some lo) × (p.max ≡ some hi)
    of_Draws (from_list j q) = cc
    of_Draws (from_range {lo} {hi} j q r l) = (lo, hi, q, r)

inside :
    (min max : Option ℕ) (lo hi n : ℕ)
    → min ≡ some lo
    → max ≡ some hi
    → outside min max n ≡ false
    → within lo hi n ≡ true
inside min max lo hi n q r h =
    not-false (within lo hi n)
      (cc (h, ap (λ a. outside a max n) q, ap (λ b. outside (some lo) b n) r))
  where
    not-false : (t : Bool) → not t ≡ false → t ≡ true
    not-false true h = refl
    not-false false h = cc

convert_override-Admits :
    (src : Sources) (name raw : Str) (p : ParamSpec) (k : ParamType) (v : Value)
    → validate_param name p ≡ []
    → p.kind ≡ k
    → convert_override src name p k raw ≡ ok v
    → Admits p v
unfolding convert_override
convert_override-Admits src name raw p choice v h k = elim (Bool-cases (elem raw (values p.of))) [
  | inl e ↦
      rw e
        (λ q. subst (Admits p) (ok-value (text raw) v q) (listed k (elem→mem raw (values p.of) e)))
  | inr e ↦ rw e (λ q. cc)
]
convert_override-Admits src name raw p int v h k = elim (Option-cases (src.atoi raw)) [
  | inl e ↦ rw (e, convert_override) (λ q. cc)
  | inr (n, e) ↦
      rw (e, convert_override)
        (elim (Bool-cases (outside p.min p.max n)) [
          | inl t ↦ rw t (λ g. cc)
          | inr t ↦ rw t (λ g.
              let (lo, hi, q, r) = has_bounds name p h k in
              let (a, b) = &&_true (leb lo n) (leb n hi) (inside p.min p.max lo hi n q r t) in
              subst (Admits p) (ok-value (number n) v g)
                (ranged k q r (leb→le lo n a) (leb→le n hi b)))
        ])
]
convert_override-Admits src name raw p string v h k =
    λ e. subst (Admits p) (ok-value (text raw) v e) (free k)
convert_override-Admits src name raw p (other_type t) v h k = λ e. cc

-- Each parameter has a value that its specification admits, and it is the one that the parameter alone
-- resolves to: no other parameter, and no other parameter's override, has a part in it.
pub data Variation (src : Sources) (problem id : Str) (overrides : List (Str × Str))
    : List (Str × ParamSpec) → List (Str × Value) → Type 0 where
  nothing : Variation src problem id overrides [] []
  one_more :
      {name : Str} {p : ParamSpec} {v : Value} {specs : List (Str × ParamSpec)}
      {params : List (Str × Value)}
      → resolve_param src problem id name p (lookup overrides name) ≡ ok v
      → Admits p v
      → Variation src problem id overrides specs params
      → Variation src problem id overrides ((name, p) ∷ specs) ((name, v) ∷ params)

abbrev pub AreUsable : List (Str × ParamSpec) → Type 0
AreUsable = All (λ ((name, p) : Str × ParamSpec). IsUsable name p)

module _ (src : Sources) (problem id : Str) (stream : HasStream src) where
  resolve_param-Admits :
      (name : Str) (p : ParamSpec) (own : Option Str) (v : Value)
      → IsUsable name p
      → resolve_param src problem id name p own ≡ ok v
      → Admits p v
  unfolding resolve_param
  resolve_param-Admits name p none v u h =
      let (w, q, ad) = resolve_param-total src problem id name p stream u in
      subst (Admits p) (ok-value w v (sym q ∙ h)) ad
  resolve_param-Admits name p (some raw) v u h =
      convert_override-Admits src name raw p p.kind v u.passes refl h

  resolve_each-Variation :
      (overrides : List (Str × Str)) (specs : List (Str × ParamSpec)) (params : List (Str × Value))
      → AreUsable specs
      → resolve_each src problem id overrides specs ≡ ok params
      → Variation src problem id overrides specs params
  unfolding resolve_each
  resolve_each-Variation overrides [] params u h =
      subst (Variation src problem id overrides []) (ok-list [] params h) nothing
  resolve_each-Variation overrides ((name, p) ∷ specs) params (u, us) h =
      let (v, q, h1) =
        >>=-eq-ok (resolve_param src problem id name p (lookup overrides name))
          (λ v. resolve_each src problem id overrides specs >>= λ rest. ok ((name, v) ∷ rest)) h in
      let (rest, r, h2) =
        >>=-eq-ok (resolve_each src problem id overrides specs) (λ rest. ok ((name, v) ∷ rest))
          h1 in
      subst (Variation src problem id overrides ((name, p) ∷ specs))
        (ok-list ((name, v) ∷ rest) params h2)
        (one_more q (resolve_param-Admits name p (lookup overrides name) v u q)
          (resolve_each-Variation overrides specs rest us r))

  -- A resolved variant of usable parameters has, for each of them in their order, a value that its specification
  -- admits, an override's value included; and it is the value that the parameter resolves to alone.
  pub resolve-Variation :
      (overrides : List (Str × Str)) (specs : List (Str × ParamSpec)) (params : List (Str × Value))
      → AreUsable specs
      → resolve src problem specs id overrides ≡ ok params
      → Variation src problem id overrides specs params
  unfolding resolve
  resolve-Variation overrides specs params u h =
      let (_, _, r) =
        >>=-eq-ok (check_overrides specs overrides)
          (λ _. resolve_each src problem id overrides specs) h in
      resolve_each-Variation overrides specs params u r

  resolve_each-total :
      (specs : List (Str × ParamSpec))
      → AreUsable specs
      → (params : List (Str × Value)) × (resolve_each src problem id [] specs ≡ ok params)
  unfolding resolve_each lookup
  resolve_each-total [] u = ([], refl)
  resolve_each-total ((name, p) ∷ specs) (u, us) =
      let (v, q, _) = resolve_param-total src problem id name p stream u in
      let (rest, r) = resolve_each-total specs us in ((name, v) ∷ rest, rw q (rw r refl))

  -- Usable parameters without overrides always resolve.
  pub resolve-total :
      (specs : List (Str × ParamSpec))
      → AreUsable specs
      → (params : List (Str × Value)) × (resolve src problem specs id [] ≡ ok params)
        × Variation src problem id [] specs params
  unfolding resolve check_overrides
  resolve-total specs u =
      let (params, q) = resolve_each-total specs u in
      (params, q, resolve_each-Variation [] specs params u q)
