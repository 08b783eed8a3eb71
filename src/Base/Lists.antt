-- ===== src/Base/Lists.antt =====
-- Lists measured by native numbers, predicates over lists by recursion, and Boolean folds.
use Prim.Native.Nat.{ℕ, zero, suc, ◌+◌}
use mathlib.Core.Path.{◌∙◌, ◌≡◌, refl, ap, sym, subst}
use mathlib.Core.Logic.{inl, inr}
use mathlib.Core.Bool.{Bool, true, false, not, ◌&&◌, ◌||◌}
use mathlib.Core.List.{reverse, reverse-cons, List, [], ◌∷◌, ◌++◌, Memᴰ}
use native.Mathlib.Omega.{arith}
use interviews.Base.Tests.{Bool-cases, if◌then◌else◌, &&_true, ||_true}

module _ {ℓ} {A : Type ℓ} where
  abbrev pub length : List A → ℕ
  length [] = 0
  length (x ∷ xs) = suc (length xs)

  abbrev pub take : ℕ → List A → List A
  take zero xs = []
  take (suc n) [] = []
  take (suc n) (x ∷ xs) = x ∷ take n xs

  pub length-append : (xs ys : List A) → length (xs ++ ys) ≡ length xs + length ys
  length-append [] ys = omega arith
  length-append (x ∷ xs) ys = omega (arith, length-append xs ys)

  -- `slices.ContainsFunc`
  abbrev pub any : (A → Bool) → List A → Bool
  any p [] = false
  any p (x ∷ xs) = p x || any p xs

  abbrev pub all : (A → Bool) → List A → Bool
  all p [] = true
  all p (x ∷ xs) = p x && all p xs

  -- the elements that a test keeps, in their order
  abbrev pub keep : (A → Bool) → List A → List A
  keep p [] = []
  keep p (x ∷ xs) = let rest = keep p xs in if p x then x ∷ rest else rest

module _ {ℓ κ} {A : Type ℓ} where
  -- A predicate by recursion computes to tuples, which the tactics read and build.
  abbrev pub All : (A → Type κ) → List A → Type κ
  All P [] = Unit
  All P (x ∷ xs) = P x × All P xs

  pub All-append : (P : A → Type κ) (xs ys : List A) → All P xs → All P ys → All P (xs ++ ys)
  All-append P [] ys hx hy = hy
  All-append P (x ∷ xs) ys hx hy = (hx.0, All-append P xs ys hx.1 hy)

  pub All-mem : (P : A → Type κ) {x : A} (xs : List A) → All P xs → Memᴰ x xs → P x
  All-mem P [] h m = elim m [ ]
  All-mem P (y ∷ ys) h (Memᴰ.head e) = subst P (sym e) h.0
  All-mem P (y ∷ ys) h (Memᴰ.tail m) = All-mem P ys h.1 m

  pub All-of_mem : (P : A → Type κ) (xs : List A) → ((x : A) → Memᴰ x xs → P x) → All P xs
  All-of_mem P [] h = tt
  All-of_mem P (x ∷ xs) h = (h x (Memᴰ.head refl), All-of_mem P xs (λ y m. h y (Memᴰ.tail m)))

  pub All-reverse : (P : A → Type κ) (l : List A) → All P l → All P (reverse l)
  All-reverse P [] h = tt
  All-reverse P (x ∷ l) h =
      rw reverse-cons (All-append P (reverse l) (x ∷ []) (All-reverse P l h.1) (h.0, tt))

module _ {ℓ} {A : Type ℓ} where
  pub All-all : (p : A → Bool) (xs : List A) → All (λ x. p x ≡ true) xs → all p xs ≡ true
  All-all p [] h = refl
  All-all p (x ∷ xs) h = rw (h.0) (All-all p xs h.1)

  pub all-append :
      (p : A → Bool) (xs ys : List A) → all p xs ≡ true → all p ys ≡ true → all p (xs ++ ys) ≡ true
  all-append p [] ys h k = k
  all-append p (x ∷ xs) ys h k =
      let (a, b) = &&_true (p x) (all p xs) h in rw a (all-append p xs ys b k)

  pub all-All : (p : A → Bool) (xs : List A) → all p xs ≡ true → All (λ x. p x ≡ true) xs
  all-All p [] h = tt
  all-All p (x ∷ xs) h = let (a, b) = &&_true (p x) (all p xs) h in (a, all-All p xs b)

  pub any-mem : (p : A → Bool) (xs : List A) → any p xs ≡ true → (x : A) × Memᴰ x xs × (p x ≡ true)
  any-mem p [] h = ground arith
  any-mem p (x ∷ xs) h = elim (||_true (p x) (any p xs) h) [
    | inl e ↦ (x, Memᴰ.head refl, e)
    | inr e ↦ let (y, m, q) = any-mem p xs e in (y, Memᴰ.tail m, q)
  ]

  pub any_of_mem : (p : A → Bool) {x : A} (xs : List A) → Memᴰ x xs → p x ≡ true → any p xs ≡ true
  any_of_mem p [] m h = elim m [ ]
  any_of_mem p (y ∷ ys) (Memᴰ.head e) h = ground (arith, ap p e)
  any_of_mem p (y ∷ ys) (Memᴰ.tail m) h = ground (arith, any_of_mem p ys m h)

  keep-cons-mem :
      (p : A → Bool) {x : A} (y : A) (ys : List A) (b : Bool)
      → p y ≡ b
      → (Memᴰ x (keep p ys) → Memᴰ x ys × (p x ≡ true))
      → Memᴰ x (if b then y ∷ keep p ys else keep p ys)
      → Memᴰ x (y ∷ ys) × (p x ≡ true)
  keep-cons-mem p y ys true e ih (Memᴰ.head q) = (Memᴰ.head q, subst (λ z. p z ≡ true) (sym q) e)
  keep-cons-mem p y ys true e ih (Memᴰ.tail r) = let (k, h) = ih r in (Memᴰ.tail k, h)
  keep-cons-mem p y ys false e ih r = let (k, h) = ih r in (Memᴰ.tail k, h)

  pub keep-mem :
      (p : A → Bool) {x : A} (xs : List A) → Memᴰ x (keep p xs) → Memᴰ x xs × (p x ≡ true)
  keep-mem p [] m = elim m [ ]
  keep-mem p (y ∷ ys) m = keep-cons-mem p y ys (p y) refl (keep-mem p ys) m

  pub mem-keep : (p : A → Bool) {x : A} (xs : List A) → Memᴰ x xs → p x ≡ true → Memᴰ x (keep p xs)
  mem-keep p [] m h = elim m [ ]
  mem-keep p (y ∷ ys) (Memᴰ.head e) h = rw (ap p (sym e) ∙ h) (Memᴰ.head e)
  mem-keep p (y ∷ ys) (Memᴰ.tail m) h = elim (Bool-cases (p y)) [
    | inl e ↦ rw e (Memᴰ.tail (mem-keep p ys m h))
    | inr e ↦ rw e (mem-keep p ys m h)
  ]

module _ {ℓ} {A : Type ℓ} where
  pub mem-append_left : {x : A} (xs ys : List A) → Memᴰ x xs → Memᴰ x (xs ++ ys)
  mem-append_left [] ys m = elim m [ ]
  mem-append_left (z ∷ xs) ys (Memᴰ.head e) = Memᴰ.head e
  mem-append_left (z ∷ xs) ys (Memᴰ.tail m) = Memᴰ.tail (mem-append_left xs ys m)

  pub mem-append_right : {x : A} (xs : List A) {ys : List A} → Memᴰ x ys → Memᴰ x (xs ++ ys)
  mem-append_right [] m = m
  mem-append_right (z ∷ xs) m = Memᴰ.tail (mem-append_right xs m)

-- what a check that collects says: something where a test holds
module _ {ℓ} {A : Type ℓ} where
  abbrev pub note_if : Bool → A → List A
  note_if true x = x ∷ []
  note_if false x = []

  -- Nothing was said.
  pub append-silent : (xs ys : List A) → xs ++ ys ≡ [] → (xs ≡ []) × (ys ≡ [])
  append-silent [] ys h = (refl, h)
  append-silent (x ∷ xs) ys h = cc

  pub note_if-silent : (b : Bool) (x : A) → note_if b x ≡ [] → b ≡ false
  note_if-silent true x h = cc
  note_if-silent false x h = refl

  pub note_if-silent_not : (b : Bool) (x : A) → note_if (not b) x ≡ [] → b ≡ true
  note_if-silent_not true x h = refl
  note_if-silent_not false x h = cc
