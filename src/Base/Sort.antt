-- ===== src/Base/Sort.antt =====
-- A stable sort by a Boolean order: `sort.SliceStable`, `slices.SortStableFunc`, and what
-- `slices.SortFunc` and `sort.Strings` give where equal keys are one and the same value.
use mathlib.Core.Path.{◌≡◌, refl}
use mathlib.Core.Logic.{◌⊎◌, inl, inr}
use mathlib.Core.Bool.{Bool, true, false, ◌&&◌}
use mathlib.Core.List.{List, [], ◌∷◌, Memᴰ, Permᴰ}
use mathlib.Core.List.Permᴰ
use native.Mathlib.Omega.{arith}
use interviews.Base.Tests.{if◌then◌else◌, Bool-cases, ltb, ◌=?◌}
use interviews.Base.Lists.{All, keep}
use interviews.Base.Text.{Str}

module _ {ℓ} {A : Type ℓ} (le : A → A → Bool) where
  unfoldable pub insert : A → List A → List A
  insert x [] = x ∷ []
  insert x (y ∷ ys) = let rest = insert x ys in if le x y then x ∷ y ∷ ys else y ∷ rest

  unfoldable pub sort : List A → List A
  unfolding insert
  sort [] = []
  sort (x ∷ xs) = insert x (sort xs)

  abbrev pub IsSorted : List A → Type 0
  IsSorted [] = Unit
  IsSorted (x ∷ xs) = All (λ y. le x y ≡ true) xs × IsSorted xs

  insert-perm : (x : A) (xs : List A) → Permᴰ (insert x xs) (x ∷ xs)
  unfolding insert
  insert-perm x [] = Permᴰ.refl (x ∷ [])
  insert-perm x (y ∷ ys) = elim (Bool-cases (le x y)) [
    | inl e ↦ rw e (Permᴰ.refl (x ∷ y ∷ ys))
    | inr e ↦ rw e (Permᴰ.trans (Permᴰ.cons refl (insert-perm x ys)) (Permᴰ.swap refl refl))
  ]

  pub sort-perm : (xs : List A) → Permᴰ (sort xs) xs
  unfolding sort
  sort-perm [] = Permᴰ.nil
  sort-perm (x ∷ xs) = Permᴰ.trans (insert-perm x (sort xs)) (Permᴰ.cons refl (sort-perm xs))

  pub insert-All : (P : A → Type 0) (x : A) (xs : List A) → P x → All P xs → All P (insert x xs)
  unfolding insert
  insert-All P x [] p h = (p, tt)
  insert-All P x (y ∷ ys) p h = elim (Bool-cases (le x y)) [
    | inl e ↦ rw e (p, h)
    | inr e ↦ rw e (h.0, insert-All P x ys p h.1)
  ]

  pub sort-All : (P : A → Type 0) (xs : List A) → All P xs → All P (sort xs)
  unfolding sort
  sort-All P [] h = tt
  sort-All P (x ∷ xs) h = insert-All P x (sort xs) h.0 (sort-All P xs h.1)

  insert-mem : {y : A} (x : A) (xs : List A) → Memᴰ y (x ∷ xs) → Memᴰ y (insert x xs)
  unfolding insert
  insert-mem x [] m = m
  insert-mem x (z ∷ xs) m = elim (Bool-cases (le x z)) [
    | inl e ↦ rw e m
    | inr e ↦ rw e (elim m [
      | Memᴰ.head q ↦ Memᴰ.tail (insert-mem x xs (Memᴰ.head q))
      | Memᴰ.tail (Memᴰ.head q) ↦ Memᴰ.head q
      | Memᴰ.tail (Memᴰ.tail r) ↦ Memᴰ.tail (insert-mem x xs (Memᴰ.tail r))
    ])
  ]

  pub sort-mem : {y : A} (xs : List A) → Memᴰ y xs → Memᴰ y (sort xs)
  unfolding sort
  sort-mem [] m = m
  sort-mem (x ∷ xs) (Memᴰ.head e) = insert-mem x (sort xs) (Memᴰ.head e)
  sort-mem (x ∷ xs) (Memᴰ.tail m) = insert-mem x (sort xs) (Memᴰ.tail (sort-mem xs m))

  -- A class of elements none of which goes before another keeps its order.
  module _ (p : A → Bool) (same : (x y : A) → p x ≡ true → p y ≡ true → le x y ≡ true) where
    keep-insert : (x : A) (xs : List A) → keep p (insert x xs) ≡ keep p (x ∷ xs)
    unfolding insert
    keep-insert x [] = refl
    keep-insert x (y ∷ ys) = ground (arith, same x y, keep-insert x ys)

    pub sort-stable : (xs : List A) → keep p (sort xs) ≡ keep p xs
    unfolding sort
    sort-stable [] = refl
    sort-stable (x ∷ xs) = ground (arith, keep-insert x (sort xs), sort-stable xs)

  module _ (total : (x y : A) → (le x y ≡ true) ⊎ (le y x ≡ true))
      (trans : (x y z : A) → le x y ≡ true → le y z ≡ true → le x z ≡ true) where
    All-le :
        (x y : A) (ys : List A)
        → le x y ≡ true
        → All (λ z. le y z ≡ true) ys
        → All (λ z. le x z ≡ true) ys
    All-le x y [] h a = tt
    All-le x y (z ∷ ys) h a = (trans x y z h a.0, All-le x y ys h a.1)

    insert-IsSorted : (x : A) (xs : List A) → IsSorted xs → IsSorted (insert x xs)
    unfolding insert
    insert-IsSorted x [] s = (tt, tt)
    insert-IsSorted x (y ∷ ys) s = elim (Bool-cases (le x y)) [
      | inl e ↦ rw e ((e, All-le x y ys e s.0), s)
      | inr e ↦ rw e (
        insert-All (λ z. le y z ≡ true) x ys (ground (arith, total x y)) s.0,
        insert-IsSorted x ys s.1,
      )
    ]

    pub sort-IsSorted : (xs : List A) → IsSorted (sort xs)
    unfolding sort
    sort-IsSorted [] = tt
    sort-IsSorted (x ∷ xs) = insert-IsSorted x (sort xs) (sort-IsSorted xs)

-- The order of Go's strings: by bytes, a prefix first.
unfoldable pub str_le : Str → Str → Bool
str_le [] t = true
str_le (a ∷ s) [] = false
str_le (a ∷ s) (b ∷ t) = let rest = str_le s t in if ltb a b then true else (a =? b && rest)

pub str_le_refl : (s : Str) → str_le s s ≡ true
unfolding str_le
str_le_refl [] = refl
str_le_refl (a ∷ s) = ground (arith, str_le_refl s)

pub str_le_total : (s t : Str) → (str_le s t ≡ true) ⊎ (str_le t s ≡ true)
unfolding str_le
str_le_total [] t = inl refl
str_le_total (a ∷ s) [] = inr refl
str_le_total (a ∷ s) (b ∷ t) = ground (arith, str_le_total s t)

pub str_le_trans : (s t u : Str) → str_le s t ≡ true → str_le t u ≡ true → str_le s u ≡ true
unfolding str_le
str_le_trans [] t u h k = refl
str_le_trans (a ∷ s) [] u h k = ground arith
str_le_trans (a ∷ s) (b ∷ t) [] h k = ground arith
str_le_trans (a ∷ s) (b ∷ t) (c ∷ u) h k = ground (arith, str_le_trans s t u)
