-- ===== src/Base/Text.antt =====
-- Texts as lists of bytes, as Go's strings are.
use Prim.Native.Nat.{ℕ}
use Prim.Native.Char.{code}
use Prim.Native.String.{String}
use mathlib.Core.Path.{◌≡◌, refl, ap, ap₂}
use mathlib.Core.Logic.{◌↔◌}
use mathlib.Core.Bool.{Bool, true, false, ◌&&◌, ◌||◌}
use mathlib.Core.List.{reverse, reverse-append, reverse-reverse, List, [], ◌∷◌, ◌++◌, Memᴰ}
use native.Mathlib.Omega.{arith}
use interviews.Base.Tests.{◌=?◌, =?_iff, leb, if◌then◌else◌, &&_true}
use interviews.Base.Lists.{All, All-reverse, any, any-mem, any_of_mem}

-- A Go string: its bytes.
abbrev pub Str : Type 0
Str = List ℕ

-- The code points of a literal, which are its bytes where it is ASCII.
abbrev pub codes : String → Str
codes String.[] = []
codes (String.◌∷◌ c s) = code c ∷ codes s

infix 50 ◌==◌
unfoldable pub ◌==◌ : Str → Str → Bool
[] == [] = true
(a ∷ s) == (b ∷ t) = a =? b && s == t
_ == _ = false

pub ==→eq : (s t : Str) → (s == t) ≡ true → s ≡ t
unfolding ◌==◌
==→eq [] [] h = refl
==→eq [] (b ∷ t) h = ground arith
==→eq (a ∷ s) [] h = ground arith
==→eq (a ∷ s) (b ∷ t) h =
    let (p, q) = &&_true (a =? b) (s == t) h in ap₂ ◌∷◌ ((=?_iff a b).0 p) (==→eq s t q)

pub ==_refl : (s : Str) → (s == s) ≡ true
unfolding ◌==◌
==_refl [] = refl
==_refl (a ∷ s) = ground (arith, ==_refl s)

pub ==_iff : (s t : Str) → ((s == t) ≡ true) ↔ (s ≡ t)
==_iff s t = (==→eq s t, λ e. cc (==_refl s, ap (λ (u : Str). s == u) e))

-- `slices.Contains` on strings
abbrev pub elem : Str → List Str → Bool
elem s = any (λ t. s == t)

pub elem→mem : (s : Str) (l : List Str) → elem s l ≡ true → Memᴰ s l
elem→mem s l h = let (t, m, e) = any-mem (λ t. s == t) l h in rw (==→eq s t e) m

pub mem→elem : (s : Str) (l : List Str) → Memᴰ s l → elem s l ≡ true
mem→elem s l m = any_of_mem (λ t. s == t) l m (==_refl s)

-- `strings.HasPrefix(s, p)`
unfoldable pub has_prefix : Str → Str → Bool
has_prefix s [] = true
has_prefix [] (b ∷ p) = false
has_prefix (a ∷ s) (b ∷ p) = a =? b && has_prefix s p

-- `strings.HasSuffix(s, p)`
unfoldable pub has_suffix : Str → Str → Bool
unfolding has_prefix
has_suffix s p = has_prefix (reverse s) (reverse p)

-- `strings.Contains(s, p)`, and `bytes.Contains`
unfoldable pub contains : Str → Str → Bool
unfolding has_prefix
contains [] p = has_prefix [] p
contains (a ∷ s) p = has_prefix (a ∷ s) p || contains s p

-- ASCII white space, as `strings.TrimSpace` trims it.
abbrev pub is_space : ℕ → Bool
is_space a = a =? b' ' || (leb 9 a && leb a 13)

unfoldable pub drop_space : Str → Str
drop_space [] = []
drop_space (a ∷ s) = let rest = drop_space s in if is_space a then rest else a ∷ s

-- `strings.TrimSpace`
unfoldable pub trim_space : Str → Str
unfolding drop_space
trim_space s = reverse (drop_space (reverse (drop_space s)))

abbrev pub newline : ℕ
newline = 10

drop_space-eq : (s : Str) → All (λ a. is_space a ≡ false) s → drop_space s ≡ s
unfolding drop_space
drop_space-eq [] h = refl
drop_space-eq (a ∷ s) h = rw (h.0)

drop_space-line :
    (s : Str)
    → All (λ a. is_space a ≡ false) s
    → drop_space (reverse (drop_space (s ++ newline ∷ []))) ≡ reverse s
drop_space-line [] h = unfold drop_space in refl
drop_space-line (a ∷ s) h =
    rw (step (h.0)) (rw (reverse-append (a ∷ s) (newline ∷ [])) (back (h.0)))
  where
    step : is_space a ≡ false → drop_space (a ∷ s ++ newline ∷ []) ≡ a ∷ s ++ newline ∷ []
    step e = unfold drop_space in rw e

    back : is_space a ≡ false → drop_space (newline ∷ reverse (a ∷ s)) ≡ reverse (a ∷ s)
    back e =
        unfold drop_space in
        drop_space-eq (reverse (a ∷ s)) (All-reverse (λ a. is_space a ≡ false) (a ∷ s) h)

-- What was written as one line is read back.
pub trim_space-line :
    (s : Str) → All (λ a. is_space a ≡ false) s → trim_space (s ++ newline ∷ []) ≡ s
trim_space-line s h = unfold trim_space in rw (drop_space-line s h) (reverse-reverse s)
