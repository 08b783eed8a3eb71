-- ===== src/Variant/Frame.antt =====
-- What `HashParts` feeds to the hash determines the parts.
use interviews.Base.{
  ℕ, ◌/◌, ◌%◌, ◌^◌, ◌<◌, ◌≡◌, refl, ap, List, [], ◌∷◌, ◌++◌, Str, All, length, arith,
}
use interviews.Variant.{put_uint32, frame}

-- Go's `uint32(len(s))` keeps the length.
abbrev pub IsShort : Str → Type 0
IsShort s = length s < 2 ^ 32

split_at : (s t xs ys : Str) → length s ≡ length t → s ++ xs ≡ t ++ ys → (s ≡ t) × (xs ≡ ys)
split_at [] [] xs ys l h = (refl, h)
split_at [] (b ∷ t) xs ys l h = ground arith
split_at (a ∷ s) [] xs ys l h = ground arith
split_at (a ∷ s) (b ∷ t) xs ys l h =
    let tl : List ℕ → List ℕ = λ l. elim l [ [] ↦ [] | x ∷ xs ↦ xs ] in
    let (p, q) = split_at s t xs ys (ground arith) (ap tl h) in (cc (p, h), q)

put_uint32-inj :
    (m n : ℕ) (xs ys : Str)
    → m < 2 ^ 32
    → n < 2 ^ 32
    → put_uint32 m ++ xs ≡ put_uint32 n ++ ys
    → (m ≡ n) × (xs ≡ ys)
unfolding put_uint32
put_uint32-inj m n xs ys p q h =
    let a : m / 16777216 % 256 ≡ n / 16777216 % 256 = cc (h) in
    let b : m / 65536 % 256 ≡ n / 65536 % 256 = cc (h) in
    let c : m / 256 % 256 ≡ n / 256 % 256 = cc (h) in
    let d : m % 256 ≡ n % 256 = cc (h) in
    let e : xs ≡ ys = cc (h) in (ground (arith, a, b, c, d), e)

-- Lists of parts shorter than 2^32 bytes that feed the hash the same bytes are the same list.
pub frame-inj :
    (parts others : List Str)
    → All IsShort parts
    → All IsShort others
    → frame parts ≡ frame others
    → parts ≡ others
unfolding frame put_uint32
frame-inj [] [] a b h = refl
frame-inj [] (t ∷ others) a b h = cc
frame-inj (s ∷ parts) [] a b h = cc
frame-inj (s ∷ parts) (t ∷ others) (a, more) (b, rest) h =
    let (l, q) =
      put_uint32-inj (length s) (length t) (s ++ frame parts) (t ++ frame others) a b h in
    let (e, r) = split_at s t (frame parts) (frame others) l q in
    let e' = frame-inj parts others more rest r in cc (e, e')
