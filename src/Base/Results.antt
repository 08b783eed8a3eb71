-- ===== src/Base/Results.antt =====
-- Go's `(value, error)` returns: a value or an error, never both.
use mathlib.Core.Path.{◌≡◌, refl}

pub data Result {ℓ} (E V : Type ℓ) : Type ℓ where
  err : (why : E) → Result E V
  ok : (value : V) → Result E V

-- An early return passes the error on.
infixl 5 ◌>>=◌ ◌>>◌
abbrev pub ◌>>=◌ {ℓ} : {E V U : Type ℓ} → Result E V → (V → Result E U) → Result E U
◌>>=◌ r next = elim r [ err why ↦ err why | ok value ↦ next value ]

abbrev pub ◌>>◌ {ℓ} : {E V U : Type ℓ} → Result E V → Result E U → Result E U
r >> s = r >>= λ _. s

-- A chain that returned went through both of its parts.
pub >>=-eq-ok {ℓ} :
    {E V U : Type ℓ} (r : Result E V) (next : V → Result E U) {u : U}
    → (r >>= next) ≡ ok u
    → (v : V) × (r ≡ ok v) × (next v ≡ ok u)
>>=-eq-ok (err why) next went = cc
>>=-eq-ok (ok v) next went = (v, refl, went)
