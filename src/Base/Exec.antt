-- ===== src/Base/Exec.antt =====
-- Methods that change a machine and return `(value, error)`: the machine comes back beside the error
-- too, since what was written before an error stays written.
use mathlib.Core.Path.{◌≡◌, refl}
use mathlib.Core.Logic.{◌≢◌, ◌⊎◌, inl, inr}
use interviews.Base.Results.{Result, ok, err}

abbrev pub Exec {ℓ} : Type ℓ → Type ℓ → Type ℓ → Type ℓ
Exec S E A = S → Result E A × S

module _ {ℓ} {S E A : Type ℓ} where
  abbrev pub pure : A → Exec S E A
  pure a s = (ok a, s)

  abbrev pub raise : E → Exec S E A
  raise e s = (err e, s)

  -- a call outside, which answers yes or no
  abbrev pub ask : (S → A × S) → Exec S E A
  ask f s = let (a, s') = f s in (ok a, s')

  abbrev pub gets : (S → A) → Exec S E A
  gets f s = (ok (f s), s)

module _ {ℓ} {S E A B : Type ℓ} where
  abbrev pub resume : Result E A → S → (A → Exec S E B) → Result E B × S
  resume (ok a) s f = f a s
  resume (err e) s f = (err e, s)

  infixl 5 ◌>>=◌ ◌>>◌
  abbrev pub ◌>>=◌ : Exec S E A → (A → Exec S E B) → Exec S E B
  ◌>>=◌ m f s = resume ((m s).0) ((m s).1) f

  abbrev pub ◌>>◌ : Exec S E A → Exec S E B → Exec S E B
  m >> n = m >>= λ _. n

  -- What a step that returned went through.
  pub >>=-returns :
      (m : Exec S E A) (f : A → Exec S E B) (s : S) {b : B}
      → ((m >>= f) s).0 ≡ ok b
      → (a : A) × ((m s).0 ≡ ok a) × ((f a ((m s).1)).0 ≡ ok b) × ((m >>= f) s ≡ f a ((m s).1))
  >>=-returns m f s h = go ((m s).0) ((m s).1) h
    where
      go :
          (r : Result E A) (s' : S) {b : B}
          → (resume r s' f).0 ≡ ok b
          → (a : A) × (r ≡ ok a) × ((f a s').0 ≡ ok b) × (resume r s' f ≡ f a s')
      go (ok a) s' h = (a, refl, h, refl)
      go (err e) s' h = cc

  -- The same, with the machine in between.
  pub >>=-ran :
      (m : Exec S E A) (f : A → Exec S E B) (s : S) {b : B} {t : S}
      → (m >>= f) s ≡ (ok b, t)
      → (a : A) × (s' : S) × (m s ≡ (ok a, s')) × (f a s' ≡ (ok b, t))
  >>=-ran m f s h = go ((m s).0) ((m s).1) h
    where
      go :
          (r : Result E A) (s' : S) {b : B} {t : S}
          → resume r s' f ≡ (ok b, t)
          → (a : A) × (s'' : S) × (◌≡◌ {A = Result E A × S} (r, s') (ok a, s''))
            × (f a s'' ≡ (ok b, t))
      go (ok a) s' h = (a, s', refl, h)
      go (err e) s' h = cc

  -- What a step that raised went through.
  pub >>=-raises :
      (m : Exec S E A) (f : A → Exec S E B) (s : S) {e : E}
      → ((m >>= f) s).0 ≡ err e
      → ((m s).0 ≡ err e)
        ⊎ ((a : A) × ((m s).0 ≡ ok a) × ((f a ((m s).1)).0 ≡ err e) × ((m >>= f) s ≡ f a ((m s).1)))
  >>=-raises m f s h = go ((m s).0) ((m s).1) h
    where
      go :
          (r : Result E A) (s' : S) {e : E}
          → (resume r s' f).0 ≡ err e
          → (r ≡ err e) ⊎ ((a : A) × (r ≡ ok a) × ((f a s').0 ≡ err e) × (resume r s' f ≡ f a s'))
      go (ok a) s' h = inr (a, refl, h, refl)
      go (err e) s' h = inl (cc)

  -- The same, with the machine in between.
  pub >>=-failed :
      (m : Exec S E A) (f : A → Exec S E B) (s : S) {e : E} {t : S}
      → (m >>= f) s ≡ (err e, t)
      → (m s ≡ (err e, t)) ⊎ ((a : A) × (s' : S) × (m s ≡ (ok a, s')) × (f a s' ≡ (err e, t)))
  >>=-failed m f s h = go ((m s).0) ((m s).1) h
    where
      go :
          (r : Result E A) (s' : S) {e : E} {t : S}
          → resume r s' f ≡ (err e, t)
          → (◌≡◌ {A = Result E A × S} (r, s') (err e, t))
            ⊎ ((a : A) × (s'' : S) × (◌≡◌ {A = Result E A × S} (r, s') (ok a, s''))
                × (f a s'' ≡ (err e, t)))
      go (ok a) s' h = inr (a, s', refl, h)
      go (err e) s' h = inl (cc)

  -- An error that neither part raises.
  pub >>=-avoids :
      (m : Exec S E A) (f : A → Exec S E B) (s : S) (e : E)
      → (m s).0 ≢ err e
      → ((a : A) → (m s).0 ≡ ok a → (f a ((m s).1)).0 ≢ err e)
      → ((m >>= f) s).0 ≢ err e
  >>=-avoids m f s e hm hf h = elim (>>=-raises m f s h) [
    | inl raised ↦ hm raised
    | inr (a, returned, raised, _) ↦ hf a returned raised
  ]

  -- `P` of the machine, kept by both parts, is kept by the whole.
  pub >>=-keeps :
      (P : S → Type ℓ) (m : Exec S E A) (f : A → Exec S E B) (s : S)
      → P ((m s).1)
      → ((a : A) (s' : S) → P s' → P ((f a s').1))
      → P (((m >>= f) s).1)
  >>=-keeps P m f s pm pf = go ((m s).0) ((m s).1) pm
    where
      go : (r : Result E A) (s' : S) → P s' → P ((resume r s' f).1)
      go (ok a) s' p = pf a s' p
      go (err e) s' p = p
