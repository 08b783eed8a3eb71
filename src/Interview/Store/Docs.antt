-- ===== src/Interview/Store/Docs.antt =====
-- Reading back what was written, and what stays in place.
use interviews.Base.{
  ◌≡◌, refl, sym, subst, inl, inr, false, List, [], ◌∷◌, none, some, Str, arith, ◌==◌, ==_iff,
  ==_refl, Bool-cases, All, ok, err, if◌then◌else◌,
}
use interviews.Base.Sort.{str_le}
use interviews.Interview.Seed.{valid_seed}
use interviews.Interview.Store.{
  Session, Doc, recorded, garbled, Home, no_session, get, is_key, delete, place, put, file_name,
  save, load, remove, clear_current,
}

Docs : Type 0
Docs = List (Str × Doc)

get-delete :
    (docs : List (Str × Doc)) (s j : Str)
    → get (delete docs s) j ≡ (if s == j then none else get docs j)
unfolding get delete
get-delete [] s j = ground arith
get-delete ((k, d) ∷ docs) s j =
    ground (arith, ==_iff k s, ==_iff k j, ==_iff s j, get-delete docs s j)

get-place :
    (docs : List (Str × Doc)) (s j : Str) (d : Doc)
    → get docs s ≡ none
    → get (place docs s d) j ≡ (if s == j then some d else get docs j)
unfolding get place
get-place [] s j d h = refl
get-place ((k, e) ∷ docs) s j d h =
    ground (arith, ==_iff k s, ==_iff k j, ==_iff s j, get-place docs s j d)

pub get-put :
    (docs : List (Str × Doc)) (s j : Str) (d : Doc)
    → get (put docs s d) j ≡ (if s == j then some d else get docs j)
unfolding put
get-put docs s j d =
    ground
      (arith, get-place (delete docs s) s j d, get-delete docs s s, get-delete docs s j, ==_refl s)

pub save-ok :
    (s : Session) (h h' : Home)
    → save s h ≡ ok h'
    → (valid_seed s.seed ≡ ok tt) × (h' ≡ record h { docs = put h.docs s.seed (recorded s) })
unfolding save
save-ok s h h' e = ground arith

-- After a save the seed loads the record that was saved, and every other seed loads what it
-- loaded before, the error included.
pub load-save :
    (s : Session) (h h' : Home) (j : Str)
    → save s h ≡ ok h'
    → load j h' ≡ (if s.seed == j then ok s else load j h)
unfolding load
load-save s h h' j e =
    let (_, q) = save-ok s h h' e in ground (arith, get-put h.docs s.seed j (recorded s), q)

pub docs-clear_current : (seed : Str) (h : Home) → (clear_current seed h).docs ≡ h.docs
unfolding clear_current
docs-clear_current seed h = ground arith

pub load-clear_current : (seed j : Str) (h : Home) → load j (clear_current seed h) ≡ load j h
unfolding load
load-clear_current seed j h = rw (docs-clear_current seed h)

-- After a remove the seed is unknown, and every other seed loads what it loaded before.
pub load-remove :
    (seed j : Str) (h : Home)
    → load j (remove seed h) ≡ (if seed == j then err (no_session j) else load j h)
unfolding load remove
load-remove seed j h = ground (
  arith,
  docs-clear_current seed (record h { docs = delete h.docs seed }),
  get-delete h.docs seed j,
)

-- Every record stands under its own seed, and that seed is valid.
abbrev pub IsFiled : Str × Doc → Type 0
IsFiled (k, garbled) = Unit {0}
IsFiled (k, recorded s) = (s.seed ≡ k) × (valid_seed k ≡ ok tt)

All-delete :
    (P : Str × Doc → Type 0) (docs : List (Str × Doc)) (s : Str)
    → All P docs
    → All P (delete docs s)
unfolding delete
All-delete P [] s h = tt
All-delete P (kd ∷ docs) s h = elim (Bool-cases (is_key s kd)) [
  | inl e ↦ rw e (All-delete P docs s h.1)
  | inr e ↦ rw e (h.0, All-delete P docs s h.1)
]

All-place :
    (P : Str × Doc → Type 0) (docs : List (Str × Doc)) (s : Str) (d : Doc)
    → P (s, d)
    → All P docs
    → All P (place docs s d)
unfolding place
All-place P [] s d p h = (p, tt)
All-place P ((k, e) ∷ docs) s d p h = elim (Bool-cases (str_le (file_name s) (file_name k))) [
  | inl q ↦ rw q (p, h)
  | inr q ↦ rw q (h.0, All-place P docs s d p h.1)
]

pub All-put :
    (P : Str × Doc → Type 0) (docs : List (Str × Doc)) (s : Str) (d : Doc)
    → P (s, d)
    → All P (delete docs s)
    → All P (put docs s d)
unfolding put
All-put P docs s d p h = All-place P (delete docs s) s d p h

pub All-delete_key :
    (P : Str × Doc → Type 0) (docs : List (Str × Doc)) (s : Str)
    → All (λ kd. is_key s kd ≡ false → P kd) docs
    → All P (delete docs s)
unfolding delete
All-delete_key P [] s h = tt
All-delete_key P (kd ∷ docs) s h = elim (Bool-cases (is_key s kd)) [
  | inl e ↦ rw e (All-delete_key P docs s h.1)
  | inr e ↦ rw e (h.0 e, All-delete_key P docs s h.1)
]

-- The registry is well filed after any of its operations that change documents.
pub save-IsFiled :
    (s : Session) (h h' : Home) → save s h ≡ ok h' → All IsFiled h.docs → All IsFiled h'.docs
save-IsFiled s h h' e a =
    let (v, q) = save-ok s h h' e in
    subst (λ (x : Home). All IsFiled x.docs) (sym q)
      (All-put IsFiled h.docs s.seed (recorded s) (refl, v) (All-delete IsFiled h.docs s.seed a))

pub remove-IsFiled : (seed : Str) (h : Home) → All IsFiled h.docs → All IsFiled (remove seed h).docs
unfolding remove
remove-IsFiled seed h a =
    rw (docs-clear_current seed (record h { docs = delete h.docs seed }))
      (All-delete IsFiled h.docs seed a)
