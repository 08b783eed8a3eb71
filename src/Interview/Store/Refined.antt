-- ===== src/Interview/Store/Refined.antt =====
-- The registry as a caller sees it: which record a seed has, and which seed is marked. Files, their order and the
-- marker's text are forgotten.
use interviews.Base.{
  ◌≡◌, refl, ap, ◌∙◌, subst, List, [], ◌∷◌, All, Option, none, some, Str, ◌==◌, Result, ok, err,
  ◌>>=◌, >>=-eq-ok, Bool-cases, inl, inr, if◌then◌else◌,
}
use interviews.Interview.Seed.{valid_seed}
use interviews.Interview.Seed.Valid.{valid_seed_iff}
use interviews.Interview.Store.{
  Session, Home, HomeError, no_session, save, load, remove, set_current, clear_current,
  current_seed, names_seed, delete,
}
use interviews.Interview.Store.Docs.{save-ok, load-save, load-remove, load-clear_current}
use interviews.Interview.Store.Current.{current_seed-set_current, load-set_current}

-- an operation of the registry
pub data Operation : Type 0 where
  saves : Session → Operation
  removes marks clears : Str → Operation

pub record Registry : Type 0 where
  pub lookup : Str → Result HomeError Session
  pub focus : Option Str

abbrev pub apply : Operation → Home → Result HomeError Home
apply (saves s) h = save s h
apply (removes seed) h = ok (remove seed h)
apply (marks seed) h = ok (set_current seed h)
apply (clears seed) h = ok (clear_current seed h)

abbrev unfocus : Str → Option Str → Option Str
unfocus seed focus = if names_seed focus seed then none else focus

-- what each operation promises
abbrev pub promise : Operation → Registry → Registry
promise (saves s) g = record g { lookup = λ j. if s.seed == j then ok s else g.lookup j }
promise (removes seed) g = record {
  lookup = λ j. if seed == j then err (no_session j) else g.lookup j;
  focus = unfocus seed g.focus;
}
promise (marks seed) g = record g { focus = some seed }
promise (clears seed) g = record g { focus = unfocus seed g.focus }

abbrev pub apply_all : List Operation → Home → Result HomeError Home
apply_all [] h = ok h
apply_all (o ∷ os) h = apply o h >>= apply_all os

abbrev pub promise_all : List Operation → Registry → Registry
promise_all [] g = g
promise_all (o ∷ os) g = promise_all os (promise o g)

-- The marker takes a seed that is one.
abbrev pub MarksValid : Operation → Type 0
MarksValid (saves s) = Unit {0}
MarksValid (removes seed) = Unit {0}
MarksValid (marks seed) = valid_seed seed ≡ ok tt
MarksValid (clears seed) = Unit {0}

pub record Refines (h : Home) (g : Registry) : Type 0 where
  pub loads : (j : Str) → load j h ≡ g.lookup j
  pub marks : current_seed h ≡ g.focus

current_seed-save :
    (s : Session) (h h' : Home) → save s h ≡ ok h' → current_seed h' ≡ current_seed h
unfolding current_seed
current_seed-save s h h' e = rw ((save-ok s h h' e).1) refl

current_seed-clear_current :
    (seed : Str) (h : Home) → current_seed (clear_current seed h) ≡ unfocus seed (current_seed h)
unfolding clear_current
current_seed-clear_current seed h = elim (Bool-cases (names_seed (current_seed h) seed)) [
  | inl e ↦ rw e (unfold current_seed in refl)
  | inr e ↦ rw e refl
]

current_seed-remove :
    (seed : Str) (h : Home) → current_seed (remove seed h) ≡ unfocus seed (current_seed h)
unfolding remove
current_seed-remove seed h =
    current_seed-clear_current seed (record h { docs = delete h.docs seed })
    ∙ (unfold current_seed in refl)

home-inj : (a b : Home) → ◌≡◌ {A = Result HomeError Home} (ok a) (ok b) → a ≡ b
home-inj a b h = cc

apply-Refines :
    (o : Operation) (h h' : Home) (g : Registry)
    → MarksValid o
    → Refines h g
    → apply o h ≡ ok h'
    → Refines h' (promise o g)
apply-Refines (saves s) h h' g v r e = record {
  loads = λ j. load-save s h h' j e ∙ ap (λ x. if s.seed == j then ok s else x) (r.loads j);
  marks = current_seed-save s h h' e ∙ r.marks;
}
apply-Refines (removes seed) h h' g v r e =
    subst (λ x. Refines x (promise (removes seed) g)) (home-inj (remove seed h) h' e)
      (record {
        loads = λ j.
            load-remove seed j h
            ∙ ap (λ x. if seed == j then err (no_session j) else x) (r.loads j);
        marks = current_seed-remove seed h ∙ ap (unfocus seed) r.marks;
      })
apply-Refines (marks seed) h h' g v r e =
    subst (λ x. Refines x (promise (marks seed) g)) (home-inj (set_current seed h) h' e)
      (record {
        loads = λ j. load-set_current seed j h ∙ r.loads j;
        marks = current_seed-set_current seed h ((valid_seed_iff seed).0 v);
      })
apply-Refines (clears seed) h h' g v r e =
    subst (λ x. Refines x (promise (clears seed) g)) (home-inj (clear_current seed h) h' e)
      (record {
        loads = λ j. load-clear_current seed j h ∙ r.loads j;
        marks = current_seed-clear_current seed h ∙ ap (unfocus seed) r.marks;
      })

-- Whatever sequence of saves, removals and markings a registry goes through, each seed loads what a map of records
-- would give it, the error included, and the marker names the seed that was marked last and has not been cleared
-- or removed since. The seeds that are marked are valid.
pub apply_all-Refines :
    (os : List Operation) (h h' : Home) (g : Registry)
    → All MarksValid os
    → Refines h g
    → apply_all os h ≡ ok h'
    → Refines h' (promise_all os g)
apply_all-Refines [] h h' g v r e = subst (λ x. Refines x g) (home-inj h h' e) r
apply_all-Refines (o ∷ os) h h' g v r e =
    let (h1, e1, e2) = >>=-eq-ok (apply o h) (apply_all os) e in
    apply_all-Refines os h1 h' (promise o g) v.1 (apply-Refines o h h1 g v.0 r e1) e2
