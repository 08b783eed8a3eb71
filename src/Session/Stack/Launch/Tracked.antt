-- ===== src/Session/Stack/Launch/Tracked.antt =====
-- No process is lost between a launch and its pidfile or its end.
use interviews.Base.{
  ℕ, ◌≡◌, refl, ap, ◌⊎◌, inl, inr, false, not, List, [], ◌∷◌, ◌++◌, Memᴰ, mem-append_left,
  mem-append_right, mem-keep, Option, some, Str, codes, ◌==◌, Bool-cases, Result, ok, err,
}
use interviews.Base.Sort.{str_le}
use interviews.Session.Stack.Types.{
  Proc, Event, launched, signalled, found_dead, ran, Desk, place_pid, drop_pid, put_pid,
}
use interviews.Session.Stack.Launch.{Failure}

-- Each process that the log has launched is among those that are up, or was seen dead.
pub record IsTracked (log : List Event) (started : List Proc) : Type 0 where
  pub at : (p : Proc) → Memᴰ (launched p) log → Memᴰ p started ⊎ Memᴰ (found_dead p) log

-- an event that launches nothing
pub data IsQuiet : Event → Type 0 where
  quiet_signal : (p : Proc) → IsQuiet (signalled p)
  quiet_dead : (p : Proc) → IsQuiet (found_dead p)
  quiet_ran : (bin : Str) (args : List Str) → IsQuiet (ran bin args)

pub launched-inj : (p q : Proc) → launched p ≡ launched q → p ≡ q
launched-inj p q h = cc

pub IsTracked-quiet :
    (e : Event) (log : List Event) (started : List Proc)
    → IsQuiet e
    → IsTracked log started
    → IsTracked (e ∷ log) started
IsTracked-quiet e log started q t = record { at = λ p m. go p q m }
  where
    later :
        {p : Proc} {x : Event}
        → Memᴰ p started ⊎ Memᴰ (found_dead p) log
        → Memᴰ p started ⊎ Memᴰ (found_dead p) (x ∷ log)
    later (inl m) = inl m
    later (inr m) = inr (Memᴰ.tail m)

    go :
        (p : Proc) {x : Event}
        → IsQuiet x
        → Memᴰ (launched p) (x ∷ log)
        → Memᴰ p started ⊎ Memᴰ (found_dead p) (x ∷ log)
    go p (quiet_signal r) (Memᴰ.head e) = cc
    go p (quiet_dead r) (Memᴰ.head e) = cc
    go p (quiet_ran bin args) (Memᴰ.head e) = cc
    go p q (Memᴰ.tail m) = later (t.at p m)

pub IsTracked-launched :
    (p : Proc) (log : List Event) (started : List Proc)
    → IsTracked log started
    → IsTracked (launched p ∷ log) (started ++ p ∷ [])
IsTracked-launched p log started t = record { at = go }
  where
    later :
        {q : Proc}
        → Memᴰ q started ⊎ Memᴰ (found_dead q) log
        → Memᴰ q (started ++ p ∷ []) ⊎ Memᴰ (found_dead q) (launched p ∷ log)
    later (inl m) = inl (mem-append_left started (p ∷ []) m)
    later (inr m) = inr (Memᴰ.tail m)

    go :
        (q : Proc)
        → Memᴰ (launched q) (launched p ∷ log)
        → Memᴰ q (started ++ p ∷ []) ⊎ Memᴰ (found_dead q) (launched p ∷ log)
    go q (Memᴰ.head e) = inl (mem-append_right started (Memᴰ.head (launched-inj q p e)))
    go q (Memᴰ.tail m) = later (t.at q m)

-- A process that was seen dead may leave the list.
pub IsTracked-dead :
    (p : Proc) (log : List Event) (started : List Proc)
    → IsTracked log (p ∷ started)
    → IsTracked (found_dead p ∷ log) started
IsTracked-dead p log started t = record { at = go }
  where
    later :
        {q : Proc}
        → Memᴰ q (p ∷ started) ⊎ Memᴰ (found_dead q) log
        → Memᴰ q started ⊎ Memᴰ (found_dead q) (found_dead p ∷ log)
    later (inl (Memᴰ.head e)) = inr (Memᴰ.head (ap found_dead e))
    later (inl (Memᴰ.tail m)) = inl m
    later (inr m) = inr (Memᴰ.tail m)

    go :
        (q : Proc)
        → Memᴰ (launched q) (found_dead p ∷ log)
        → Memᴰ q started ⊎ Memᴰ (found_dead q) (found_dead p ∷ log)
    go q (Memᴰ.head e) = cc
    go q (Memᴰ.tail m) = later (t.at q m)

mem-place_pid :
    (x : Str × Option ℕ) (pids : List (Str × Option ℕ)) (name : Str) (pid : ℕ)
    → Memᴰ x pids
    → Memᴰ x (place_pid pids name pid)
unfolding place_pid
mem-place_pid x [] name pid m = elim m [ ]
mem-place_pid x ((n, o) ∷ pids) name pid (Memᴰ.head q) =
    elim (Bool-cases (str_le (name ++ codes ".pid") (n ++ codes ".pid"))) [
      | inl e ↦ rw e (Memᴰ.tail (Memᴰ.head q))
      | inr e ↦ rw e (Memᴰ.head q)
    ]
mem-place_pid x ((n, o) ∷ pids) name pid (Memᴰ.tail m) =
    elim (Bool-cases (str_le (name ++ codes ".pid") (n ++ codes ".pid"))) [
      | inl e ↦ rw e (Memᴰ.tail (Memᴰ.tail m))
      | inr e ↦ rw e (Memᴰ.tail (mem-place_pid x pids name pid m))
    ]

place_pid-mem :
    (pids : List (Str × Option ℕ)) (name : Str) (pid : ℕ)
    → Memᴰ (name, some pid) (place_pid pids name pid)
unfolding place_pid
place_pid-mem [] name pid = Memᴰ.head refl
place_pid-mem ((n, o) ∷ pids) name pid =
    elim (Bool-cases (str_le (name ++ codes ".pid") (n ++ codes ".pid"))) [
      | inl e ↦ rw e (Memᴰ.head refl)
      | inr e ↦ rw e (Memᴰ.tail (place_pid-mem pids name pid))
    ]

pub mem-drop_pid :
    (name : Str) (pids : List (Str × Option ℕ)) (n : Str) (o : Option ℕ)
    → (n == name) ≡ false
    → Memᴰ (n, o) pids
    → Memᴰ (n, o) (drop_pid pids name)
unfolding drop_pid
mem-drop_pid name pids n o e m =
    mem-keep (λ ((k, o) : Str × Option ℕ). not (k == name)) pids m (ap not e)

pub mem-put_pid :
    (name : Str) (pid : ℕ) (pids : List (Str × Option ℕ)) (n : Str) (o : Option ℕ)
    → (n == name) ≡ false
    → Memᴰ (n, o) pids
    → Memᴰ (n, o) (put_pid pids name pid)
unfolding put_pid
mem-put_pid name pid pids n o e m =
    mem-place_pid (n, o) (drop_pid pids name) name pid (mem-drop_pid name pids n o e m)

pub put_pid-mem :
    (name : Str) (pid : ℕ) (pids : List (Str × Option ℕ))
    → Memᴰ (name, some pid) (put_pid pids name pid)
unfolding put_pid
put_pid-mem name pid pids = place_pid-mem (drop_pid pids name) name pid

-- Every process that is up is tracked, has a name of its own among those used so far,
-- and is on file.
pub record IsHeld {W : Type 0} (used : List Str) (m : Desk W) (started : List Proc) : Type 0 where
  pub tracked : IsTracked m.log started
  pub named : (p : Proc) → Memᴰ p started → Memᴰ p.name used
  pub filed : (p : Proc) → Memᴰ p started → Memᴰ (p.name, some p.pid) m.pids
  pub unique : (p q : Proc) → Memᴰ p started → Memᴰ q started → p.name ≡ q.name → p ≡ q

-- A part that returns holds the processes it gives, and one that fails tracks those it hands to `cleanup`.
abbrev pub Holds : {W A : Type 0} → List Str → (A → List Proc) → Result Failure A × Desk W → Type 0
Holds used f (ok a, m) = IsHeld used m (f a)
Holds used f (err e, m) = IsTracked m.log e.started
