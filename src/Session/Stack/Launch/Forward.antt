-- ===== src/Session/Stack/Launch/Forward.antt =====
-- The last process of `Start`: where each launch stands in the end.
use interviews.Base.{
  ◌≡◌, sym, ap, ◌∙◌, subst, ◌⊎◌, inl, inr, Bool, List, [], ◌∷◌, ◌++◌, Memᴰ, Option, none, some, Str,
  codes, ◌==◌, if_rule, Result, ok, err,
}
use interviews.Session.Stack.Types.{Proc, launched, found_dead, Host, Desk, put_pid}
use interviews.Session.Stack.Launch.{Failure, AppRoute, forward_up, start_forward}
use interviews.Session.Stack.Launch.Tracked.{IsTracked, IsTracked-launched, IsHeld, launched-inj}
use interviews.Session.Stack.Launch.Parts.{IsFresh, start_process_rule, IsHeld-launched}

-- Every process that the log has launched is on file with its pid, was seen dead, or is the app's forwarder.
pub record IsFiled {W : Type 0} (m : Desk W) : Type 0 where
  pub at :
      (p : Proc)
      → Memᴰ (launched p) m.log
      → Memᴰ (p.name, some p.pid) m.pids
        ⊎ Memᴰ (found_dead p) m.log
        ⊎ (p.name ≡ codes "app-forward")

abbrev pub ForwardHolds : {W : Type 0} → Result Failure (List Proc × Bool) × Desk W → Type 0
ForwardHolds (ok (started, routed), m) = IsTracked m.log started × IsFiled m
ForwardHolds (err e, m) = IsTracked m.log e.started

module _ {W : Type 0} (h : Host W) where
  IsHeld-IsFiled :
      (used : List Str) (m : Desk W) (started : List Proc) → IsHeld used m started → IsFiled m
  IsHeld-IsFiled used m started k = record { at = λ p n. go p (k.tracked.at p n) }
    where
      go :
          (p : Proc)
          → Memᴰ p started ⊎ Memᴰ (found_dead p) m.log
          → Memᴰ (p.name, some p.pid) m.pids
            ⊎ Memᴰ (found_dead p) m.log
            ⊎ (p.name ≡ codes "app-forward")
      go p (inl i) = inl (k.filed p i)
      go p (inr d) = inr (inl d)

  unrecorded-IsFiled :
      (p : Proc) (m : Desk W) (w : W)
      → p.name ≡ codes "app-forward"
      → IsFiled m
      → IsFiled (record m { world = w; log = launched p ∷ m.log })
  unrecorded-IsFiled p m w e k = record { at = λ q n. go q n }
    where
      later :
          (q : Proc)
          → Memᴰ (q.name, some q.pid) m.pids
            ⊎ Memᴰ (found_dead q) m.log
            ⊎ (q.name ≡ codes "app-forward")
          → Memᴰ (q.name, some q.pid) m.pids
            ⊎ Memᴰ (found_dead q) (launched p ∷ m.log)
            ⊎ (q.name ≡ codes "app-forward")
      later q (inl i) = inl i
      later q (inr (inl d)) = inr (inl (Memᴰ.tail d))
      later q (inr (inr f)) = inr (inr f)

      go :
          (q : Proc)
          → Memᴰ (launched q) (launched p ∷ m.log)
          → Memᴰ (q.name, some q.pid) m.pids
            ⊎ Memᴰ (found_dead q) (launched p ∷ m.log)
            ⊎ (q.name ≡ codes "app-forward")
      go q (Memᴰ.head f) = inr (inr (ap (λ (x : Proc). x.name) (launched-inj q p f) ∙ e))
      go q (Memᴰ.tail n) = later q (k.at q n)

  pub start_forward-Holds :
      (used : List Str) (route : Option AppRoute) (started : List Proc) (m : Desk W)
      → IsFresh used (codes "app-forward")
      → IsHeld used m started
      → ForwardHolds (start_forward h route started m)
  unfolding start_forward
  start_forward-Holds used none started m fresh k = (k.tracked, IsHeld-IsFiled used m started k)
  start_forward-Holds used (some route) started m fresh k =
      if_rule ForwardHolds (route.command == []) _ _
        (λ e. (k.tracked, IsHeld-IsFiled used m started k))
        (λ e.
          start_process_rule h (λ (r, m1). ForwardHolds (forward_up h started r m1))
            (codes "app-forward") (codes "sh") (codes "-c" ∷ route.command ∷ []) m
            (λ w. (k.tracked, record { at = (IsHeld-IsFiled used m started k).at }))
            (λ p w e. (
              IsTracked-launched p m.log started k.tracked,
              unrecorded-IsFiled p m w e (IsHeld-IsFiled used m started k),
            ))
            (λ p w e.
              let m1 = record m {
                world = w;
                log = launched p ∷ m.log;
                pids = put_pid m.pids p.name p.pid;
              } in
              let held =
                IsHeld-launched h used m w p started (subst (IsFresh used) (sym e) fresh) k in
              (held.tracked, IsHeld-IsFiled (p.name ∷ used) m1 (started ++ p ∷ []) held)))
