-- ===== src/Session/Stack/Launch/Ended.antt =====
-- `cleanup` ends what it is given.
use interviews.Base.{
  ◌≡◌, refl, subst, ◌⊎◌, inl, inr, Bool, not, List, [], ◌∷◌, Memᴰ, Str, codes, if_rule,
}
use interviews.Session.Stack.Types.{
  Proc, Event, launched, signalled, found_dead, ran, Host, Desk, logged,
}
use interviews.Session.Stack.Launch.{remove_pid, stop_proc, stop_procs, kill_session, cleanup}
use interviews.Session.Stack.Launch.Tracked.{IsTracked}
use interviews.Session.Stack.Launch.Parts.{run_tmux_rule}

-- A process that was sent a signal or seen dead.
abbrev pub IsEnded : Proc → List Event → Type 0
IsEnded p log = Memᴰ (signalled p) log ⊎ Memᴰ (found_dead p) log

IsEnded-cons : (p : Proc) (e : Event) (log : List Event) → IsEnded p log → IsEnded p (e ∷ log)
IsEnded-cons p e log (inl m) = inl (Memᴰ.tail m)
IsEnded-cons p e log (inr m) = inr (Memᴰ.tail m)

module _ {W : Type 0} (h : Host W) where
  remove_pid-log : (name : Str) (m : Desk W) → (remove_pid h name m).1.log ≡ m.log
  unfolding remove_pid
  remove_pid-log name m =
      if_rule (λ (d : Desk W). d.log ≡ m.log) ((h.remove_pid name m.world).0) _ _ (λ e. refl)
        (λ e. refl)

  stop_proc-log :
      (p : Proc) (m : Desk W)
      → ((stop_proc h p m).log ≡ found_dead p ∷ m.log)
        ⊎ ((stop_proc h p m).log ≡ signalled p ∷ m.log)
  unfolding stop_proc
  stop_proc-log p m =
      let (good, w) = h.signal p.pid m.world in
      if_rule (λ (d : Desk W). (d.log ≡ found_dead p ∷ m.log) ⊎ (d.log ≡ signalled p ∷ m.log))
        (not (h.alive p.pid m.world)) _ _
        (λ e. inl (remove_pid-log p.name (logged (found_dead p) m)))
        (λ e. inr (remove_pid-log p.name (logged (signalled p) (record m { world = w }))))

  stop_proc-IsEnded : (p : Proc) (m : Desk W) → IsEnded p (stop_proc h p m).log
  stop_proc-IsEnded p m = elim (stop_proc-log p m) [
    | inl e ↦ rw e (inr (Memᴰ.head refl))
    | inr e ↦ rw e (inl (Memᴰ.head refl))
  ]

  stop_proc-keeps : (p q : Proc) (m : Desk W) → IsEnded p m.log → IsEnded p (stop_proc h q m).log
  stop_proc-keeps p q m k = elim (stop_proc-log q m) [
    | inl e ↦ rw e (IsEnded-cons p (found_dead q) m.log k)
    | inr e ↦ rw e (IsEnded-cons p (signalled q) m.log k)
  ]

  stop_procs-keeps :
      (p : Proc) (l : List Proc) (m : Desk W) → IsEnded p m.log → IsEnded p (stop_procs h l m).log
  unfolding stop_procs
  stop_procs-keeps p [] m k = k
  stop_procs-keeps p (q ∷ l) m k = stop_procs-keeps p l (stop_proc h q m) (stop_proc-keeps p q m k)

  stop_procs-IsEnded :
      (p : Proc) (l : List Proc) (m : Desk W) → Memᴰ p l → IsEnded p (stop_procs h l m).log
  unfolding stop_procs
  stop_procs-IsEnded p [] m i = elim i [ ]
  stop_procs-IsEnded p (q ∷ l) m (Memᴰ.head e) =
      stop_procs-keeps p l (stop_proc h q m) (rw e (stop_proc-IsEnded q m))
  stop_procs-IsEnded p (q ∷ l) m (Memᴰ.tail i) = stop_procs-IsEnded p l (stop_proc h q m) i

  launched_before :
      (p q : Proc) (e : Event) (log : List Event)
      → (e ≡ found_dead q) ⊎ (e ≡ signalled q)
      → Memᴰ (launched p) (e ∷ log)
      → Memᴰ (launched p) log
  launched_before p q e log (inl r) (Memᴰ.head s) = cc
  launched_before p q e log (inr r) (Memᴰ.head s) = cc
  launched_before p q e log r (Memᴰ.tail i) = i

  stop_procs-launched :
      (p : Proc) (l : List Proc) (m : Desk W)
      → Memᴰ (launched p) (stop_procs h l m).log
      → Memᴰ (launched p) m.log
  unfolding stop_procs
  stop_procs-launched p [] m i = i
  stop_procs-launched p (q ∷ l) m i =
      let k = stop_procs-launched p l (stop_proc h q m) i in
      elim (stop_proc-log q m) [
        | inl e ↦
            launched_before p q (found_dead q) m.log (inl refl) (subst (Memᴰ (launched p)) e k)
        | inr e ↦ launched_before p q (signalled q) m.log (inr refl) (subst (Memᴰ (launched p)) e k)
      ]

  -- What was launched and is tracked in the list is ended.
  pub cleanup-IsEnded :
      (name socket : Str) (started : List Proc) (m : Desk W)
      → IsTracked m.log started
      → (p : Proc) → Memᴰ (launched p) (cleanup h name socket started m).log
      → IsEnded p (cleanup h name socket started m).log
  unfolding cleanup kill_session
  cleanup-IsEnded name socket started m t p =
      let d = stop_procs h started m in
      run_tmux_rule h (λ (r : Bool × Desk W). Memᴰ (launched p) r.1.log → IsEnded p r.1.log)
        (record { socket = socket; user = [] }) (codes "kill-session" ∷ codes "-t" ∷ name ∷ []) d
        (λ good w bin args i. IsEnded-cons p (ran bin args) d.log (ended (before bin args d.log i)))
    where
      before :
          (bin : Str) (args : List Str) (log : List Event)
          → Memᴰ (launched p) (ran bin args ∷ log)
          → Memᴰ (launched p) log
      before bin args log (Memᴰ.head e) = cc
      before bin args log (Memᴰ.tail i) = i

      ended :
          Memᴰ (launched p) (stop_procs h started m).log → IsEnded p (stop_procs h started m).log
      ended i = elim (t.at p (stop_procs-launched p started m i)) [
        | inl j ↦ stop_procs-IsEnded p started m j
        | inr j ↦ stop_procs-keeps p started m (inr j)
      ]
