-- ===== src/Session/Stack/Launch/Recorder.antt =====
-- The recorder and the listeners hold what `Start` launches for them.
use interviews.Base.{
  ℕ, ◌+◌, ◌≡◌, refl, sym, ap, subst, ◌⊎◌, inl, inr, Bool, true, false, ◌||◌, not, List, [], ◌∷◌,
  ◌++◌, Memᴰ, mem-keep, keep-mem, some, Str, codes, ◌==◌, ==→eq, Bool-cases, if_rule, Result, ok,
  err, if◌then◌else◌,
}
use interviews.Session.Stack.Types.{
  Proc, launched, found_dead, StartOptions, Host, Desk, StartError, remove_failed, drop_pid,
  put_pid,
}
use interviews.Session.Stack.Launch.{
  Part, Listener, without, remove_pid, fail, recorder_up, start_recorder, listener_up,
  start_listener, listening_until, pid_of, or_fail, wait_listening, check_recorder,
}
use interviews.Session.Stack.Launch.Tracked.{
  IsTracked, IsTracked-launched, mem-drop_pid, IsHeld, Holds,
}
use interviews.Session.Stack.Launch.Parts.{IsFresh, start_process_rule, IsHeld-launched}

module _ {W : Type 0} (h : Host W) where
  pub start_recorder-Holds :
      (opts : StartOptions) (script : Str) (m : Desk W)
      → IsHeld [] m []
      → Holds (codes "asciinema" ∷ []) (λ l. l) (start_recorder h opts script m)
  unfolding start_recorder
  start_recorder-Holds opts script m k =
      start_process_rule h
        (λ (r, m1). Holds (codes "asciinema" ∷ []) (λ l. l) (recorder_up h opts r m1))
        (codes "asciinema") (codes "sh") (codes "-c" ∷ script ∷ []) m
        (λ w.
          if_rule
            (λ (f : Part W (List Proc)).
              Holds (codes "asciinema" ∷ []) (λ l. l) (f (record m { world = w })))
            (opts.candidate_user == []) _ _
            (λ e. record {
              tracked = k.tracked;
              named = λ p n. elim n [ ];
              filed = λ p n. elim n [ ];
              unique = λ p q n. elim n [ ];
            })
            (λ e. k.tracked))
        (λ p w e. IsTracked-launched p m.log [] k.tracked)
        (λ p w e.
          subst
            (λ n.
              IsHeld (n ∷ [])
                (record m {
                  world = w;
                  log = launched p ∷ m.log;
                  pids = put_pid m.pids p.name p.pid;
                })
                (p ∷ []))
            e (IsHeld-launched h [] m w p [] (λ n i. elim i [ ]) k))

  pub start_listener-Holds :
      (used : List Str) (l : Listener) (started : List Proc) (m : Desk W)
      → IsFresh used l.pid_name
      → IsHeld used m started
      → Holds (l.pid_name ∷ used) (λ l. l) (start_listener h l started m)
  unfolding start_listener
  start_listener-Holds used l started m fresh k =
      start_process_rule h
        (λ (r, m1). Holds (l.pid_name ∷ used) (λ l. l) (listener_up h l.port started r m1))
        l.pid_name (codes "ttyd") l.args m (λ w. k.tracked)
        (λ p w e. IsTracked-launched p m.log started k.tracked)
        (λ p w e.
          subst
            (λ n.
              IsHeld (n ∷ used)
                (record m {
                  world = w;
                  log = launched p ∷ m.log;
                  pids = put_pid m.pids p.name p.pid;
                })
                (started ++ p ∷ []))
            e (IsHeld-launched h used m w p started (subst (IsFresh used) (sym e) fresh) k))

  pub wait_listening-Holds :
      (used : List Str) (fuel poll limit : ℕ) (l : Listener) (started : List Proc) (m : Desk W)
      → IsHeld used m started
      → Holds used (λ l. l) (wait_listening h fuel poll limit l started m)
  unfolding wait_listening
  wait_listening-Holds used fuel poll limit l started m k = go (
      listening_until h poll (h.now m.world + limit) l.port (pid_of h started l.pid_name) fuel
        m.world)
    where
      go : (r : Result StartError Unit × W) → Holds used (λ l. l) (or_fail h started r m)
      go (ok u, w) = record {
        tracked = k.tracked;
        named = k.named;
        filed = k.filed;
        unique = k.unique;
      }
      go (err e, w) = k.tracked

  dropped-IsTracked :
      (used : List Str) (p : Proc) (started : List Proc) (m : Desk W)
      → Memᴰ p started
      → IsHeld used m started
      → IsTracked (found_dead p ∷ m.log) (without started p.name)
  dropped-IsTracked used p started m i k = record { at = λ q n. go q n }
    where
      named_apart :
          (q : Proc)
          → Memᴰ q started
          → Memᴰ q (without started p.name) ⊎ Memᴰ (found_dead q) (found_dead p ∷ m.log)
      named_apart q j = elim (Bool-cases (q.name == p.name)) [
        | inl e ↦ inr (Memᴰ.head (ap found_dead (k.unique q p j i (==→eq q.name p.name e))))
        | inr e ↦ inl (mem-keep (λ (x : Proc). not (x.name == p.name)) started j (ap not e))
      ]

      later :
          (q : Proc)
          → Memᴰ q started ⊎ Memᴰ (found_dead q) m.log
          → Memᴰ q (without started p.name) ⊎ Memᴰ (found_dead q) (found_dead p ∷ m.log)
      later q (inl j) = named_apart q j
      later q (inr d) = inr (Memᴰ.tail d)

      go :
          (q : Proc)
          → Memᴰ (launched q) (found_dead p ∷ m.log)
          → Memᴰ q (without started p.name) ⊎ Memᴰ (found_dead q) (found_dead p ∷ m.log)
      go q (Memᴰ.head e) = cc
      go q (Memᴰ.tail n) = later q (k.tracked.at q n)

  dropped-IsHeld :
      (used : List Str) (p : Proc) (started : List Proc) (m : Desk W) (w : W)
      → Memᴰ p started
      → IsHeld used m started
      → IsHeld used
          (record m { world = w; log = found_dead p ∷ m.log; pids = drop_pid m.pids p.name })
          (without started p.name)
  dropped-IsHeld used p started m w i k = record {
    tracked = dropped-IsTracked used p started m i k;
    named = λ q n. k.named q (stays q n).0;
    filed = λ q n.
        mem-drop_pid p.name m.pids q.name (some q.pid) (stays q n).1 (k.filed q (stays q n).0);
    unique = λ q r n j. k.unique q r (stays q n).0 (stays r j).0;
  }
    where
      not-true : (t : Bool) → not t ≡ true → t ≡ false
      not-true true h = cc
      not-true false h = refl

      stays :
          (q : Proc)
          → Memᴰ q (without started p.name)
          → Memᴰ q started × ((q.name == p.name) ≡ false)
      stays q n =
          let (a, b) = keep-mem (λ (x : Proc). not (x.name == p.name)) started n in
          (a, not-true (q.name == p.name) b)

  pub check_recorder-Holds :
      (used : List Str) (opts : StartOptions) (started : List Proc) (m : Desk W)
      → IsHeld used m started
      → Holds used (λ l. l) (check_recorder h opts started m)
  unfolding check_recorder remove_pid
  check_recorder-Holds used opts [] m k = k
  check_recorder-Holds used opts (p ∷ rest) m k =
      if_rule (Holds used (λ l. l)) (not (p.name == codes "asciinema") || h.alive p.pid m.world) _ _
        (λ e. k)
        (λ e.
          if_rule (Holds used (λ l. l)) (not (opts.candidate_user == [])) _ _ (λ e. k.tracked)
            (λ e. go ((h.remove_pid p.name m.world).0) ((h.remove_pid p.name m.world).1)))
    where
      go :
          (good : Bool) (w : W)
          → Holds used
              (λ l. l)
              (if good
                then (
                  ok (without (p ∷ rest) p.name),
                  if good
                      then record m {
                        world = w;
                        log = found_dead p ∷ m.log;
                        pids = drop_pid m.pids p.name;
                      }
                      else record m { world = w; log = found_dead p ∷ m.log },
                )
                else fail (without (p ∷ rest) p.name) remove_failed (
                    if good
                    then record m {
                      world = w;
                      log = found_dead p ∷ m.log;
                      pids = drop_pid m.pids p.name;
                    }
                    else record m { world = w; log = found_dead p ∷ m.log }))
      go true w = dropped-IsHeld used p (p ∷ rest) m w (Memᴰ.head refl) k
      go false w = dropped-IsTracked used p (p ∷ rest) m (Memᴰ.head refl) k
