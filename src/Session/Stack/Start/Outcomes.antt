-- ===== src/Session/Stack/Start/Outcomes.antt =====
-- What `Start` leaves behind: on success a record of each process, on failure none that runs unsignalled.
use interviews.Base.{
  ◌≡◌, refl, Bool, false, List, [], ◌∷◌, Memᴰ, All-mem, Option, Str, codes, ◌==◌, if_rule, Result,
  ok, err, if◌then◌else◌,
}
use interviews.Base.Exec.{resume, ◌>>=◌}
use interviews.Session.Stack.Types.{
  Proc, launched, Info, StartOptions, Host, Desk, StartError, Step,
}
use interviews.Session.Stack.Launch.{
  Failure, Part, AppRoute, share_or_pipe, start_recorder, start_listener, check_recorder,
  start_forward,
}
use interviews.Session.Stack.Launch.Tracked.{IsTracked, IsHeld, Holds}
use interviews.Session.Stack.Shell.{under, recorder_script}
use interviews.Session.Stack.Launch.Parts.{IsFresh, share_or_pipe-Holds}
use interviews.Session.Stack.Launch.Recorder.{
  start_recorder-Holds, start_listener-Holds, wait_listening-Holds, check_recorder-Holds,
}
use interviews.Session.Stack.Launch.Forward.{IsFiled, ForwardHolds, start_forward-Holds}
use interviews.Session.Stack.Start.Idle.{IsIdle, prepare-IsIdle, open_session-IsIdle}
use interviews.Session.Stack.Launch.Ended.{IsEnded, cleanup-IsEnded}
use interviews.Session.Stack.Start.{
  Setup, client, candidate_listener, observer_listener, without_app, record_session, record_routed,
  open_app, check_recording, await, await_observer, await_candidate, serve_observer,
  serve_candidate, record_pane, bring_live, or_clean_up, prepare, open_session, start,
}

-- A part that returns leaves the desk filed, and one that fails tracks what it hands to `cleanup`.
abbrev Ends : {W A : Type 0} → Result Failure A × Desk W → Type 0
Ends (ok a, m) = IsFiled m
Ends (err e, m) = IsTracked m.log e.started

-- The names of `Start` are apart.
candidate-IsFresh : IsFresh (codes "asciinema" ∷ []) (codes "ttyd-candidate")
unfolding ◌==◌
candidate-IsFresh n m =
    All-mem (λ n. (n == codes "ttyd-candidate") ≡ false) (codes "asciinema" ∷ []) (refl, tt) m

observer-IsFresh : IsFresh (codes "ttyd-candidate" ∷ codes "asciinema" ∷ []) (codes "ttyd-observer")
unfolding ◌==◌
observer-IsFresh n m =
    All-mem (λ n. (n == codes "ttyd-observer") ≡ false)
      (codes "ttyd-candidate" ∷ codes "asciinema" ∷ []) (refl, (refl, tt)) m

forward-IsFresh :
    IsFresh
      (codes "ttyd-observer" ∷ codes "ttyd-candidate" ∷ codes "asciinema" ∷ [])
      (codes "app-forward")
unfolding ◌==◌
forward-IsFresh n m =
    All-mem (λ n. (n == codes "app-forward") ≡ false)
      (codes "ttyd-observer" ∷ codes "ttyd-candidate" ∷ codes "asciinema" ∷ [])
      (refl, (refl, (refl, tt))) m

module _ {W : Type 0} (h : Host W) where
  held_then :
      {A B : Type 0} (used : List Str) (f : A → List Proc) (part : Part W A) (next : A → Part W B)
      (m : Desk W)
      → Holds used f (part m)
      → ((a : A) (m' : Desk W) → IsHeld used m' (f a) → Ends (next a m'))
      → Ends ((part >>= next) m)
  held_then used f part next m k g = go ((part m).0) ((part m).1) k
    where
      go : (r : Result Failure _) (m' : Desk W) → Holds used f (r, m') → Ends (resume r m' next)
      go (ok a) m' k = g a m' k
      go (err e) m' k = k

  record_session-Ends :
      (info : Info) (started : List Proc) (m : Desk W)
      → IsTracked m.log started × IsFiled m
      → Ends (record_session h info started m)
  record_session-Ends info started m k =
      if_rule Ends ((h.write_info m.world).0) _ _ (λ e. record { at = k.1.at }) (λ e. k.0)

  idle-IsHeld : (m : Desk W) → IsIdle m → IsHeld [] m []
  idle-IsHeld m idle = record {
    tracked = record { at = λ p n. absurd (idle p n) };
    named = λ p n. elim n [ ];
    filed = λ p n. elim n [ ];
    unique = λ p q n. elim n [ ];
  }

  -- the forwarder and the record, once the rest is up
  open_app-Ends :
      (used : List Str) (info : Info) (route : Option AppRoute) (started : List Proc) (m : Desk W)
      → IsFresh used (codes "app-forward")
      → IsHeld used m started
      → Ends (open_app h info route started m)
  open_app-Ends used info route started m fresh k =
      go ((start_forward h route started m).0) ((start_forward h route started m).1)
        (start_forward-Holds h used route started m fresh k)
    where
      go :
          (r : Result Failure (List Proc × Bool)) (m' : Desk W)
          → ForwardHolds (r, m')
          → Ends (resume r m' (record_routed h info))
      go (ok (l, routed)) m' k =
          record_session-Ends (if routed then info else without_app info) l m' k
      go (err e) m' k = k

  bring_live-Ends :
      (s : Setup) (opts : StartOptions) (info : Info) (route : Option AppRoute) (m : Desk W)
      → IsIdle m
      → Ends (bring_live h s opts info route m)
  unfolding bring_live candidate_listener observer_listener
  bring_live-Ends s opts info route m idle =
      let log = under s.workdir (codes "terminal.raw") in
      let candidate = candidate_listener s opts in
      let observer = observer_listener s opts in
      let one = codes "asciinema" ∷ [] in
      let two = codes "ttyd-candidate" ∷ one in
      let three = codes "ttyd-observer" ∷ two in
      held_then [] (λ u. []) (share_or_pipe h opts s.name log) (record_pane h s opts info route) m
        (share_or_pipe-Holds h opts s.name log m (idle-IsHeld m idle))
        (λ u m k.
          held_then one (λ l. l)
            (start_recorder h opts (recorder_script s.workdir (client opts) s.name))
            (serve_candidate h s opts info route) m
            (start_recorder-Holds h opts (recorder_script s.workdir (client opts) s.name) m k)
            (λ a m k.
              held_then two (λ l. l) (start_listener h candidate a)
                (serve_observer h s opts info route) m
                (start_listener-Holds h one candidate a m candidate-IsFresh k)
                (λ b m k.
                  held_then three (λ l. l) (start_listener h observer b)
                    (await_candidate h s opts info route) m
                    (start_listener-Holds h two observer b m observer-IsFresh k)
                    (λ c m k.
                      held_then three (λ l. l) (await h s candidate c)
                        (await_observer h s opts info route) m
                        (wait_listening-Holds h three s.fuel s.listener_poll s.listener_wait
                          candidate c m k)
                        (λ d m k.
                          held_then three (λ l. l) (await h s observer d)
                            (check_recording h opts info route) m
                            (wait_listening-Holds h three s.fuel s.listener_poll s.listener_wait
                              observer d m k)
                            (λ e m k.
                              held_then three (λ l. l) (check_recorder h opts e)
                                (open_app h info route) m (check_recorder-Holds h three opts e m k)
                                (λ l m k.
                                  open_app-Ends three info route l m forward-IsFresh k)))))))

  or_clean_up-IsEnded :
      (s : Setup) (opts : StartOptions) (r : Result Failure Info) (m : Desk W) (e : StartError)
      → Ends (r, m)
      → (or_clean_up h s opts (r, m)).0 ≡ err e
      → (p : Proc) → Memᴰ (launched p) (or_clean_up h s opts (r, m)).1.log
      → IsEnded p (or_clean_up h s opts (r, m)).1.log
  or_clean_up-IsEnded s opts (ok info) m e k q = cc
  or_clean_up-IsEnded s opts (err f) m e k q =
      cleanup-IsEnded h s.name opts.tmux_socket f.started m k

  or_clean_up-IsFiled :
      (s : Setup) (opts : StartOptions) (r : Result Failure Info) (m : Desk W) (info : Info)
      → Ends (r, m)
      → (or_clean_up h s opts (r, m)).0 ≡ ok info
      → IsFiled (or_clean_up h s opts (r, m)).1
  or_clean_up-IsFiled s opts (ok info) m i k q = k
  or_clean_up-IsFiled s opts (err f) m i k q = cc

  -- a part that launches nothing, and what follows it
  idle_then :
      {A B : Type 0} (P : Result StartError B × Desk W → Type 0) (part : Step W A)
      (next : A → Step W B) (m : Desk W)
      → IsIdle (part m).1
      → ((e : StartError) (m' : Desk W) → IsIdle m' → P (err e, m'))
      → ((a : A) (m' : Desk W) → IsIdle m' → P (next a m'))
      → P ((part >>= next) m)
  idle_then P part next m k f g = go ((part m).0) ((part m).1) k
    where
      go : (r : Result StartError _) (m' : Desk W) → IsIdle m' → P (resume r m' next)
      go (ok a) m' k = g a m' k
      go (err e) m' k = f e m' k

  -- What `Start` comes to: an error before the first process, or the end of what brings the processes up.
  start_rule :
      (P : Result StartError Info × Desk W → Type 0) (s : Setup) (opts : StartOptions) (m : Desk W)
      → IsIdle m
      → ((e : StartError) (m' : Desk W) → IsIdle m' → P (err e, m'))
      → ((r : Result Failure Info) (m' : Desk W) → Ends (r, m') → P (or_clean_up h s opts (r, m')))
      → P (start h s opts m)
  unfolding start
  start_rule P s opts m idle f g =
      idle_then P (prepare h s opts) _ m (prepare-IsIdle h s opts m idle) f (λ (info, route) m k.
        idle_then P (open_session h s opts) _ m (open_session-IsIdle h s opts m k) f (λ _ m k.
          let (r, d) = bring_live h s opts info route m in
          g r d (bring_live-Ends s opts info route m k)))

  module _ (s : Setup) (opts : StartOptions) (m : Desk W) (idle : IsIdle m) where
    -- When `Start` fails on a desk whose log has launched nothing, it ended every process that it launched:
    -- it sent it a signal, or saw that it was gone.
    pub start-IsEnded :
        (e : StartError)
        → (start h s opts m).0 ≡ err e
        → (p : Proc) → Memᴰ (launched p) (start h s opts m).1.log
        → IsEnded p (start h s opts m).1.log
    start-IsEnded e =
        start_rule (λ r. r.0 ≡ err e → (p : Proc) → Memᴰ (launched p) r.1.log → IsEnded p r.1.log) s
          opts m idle (λ f m' k q p i. absurd (k p i))
          (λ r m' k. or_clean_up-IsEnded s opts r m' e k)

    -- When `Start` returns on a desk whose log has launched nothing, each process that it launched has its pid
    -- in the pidfile of its name, or was seen gone, or is the forwarder of the app.
    pub start-IsFiled :
        (info : Info) → (start h s opts m).0 ≡ ok info → IsFiled (start h s opts m).1
    start-IsFiled info =
        start_rule (λ r. r.0 ≡ ok info → IsFiled r.1) s opts m idle (λ f m' k q. cc)
          (λ r m' k. or_clean_up-IsFiled s opts r m' info k)
