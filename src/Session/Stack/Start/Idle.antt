-- ===== src/Session/Stack/Start/Idle.antt =====
-- The parts of `Start` before the first process.
use interviews.Base.{
  Bool, true, false, ◌||◌, ◌&&◌, not, List, [], ◌∷◌, Memᴰ, Option, none, some, Str, codes, ◌==◌,
  if_rule, Result, ok, err,
}
use interviews.Base.Exec.{>>=-keeps}
use interviews.Debug.Engine.{State}
use interviews.Session.Stack.Types.{
  Proc, launched, ran, StartOptions, Host, Desk, StartError, needs_socket, port_taken,
}
use interviews.Session.Stack.Launch.{candidate_port, observer_port, AppRoute}
use interviews.Session.Stack.Shell.{app_plan}
use interviews.Session.Stack.Launch.Parts.{run_tmux_rule}
use interviews.Session.Stack.Start.{
  Setup, live_pids, check, some_state, refuse, refuse_if_running, made_token, choose_token,
  app_token_for, the_route, prepare, scratch, or_no_session, open_session,
}

-- A desk whose log has launched nothing.
abbrev pub IsIdle : {W : Type 0} → Desk W → Type 0
IsIdle m = (p : Proc) → Memᴰ (launched p) m.log → ⊥

module _ {W : Type 0} (h : Host W) where
  check-IsIdle :
      (good : Bool) (e : StartError) (m : Desk W) → IsIdle m → IsIdle (check h good e m).1
  check-IsIdle true e m k = k
  check-IsIdle false e m k = k

  some_state-IsIdle : (o : Option State) (m : Desk W) → IsIdle m → IsIdle (some_state h o m).1
  some_state-IsIdle none m k = k
  some_state-IsIdle (some st) m k = k

  refuse-IsIdle : (live : List Proc) (m : Desk W) → IsIdle m → IsIdle (refuse h live m).1
  refuse-IsIdle (p ∷ live) m k = k
  refuse-IsIdle [] m k =
      if_rule (λ (r : Result StartError Unit × Desk W). IsIdle r.1) ((h.remove_pids m.world).0) _ _
        (λ e. k) (λ e. k)

  refuse_if_running-IsIdle : (m : Desk W) → IsIdle m → IsIdle (refuse_if_running h m).1
  unfolding refuse_if_running
  refuse_if_running-IsIdle m k = refuse-IsIdle (live_pids (λ pid. h.alive pid m.world) m.pids) m k

  made_token-IsIdle : (o : Option Str) (m : Desk W) → IsIdle m → IsIdle (made_token h o m).1
  made_token-IsIdle none m k = k
  made_token-IsIdle (some t) m k = k

  choose_token-IsIdle : (given : Str) (m : Desk W) → IsIdle m → IsIdle (choose_token h given m).1
  choose_token-IsIdle given m k =
      let (t, w) = h.new_token m.world in
      if_rule (λ (r : Result StartError Str × Desk W). IsIdle r.1) (given == []) _ _
        (λ e. made_token-IsIdle t (record m { world = w }) k) (λ e. k)

  app_token_for-IsIdle :
      (o : Option AppRoute) (given : Str) (m : Desk W)
      → IsIdle m
      → IsIdle (app_token_for h o given m).1
  app_token_for-IsIdle none given m k = k
  app_token_for-IsIdle (some r) given m k = choose_token-IsIdle given m k

  the_route-IsIdle :
      (r : Result StartError (Option AppRoute)) (m : Desk W) → IsIdle m → IsIdle (the_route h r m).1
  the_route-IsIdle (ok r) m k = k
  the_route-IsIdle (err e) m k = k

  pub prepare-IsIdle :
      (s : Setup) (opts : StartOptions) (m : Desk W) → IsIdle m → IsIdle (prepare h s opts m).1
  unfolding prepare
  prepare-IsIdle s opts m k =
      let free = λ (port : _) (w : W). check h (not (h.dial port w)) (port_taken port) in
      let guard =
        check h (opts.candidate_user == [] || not (opts.tmux_socket == [])) needs_socket in
      >>=-keeps IsIdle guard _ m (check-IsIdle _ needs_socket m k) (λ _ m k.
        >>=-keeps IsIdle (some_state h m.state) _ m (some_state-IsIdle m.state m k) (λ st m k.
          >>=-keeps IsIdle (refuse_if_running h) _ m (refuse_if_running-IsIdle m k) (λ _ m k.
            >>=-keeps IsIdle (free candidate_port m.world) _ m
              (check-IsIdle _ (port_taken candidate_port) m k)
              (λ _ m' k.
                >>=-keeps IsIdle (free observer_port m.world) _ m'
                  (check-IsIdle _ (port_taken observer_port) m' k)
                  (λ _ m k.
                    >>=-keeps IsIdle (choose_token h opts.candidate_token) _ m
                      (choose_token-IsIdle opts.candidate_token m k)
                      (λ _ m k.
                        >>=-keeps IsIdle (choose_token h opts.observer_token) _ m
                          (choose_token-IsIdle opts.observer_token m k)
                          (λ _ m k.
                            >>=-keeps IsIdle (the_route h (app_plan s.plan)) _ m
                              (the_route-IsIdle (app_plan s.plan) m k)
                              (λ route m k.
                                >>=-keeps IsIdle (app_token_for h route opts.app_token) _ m
                                  (app_token_for-IsIdle route opts.app_token m k)
                                  (λ _ m k. k)))))))))

  scratch-IsIdle :
      (s : Setup) (opts : StartOptions) (m : Desk W) → IsIdle m → IsIdle (scratch h s opts m).1
  scratch-IsIdle s opts m k =
      let P = λ (r : Result StartError (List Str × Str) × Desk W). IsIdle r.1 in
      if_rule P (not (opts.candidate_user == [])) _ _ (λ e. k)
        (λ e.
          if_rule P (not (h.make_scratch m.world).0) _ _ (λ e. k)
            (λ e.
              if_rule P (opts.candidate_kubeconfig == [] && s.plan.provider == codes "kind") _ _
                (λ e. k) (λ e. k)))

  or_no_session-IsIdle :
      (good : Bool) (m : Desk W) → IsIdle m → IsIdle (or_no_session h (good, m)).1
  or_no_session-IsIdle true m k = k
  or_no_session-IsIdle false m k = k

  pub open_session-IsIdle :
      (s : Setup) (opts : StartOptions) (m : Desk W) → IsIdle m → IsIdle (open_session h s opts m).1
  unfolding open_session
  open_session-IsIdle s opts m k =
      >>=-keeps IsIdle (scratch h s opts) _ m (scratch-IsIdle s opts m k) (λ (pane, kc) m k.
        run_tmux_rule h (λ r. IsIdle (or_no_session h r).1) _ _ m
          (λ good w bin args.
            or_no_session-IsIdle good (record m { world = w; log = ran bin args ∷ m.log })
              (ran_idle bin args m k)))
    where
      ran_idle :
          (bin : Str) (args : List Str) (m : Desk W)
          → IsIdle m
          → (p : Proc) → Memᴰ (launched p) (ran bin args ∷ m.log)
          → ⊥
      ran_idle bin args m k p (Memᴰ.head e) = cc
      ran_idle bin args m k p (Memᴰ.tail n) = k p n
