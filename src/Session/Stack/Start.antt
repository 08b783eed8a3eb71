-- ===== src/Session/Stack/Start.antt =====
-- internal/session/session.go: `Start`. Where the rest of the engine comes in, a `Setup` has it: the
-- environment's name, the workdir, what the app's route needs and the waits.
pub mod Idle
pub mod Outcomes
use interviews.Base.{
  ℕ, zero, suc, ◌+◌, Bool, true, false, ◌&&◌, ◌||◌, not, List, [], ◌∷◌, ◌++◌, Option, none, some,
  Str, codes, ◌==◌, keep, ltb, ◌=?◌, Result, ok, err, if◌then◌else◌,
}
use mathlib.Core.List.{reverse}
use interviews.Base.Exec.{Exec, pure, raise, gets, ◌>>=◌, ◌>>◌}
use interviews.Interview.Store.{Time}
use interviews.Debug.Engine.{State}
use interviews.Session.Stack.Types.{
  Proc, Info, StartOptions, Host, Desk, StartError, needs_socket, no_environment, sweep_failed,
  no_token, no_scratch, no_session, info_failed, running, port_taken, Step, Outside, on_world,
  TmuxCtl, tmux_cmd, run_tmux,
}
use interviews.Session.Stack.Shell.{under, Plan, recorder_script, app_plan}
use interviews.Session.Stack.Launch.{
  Failure, Part, fail, candidate_port, observer_port, app_port, Listener, AppRoute, share_or_pipe,
  start_recorder, start_listener, wait_listening, check_recorder, start_forward, cleanup,
}

pub record Setup : Type 0 where
  pub name : Str
  pub workdir : Str
  pub plan : Plan
  pub fuel : ℕ
  pub listener_poll : ℕ
  pub listener_wait : ℕ

-- `strings.TrimRight` of the slashes
abbrev pub drop_slashes : Str → Str
drop_slashes [] = []
drop_slashes (c ∷ s) = if c =? 47 then drop_slashes s else c ∷ s

abbrev pub trim_slashes : Str → Str
trim_slashes s = reverse (drop_slashes (reverse s))

-- `urls`, by the token paths of a fronting host or by the local ports
abbrev pub session_url : Str → Str → Str → Str → Str
session_url base tail token port =
    if base == [] then codes "http://127.0.0.1:" ++ port else trim_slashes base ++ tail ++ token

-- the arguments of ttyd, on the loopback interface alone
abbrev pub ttyd_args : Str → List Str → List Str
ttyd_args port args = codes "-i" ∷ codes "127.0.0.1" ∷ codes "-p" ∷ port ∷ args

-- the tmux client of the account that starts the session
abbrev pub client : StartOptions → TmuxCtl
client opts = record { socket = opts.tmux_socket; user = [] }

abbrev pub attach : List Str → Setup → StartOptions → List Str
attach flags s opts =
    let (bin, args) =
      tmux_cmd (client opts) (codes "attach" ∷ (flags ++ codes "-t" ∷ s.name ∷ [])) in
    bin ∷ args

unfoldable pub candidate_listener : Setup → StartOptions → Listener
unfolding tmux_cmd
candidate_listener s opts = record {
  pid_name = codes "ttyd-candidate";
  port = candidate_port;
  args = ttyd_args (codes "8001") (codes "-W" ∷ attach [] s opts);
}

unfoldable pub observer_listener : Setup → StartOptions → Listener
unfolding tmux_cmd
observer_listener s opts = record {
  pid_name = codes "ttyd-observer";
  port = observer_port;
  args = ttyd_args (codes "8002") (attach (codes "-r" ∷ []) s opts);
}

-- `livePids`
unfoldable pub live_pids : (ℕ → Bool) → List (Str × Option ℕ) → List Proc
live_pids alive [] = []
live_pids alive ((name, none) ∷ pids) = live_pids alive pids
live_pids alive ((name, some pid) ∷ pids) =
    let rest = live_pids alive pids in
    if alive pid then record { name = name; pid = pid } ∷ rest else rest

-- the record without its app
abbrev pub without_app : Info → Info
without_app info = record info { app_url = []; app_token = []; app_port = 0 }

abbrev pub routed_info : Info → Option AppRoute → Str → Str → Info
routed_info info none token url = info
routed_info info (some route) token url = record info {
  app_port = app_port;
  app_token = token;
  app_url = url ++ route.path;
}

module _ {W : Type 0} (h : Host W) where
  abbrev pub check : Bool → StartError → Step W Unit
  check good e m = if good then (ok tt, m) else (err e, m)

  abbrev pub some_state : Option State → Step W State
  some_state none = raise no_environment
  some_state (some st) = pure st

  -- `refuseIfRunning`
  abbrev pub refuse : List Proc → Step W Unit
  refuse (p ∷ live) m = raise (running (p ∷ live)) m
  refuse [] m =
      let (good, w) = h.remove_pids m.world in
      if good
      then (ok tt, record m { world = w; pids = [] })
      else (err sweep_failed, record m { world = w })

  unfoldable pub refuse_if_running : Step W Unit
  unfolding live_pids
  refuse_if_running m = refuse (live_pids (λ pid. h.alive pid m.world) m.pids) m

  abbrev pub made_token : Option Str → Step W Str
  made_token none = raise no_token
  made_token (some t) = pure t

  -- a token given by the caller, or a new one
  abbrev pub choose_token : Str → Step W Str
  choose_token given m =
      if given == []
      then (let (t, w) = h.new_token m.world in made_token t (record m { world = w }))
      else (ok given, m)

  abbrev pub app_token_for : Option AppRoute → Str → Step W Str
  app_token_for none given = pure []
  app_token_for (some route) given = choose_token given

  abbrev pub the_route : Result StartError (Option AppRoute) → Step W (Option AppRoute)
  the_route (ok r) = pure r
  the_route (err e) = raise e

  -- `Start` before anything runs: the record of the session, and the app's route.
  unfoldable pub prepare : Setup → StartOptions → Step W (Info × Option AppRoute)
  unfolding refuse_if_running app_plan
  prepare s opts = do
    check (opts.candidate_user == [] || not (opts.tmux_socket == [])) needs_socket
    st ← gets (λ m. m.state)
    env ← some_state st
    refuse_if_running
    w ← gets (λ m. m.world)
    check (not (h.dial candidate_port w)) (port_taken candidate_port)
    check (not (h.dial observer_port w)) (port_taken observer_port)
    candidate ← choose_token opts.candidate_token
    observer ← choose_token opts.observer_token
    route ← the_route (app_plan s.plan)
    token ← app_token_for route opts.app_token
    pure (
      routed_info
          (record {
            problem = env.problem;
            seed = env.seed;
            tmux_session = s.name;
            tmux_socket = opts.tmux_socket;
            candidate_user = opts.candidate_user;
            candidate_token = candidate;
            observer_token = observer;
            candidate_port = candidate_port;
            observer_port = observer_port;
            candidate_url = session_url opts.base_url (codes "/c/") candidate (codes "8001");
            observer_url = session_url opts.base_url (codes "/o/") observer (codes "8002");
            app_token = [];
            app_url = [];
            app_port = 0;
            started_at = h.now w;
          })
          route token (session_url opts.base_url (codes "/a/") token (codes "8003")),
      route,
    )

  -- `localScratch`: the scratch directory of a local session and its kubeconfig, or what a shared host has.
  abbrev pub scratch : Setup → StartOptions → Step W (List Str × Str)
  scratch s opts m =
      if not (opts.candidate_user == [])
      then (ok ([], opts.candidate_kubeconfig), m)
      else (let (good, w) = h.make_scratch m.world in
          let pane = codes "-c" ∷ under s.workdir (codes "candidate") ∷ [] in
          if not good
          then (err no_scratch, record m { world = w })
          else if opts.candidate_kubeconfig == [] && s.plan.provider == codes "kind"
          then (
            ok (pane, under s.workdir (codes "candidate.kubeconfig")),
            record m { world = h.mint_kubeconfig w },
          )
          else (ok (pane, opts.candidate_kubeconfig), record m { world = w }))

  abbrev pub kubeconfig_args : Str → List Str
  kubeconfig_args kc = if kc == [] then [] else codes "-e" ∷ (codes "KUBECONFIG=" ++ kc) ∷ []

  abbrev pub or_no_session : Bool × Desk W → Result StartError Unit × Desk W
  or_no_session (good, m) = if good then (ok tt, m) else (err no_session, m)

  -- the tmux session
  unfoldable pub open_session : Setup → StartOptions → Step W Unit
  unfolding run_tmux
  open_session s opts = do
    (pane, kc) ← scratch s opts
    λ m. or_no_session (
        run_tmux h (record { socket = opts.tmux_socket; user = opts.candidate_user })
          (codes "new-session" ∷ codes "-d" ∷ codes "-s" ∷ s.name ∷ (pane ++ kubeconfig_args kc)) m)

  abbrev pub record_session : Info → List Proc → Part W Info
  record_session info started m =
      let (good, w) = h.write_info m.world in
      if good
      then (ok info, record m { world = w; info = some info })
      else fail started info_failed (record m { world = w })

  -- `Start` past the tmux session, from its end: each part hands the next the processes that are up.
  abbrev pub record_routed : Info → List Proc × Bool → Part W Info
  record_routed info (started, routed) =
      record_session (if routed then info else without_app info) started

  abbrev pub open_app : Info → Option AppRoute → List Proc → Part W Info
  open_app info route started = start_forward h route started >>= record_routed info

  abbrev pub check_recording : StartOptions → Info → Option AppRoute → List Proc → Part W Info
  check_recording opts info route started = check_recorder h opts started >>= open_app info route

  abbrev pub await : Setup → Listener → List Proc → Part W (List Proc)
  await s = wait_listening h s.fuel s.listener_poll s.listener_wait

  abbrev pub await_observer :
      Setup → StartOptions → Info → Option AppRoute → List Proc → Part W Info
  await_observer s opts info route started =
      await s (observer_listener s opts) started >>= check_recording opts info route

  abbrev pub await_candidate :
      Setup → StartOptions → Info → Option AppRoute → List Proc → Part W Info
  await_candidate s opts info route started =
      await s (candidate_listener s opts) started >>= await_observer s opts info route

  abbrev pub serve_observer :
      Setup → StartOptions → Info → Option AppRoute → List Proc → Part W Info
  serve_observer s opts info route started =
      start_listener h (observer_listener s opts) started >>= await_candidate s opts info route

  abbrev pub serve_candidate :
      Setup → StartOptions → Info → Option AppRoute → List Proc → Part W Info
  serve_candidate s opts info route started =
      start_listener h (candidate_listener s opts) started >>= serve_observer s opts info route

  abbrev pub record_pane : Setup → StartOptions → Info → Option AppRoute → Unit {0} → Part W Info
  record_pane s opts info route shared =
      start_recorder h opts (recorder_script s.workdir (client opts) s.name)
      >>= serve_candidate s opts info route

  unfoldable pub bring_live : Setup → StartOptions → Info → Option AppRoute → Part W Info
  unfolding share_or_pipe start_recorder start_listener wait_listening check_recorder start_forward
      candidate_listener observer_listener recorder_script
  bring_live s opts info route =
      share_or_pipe h opts s.name (under s.workdir (codes "terminal.raw"))
      >>= record_pane s opts info route

  abbrev pub or_clean_up :
      Setup → StartOptions → Result Failure Info × Desk W → Result StartError Info × Desk W
  or_clean_up s opts (ok info, m) = (ok info, m)
  or_clean_up s opts (err f, m) = (err f.error, cleanup h s.name opts.tmux_socket f.started m)

  -- `Start`
  unfoldable pub start : Setup → StartOptions → Step W Info
  start s opts = do
    (info, route) ← prepare s opts
    open_session s opts
    λ m. or_clean_up s opts (bring_live s opts info route m)
