-- ===== src/Session/Stack/Launch.antt =====
-- internal/session/session.go: the parts of `Start` that launch processes, and `cleanup`. A part that
-- fails gives the error with the processes that are up by then, which is what `fail` hands to `cleanup`.
pub mod Tracked
pub mod Parts
pub mod Recorder
pub mod Forward
pub mod Ended
pub mod Waits
use interviews.Base.{
  ℕ, zero, suc, ◌+◌, Bool, true, false, ◌&&◌, ◌||◌, not, List, [], ◌∷◌, ◌++◌, Option, none, some,
  Str, codes, ◌==◌, keep, ltb, Result, ok, err, if◌then◌else◌,
}
use interviews.Base.Exec.{Exec, pure, raise, gets, ◌>>=◌, ◌>>◌}
use interviews.Interview.Store.{Time}
use interviews.Session.Stack.Types.{
  Proc, Event, launched, signalled, found_dead, ran, Info, StartOptions, Host, Desk, StartError,
  share_failed, pipe_failed, no_recorder, recorder_unrecorded, recorder_gone, no_account,
  info_failed, listener_failed, listener_exited, listener_silent, stopped, remove_failed,
  out_of_fuel, Step, Outside, on_world, logged, place_pid, drop_pid, put_pid, TmuxCtl, tmux_cmd,
  run_command, run_tmux,
}

-- What `startProcess` comes to: an error, a process whose pidfile failed, or a process on file.
pub data Launched : Type 0 where
  not_started : Launched
  unrecorded on_file : Proc → Launched

-- A part of `Start` past the tmux session.
pub record Failure : Type 0 where
  pub error : StartError
  pub started : List Proc

abbrev pub Part : Type 0 → Type 0 → Type 0
Part W A = Exec (Desk W) Failure A

abbrev pub fail : {W A : Type 0} → List Proc → StartError → Part W A
fail started e = raise (record { error = e; started = started })

abbrev pub candidate_port : ℕ
candidate_port = 8001

abbrev pub observer_port : ℕ
observer_port = 8002

abbrev pub app_port : ℕ
app_port = 8003

-- `listener`
pub record Listener : Type 0 where
  pub pid_name : Str
  pub port : ℕ
  pub args : List Str

-- `appRoute`
pub record AppRoute : Type 0 where
  pub command : Str
  pub path : Str

abbrev pub without : List Proc → Str → List Proc
without started name = keep (λ (p : Proc). not (p.name == name)) started

module _ {W : Type 0} (h : Host W) where
  -- the pidfile of a process that runs
  abbrev pub write_pidfile : Proc → Desk W → Launched × Desk W
  write_pidfile p m =
      let (good, w) = h.write_pid p.name m.world in
      if good
      then (on_file p, record m { world = w; pids = put_pid m.pids p.name p.pid })
      else (unrecorded p, record m { world = w })

  -- `startProcess`
  unfoldable pub start_process : Str → Str → List Str → Desk W → Launched × Desk W
  unfolding put_pid
  start_process name bin args m = elim ((h.launch bin args m.world).0) [
    | none ↦ (not_started, record m { world = (h.launch bin args m.world).1 })
    | some pid ↦
        write_pidfile (record { name = name; pid = pid })
          (logged (launched (record { name = name; pid = pid }))
            (record m { world = (h.launch bin args m.world).1 }))
  ]

  -- `removePid`
  unfoldable pub remove_pid : Str → Desk W → Bool × Desk W
  unfolding drop_pid
  remove_pid name m =
      let (good, w) = h.remove_pid name m.world in
      (
        good,
        if good
            then record m { world = w; pids = drop_pid m.pids name }
            else record m { world = w },
      )

  abbrev pub or_failed : StartError → Bool × Desk W → Result Failure Unit × Desk W
  or_failed e (good, m) = if good then (ok tt, m) else fail [] e m

  abbrev pub give_access : TmuxCtl → Desk W → Result Failure Unit × Desk W
  give_access server m = elim (h.account m.world) [
    | none ↦ fail [] no_account m
    | some me ↦
        or_failed share_failed
          (run_tmux h server (codes "server-access" ∷ codes "-a" ∷ codes "-w" ∷ me ∷ []) m)
  ]

  -- the rest of `shareServer`
  abbrev pub opened : TmuxCtl → Bool × Desk W → Result Failure Unit × Desk W
  opened server (good, m) = if good then give_access server m else fail [] share_failed m

  -- `shareServer`, or the raw log of a local pane
  unfoldable pub share_or_pipe : StartOptions → Str → Str → Part W Unit
  unfolding run_tmux
  share_or_pipe opts name raw_log m =
      let server : TmuxCtl = record { socket = opts.tmux_socket; user = opts.candidate_user } in
      if opts.candidate_user == []
      then or_failed pipe_failed (
          run_tmux h (record { socket = opts.tmux_socket; user = [] })
            (codes "pipe-pane" ∷ codes "-o" ∷ codes "-t" ∷ name ∷ (codes "cat >> " ++ raw_log) ∷ [])
            m)
      else opened server
          (run_tmux h server (codes "run-shell" ∷ (codes "chmod 0660 " ++ opts.tmux_socket) ∷ []) m)

  -- the recorder, and what its absence means
  abbrev pub recorder_up : StartOptions → Launched → Part W (List Proc)
  recorder_up opts not_started = if opts.candidate_user == [] then pure [] else fail [] no_recorder
  recorder_up opts (unrecorded p) = fail (p ∷ []) recorder_unrecorded
  recorder_up opts (on_file p) = pure (p ∷ [])

  unfoldable pub start_recorder : StartOptions → Str → Part W (List Proc)
  unfolding start_process
  start_recorder opts script m =
      let (r, m1) = start_process (codes "asciinema") (codes "sh") (codes "-c" ∷ script ∷ []) m in
      recorder_up opts r m1

  abbrev pub listener_up : ℕ → List Proc → Launched → Part W (List Proc)
  listener_up port started not_started = fail started (listener_failed port)
  listener_up port started (unrecorded p) = fail (started ++ p ∷ []) (listener_failed port)
  listener_up port started (on_file p) = pure (started ++ p ∷ [])

  -- one turn of the loop that starts the listeners
  unfoldable pub start_listener : Listener → List Proc → Part W (List Proc)
  unfolding start_process
  start_listener l started m =
      let (r, m1) = start_process l.pid_name (codes "ttyd") l.args m in
      listener_up l.port started r m1

  -- The loop of `waitListening`; `out_of_fuel` is no outcome of the code.
  unfoldable pub listening_until : ℕ → Time → ℕ → ℕ → ℕ → W → Result StartError Unit × W
  listening_until poll deadline port pid zero w = (err out_of_fuel, w)
  listening_until poll deadline port pid (suc fuel) w =
      let w' = h.wait poll w in
      let rest = listening_until poll deadline port pid fuel w' in
      if h.dial port w
      then (ok tt, w)
      else if not (h.alive pid w)
      then (err (listener_exited port), w)
      else if ltb deadline (h.now w)
      then (err (listener_silent port), w)
      else if h.cancelled w'
      then (err stopped, w')
      else rest

  -- the pid that a listener's name has among the processes that are up
  abbrev pub pid_of : List Proc → Str → ℕ
  pid_of [] name = 0
  pid_of (p ∷ started) name = if p.name == name then p.pid else pid_of started name

  abbrev pub or_fail :
      List Proc → Result StartError Unit × W → Desk W → Result Failure (List Proc) × Desk W
  or_fail started (ok _, w) m = (ok started, record m { world = w })
  or_fail started (err e, w) m = fail started e (record m { world = w })

  -- `waitListening`
  unfoldable pub wait_listening : ℕ → ℕ → ℕ → Listener → List Proc → Part W (List Proc)
  unfolding listening_until
  wait_listening fuel poll limit l started m =
      or_fail started
        (listening_until poll (h.now m.world + limit) l.port (pid_of started l.pid_name) fuel
          m.world)
        m

  -- A recorder that exited at once is an error on a shared host, and is dropped locally.
  unfoldable pub check_recorder : StartOptions → List Proc → Part W (List Proc)
  unfolding remove_pid
  check_recorder opts [] m = (ok [], m)
  check_recorder opts (p ∷ rest) m =
      if not (p.name == codes "asciinema") || h.alive p.pid m.world
      then (ok (p ∷ rest), m)
      else if not (opts.candidate_user == [])
      then fail (p ∷ rest) recorder_gone m
      else (let started = without (p ∷ rest) p.name in
          let (good, m1) = remove_pid p.name (logged (found_dead p) m) in
          if good then (ok started, m1) else fail started remove_failed m1)

  abbrev pub forward_up : List Proc → Launched → Desk W → Result Failure (List Proc × Bool) × Desk W
  forward_up started not_started m = (ok (started, false), m)
  forward_up started (unrecorded p) m = (ok (started ++ p ∷ [], false), m)
  forward_up started (on_file p) m = (ok (started ++ p ∷ [], true), m)

  -- The forwarder of the app, and whether its route stays in the record.
  unfoldable pub start_forward : Option AppRoute → List Proc → Part W (List Proc × Bool)
  unfolding start_process
  start_forward none started m = (ok (started, false), m)
  start_forward (some route) started m =
      if route.command == []
      then (ok (started, true), m)
      else (let (r, m1) =
            start_process (codes "app-forward") (codes "sh") (codes "-c" ∷ route.command ∷ []) m in
          forward_up started r m1)

  -- `cleanup` of one process
  unfoldable pub stop_proc : Proc → Desk W → Desk W
  unfolding remove_pid
  stop_proc p m =
      if not (h.alive p.pid m.world)
      then (remove_pid p.name (logged (found_dead p) m)).1
      else (let (good, w) = h.signal p.pid m.world in
          (remove_pid p.name (logged (signalled p) (record m { world = w }))).1)

  unfoldable pub stop_procs : List Proc → Desk W → Desk W
  unfolding stop_proc
  stop_procs [] m = m
  stop_procs (p ∷ started) m = stop_procs started (stop_proc p m)

  -- `killSession`
  unfoldable pub kill_session : Str → Str → Desk W → Desk W
  unfolding run_tmux
  kill_session name socket m =
      (run_tmux h (record { socket = socket; user = [] })
        (codes "kill-session" ∷ codes "-t" ∷ name ∷ []) m).1

  -- `cleanup`
  unfoldable pub cleanup : Str → Str → List Proc → Desk W → Desk W
  unfolding stop_procs kill_session
  cleanup name socket started m = kill_session name socket (stop_procs started m)
