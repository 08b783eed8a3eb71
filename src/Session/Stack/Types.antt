-- ===== src/Session/Stack/Types.antt =====
-- internal/session/session.go: the records of a session, its pidfiles, and the calls outside.
use interviews.Base.{
  ℕ, Bool, not, List, [], ◌∷◌, ◌++◌, Option, some, Str, codes, ◌==◌, keep, if◌then◌else◌,
}
use interviews.Base.Exec.{Exec}
use interviews.Base.Sort.{str_le}
use interviews.Interview.Store.{Time}
use interviews.Debug.Engine.{State}

-- `proc`
pub record Proc : Type 0 where
  pub name : Str
  pub pid : ℕ

-- What was done to a process; `signalled` is the call that kills it, which may have failed.
pub data Event : Type 0 where
  launched signalled found_dead : Proc → Event
  ran : Str → List Str → Event

-- `Info`
pub record Info : Type 0 where
  pub problem : Str
  pub seed : Str
  pub tmux_session : Str
  pub tmux_socket : Str
  pub candidate_user : Str
  pub candidate_token : Str
  pub observer_token : Str
  pub candidate_port : ℕ
  pub observer_port : ℕ
  pub candidate_url : Str
  pub observer_url : Str
  pub app_token : Str
  pub app_url : Str
  pub app_port : ℕ
  pub started_at : Time

-- `StartOptions`
pub record StartOptions : Type 0 where
  pub base_url : Str
  pub candidate_token : Str
  pub observer_token : Str
  pub app_token : Str
  pub candidate_user : Str
  pub tmux_socket : Str
  pub candidate_kubeconfig : Str

-- The world outside. `false` is an error of a call, and so is `none`, the pid or the text of a call that
-- gives one.
pub record Host (W : Type 0) : Type 0 where
  pub launch : Str → List Str → W → Option ℕ × W
  pub command : Str → List Str → W → Bool × W
  pub alive : ℕ → W → Bool
  pub signal : ℕ → W → Bool × W  -- `kill` of a pid
  pub dial : ℕ → W → Bool
  pub new_token : W → Option Str × W
  pub account : W → Option Str
  pub write_pid : Str → W → Bool × W
  pub remove_pid : Str → W → Bool × W
  pub remove_pids : W → Bool × W
  pub write_info : W → Bool × W
  pub make_scratch : W → Bool × W
  pub mint_kubeconfig : W → W
  pub drop_kubeconfig : W → W
  pub now : W → Time
  pub wait : ℕ → W → W
  pub cancelled : W → Bool

-- A pidfile whose text is no number has no pid.
pub record Desk (W : Type 0) : Type 0 where
  pub world : W
  pub state : Option State
  pub pids : List (Str × Option ℕ)
  pub info : Option Info
  pub log : List Event

pub data StartError : Type 0 where
  needs_socket no_environment sweep_failed no_token no_scratch no_session share_failed : StartError
  pipe_failed no_recorder recorder_unrecorded recorder_gone no_account info_failed stopped :
      StartError
  no_port no_self no_namespace no_service remove_failed out_of_fuel : StartError
  running : List Proc → StartError
  port_taken listener_failed listener_exited listener_silent : ℕ → StartError

abbrev pub Step : Type 0 → Type 0 → Type 0
Step W A = Exec (Desk W) StartError A

-- a step on the world alone
abbrev pub Outside : Type 0 → Type 0 → Type 0
Outside W A = Exec W StartError A

abbrev pub on_world : {W A : Type 0} → Outside W A → Step W A
on_world f m = let (r, w) = f m.world in (r, record m { world = w })

abbrev pub logged : {W : Type 0} → Event → Desk W → Desk W
logged e m = record m { log = e ∷ m.log }

-- The pidfiles stand in the order of their file names.
unfoldable pub place_pid : List (Str × Option ℕ) → Str → ℕ → List (Str × Option ℕ)
place_pid [] name pid = (name, some pid) ∷ []
place_pid ((n, o) ∷ pids) name pid =
    let rest = place_pid pids name pid in
    if str_le (name ++ codes ".pid") (n ++ codes ".pid")
    then (name, some pid) ∷ (n, o) ∷ pids
    else (n, o) ∷ rest

unfoldable pub drop_pid : List (Str × Option ℕ) → Str → List (Str × Option ℕ)
drop_pid pids name = keep (λ ((n, o) : Str × Option ℕ). not (n == name)) pids

unfoldable pub put_pid : List (Str × Option ℕ) → Str → ℕ → List (Str × Option ℕ)
unfolding place_pid drop_pid
put_pid pids name pid = place_pid (drop_pid pids name) name pid

-- `tmuxCtl`
pub record TmuxCtl : Type 0 where
  pub socket : Str
  pub user : Str

-- `tmuxCtl.cmd`
unfoldable pub tmux_cmd : TmuxCtl → List Str → Str × List Str
tmux_cmd t args =
    let full = (if t.socket == [] then args else codes "-S" ∷ t.socket ∷ args) in
    if t.user == []
    then (codes "tmux", full)
    else (codes "sudo", codes "-n" ∷ codes "-u" ∷ t.user ∷ codes "tmux" ∷ full)

module _ {W : Type 0} (h : Host W) where
  -- `Runner.Command`
  abbrev pub run_command : Str → List Str → Desk W → Bool × Desk W
  run_command bin args m =
      let (good, w) = h.command bin args m.world in
      (good, record m { world = w; log = ran bin args ∷ m.log })

  -- `runTmux`
  unfoldable pub run_tmux : TmuxCtl → List Str → Desk W → Bool × Desk W
  unfolding tmux_cmd
  run_tmux t args m = let (bin, full) = tmux_cmd t args in run_command bin full m
