-- ===== src/Debug/Engine/Types.antt =====
-- internal/debug/engine.go: the engine's data, and the steps that its commands are made of.
use interviews.Base.{
  ℕ, Bool, true, false, not, List, [], ◌∷◌, Option, none, some, Str, codes, keep, map, ◌=?◌, Result,
  ok, err, if◌then◌else◌,
}
use interviews.Base.Exec.{Exec, pure, raise}
use interviews.Interview.Store.{Time, is_zero}
use interviews.Debug.Scenario.{Tier, Fault}

-- What a script's run comes to: no error, an exit status, or an error that is not a process's.
pub data Exit : Type 0 where
  passed not_a_process : Exit
  exited : ℕ → Exit

-- an entry of the workdir besides the state file
pub record Entry : Type 0 where
  pub name : Str
  pub is_empty_dir : Bool

-- `run` takes a script's path in the problem's directory and whether IV_FIX_FAST is set. `false` is an error of
-- a call. `remove` takes a name in the workdir away, `remove_workdir` all of it.
-- what `os.ReadDir` of the workdir comes to
pub data Listing : Type 0 where
  not_there unlistable listable : Listing

pub record Substrate (W : Type 0) : Type 0 where
  pub run : Str → Bool → W → Exit × W
  pub detect : W → Bool × W
  pub provider_up : W → Bool × W
  pub provider_down : W → Bool × W
  pub make_workdir : W → Bool × W
  pub write_state : W → Bool × W
  pub remove : Str → W → Bool × W
  pub remove_workdir : W → Bool × W
  pub listing : W → Listing
  pub entries : W → List Entry
  pub now : W → Time
  pub wait : ℕ → W → W
  pub cancelled : W → Bool

-- `State`, without the provenance, which no command reads back
pub record State : Type 0 where
  pub problem : Str
  pub seed : Str
  pub overrides : List (Str × Str)
  pub pack : Str
  pub injected : List Str
  pub provider : Str
  pub created_at : Time
  pub torn_down_at : Time

-- `Live`
abbrev pub is_live : State → Bool
is_live st = is_zero st.torn_down_at

pub data StateDoc : Type 0 where
  recorded : State → StateDoc
  garbled : StateDoc

pub record Machine (W : Type 0) : Type 0 where
  pub world : W
  pub state : Option StateDoc

-- `Engine`: of the variant what the commands read, of the scenario its faults and its verify script; the runner,
-- the provider and the directories belong to the substrate
pub record Engine : Type 0 where
  pub problem : Str
  pub seed : Str
  pub overrides : List (Str × Str)
  pub pack : Option Str
  pub faults : List Fault
  pub verify : Str
  pub provider : Str
  pub settle : ℕ
  pub poll_interval : ℕ
  pub fix_timeout : ℕ
  pub verify_timeout : ℕ

pub data CheckState : Type 0 where
  fixed broken cannot_run : CheckState

pub record FaultStatus : Type 0 where
  pub id : Str
  pub title : Str
  pub tier : Tier
  pub state : CheckState

-- the error returns of the commands, each with what its message names
pub data EngineError : Type 0 where
  no_state write_failed not_detected up_failed down_failed no_pack stopped out_of_fuel : EngineError
  remove_failed list_failed : EngineError
  torn_down : Time → EngineError
  unknown_fault : Str → EngineError
  inject_failed : Str → Exit → Bool → EngineError
  fix_failed : Str → Exit → EngineError
  not_verified : Exit → EngineError
  no_faults : Str → EngineError
  breaks_nothing : Str → EngineError
  check_cannot_run : Str → EngineError
  still_broken : Str → EngineError
  verify_is_blind : EngineError
  not_recovered : EngineError → EngineError

abbrev pub is_pass : Exit → Bool
is_pass passed = true
is_pass not_a_process = false
is_pass (exited n) = false

-- `CheckCannotRunExit`
abbrev pub cannot_run_exit : ℕ
cannot_run_exit = 2

-- `check`'s reading of an exit
unfoldable pub verdict : Exit → CheckState
verdict passed = fixed
verdict not_a_process = broken
verdict (exited n) = if n =? cannot_run_exit then cannot_run else broken

abbrev pub Step : Type 0 → Type 0 → Type 0
Step W A = Exec (Machine W) EngineError A

-- a step that leaves the state file alone
abbrev pub Outside : Type 0 → Type 0 → Type 0
Outside W A = Exec W EngineError A

abbrev pub on_world : {W A : Type 0} → Outside W A → Step W A
on_world f m = let (r, w) = f m.world in (r, record m { world = w })

abbrev pub guard : {W : Type 0} → Bool → EngineError → Outside W Unit
guard true e = pure tt
guard false e = raise e

abbrev pub is_err : {E A : Type 0} → Result E A → Bool
is_err (ok a) = false
is_err (err e) = true

abbrev pub second : ℕ
second = 1000000000

abbrev pub engine_owned : List Str
engine_owned = codes "rendered" ∷ codes "kubeconfig" ∷ []

abbrev pub kept_names : List Entry → List Str
kept_names entries = map (λ (e : Entry). e.name) (keep (λ (e : Entry). not e.is_empty_dir) entries)

abbrev pub has_no_state : Option StateDoc → Bool
has_no_state none = true
has_no_state (some d) = false
