-- ===== src/Cli/Commands.antt =====
-- internal/cli: the commands that begin, move along and end a session, over the registry. interview.go has the
-- local ones, bundle.go `deliver`, remote.go those of a provisioned host. What a command runs is a `Live` or a
-- `Cloud`, whose `false` and `none` are errors; `Cli.Live` fills the first from the engine and the session
-- stack. Flags and messages are left out.
pub mod Remote
pub mod Offline
pub mod Staged
pub mod Recorded
pub mod Closed
use interviews.Base.{
  ℕ, suc, ◌+◌, Bool, true, false, ◌&&◌, not, List, [], ◌∷◌, ◌++◌, Option, none, some, Str, codes,
  ◌==◌, ltb, Result, ok, err, if◌then◌else◌,
}
use interviews.Base.Exec.{Exec, pure, raise, gets, ◌>>=◌, ◌>>◌}
use interviews.Interview.Store.{
  Mode, local, aws, offline, Stage, created, returned, reviewed, other_stage, Time, Session, Home,
  HomeError, no_current, save, load, set_current, names_seed, current_seed, clear_current, current,
}
use interviews.Cli.Status.{is_aws, is_offline}
use interviews.Cli.Reconcile.{RemoteHost}

pub record Urls : Type 0 where
  pub candidate : Str
  pub observer : Str
  pub app : Str

-- the environment and the session stack of one local interview
pub record Live (V : Type 0) : Type 0 where
  pub builds : Str → Str → V → Bool  -- `engineFor` of a problem and a seed
  pub up : V → Bool × V
  pub inject : V → Bool × V  -- `Break`
  pub start : V → Option Urls × V
  pub stop : V → Bool × V
  pub down : Bool → V → Bool × V
  pub now : V → Time

-- `AWSSetup`, as far as the commands read it
pub record AwsSetup : Type 0 where
  pub bucket : Str
  pub region : Str

-- the outputs of Terraform that a start records
pub record Outputs : Type 0 where
  pub urls : Urls
  pub public_ip : Str
  pub evidence_path : Str

-- the account and its tools
pub record Cloud (V : Type 0) : Type 0 where
  pub setup : V → Option AwsSetup
  pub infra : V → Option Str  -- `infraRoot`
  pub has_env : Str → V → Bool  -- `terraformEnv`
  pub identity : V → Bool × V
  pub version : V → Option Str × V
  pub init : Str → V → Bool × V
  pub apply : Session → V → Bool × V
  pub outputs : V → Option Outputs × V
  pub wait_ready : Session → V → Bool × V
  pub remove_evidence : Str → V → Bool × V
  pub make_copy : V → Bool × V
  pub sync : Str → V → Bool × V
  pub destroy : Session → V → Bool × V
  pub remove_data : V → V
  pub hosts : V → Option (List RemoteHost)  -- `describeHosts`
  pub now : V → Time

-- The registry, what is outside, and whether each of the registry's coming file writes succeeds.
pub record Console (V : Type 0) : Type 0 where
  pub home : Home
  pub world : V
  pub disk : ℕ → Bool

pub data CommandError : Type 0 where
  no_session_yet usage wrong_mode no_path no_engine not_delivered not_up not_broken not_started
        not_down :
      CommandError
  no_setup no_infra no_env no_identity not_initialised not_applied no_outputs not_ready no_directory
        no_copy not_destroyed :
      CommandError
  not_stored not_marked not_cleared : CommandError
  registry : HomeError → CommandError

abbrev pub Step : Type 0 → Type 0 → Type 0
Step V A = Exec (Console V) CommandError A

module _ {V : Type 0} where
  -- a call whose failure ends the command
  abbrev pub call : CommandError → (V → Bool × V) → Step V Unit
  call e f c = let (good, v) = f c.world in (if good then ok tt else err e, record c { world = v })

  -- a call whose failure is only reported
  abbrev pub attempt : (V → Bool × V) → Step V Bool
  attempt f c = let (good, v) = f c.world in (ok good, record c { world = v })

  abbrev pub given : {A : Type 0} → CommandError → Option A → Step V A
  given e none = raise e
  given e (some a) = pure a

  -- a call that gives a value
  abbrev pub fetch : {A : Type 0} → CommandError → (V → Option A × V) → Step V A
  fetch e f c = let (o, v) = f c.world in given e o (record c { world = v })

  -- one write of the registry: a file is replaced whole, or it stays as it was
  abbrev pub store : CommandError → Home → Step V Unit
  store e h c =
      let after = record c { disk = λ n. c.disk (suc n) } in
      if c.disk 0 then (ok tt, record after { home = h }) else (err e, after)

  abbrev pub saved : Result HomeError Home → Step V Unit
  saved (ok h) c = store not_stored h c
  saved (err e) c = (err (registry e), c)

  abbrev pub save_record : Session → Step V Unit
  save_record s c = saved (save s c.home) c

  abbrev pub mark_current : Str → Step V Unit
  mark_current seed c = store not_marked (set_current seed c.home) c

  abbrev pub unmark : Str → Step V Unit
  unmark seed c =
      if names_seed (current_seed c.home) seed
      then store not_cleared (clear_current seed c.home) c
      else (ok tt, c)

  -- the end of a session's command: the record as it is left, which is no longer the one worked in
  unfoldable pub close : Session → Step V Session
  close s = do save_record s; unmark s.seed; pure s

  abbrev pub found : Result HomeError Session → Step V Session
  found (ok s) = pure s
  found (err no_current) = raise no_session_yet
  found (err e) = raise (registry e)

  -- `currentOr`
  unfoldable pub current_or : Str → Step V Session
  current_or seed c = if seed == [] then found (current c.home) c else found (load seed c.home) c

-- a record that only says what and when
abbrev pub blank : Str → Str → Mode → Time → Session
blank seed problem mode t = record {
  seed = seed;
  problem = problem;
  kind = codes "debugging";
  level = [];
  mode = mode;
  created_at = t;
  ended_at = 0;
  ttl_minutes = 0;
  provisioned_at = 0;
  workdir = [];
  content_root = [];
  terraform_dir = [];
  content_version = [];
  evidence = [];
  stage = other_stage [];
  bundle_path = [];
  submission_path = [];
  due_at = 0;
  reviewed_at = 0;
  candidate_url = [];
  observer_url = [];
  app_url = [];
  host = [];
}

abbrev pub with_urls : Session → Urls → Session
with_urls s u = record s { candidate_url = u.candidate; observer_url = u.observer; app_url = u.app }

-- what a start is asked for
pub record Request : Type 0 where
  pub seed : Str
  pub problem : Str
  pub level : Str
  pub workdir : Str
  pub content_root : Str
  pub no_break : Bool
  pub ttl_minutes : ℕ

abbrev pub local_record : Request → Time → Session
local_record q t = record (blank q.seed q.problem local t) {
  level = q.level;
  workdir = q.workdir;
  evidence = q.workdir;
  content_root = q.content_root;
}

module _ {V : Type 0} (l : Live V) where
  -- `cmdStart` of a local debugging problem, past the record
  unfoldable pub bring_session_up : Request → Session → Step V Session
  bring_session_up q s = do
    call not_up l.up
    call not_broken (λ v. if q.no_break then (true, v) else l.inject v)
    urls ← fetch not_started l.start
    save_record (with_urls s urls)
    pure (with_urls s urls)

  -- `cmdStart` of a local debugging problem
  unfoldable pub start_local : Request → Step V Session
  unfolding bring_session_up
  start_local q = do
    built ← gets (λ c. l.builds q.problem q.seed c.world)
    call no_engine (λ v. (built, v))
    t ← gets (λ c. l.now c.world)
    save_record (local_record q t)
    mark_current q.seed
    bring_session_up q (local_record q t)

  abbrev pub ended_local : Session → Bool → Time → Session
  ended_local s purge t = record s { ended_at = t; evidence = if purge then [] else s.evidence }

  -- `cmdEnd` of a local session
  unfoldable pub end_local : Session → Bool → Step V Session
  unfolding close
  end_local s purge = do
    built ← gets (λ c. l.builds s.problem s.seed c.world)
    call no_engine (λ v. (built, v))
    attempt l.stop
    call not_down (l.down purge)
    t ← gets (λ c. l.now c.world)
    close (ended_local s purge t)
