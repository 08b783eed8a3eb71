-- ===== src/Cli/Live.antt =====
-- The local half of the commands' interface, from the engine (Debug.Engine) and the session stack
-- (Session.Stack), over one machine: the world, the state file, the pidfiles and the session's record.
pub mod Started
use interviews.Base.{
  ℕ, Bool, true, false, List, [], Option, none, some, Str, codes, Result, ok, err,
}
use interviews.Interview.Store.{Time}
use interviews.Debug.Engine.{
  Substrate, State, StateDoc, recorded, garbled, Machine, Engine, EngineError, up, break, down,
}
use interviews.Session.Stack.{Event, Info, StartOptions, Host, Desk, StartError}
use interviews.Session.Stack.Start.{Setup, start}
use interviews.Session.Stack.Stop.{stop}
use interviews.Cli.Commands.{Urls, Live}

pub record Bench (W : Type 0) : Type 0 where
  pub machine : Machine W
  pub pids : List (Str × Option ℕ)
  pub info : Option Info
  pub log : List Event

-- the state file as `LoadState` reads it
abbrev pub state_read : Option StateDoc → Option State
state_read none = none
state_read (some (recorded st)) = some st
state_read (some garbled) = none

abbrev pub desk : {W : Type 0} → Bench W → Desk W
desk v = record {
  world = v.machine.world;
  state = state_read v.machine.state;
  pids = v.pids;
  info = v.info;
  log = v.log;
}

abbrev pub put_desk : {W : Type 0} → Desk W → Bench W → Bench W
put_desk d v = record {
  machine = record v.machine { world = d.world };
  pids = d.pids;
  info = d.info;
  log = d.log;
}

abbrev pub is_ok : {E A : Type 0} → Result E A → Bool
is_ok (ok a) = true
is_ok (err e) = false

abbrev pub urls_of : Result StartError Info → Option Urls
urls_of (ok info) =
    some
      (record { candidate = info.candidate_url; observer = info.observer_url; app = info.app_url })
urls_of (err e) = none

module _ {W : Type 0} (b : Substrate W) (h : Host W) (e : Engine) (s : Setup) (opts : StartOptions)
    (fuel : ℕ) where
  -- a command of the engine, on the bench
  abbrev pub by_engine :
      {A : Type 0} → (Machine W → Result EngineError A × Machine W) → Bench W → Bool × Bench W
  by_engine f v = let (r, m) = f v.machine in (is_ok r, record v { machine = m })

  -- the calls of `start` and `end`; building the engine and the evidence pass of `Stop` are arguments
  unfoldable pub live :
      (Str → Str → Bench W → Bool)
      → (Desk W → Result StartError (Unit {0}) × Desk W)
      → Live (Bench W)
  live builds evidence = record {
    builds = builds;
    up = by_engine (up b e fuel);
    inject = by_engine (break b e);
    start = λ v. let (r, d) = start h s opts (desk v) in (urls_of r, put_desk d v);
    stop = λ v. let (r, d) = stop h s.name evidence (desk v) in (is_ok r, put_desk d v);
    down = λ purge. by_engine (λ m. down b e purge m);
    now = λ v. b.now v.machine.world;
  }
