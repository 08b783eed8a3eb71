-- ===== src/Debug/Engine.antt =====
-- internal/debug/engine.go: an environment from `Up` to `Down`. The machine is the state file of the
-- workdir and the world outside the program. What runs in the world (scripts, the provider, the
-- clock, the file system below the workdir) is a `Substrate`, a parameter here; a script leaves the
-- state file alone. The log and the provenance record are left out: no operation reads them back.
mod Types
pub mod Records
pub mod Outcomes
pub mod Verdicts
pub mod Teardown
pub mod Waits
unfoldable pub use Types.*
use interviews.Base.{
  ℕ, zero, suc, ◌+◌, Bool, true, false, ◌&&◌, ◌||◌, not, List, [], ◌∷◌, ◌++◌, Option, none, some,
  Str, codes, ◌==◌, elem, keep, any, map, ltb, ◌=?◌, Result, ok, err, if◌then◌else◌,
}
use interviews.Base.Exec.{Exec, pure, raise, ask, gets, ◌>>=◌, ◌>>◌}
use interviews.Interview.Store.{Time, is_zero}
use interviews.Debug.Scenario.{Tier, FaultSpec, Fault, script_path, pack_faults, find_fault}

-- one more fault on the record, once
unfoldable pub add_injected : Str → State → State
add_injected id st =
    if elem id st.injected then st else record st { injected = st.injected ++ id ∷ [] }

module _ {W : Type 0} (b : Substrate W) where
  abbrev pub script : Str → Bool → Outside W Exit
  script path fast = ask (b.run path fast)

  abbrev pub clock : Outside W Time
  clock = gets b.now

  -- `saveState`
  unfoldable pub save_state : State → Step W Unit
  save_state st m =
      let (good, w) = b.write_state m.world in
      if good
      then (ok tt, record { world = w; state = some (recorded st) })
      else (err write_failed, record m { world = w })

  -- `LoadState`
  abbrev pub load_state : Step W (Option State)
  load_state =
      gets λ m. elim (m.state) [ none ↦ none | some garbled ↦ none | some (recorded st) ↦ some st ]

  -- `liveState`
  abbrev pub only_live : Option State → Step W State
  only_live none = raise no_state
  only_live (some st) = if is_live st then pure st else raise (torn_down st.torn_down_at)

  abbrev pub live_state : Step W State
  live_state = load_state >>= only_live

  -- `sleep`
  abbrev pub sleep : ℕ → Outside W Unit
  sleep zero w = (ok tt, w)
  sleep (suc d) w = let w' = b.wait (suc d) w in (if b.cancelled w' then err stopped else ok tt, w')

  -- `check`
  unfoldable pub check : Fault → Outside W CheckState
  unfolding verdict
  check f = do e ← script (script_path f (codes "check.sh")) false; pure (verdict e)

  -- The loop of `VerifyWait`; `out_of_fuel` is no outcome of the code.
  unfoldable pub verify_until : Engine → Time → ℕ → Outside W Unit
  verify_until e deadline zero = raise out_of_fuel
  verify_until e deadline (suc fuel) = do
    exit ← script e.verify false
    if is_pass exit then pure tt else do
      stop ← gets b.cancelled
      guard (not stop) stopped
      t ← clock
      guard (not (ltb deadline t)) (not_verified exit)
      sleep e.poll_interval
      verify_until e deadline fuel

  -- `VerifyWait`
  unfoldable pub verify_wait : Engine → ℕ → Outside W Unit
  unfolding verify_until
  verify_wait e fuel = do t ← clock; verify_until e (t + e.verify_timeout) fuel

  abbrev pub some_pack : Option Str → Step W Str
  some_pack none = raise no_pack
  some_pack (some pack) = pure pack

  -- what `Up` carries over of an earlier record
  abbrev pub carried : Str → Option State → List Str
  carried pack none = []
  carried pack (some st) = if is_live st && st.pack == pack then st.injected else []

  -- `Up`, until the app is healthy
  unfoldable pub bring_up : Engine → ℕ → Outside W Unit
  unfolding verify_wait
  bring_up e fuel = do
    found ← ask b.detect
    guard found not_detected
    made ← ask b.make_workdir
    guard made write_failed
    started ← ask b.provider_up
    guard started up_failed
    verify_wait e fuel

  -- the record that `Up` writes
  abbrev pub fresh : Engine → Str → Option State → Time → State
  fresh e pack prev t = record {
    problem = e.problem;
    seed = e.seed;
    overrides = e.overrides;
    pack = pack;
    injected = carried pack prev;
    provider = e.provider;
    created_at = t;
    torn_down_at = 0;
  }

  -- `Up`, once the app is healthy
  unfoldable pub record_up : Engine → Step W Unit
  unfolding save_state
  record_up e = do
    pack ← some_pack e.pack
    prev ← load_state
    t ← on_world clock
    save_state (fresh e pack prev t)

  -- `Up`
  unfoldable pub up : Engine → ℕ → Step W Unit
  unfolding bring_up record_up
  up e fuel = on_world (bring_up e fuel) >> record_up e

  -- the branch of `Break` whose inject failed
  unfoldable pub give_up : Str → Exit → State → Step W Unit
  unfolding save_state
  give_up id exit st m =
      let (r, m') = save_state st m in (err (inject_failed id exit (is_err r)), m')

  -- the loop of `Break`
  unfoldable pub inject_all : List Fault → State → Step W Unit
  unfolding save_state add_injected give_up
  inject_all [] st = pure tt
  inject_all (f ∷ faults) st = do
    exit ← on_world (script (script_path f (codes "inject.sh")) false)
    if is_pass exit
        then save_state (add_injected f.spec.id st) >> inject_all faults (add_injected f.spec.id st)
        else give_up f.spec.id exit st

  -- `Break`
  unfoldable pub break : Engine → Step W Unit
  unfolding inject_all
  break e = do st ← live_state; inject_all (pack_faults e.faults st.pack) st

  -- the loop of `Status`
  unfoldable pub check_all : Engine → List Str → Outside W (List FaultStatus)
  unfolding check find_fault
  check_all e [] = pure []
  check_all e (id ∷ ids) = elim (find_fault e.faults id) [
    | none ↦ raise (unknown_fault id)
    | some f ↦ do
      s ← check f
      rest ← check_all e ids
      pure (record { id = id; title = f.spec.title; tier = f.spec.tier; state = s } ∷ rest)
  ]

  -- `Status`
  unfoldable pub status : Engine → Step W (List FaultStatus)
  unfolding check_all
  status e = do st ← live_state; on_world (check_all e st.injected)

  -- the loop of `Fix`
  unfoldable pub fix_all : Engine → Bool → List Str → Outside W Unit
  unfolding find_fault
  fix_all e fast [] = pure tt
  fix_all e fast (id ∷ ids) = elim (find_fault e.faults id) [
    | none ↦ raise (unknown_fault id)
    | some f ↦ do
      exit ← script (script_path f (codes "fix.sh")) fast
      guard (is_pass exit) (fix_failed id exit)
      fix_all e fast ids
  ]

  abbrev pub is_many : List Str → Bool
  is_many [] = false
  is_many (id ∷ []) = false
  is_many (id ∷ j ∷ ids) = true

  -- `Fix`, of one fault or of all of them
  unfoldable pub fix : Engine → Str → Step W Unit
  unfolding fix_all
  fix e id = do
    st ← live_state
    on_world (
        if id == [] then fix_all e (is_many st.injected) st.injected else fix_all e false (id ∷ []))

  abbrev pub remove_each : List Str → Outside W Unit
  remove_each [] = pure tt
  remove_each (name ∷ names) = do
    gone ← ask (b.remove name)
    guard gone remove_failed
    remove_each names

  abbrev pub stamp : Option State → Step W Unit
  stamp none = pure tt
  stamp (some st) =
      if is_live st
      then (do t ← on_world clock; save_state (record st { torn_down_at = t }))
      else pure tt

  -- `os.RemoveAll` of the workdir
  unfoldable pub remove_all : Step W Unit
  remove_all m =
      let (gone, w) = b.remove_workdir m.world in
      if gone
      then (ok tt, record { world = w; state = none })
      else (err remove_failed, record m { world = w })

  -- `Down`'s last step: an empty workdir goes too, once it holds no state file.
  unfoldable pub clear_away : List Str → Step W (List Str)
  unfolding remove_all
  clear_away [] = do
    bare ← gets (λ m. has_no_state m.state)
    if bare then remove_all >> pure [] else pure []
  clear_away (name ∷ names) = pure (name ∷ names)

  -- the end of `Down`, by how reading the workdir went
  unfoldable pub report_of : Listing → Step W (List Str)
  unfolding clear_away
  report_of not_there = pure []
  report_of unlistable = raise list_failed
  report_of listable = do kept ← gets (λ m. kept_names (b.entries m.world)); clear_away kept

  -- What `Down` says is left, by the names in the workdir; the source joins the workdir's path before each.
  unfoldable pub report : Step W (List Str)
  unfolding report_of
  report = do l ← gets (λ m. b.listing m.world); report_of l

  -- `Down` without purge, once the provider has torn the environment down
  unfoldable pub sweep : Step W (List Str)
  unfolding save_state report
  sweep = do on_world (remove_each engine_owned); load_state >>= stamp; report

  abbrev pub tear_down : Outside W Unit
  tear_down = do good ← ask b.provider_down; guard good down_failed

  -- `Down`
  unfoldable pub down : Engine → Bool → Step W (List Str)
  unfolding remove_all sweep
  down e purge = do on_world tear_down; if purge then remove_all >> pure [] else sweep
