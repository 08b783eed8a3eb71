-- ===== src/Debug/Tests.antt =====
-- Runs of the engine on a machine whose scripts set and clear one fault.
mod Scenarios
use interviews.Base.{
  ℕ, ◌+◌, ◌≤◌, ◌≡◌, ◌≢◌, inl, inr, Bool-cases, refl, Bool, true, false, not, List, [], ◌∷◌, keep,
  Memᴰ, some, Str, codes, ◌==◌, All, ok, err, if◌then◌else◌, arith,
}
use interviews.Interview.Store.{Time}
use interviews.Debug.Scenario.{easy, Fault, pack_faults, find_fault}
use interviews.Debug.Engine.{
  Exit, passed, exited, Entry, Substrate, listable, State, recorded, Machine, Engine, FaultStatus,
  inject_failed, verdict, add_injected, save_state, give_up, inject_all, break, verify_until,
  verify_wait, bring_up, record_up, up, check, status, fix_all, fix, sweep, report_of, report,
  clear_away, down, out_of_fuel,
}
use interviews.Debug.Engine.Records.{IsOnRecord, StoppedAt}
use interviews.Debug.Engine.Outcomes.{IsUp, break-keeps, break-lands, break-stops, up-carries}
use interviews.Debug.Engine.Verdicts.{IsKnown, Rows, status_ids, status-Rows}
use interviews.Debug.Engine.Waits.{HasClock, verify_wait-ends}
use interviews.Debug.Engine.Teardown.{HasFiles, Left, down-keeps}
use interviews.Debug.Prove.{
  settle_for, fixed_until, break_one, fix_one, prove_fault, prove_each, must_fail, prove_pack,
  prove_of, prove, is_empty,
}
use interviews.Debug.Prove.Ends.{prove_fault-ends}
use interviews.Debug.Prove.Pack.{HasProved, prove_lem}

record Bench : Type 0 where
  pub is_broken : Bool
  pub clock : ℕ
  pub files : List Entry

abbrev bench_run : Str → Bool → Bench → Exit × Bench
bench_run path fast w =
    if path == codes "a/inject.sh"
    then (passed, record w { is_broken = true })
    else if path == codes "a/fix.sh"
    then (passed, record w { is_broken = false })
    else if path == codes "c/inject.sh"
    then (exited 7, w)
    else (if w.is_broken then exited 1 else passed, w)

abbrev done : Bench → Bool × Bench
done w = (true, w)

abbrev bench : Substrate Bench
bench = record {
  run = bench_run;
  detect = done;
  provider_up = λ w. (
    true,
    record w { files = record { name = codes "rendered"; is_empty_dir = false } ∷ w.files },
  );
  provider_down = done;
  make_workdir = done;
  write_state = done;
  remove =
      λ name w. (true, record w { files = keep (λ (e : Entry). not (e.name == name)) w.files });
  remove_workdir = λ w. (true, record w { files = [] });
  listing = λ w. listable;
  entries = λ w. w.files;
  now = λ w. w.clock;
  wait = λ d w. record w { clock = w.clock + d };
  cancelled = λ w. false;
}

abbrev fault_of : Str → List Str → Fault
fault_of id packs = record {
  spec = record {
    id = id;
    title = codes "t";
    tier = easy;
    packs = packs;
    masks = [];
    settle_seconds = 0;
    fix_timeout_seconds = 0;
  };
  dir = id;
}

abbrev engine_of : Str → Engine
engine_of pack = record {
  problem = codes "shop";
  seed = codes "s1";
  overrides = [];
  pack = some pack;
  faults =
      fault_of (codes "a") (codes "p" ∷ codes "q" ∷ [])
      ∷ fault_of (codes "c") (codes "q" ∷ [])
      ∷ [];
  verify = codes "verify.sh";
  provider = codes "kind";
  settle = 0;
  poll_interval = 2;
  fix_timeout = 5;
  verify_timeout = 5;
}

abbrev state_of : Str → List Str → Time → State
state_of pack injected down_at = record {
  problem = codes "shop";
  seed = codes "s1";
  overrides = [];
  pack = pack;
  injected = injected;
  provider = codes "kind";
  created_at = 1;
  torn_down_at = down_at;
}

abbrev kept_file : Entry
kept_file = record { name = codes "score.json"; is_empty_dir = false }

abbrev machine : Bool → State → Machine Bench
machine is_broken st = record {
  world = record {
    is_broken = is_broken;
    clock = 10;
    files = kept_file ∷ record { name = codes "rendered"; is_empty_dir = false } ∷ [];
  };
  state = some (recorded st);
}

abbrev up_on : Str → List Str → Machine Bench
up_on pack injected = machine false (state_of pack injected 0)

up_on-IsUp :
    (pack : Str) (injected : List Str) → IsUp (up_on pack injected) (state_of pack injected 0)
up_on-IsUp pack injected = record { on_disk = refl; live = refl }

break-keeps_example :
    IsOnRecord
      ((break bench (engine_of (codes "p")) (up_on (codes "p") (codes "old" ∷ []))).1)
      (codes "old")
break-keeps_example =
    break-keeps bench (engine_of (codes "p")) (up_on (codes "p") (codes "old" ∷ []))
      (state_of (codes "p") (codes "old" ∷ []) 0) (codes "old")
      (up_on-IsUp (codes "p") (codes "old" ∷ [])) (Memᴰ.head refl)

break_p : (break bench (engine_of (codes "p")) (up_on (codes "p") [])).0 ≡ ok tt
unfolding break inject_all save_state add_injected give_up pack_faults ◌==◌
break_p = refl

break_q :
    (break bench (engine_of (codes "q")) (up_on (codes "q") [])).0
    ≡ err (inject_failed (codes "c") (exited 7) false)
unfolding break inject_all save_state add_injected give_up pack_faults ◌==◌
break_q = refl

break-stops_example :
    StoppedAt bench
      (pack_faults (engine_of (codes "q")).faults (codes "q"))
      (codes "c")
      ((break bench (engine_of (codes "q")) (up_on (codes "q") [])).1)
break-stops_example =
    break-stops bench (engine_of (codes "q")) (up_on (codes "q") []) (state_of (codes "q") [] 0)
      (codes "c") (exited 7) false (up_on-IsUp (codes "q") []) break_q

abbrev gone : Machine Bench
gone = machine false (state_of (codes "p") (codes "a" ∷ []) 5)

up_p : (up bench (engine_of (codes "p")) 9 (up_on (codes "p") (codes "a" ∷ []))).0 ≡ ok tt
unfolding up bring_up record_up verify_wait verify_until save_state ◌==◌
up_p = refl

up-carries_example :
    (st' : State) × IsUp
      ((up bench (engine_of (codes "p")) 9 (up_on (codes "p") (codes "a" ∷ []))).1)
      st'
    × (st'.injected ≡ codes "a" ∷ [])
up-carries_example =
    up-carries bench (engine_of (codes "p")) 9 (up_on (codes "p") (codes "a" ∷ []))
      (state_of (codes "p") (codes "a" ∷ []) 0) (up_on-IsUp (codes "p") (codes "a" ∷ [])) refl up_p

a_IsKnown : IsKnown (engine_of (codes "p")) (codes "a")
unfolding find_fault ◌==◌
a_IsKnown = record { fault = fault_of (codes "a") (codes "p" ∷ codes "q" ∷ []); found = refl }

status-Rows_example :
    (rows : List FaultStatus) × (w' : Bench) × (status bench
        (engine_of (codes "p"))
        (up_on (codes "p") (codes "a" ∷ []))
      ≡ (ok rows, record (up_on (codes "p") (codes "a" ∷ [])) { world = w' }))
    × (status_ids rows ≡ codes "a" ∷ [])
    × Rows bench
        (engine_of (codes "p"))
        (codes "a" ∷ [])
        (up_on (codes "p") (codes "a" ∷ [])).world
        rows
        w'
status-Rows_example =
    status-Rows bench (engine_of (codes "p")) (up_on (codes "p") (codes "a" ∷ []))
      (state_of (codes "p") (codes "a" ∷ []) 0) (up_on-IsUp (codes "p") (codes "a" ∷ []))
      (a_IsKnown, tt)

bench_run-clock :
    (path : Str) (fast : Bool) (w : Bench) → w.clock ≤ ((bench_run path fast w).1).clock
bench_run-clock path fast w = elim (Bool-cases (path == codes "a/inject.sh")) [
  | inl p ↦ rw p (ground arith)
  | inr p ↦ rw p (elim (Bool-cases (path == codes "a/fix.sh")) [
    | inl q ↦ rw q (ground arith)
    | inr q ↦ rw q (elim (Bool-cases (path == codes "c/inject.sh")) [
      | inl r ↦ rw r (ground arith)
      | inr r ↦ rw r (ground arith)
    ])
  ])
]

bench-HasClock : HasClock bench
bench-HasClock = record { waits = λ d w. ground arith; runs = bench_run-clock }

verify_p : (verify_wait bench (engine_of (codes "p")) 7 (up_on (codes "p") []).world).0 ≡ ok tt
unfolding verify_wait verify_until ◌==◌
verify_p = refl

bench-HasFiles : HasFiles bench
bench-HasFiles = record { removes = λ name w h. refl; none_there = λ w h. cc; writes = λ w. refl }

down_p :
    (down bench (engine_of (codes "p")) false (up_on (codes "p") [])).0
    ≡ ok (codes "score.json" ∷ [])
unfolding down sweep report report_of clear_away save_state ◌==◌
down_p = refl

down-keeps_example :
    Left bench bench-HasFiles
      (state_of (codes "p") [] 0)
      ((bench.provider_down ((up_on (codes "p") []).world)).1)
      (codes "score.json" ∷ [])
      ((down bench (engine_of (codes "p")) false (up_on (codes "p") [])).1)
down-keeps_example =
    down-keeps bench bench-HasFiles (engine_of (codes "p")) (up_on (codes "p") [])
      (state_of (codes "p") [] 0) (codes "score.json" ∷ []) (up_on-IsUp (codes "p") []) down_p

prove_p : (prove bench (engine_of (codes "p")) 9 (up_on (codes "p") [])).0 ≡ ok tt
unfolding prove prove_of up bring_up record_up verify_wait verify_until save_state prove_each
    prove_fault break_one fix_one fixed_until prove_pack must_fail break inject_all add_injected
    give_up fix fix_all pack_faults find_fault settle_for check verdict ◌==◌
prove_p = refl

prove_lem_example :
    (pack : Str) × (some (codes "p") ≡ some pack)
    × (is_empty (pack_faults (engine_of (codes "p")).faults pack) ≡ false)
    × HasProved bench
        (engine_of (codes "p"))
        9
        (pack_faults (engine_of (codes "p")).faults pack)
        (up_on (codes "p") [])
        (((prove bench (engine_of (codes "p")) 9 (up_on (codes "p") [])).1).world)
prove_lem_example = prove_lem bench (engine_of (codes "p")) 9 (up_on (codes "p") []) prove_p

prove_fault-ends_example :
    (prove_fault bench
      (engine_of (codes "p"))
      7
      (fault_of (codes "a") (codes "p" ∷ codes "q" ∷ []))
      (up_on (codes "p") []).world).0
    ≢ err out_of_fuel
prove_fault-ends_example =
    prove_fault-ends bench bench-HasClock (engine_of (codes "p")) 7
      (fault_of (codes "a") (codes "p" ∷ codes "q" ∷ [])) (up_on (codes "p") []).world
      (ground arith) (ground arith)
