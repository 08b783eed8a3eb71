-- ===== src/Debug/Prove.antt =====
-- internal/debug/prove.go: each fault breaks when injected and is fixed by its documented fix, then
-- the whole pack at once.
pub mod Cycle
pub mod Pack
pub mod Ends
use interviews.Base.{
  ℕ, zero, suc, ◌+◌, ◌*◌, Bool, true, false, not, List, [], ◌∷◌, Option, none, some, Str, codes,
  ltb, Result, ok, err, if◌then◌else◌,
}
use interviews.Base.Exec.{Exec, pure, raise, ask, gets, ◌>>=◌, ◌>>◌}
use interviews.Interview.Store.{Time}
use interviews.Debug.Scenario.{FaultSpec, Fault, script_path, pack_faults}
use interviews.Debug.Engine.{
  Exit, Substrate, Engine, CheckState, fixed, broken, cannot_run, EngineError, out_of_fuel, stopped,
  breaks_nothing, check_cannot_run, still_broken, inject_failed, fix_failed, verify_is_blind,
  not_recovered, no_faults, is_pass, second, Step, Outside, on_world, guard, script, clock, sleep,
  check, verify_wait, some_pack, up, break, fix,
}

-- `settleFor`
unfoldable pub settle_for : ℕ → List Fault → ℕ
settle_for settle [] = settle
settle_for settle (f ∷ faults) =
    let d = f.spec.settle_seconds * second in settle_for (if ltb settle d then d else settle) faults

abbrev pub fix_limit : ℕ → ℕ → ℕ
fix_limit default seconds = if ltb 0 seconds then seconds * second else default

abbrev pub expect_broken : {W : Type 0} → Str → CheckState → Outside W Unit
expect_broken id fixed = raise (breaks_nothing id)
expect_broken id broken = pure tt
expect_broken id cannot_run = raise (check_cannot_run id)

abbrev pub is_empty : List Fault → Bool
is_empty [] = true
is_empty (f ∷ faults) = false

abbrev pub rewrap : Result EngineError Unit → Result EngineError Unit
rewrap (ok u) = ok u
rewrap (err e) = err (not_recovered e)

-- the error that the last `VerifyWait` is wrapped in
abbrev pub or_not_recovered : {W : Type 0} → Outside W Unit → Outside W Unit
or_not_recovered step w = let (r, w') = step w in (rewrap r, w')

module _ {W : Type 0} (b : Substrate W) where
  -- one more turn of the polling loop, or its end
  abbrev pub converge : ℕ → Fault → Time → Outside W Unit → CheckState → Outside W Unit
  converge poll f deadline rest fixed = pure tt
  converge poll f deadline rest cannot_run = raise (check_cannot_run f.spec.id)
  converge poll f deadline rest broken = do
    stop ← gets b.cancelled
    guard (not stop) stopped
    t ← clock b
    guard (not (ltb deadline t)) (still_broken f.spec.id)
    sleep b poll
    rest

  -- The polling loop of `proveFault`; `out_of_fuel` is no outcome of the code.
  unfoldable pub fixed_until : ℕ → Fault → Time → ℕ → Outside W Unit
  unfolding check
  fixed_until poll f deadline zero = raise out_of_fuel
  fixed_until poll f deadline (suc fuel) =
      check b f >>= converge poll f deadline (fixed_until poll f deadline fuel)

  -- `proveFault` as far as the fault is seen broken
  unfoldable pub break_one : Engine → Fault → Outside W Unit
  unfolding check settle_for
  break_one e f = do
    exit ← script b (script_path f (codes "inject.sh")) false
    guard (is_pass exit) (inject_failed f.spec.id exit false)
    sleep b (settle_for e.settle (f ∷ []))
    check b f >>= expect_broken f.spec.id

  -- the rest of `proveFault`
  unfoldable pub fix_one : Engine → ℕ → Fault → Outside W Unit
  unfolding fixed_until
  fix_one e fuel f = do
    exit ← script b (script_path f (codes "fix.sh")) false
    guard (is_pass exit) (fix_failed f.spec.id exit)
    t ← clock b
    fixed_until e.poll_interval f (t + fix_limit e.fix_timeout f.spec.fix_timeout_seconds) fuel

  -- `proveFault`
  unfoldable pub prove_fault : Engine → ℕ → Fault → Outside W Unit
  unfolding break_one fix_one
  prove_fault e fuel f = break_one e f >> fix_one e fuel f

  unfoldable pub prove_each : Engine → ℕ → List Fault → Outside W Unit
  unfolding prove_fault
  prove_each e fuel [] = pure tt
  prove_each e fuel (f ∷ faults) = prove_fault e fuel f >> prove_each e fuel faults

  -- The pack has to take the app down.
  unfoldable pub must_fail : Engine → Outside W Unit
  must_fail e = do exit ← script b e.verify false; guard (not (is_pass exit)) verify_is_blind

  -- the full cycle of `Prove`
  unfoldable pub prove_pack : Engine → ℕ → List Fault → Step W Unit
  unfolding break fix settle_for must_fail verify_wait
  prove_pack e fuel faults = do
    break b e
    on_world (sleep b (settle_for e.settle faults))
    on_world (must_fail e)
    fix b e []
    on_world (or_not_recovered (verify_wait b e fuel))

  -- `Prove` of a pack
  unfoldable pub prove_of : Engine → ℕ → Str → Step W Unit
  unfolding pack_faults up prove_each prove_pack
  prove_of e fuel pack = do
    on_world (guard (not (is_empty (pack_faults e.faults pack))) (no_faults pack))
    up b e fuel
    on_world (prove_each e fuel (pack_faults e.faults pack))
    prove_pack e fuel (pack_faults e.faults pack)

  -- `Prove`
  unfoldable pub prove : Engine → ℕ → Step W Unit
  unfolding prove_of
  prove e fuel = some_pack b e.pack >>= prove_of e fuel
