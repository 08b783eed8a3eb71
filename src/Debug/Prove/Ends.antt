-- ===== src/Debug/Prove/Ends.antt =====
-- The polling loop of `proveFault` ends.
use interviews.Base.{
  ℕ, zero, suc, ◌+◌, ◌≤◌, ◌<◌, ◌≡◌, ◌≢◌, inl, inr, false, [], ◌∷◌, Str, codes, Bool-cases, ltb,
  Result, err, arith,
}
use interviews.Base.Exec.{◌>>=◌, ◌>>◌, >>=-avoids}
use interviews.Interview.Store.{Time}
use interviews.Debug.Scenario.{Fault, script_path}
use interviews.Debug.Engine.{
  Exit, Substrate, Engine, EngineError, out_of_fuel, inject_failed, fix_failed, CheckState, fixed,
  broken, cannot_run, is_pass, Outside, guard, script, clock, sleep, check,
}
use interviews.Debug.Engine.Waits.{HasClock, sleep-later, sleep-avoids, ltb-false}
use interviews.Debug.Prove.{
  settle_for, fix_limit, expect_broken, converge, fixed_until, break_one, fix_one, prove_fault,
}

err-inj : (x y : EngineError) → Path (Result EngineError Unit) (err x) (err y) → x ≡ y
err-inj x y h = cc

module _ {W : Type 0} (b : Substrate W) (c : HasClock b) where
  -- a script that has to pass, and what comes after it
  run-avoids :
      (path : Str) (x : Exit → EngineError) (rest : Outside W Unit) (w : W)
      → ((q : Exit) → x q ≢ out_of_fuel)
      → (rest ((b.run path false w).1)).0 ≢ err out_of_fuel
      → ((script b path false >>= λ exit. guard (is_pass exit) (x exit) >> rest) w).0
        ≢ err out_of_fuel
  run-avoids path x rest w other after = elim (Bool-cases (is_pass ((b.run path false w).0))) [
    | inl q ↦ rw q after
    | inr q ↦
        rw q
          (λ h. other ((b.run path false w).0) (err-inj (x ((b.run path false w).0)) out_of_fuel h))
  ]

  expect_broken-avoids :
      (id : Str) (s : CheckState) (w : W) → (expect_broken id s w).0 ≢ err out_of_fuel
  expect_broken-avoids id fixed w = λ h. cc
  expect_broken-avoids id broken w = λ h. cc
  expect_broken-avoids id cannot_run w = λ h. cc

  converge-avoids :
      (poll : ℕ) (f : Fault) (deadline : Time) (rest : Outside W Unit) (s : CheckState) (w : W)
      → zero < poll
      → ((w2 : W) → b.now w ≤ deadline → b.now w < b.now w2 → (rest w2).0 ≢ err out_of_fuel)
      → (converge b poll f deadline rest s w).0 ≢ err out_of_fuel
  converge-avoids poll f deadline rest fixed w p more = λ h. cc
  converge-avoids poll f deadline rest cannot_run w p more = λ h. cc
  converge-avoids poll f deadline rest broken w p more = elim (Bool-cases (b.cancelled w)) [
    | inl k ↦ rw k (λ h. cc)
    | inr k ↦ rw k (elim (Bool-cases (ltb deadline (b.now w))) [
      | inl t ↦ rw t (λ h. cc)
      | inr t ↦ rw t (
          >>=-avoids (sleep b poll) (λ _. rest) w out_of_fuel (sleep-avoids b c poll w)
            (λ u _.
              more ((sleep b poll w).1) (ltb-false deadline (b.now w) t)
                (sleep-later b c poll w p)))
    ])
  ]

  fixed_until-ends :
      (poll : ℕ) (f : Fault) (deadline : Time) (fuel : ℕ) (w : W)
      → zero < poll
      → deadline < b.now w + fuel
      → (fixed_until b poll f deadline (suc fuel) w).0 ≢ err out_of_fuel
  unfolding fixed_until check
  fixed_until-ends poll f deadline zero w p h =
      >>=-avoids (check b f) (converge b poll f deadline (fixed_until b poll f deadline zero)) w
        out_of_fuel (λ h. cc)
        (λ s _.
          converge-avoids poll f deadline (fixed_until b poll f deadline zero) s ((check b f w).1) p
            (λ w2 l _. ground (arith, c.runs (script_path f (codes "check.sh")) false w)))
  fixed_until-ends poll f deadline (suc k) w p h =
      >>=-avoids (check b f) (converge b poll f deadline (fixed_until b poll f deadline (suc k))) w
        out_of_fuel (λ h. cc)
        (λ s _.
          converge-avoids poll f deadline (fixed_until b poll f deadline (suc k)) s
            ((check b f w).1) p
            (λ w2 l m.
              fixed_until-ends poll f deadline k w2 p
                (ground (arith, c.runs (script_path f (codes "check.sh")) false w))))

  break_one-ends : (e : Engine) (f : Fault) (w : W) → (break_one b e f w).0 ≢ err out_of_fuel
  unfolding break_one check
  break_one-ends e f w =
      let settle = sleep b (settle_for e.settle (f ∷ [])) in
      let look = check b f >>= expect_broken f.spec.id in
      let w1 = (b.run (script_path f (codes "inject.sh")) false w).1 in
      let w2 = (settle w1).1 in
      run-avoids (script_path f (codes "inject.sh")) (λ x. inject_failed f.spec.id x false)
        (settle >> look) w (λ q h. cc)
        (>>=-avoids settle (λ _. look) w1 out_of_fuel
          (sleep-avoids b c (settle_for e.settle (f ∷ [])) w1)
          (λ _ _.
            >>=-avoids (check b f) (expect_broken f.spec.id) w2 out_of_fuel (λ h. cc)
              (λ s _. expect_broken-avoids f.spec.id s ((check b f w2).1))))

  fix_one-ends :
      (e : Engine) (fuel : ℕ) (f : Fault) (w : W)
      → zero < e.poll_interval
      → fix_limit e.fix_timeout f.spec.fix_timeout_seconds < fuel
      → (fix_one b e (suc fuel) f w).0 ≢ err out_of_fuel
  unfolding fix_one
  fix_one-ends e fuel f w p h =
      let limit = fix_limit e.fix_timeout f.spec.fix_timeout_seconds in
      let w1 = (b.run (script_path f (codes "fix.sh")) false w).1 in
      run-avoids (script_path f (codes "fix.sh")) (λ x. fix_failed f.spec.id x)
        (clock b >>= λ t. fixed_until b e.poll_interval f (t + limit) (suc fuel)) w (λ q h. cc)
        (fixed_until-ends e.poll_interval f (b.now w1 + limit) fuel w1 p
          (below (b.now w1) limit fuel h))
    where
      below : (t l k : ℕ) → l < k → t + l < t + k
      below t l k h = ground arith

  -- On a clock that runs forward and with a poll interval that is not zero, fuel for each unit of the fault's fix
  -- timeout and two more brings `proveFault` to an outcome of the code.
  pub prove_fault-ends :
      (e : Engine) (fuel : ℕ) (f : Fault) (w : W)
      → zero < e.poll_interval
      → fix_limit e.fix_timeout f.spec.fix_timeout_seconds + 2 ≤ fuel
      → (prove_fault b e fuel f w).0 ≢ err out_of_fuel
  unfolding prove_fault
  prove_fault-ends e zero f w p h =
      absurd (no_room (fix_limit e.fix_timeout f.spec.fix_timeout_seconds) h)
    where
      no_room : (l : ℕ) → l + 2 ≤ zero → ⊥
      no_room l h = ground arith
  prove_fault-ends e (suc fuel) f w p h =
      >>=-avoids (break_one b e f) (λ _. fix_one b e (suc fuel) f) w out_of_fuel
        (break_one-ends e f w)
        (λ _ _.
          fix_one-ends e fuel f ((break_one b e f w).1) p
            (room (fix_limit e.fix_timeout f.spec.fix_timeout_seconds) fuel h))
    where
      room : (l k : ℕ) → l + 2 ≤ suc k → l < k
      room l k h = ground arith
