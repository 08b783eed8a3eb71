-- ===== src/Debug/Prove/Cycle.antt =====
-- What a green cycle of one fault has seen.
use interviews.Base.{
  ℕ, zero, suc, ◌+◌, ◌≡◌, refl, sym, ap, ◌∙◌, subst, ◌⊎◌, inl, inr, true, false, List, [], ◌∷◌, Str,
  codes, Bool-cases, ok, ltb,
}
use interviews.Base.Exec.{◌>>=◌, ◌>>◌, >>=-returns}
use interviews.Interview.Store.{Time}
use interviews.Debug.Scenario.{Fault, script_path}
use interviews.Debug.Engine.{
  Exit, Substrate, Engine, CheckState, fixed, broken, cannot_run, EngineError, inject_failed,
  fix_failed, is_pass, Outside, guard, script, clock, sleep, check,
}
use interviews.Debug.Prove.{
  settle_for, fix_limit, expect_broken, converge, fixed_until, break_one, fix_one, prove_fault,
  prove_each,
}

module _ {W : Type 0} (b : Substrate W) where
  -- the world in which the inject of a fault has settled
  abbrev pub settled_in : Engine → Fault → W → W
  settled_in e f w =
      (sleep b (settle_for e.settle (f ∷ []))
        ((b.run (script_path f (codes "inject.sh")) false w).1)).1

  -- the polling loop: a check, and while it says broken a wait and the next one
  pub data Polls (poll : ℕ) (f : Fault) : W → W → Type 0 where
    here : (w : W) → Polls poll f w w
    again :
        (w w' : W)
        → (check b f w).0 ≡ ok broken
        → Polls poll f ((sleep b poll ((check b f w).1)).1) w'
        → Polls poll f w w'

  -- One fault's cycle, from a world to the one that it leaves: inject, wait, a check that says broken, fix, and
  -- checks up to one that says fixed, each in the world that the step before it left.
  pub record Proved (e : Engine) (f : Fault) (w w' : W) : Type 0 where
    pub injects : is_pass ((b.run (script_path f (codes "inject.sh")) false w).0) ≡ true
    pub breaks : (check b f (settled_in e f w)).0 ≡ ok broken
    pub repair : W
    pub from_break : repair ≡ (check b f (settled_in e f w)).1
    pub fixes : is_pass ((b.run (script_path f (codes "fix.sh")) false repair).0) ≡ true
    pub finish : W
    pub polls :
        Polls e.poll_interval f ((b.run (script_path f (codes "fix.sh")) false repair).1) finish
    pub recovers : (check b f finish).0 ≡ ok fixed
    pub ends : w' ≡ (check b f finish).1

  -- the cycles of the faults, one after the other
  abbrev pub ProvedEach : Engine → List Fault → W → W → Type 0
  ProvedEach e [] w w' = w' ≡ w
  ProvedEach e (f ∷ faults) w w' = (v : W) × Proved e f w v × ProvedEach e faults v w'

  -- a script that has to pass, and what comes after it
  passes_then :
      {A : Type 0} (path : Str) (x : Exit → EngineError) (rest : Outside W A) (w : W) {a : A}
      → ((script b path false >>= λ exit. guard (is_pass exit) (x exit) >> rest) w).0 ≡ ok a
      → (is_pass ((b.run path false w).0) ≡ true)
        × ((rest ((b.run path false w).1)).0 ≡ ok a)
        × ((script b path false >>= λ exit. guard (is_pass exit) (x exit) >> rest) w
            ≡ rest ((b.run path false w).1))
  passes_then path x rest w = elim (Bool-cases (is_pass ((b.run path false w).0))) [
    | inl q ↦ rw q (λ h. (refl, h, refl))
    | inr q ↦ rw q (λ h. cc)
  ]

  expect_broken-ok :
      (id : Str) (c : CheckState) (w : W)
      → (expect_broken id c w).0 ≡ ok tt
      → (c ≡ broken) × ((expect_broken id c w).1 ≡ w)
  expect_broken-ok id fixed w h = cc
  expect_broken-ok id broken w h = (refl, refl)
  expect_broken-ok id cannot_run w h = cc

  converge-returns :
      (poll : ℕ) (f : Fault) (deadline : Time) (rest : Outside W Unit) (c : CheckState) (w : W)
      → (converge b poll f deadline rest c w).0 ≡ ok tt
      → ((c ≡ fixed) × ((converge b poll f deadline rest c w).1 ≡ w))
        ⊎ ((c ≡ broken)
            × ((rest ((sleep b poll w).1)).0 ≡ ok tt)
            × (converge b poll f deadline rest c w ≡ rest ((sleep b poll w).1)))
  converge-returns poll f deadline rest fixed w = λ h. inl (refl, refl)
  converge-returns poll f deadline rest cannot_run w = λ h. cc
  converge-returns poll f deadline rest broken w = elim (Bool-cases (b.cancelled w)) [
    | inl k ↦ rw k (λ h. cc)
    | inr k ↦ rw k (elim (Bool-cases (ltb deadline (b.now w))) [
      | inl t ↦ rw t (λ h. cc)
      | inr t ↦ rw t (λ h.
          let (_, _, went, q) = >>=-returns (sleep b poll) (λ _. rest) w h in inr (refl, went, q))
    ])
  ]

  fixed_until-fixes :
      (poll : ℕ) (f : Fault) (deadline : Time) (fuel : ℕ) (w : W)
      → (fixed_until b poll f deadline fuel w).0 ≡ ok tt
      → (w' : W) × Polls poll f w w'
        × ((check b f w').0 ≡ ok fixed)
        × ((fixed_until b poll f deadline fuel w).1 ≡ (check b f w').1)
  unfolding fixed_until
  fixed_until-fixes poll f deadline zero w h = cc
  fixed_until-fixes poll f deadline (suc fuel) w h =
      let rest = fixed_until b poll f deadline fuel in
      let (c, ran, went, q) = >>=-returns (check b f) (converge b poll f deadline rest) w h in
      elim (converge-returns poll f deadline rest c ((check b f w).1) went) [
        | inl (s, stays) ↦ (w, here w, ran ∙ ap ok s, ap (λ r. r.1) q ∙ stays)
        | inr (s, more, goes) ↦
            let (w', polls, done, ends) =
              fixed_until-fixes poll f deadline fuel ((sleep b poll ((check b f w).1)).1) more in
            (w', again w w' (ran ∙ ap ok s) polls, done, ap (λ r. r.1) (q ∙ goes) ∙ ends)
      ]

  break_one-breaks :
      (e : Engine) (f : Fault) (w : W)
      → (break_one b e f w).0 ≡ ok tt
      → (is_pass ((b.run (script_path f (codes "inject.sh")) false w).0) ≡ true)
        × ((check b f (settled_in e f w)).0 ≡ ok broken)
        × ((break_one b e f w).1 ≡ (check b f (settled_in e f w)).1)
  unfolding break_one
  break_one-breaks e f w h =
      let look = check b f >>= expect_broken f.spec.id in
      let wait = sleep b (settle_for e.settle (f ∷ [])) in
      let inject = script_path f (codes "inject.sh") in
      let (injects, h1, q1) =
        passes_then inject (λ x. inject_failed f.spec.id x false) (wait >> look) w h in
      let w1 = (b.run inject false w).1 in
      let (_, _, h2, q2) = >>=-returns wait (λ _. look) w1 h1 in
      let w2 = settled_in e f w in
      let (c, saw, h3, q3) = >>=-returns (check b f) (expect_broken f.spec.id) w2 h2 in
      let (said, stays) = expect_broken-ok f.spec.id c ((check b f w2).1) h3 in
      (injects, saw ∙ ap ok said, ap (λ r. r.1) (q1 ∙ q2 ∙ q3) ∙ stays)

  prove_fault-Proved :
      (e : Engine) (fuel : ℕ) (f : Fault) (w : W)
      → (prove_fault b e fuel f w).0 ≡ ok tt
      → Proved e f w ((prove_fault b e fuel f w).1)
  unfolding prove_fault fix_one
  prove_fault-Proved e fuel f w h =
      let (_, h1, h2, q) = >>=-returns (break_one b e f) (λ _. fix_one b e fuel f) w h in
      let (injects, breaks, left) = break_one-breaks e f w h1 in
      let w3 = (break_one b e f w).1 in
      let limit = fix_limit e.fix_timeout f.spec.fix_timeout_seconds in
      let (fixes, h3, q3) =
        passes_then (script_path f (codes "fix.sh")) (λ x. fix_failed f.spec.id x)
          (clock b >>= λ t. fixed_until b e.poll_interval f (t + limit) fuel) w3 h2 in
      let w4 = (b.run (script_path f (codes "fix.sh")) false w3).1 in
      let (w5, polls, done, ends) =
        fixed_until-fixes e.poll_interval f (b.now w4 + limit) fuel w4 h3 in
      record {
        injects = injects;
        breaks = breaks;
        repair = w3;
        from_break = left;
        fixes = fixes;
        finish = w5;
        polls = polls;
        recovers = done;
        ends = ap (λ r. r.1) (q ∙ q3) ∙ ends;
      }

  pub prove_each-ProvedEach :
      (e : Engine) (fuel : ℕ) (faults : List Fault) (w : W)
      → (prove_each b e fuel faults w).0 ≡ ok tt
      → ProvedEach e faults w ((prove_each b e fuel faults w).1)
  unfolding prove_each
  prove_each-ProvedEach e fuel [] w h = refl
  prove_each-ProvedEach e fuel (f ∷ faults) w h =
      let (_, h1, h2, q) =
        >>=-returns (prove_fault b e fuel f) (λ _. prove_each b e fuel faults) w h in
      let v = (prove_fault b e fuel f w).1 in
      (
        v,
        prove_fault-Proved e fuel f w h1,
        subst (ProvedEach e faults v) (sym (ap (λ r. r.1) q))
            (prove_each-ProvedEach e fuel faults v h2),
      )
