-- ===== src/Debug/Prove/Pack.antt =====
-- What a green `Prove` has seen of the whole pack, after the faults.
use interviews.Base.{
  ℕ, ◌≡◌, refl, sym, ap, ◌∙◌, subst, inl, inr, false, not, List, [], ◌∷◌, Option, none, some, Str,
  Bool-cases, Result, ok, err,
}
use interviews.Base.Exec.{◌>>◌, >>=-returns}
use interviews.Debug.Scenario.{Fault, pack_faults}
use interviews.Debug.Engine.{
  Substrate, Engine, Machine, EngineError, is_pass, Outside, on_world, guard, sleep, verify_wait,
  some_pack, up, break, fix, no_faults,
}
use interviews.Debug.Engine.Waits.{HasPassed, verify_wait-passes}
use interviews.Debug.Prove.Cycle.{ProvedEach, prove_each-ProvedEach}
use interviews.Debug.Prove.{
  settle_for, is_empty, or_not_recovered, prove_each, must_fail, prove_pack, prove_of, prove,
  rewrap,
}

module _ {W : Type 0} (b : Substrate W) where
  -- the world in which the break of the whole pack has settled
  abbrev pub pack_settled : Engine → List Fault → Machine W → W
  pack_settled e faults m = (sleep b (settle_for e.settle faults) (((break b e m).1).world)).1

  -- the machine once the verify script has run with the pack in
  abbrev pub verified : Engine → List Fault → Machine W → Machine W
  verified e faults m = record (break b e m).1 {
    world = (b.run e.verify false (pack_settled e faults m)).1;
  }

  -- The whole pack's cycle, from a machine to the world that it leaves: break, wait, a verify run that fails, the fix
  -- of all, and runs of verify up to one that passes, each on the machine that the step before it left.
  pub record Recovered (e : Engine) (fuel : ℕ) (faults : List Fault) (m : Machine W) (w' : W)
      : Type 0 where
    pub breaks : (break b e m).0 ≡ ok tt
    pub fails : is_pass ((b.run e.verify false (pack_settled e faults m)).0) ≡ false
    pub fixes : (fix b e [] (verified e faults m)).0 ≡ ok tt
    pub waits : verify_wait b e fuel (((fix b e [] (verified e faults m)).1).world) ≡ (ok tt, w')
    pub recovers : HasPassed b e (ok tt, w')

  must_fail-fails :
      (e : Engine) (w : W)
      → (must_fail b e w).0 ≡ ok tt
      → (is_pass ((b.run e.verify false w).0) ≡ false)
        × ((must_fail b e w).1 ≡ (b.run e.verify false w).1)
  unfolding must_fail
  must_fail-fails e w = elim (Bool-cases (is_pass ((b.run e.verify false w).0))) [
    | inl q ↦ rw q (λ h. cc)
    | inr q ↦ rw q (λ h. (refl, refl))
  ]

  or_not_recovered-returns :
      (step : Outside W Unit) (w : W)
      → (or_not_recovered step w).0 ≡ ok tt
      → ((step w).0 ≡ ok tt) × ((or_not_recovered step w).1 ≡ (step w).1)
  or_not_recovered-returns step w h = go ((step w).0) ((step w).1) h
    where
      go : (r : Result EngineError Unit) (w' : W) → rewrap r ≡ ok tt → (r ≡ ok tt) × (w' ≡ w')
      go (ok u) w' h = (refl, refl)
      go (err e) w' h = cc

  -- the last part of the cycle, from the machine that the verify run left
  repairs :
      (e : Engine) (fuel : ℕ) (n : Machine W)
      → ((fix b e [] >> on_world (or_not_recovered (verify_wait b e fuel))) n).0 ≡ ok tt
      → ((fix b e [] n).0 ≡ ok tt)
        × (verify_wait b e fuel (((fix b e [] n).1).world) ≡ (
          ok tt,
          (((fix b e [] >> on_world (or_not_recovered (verify_wait b e fuel))) n).1).world,
        ))
  repairs e fuel n h =
      let last = on_world (or_not_recovered (verify_wait b e fuel)) in
      let (_, h1, h2, q) = >>=-returns (fix b e []) (λ _. last) n h in
      let n' = (fix b e [] n).1 in
      let (h3, stays) = or_not_recovered-returns (verify_wait b e fuel) n'.world h2 in
      (h1, cc (h3, ap (λ r. (r.1).world) q, stays))

  prove_pack-Recovered :
      (e : Engine) (fuel : ℕ) (faults : List Fault) (m : Machine W)
      → (prove_pack b e fuel faults m).0 ≡ ok tt
      → Recovered e fuel faults m (((prove_pack b e fuel faults m).1).world)
  unfolding prove_pack HasPassed
  prove_pack-Recovered e fuel faults m h =
      let wait = on_world (sleep b (settle_for e.settle faults)) in
      let fail = on_world (must_fail b e) in
      let end = fix b e [] >> on_world (or_not_recovered (verify_wait b e fuel)) in
      let (_, broke, h1, q1) = >>=-returns (break b e) (λ _. wait >> (fail >> end)) m h in
      let m1 = (break b e m).1 in
      let (_, _, h2, q2) = >>=-returns wait (λ _. fail >> end) m1 h1 in
      let m2 = (wait m1).1 in
      let (_, f3, h3, q3) = >>=-returns fail (λ _. end) m2 h2 in
      let (down, ran) = must_fail-fails e m2.world f3 in
      let same : (fail m2).1 ≡ verified e faults m = ap (λ (w : W). record m2 { world = w }) ran in
      let (fixes, waits) =
        repairs e fuel (verified e faults m) (ap (λ n. (end n).0) (sym same) ∙ h3) in
      let final =
        ap (λ n. ((end n).1).world) (sym same) ∙ sym (ap (λ r. (r.1).world) (q1 ∙ q2 ∙ q3)) in
      let m4 = (fix b e [] (verified e faults m)).1 in
      let ended = waits ∙ ap (λ w. (ok tt, w)) final in
      let (w0, at, pass) = verify_wait-passes b e fuel m4.world (ap (λ r. r.0) ended) in
      record {
        breaks = broke;
        fails = down;
        fixes = fixes;
        waits = ended;
        recovers = (w0, ap (λ w. (ok tt, w)) (sym (ap (λ r. r.1) ended) ∙ ap (λ r. r.1) at), pass);
      }

  some_pack-returns :
      (p : Option Str) (m : Machine W) {pack : Str}
      → (some_pack b p m).0 ≡ ok pack
      → (p ≡ some pack) × ((some_pack b p m).1 ≡ m)
  some_pack-returns none m h = cc
  some_pack-returns (some q) m h = (cc, refl)

  guard-empty :
      (faults : List Fault) (x : EngineError) (w : W)
      → (guard (not (is_empty faults)) x w).0 ≡ ok tt
      → (is_empty faults ≡ false) × ((guard (not (is_empty faults)) x w).1 ≡ w)
  guard-empty [] x w h = cc
  guard-empty (f ∷ faults) x w h = (refl, refl)

  -- the run of a pack that has faults: up, each fault's cycle, and then the pack's
  pub record HasProved (e : Engine) (fuel : ℕ) (faults : List Fault) (m : Machine W) (w' : W)
      : Type 0 where
    pub comes_up : (up b e fuel m).0 ≡ ok tt
    pub between : W
    pub each : ProvedEach b e faults (((up b e fuel m).1).world) between
    pub whole : Recovered e fuel faults (record (up b e fuel m).1 { world = between }) w'

  cycles-HasProved :
      (e : Engine) (fuel : ℕ) (faults : List Fault) (m : Machine W)
      → ((up b e fuel >> (on_world (prove_each b e fuel faults) >> prove_pack b e fuel faults)) m).0
        ≡ ok tt
      → HasProved e fuel faults m (
          (((up b e fuel >> (on_world (prove_each b e fuel faults) >> prove_pack b e fuel faults))
            m).1
          ).world)
  cycles-HasProved e fuel faults m h =
      let each = on_world (prove_each b e fuel faults) in
      let all = prove_pack b e fuel faults in
      let (_, came, h2, q2) = >>=-returns (up b e fuel) (λ _. each >> all) m h in
      let m2 = (up b e fuel m).1 in
      let (_, each_ok, h3, q3) = >>=-returns each (λ _. all) m2 h2 in
      let w = (prove_each b e fuel faults m2.world).1 in
      let m3 = record m2 { world = w } in
      record {
        comes_up = came;
        between = w;
        each = prove_each-ProvedEach b e fuel faults m2.world each_ok;
        whole =
            subst (λ r. Recovered e fuel faults m3 ((r.1).world)) (sym (q2 ∙ q3))
              (prove_pack-Recovered e fuel faults m3 h3);
      }

  -- A `Prove` that returns has a pack with at least one fault, and brought the environment up. Then each of its faults
  -- in turn was injected, checked broken, fixed by its own fix and checked fixed. Then the whole pack was broken, the
  -- verify script failed, all was fixed, and verify has just passed at the end. Each of these steps ran in the world
  -- that the one before it left.
  pub prove_lem :
      (e : Engine) (fuel : ℕ) (m : Machine W)
      → (prove b e fuel m).0 ≡ ok tt
      → (pack : Str) × (e.pack ≡ some pack)
        × (is_empty (pack_faults e.faults pack) ≡ false)
        × HasProved e fuel (pack_faults e.faults pack) m (((prove b e fuel m).1).world)
  unfolding prove prove_of
  prove_lem e fuel m h =
      let (pack, q, h0, same) = >>=-returns (some_pack b e.pack) (prove_of b e fuel) m h in
      let (named, stays) = some_pack-returns e.pack m q in
      let faults = pack_faults e.faults pack in
      let m0 = (some_pack b e.pack m).1 in
      let some_fault = guard (not (is_empty faults)) (no_faults pack) in
      let run =
        up b e fuel >> (on_world (prove_each b e fuel faults) >> prove_pack b e fuel faults) in
      let (_, g, h1, q1) = >>=-returns (on_world some_fault) (λ _. run) m0 h0 in
      let m1 = (on_world some_fault m0).1 in
      let (filled, kept) = guard-empty faults (no_faults pack) m0.world g in
      let unmoved : m1 ≡ m = ap (λ (w : W). record m0 { world = w }) kept ∙ stays in
      (
        pack,
        named,
        filled,
        subst (λ n. HasProved e fuel faults n (((prove b e fuel m).1).world)) unmoved
            (subst (λ r. HasProved e fuel faults m1 ((r.1).world)) (sym (same ∙ q1))
              (cycles-HasProved e fuel faults m1 h1)),
      )
