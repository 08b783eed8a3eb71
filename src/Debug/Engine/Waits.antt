-- ===== src/Debug/Engine/Waits.antt =====
-- The polling loop of `VerifyWait`.
use interviews.Base.{
  ℕ, zero, suc, ◌+◌, ◌≤◌, ◌<◌, ◌≡◌, refl, sym, subst, ◌≢◌, inl, inr, Bool, true, false, Str,
  Bool-cases, ltb, lt→ltb, Result, ok, err, arith,
}
use interviews.Base.Exec.{>>=-avoids, >>=-returns}
use interviews.Interview.Store.{Time}
use interviews.Debug.Engine.{
  Exit, passed, not_a_process, exited, Substrate, Engine, EngineError, out_of_fuel, is_pass, sleep,
  verify_until, verify_wait,
}

pub ltb-false : (a b : ℕ) → ltb a b ≡ false → b ≤ a
ltb-false a b h = ground (arith, lt→ltb a b)

-- What the loop relies on of the system's clock.
pub record HasClock {W : Type 0} (b : Substrate W) : Type 0 where
  pub waits : (d : ℕ) (w : W) → b.now w + d ≤ b.now (b.wait d w)
  pub runs : (path : Str) (fast : Bool) (w : W) → b.now w ≤ b.now ((b.run path fast w).1)

module _ {W : Type 0} (b : Substrate W) (c : HasClock b) where
  pub sleep-later : (d : ℕ) (w : W) → zero < d → b.now w < b.now ((sleep b d w).1)
  sleep-later zero w h = elim h [ ]
  sleep-later (suc d) w h = ground (arith, c.waits (suc d) w)

  pub sleep-avoids : (d : ℕ) (w : W) → (sleep b d w).0 ≢ err out_of_fuel
  sleep-avoids zero w = λ h. cc
  sleep-avoids (suc d) w = elim (Bool-cases (b.cancelled (b.wait (suc d) w))) [
    | inl q ↦ rw q (λ h. cc)
    | inr q ↦ rw q (λ h. cc)
  ]

  module _ (e : Engine) (poll : zero < e.poll_interval) where
    verify_until-step :
        (deadline : Time) (fuel : ℕ) (w : W)
        → ((w2 : W)
            → b.now ((b.run e.verify false w).1) ≤ deadline
            → b.now ((b.run e.verify false w).1) < b.now w2
            → (verify_until b e deadline fuel w2).0 ≢ err out_of_fuel)
        → (verify_until b e deadline (suc fuel) w).0 ≢ err out_of_fuel
    unfolding verify_until
    verify_until-step deadline fuel w more =
        let w1 = (b.run e.verify false w).1 in
        elim (Bool-cases (is_pass ((b.run e.verify false w).0))) [
          | inl q ↦ rw (q, verify_until) (λ h. cc)
          | inr q ↦
              rw (q, verify_until)
                (elim (Bool-cases (b.cancelled w1)) [
                  | inl k ↦ rw k (λ h. cc)
                  | inr k ↦ rw k (elim (Bool-cases (ltb deadline (b.now w1))) [
                    | inl t ↦ rw t (λ h. cc)
                    | inr t ↦ rw t (
                        >>=-avoids (sleep b e.poll_interval) (λ _. verify_until b e deadline fuel)
                          w1 out_of_fuel (sleep-avoids e.poll_interval w1)
                          (λ u _.
                            more ((sleep b e.poll_interval w1).1) (ltb-false deadline (b.now w1) t)
                              (sleep-later e.poll_interval w1 poll)))
                  ])
                ])
        ]

    verify_until-ends :
        (deadline : Time) (fuel : ℕ) (w : W)
        → deadline < b.now w + fuel
        → (verify_until b e deadline (suc fuel) w).0 ≢ err out_of_fuel
    verify_until-ends deadline zero w h =
        verify_until-step deadline zero w (λ w2 t l. ground (arith, c.runs e.verify false w))
    verify_until-ends deadline (suc k) w h =
        verify_until-step deadline (suc k) w
          (λ w2 t l. verify_until-ends deadline k w2 (ground (arith, c.runs e.verify false w)))

    -- With fuel for each unit of the timeout and two more, `VerifyWait` ends with an outcome of the code: the clock
    -- runs forward, a wait lasts at least as long as it is asked to, and the poll interval is not zero.
    pub verify_wait-ends :
        (fuel : ℕ) (w : W)
        → e.verify_timeout + 2 ≤ fuel
        → (verify_wait b e fuel w).0 ≢ err out_of_fuel
    unfolding verify_wait
    verify_wait-ends zero w h = ground arith
    verify_wait-ends (suc fuel) w h =
        verify_until-ends (b.now w + e.verify_timeout) fuel w (ground arith)

is_pass→passed : (x : Exit) → is_pass x ≡ true → x ≡ passed
is_pass→passed passed h = refl
is_pass→passed not_a_process h = cc
is_pass→passed (exited n) h = cc

module _ {W : Type 0} (b : Substrate W) (e : Engine) where
  -- The verify script has just passed.
  unfoldable pub HasPassed : Result EngineError Unit × W → Type 0
  HasPassed r =
      (w0 : W) × (r ≡ (ok tt, (b.run e.verify false w0).1)) × ((b.run e.verify false w0).0 ≡ passed)

  verify_until-passes :
      (deadline : Time) (fuel : ℕ) (w : W)
      → (verify_until b e deadline fuel w).0 ≡ ok tt
      → HasPassed (verify_until b e deadline fuel w)
  unfolding verify_until HasPassed
  verify_until-passes deadline zero w = λ h. cc
  verify_until-passes deadline (suc fuel) w =
      let w1 = (b.run e.verify false w).1 in
      elim (Bool-cases (is_pass ((b.run e.verify false w).0))) [
        | inl q ↦
            rw (q, verify_until) (λ h. (w, refl, is_pass→passed ((b.run e.verify false w).0) q))
        | inr q ↦
            rw (q, verify_until)
              (elim (Bool-cases (b.cancelled w1)) [
                | inl k ↦ rw k (λ h. cc)
                | inr k ↦ rw k (elim (Bool-cases (ltb deadline (b.now w1))) [
                  | inl t ↦ rw t (λ h. cc)
                  | inr t ↦ rw t (λ h.
                      let (_, _, went, same) =
                        >>=-returns (sleep b e.poll_interval) (λ _. verify_until b e deadline fuel)
                          w1 h in
                      subst HasPassed (sym same)
                        (verify_until-passes deadline fuel ((sleep b e.poll_interval w1).1) went))
                ])
              ])
      ]

  -- A `VerifyWait` that returns has just seen the verify script pass, and returns in the world that run left.
  pub verify_wait-passes :
      (fuel : ℕ) (w : W) → (verify_wait b e fuel w).0 ≡ ok tt → HasPassed (verify_wait b e fuel w)
  unfolding verify_wait
  verify_wait-passes fuel w h = verify_until-passes (b.now w + e.verify_timeout) fuel w h
