-- ===== src/Session/Stack/Launch/Waits.antt =====
-- The loop of `waitListening` ends, and it finds a listener that comes up in time.
use interviews.Base.{
  ℕ, zero, suc, ◌+◌, ◌≤◌, ◌<◌, ◌≡◌, refl, ◌≢◌, inl, inr, Bool, true, false, not, Bool-cases,
  if_rule, Result, ok, err, arith, ltb, ltb→lt, leb, leb→le, ap,
}
use interviews.Interview.Store.{Time}
use interviews.Session.Stack.Types.{Host, StartError, out_of_fuel}
use interviews.Session.Stack.Launch.{listening_until}

module _ {W : Type 0} (h : Host W) (poll : ℕ) (deadline : Time) (port pid : ℕ) where
  -- a wait takes at least a tick
  abbrev pub Ticks : Type 0
  Ticks = (w : W) → h.now w < h.now (h.wait poll w)

  late : (a b : ℕ) → ltb a b ≡ false → b ≤ a
  late a b e = ground arith

  -- With as much fuel as ticks are left to the deadline, and two more, the loop never runs out.
  pub listening_until-ends :
      (fuel : ℕ) (w : W)
      → Ticks
      → 1 ≤ fuel
      → deadline + 2 ≤ h.now w + fuel
      → (listening_until h poll deadline port pid fuel w).0 ≢ err out_of_fuel
  unfolding listening_until
  listening_until-ends zero w ticks one enough = absurd (omega arith)
  listening_until-ends (suc fuel) w ticks one enough =
      let P = λ (r : Result StartError (Unit {0}) × W). r.0 ≢ err out_of_fuel in
      if_rule P (h.dial port w) _ _ (λ e q. cc)
        (λ e.
          if_rule P (not (h.alive pid w)) _ _ (λ e q. cc)
            (λ e.
              if_rule P (ltb deadline (h.now w)) _ _ (λ e q. cc)
                (λ late_not.
                  if_rule P (h.cancelled (h.wait poll w)) _ _ (λ e q. cc)
                    (λ e.
                      listening_until-ends fuel (h.wait poll w) ticks
                        (omega (arith, late deadline (h.now w) late_not))
                        (omega (arith, ticks w))))))

  apart : (b : Bool) → b ≡ false → b ≡ true → ⊥
  apart b e f = cc

  early :
      (w : W) (ready : Time)
      → (ready ≤ h.now w → h.dial port w ≡ true)
      → h.dial port w ≡ false
      → h.now w < ready
  early w ready up silent = elim (Bool-cases (leb ready (h.now w))) [
    | inl e ↦ absurd (apart (h.dial port w) silent (up (leb→le ready (h.now w) e)))
    | inr e ↦ ground arith
  ]

  -- A listener that stays up in every world, and that accepts connections in every world from `ready` on, is found, where
  -- `ready` is not after the deadline, nothing is ever cancelled, each wait moves the clock on, and the fuel is more
  -- than the ticks that are left till `ready`.
  pub listening_until-finds :
      (fuel : ℕ) (w : W) (ready : Time)
      → Ticks
      → ready ≤ deadline
      → ((w : W) → ready ≤ h.now w → h.dial port w ≡ true)
      → ((w : W) → h.alive pid w ≡ true)
      → ((w : W) → h.cancelled w ≡ false)
      → 1 ≤ fuel
      → ready + 1 ≤ h.now w + fuel
      → (listening_until h poll deadline port pid fuel w).0 ≡ ok tt
  unfolding listening_until
  listening_until-finds zero w ready ticks before up alive on one enough = absurd (omega arith)
  listening_until-finds (suc fuel) w ready ticks before up alive on one enough =
      let P = λ (r : Result StartError (Unit {0}) × W). r.0 ≡ ok tt in
      if_rule P (h.dial port w) _ _ (λ e. refl)
        (λ silent.
          let soon = early w ready (up w) silent in
          if_rule P (not (h.alive pid w)) _ _
            (λ e. absurd (apart (not (h.alive pid w)) (ap not (alive w)) e))
            (λ _.
              if_rule P (ltb deadline (h.now w)) _ _
                (λ e. absurd (omega (arith, soon, ltb→lt deadline (h.now w) e)))
                (λ _.
                  if_rule P (h.cancelled (h.wait poll w)) _ _
                    (λ e. absurd (apart (h.cancelled (h.wait poll w)) (on (h.wait poll w)) e))
                    (λ _.
                      listening_until-finds fuel (h.wait poll w) ready ticks before up alive on
                        (omega (arith, soon)) (omega (arith, ticks w))))))
