-- ===== src/Cli/Commands/Closed.antt =====
-- What `end` leaves behind.
use interviews.Base.{◌≡◌, refl, ◌⊎◌, ◌≢◌, true, false, [], Str, ◌==◌, Result, ok, err, if_rule}
use interviews.Interview.Store.{
  is_open, Session, Home, HomeError, bad_seed, no_session, undecodable, no_current, ambiguous, save,
  load, current, names_seed, current_seed,
}
use interviews.Cli.Commands.{Console, CommandError, found, current_or, not_cleared}

-- Either the session is recorded as ended and is no longer current, or the registry is as it was, or all that is
-- left to do is to take the marker away from the session, which is recorded as ended.
abbrev pub Closes : {V : Type 0} → Home → Result CommandError Session × Console V → Type 0
Closes h (ok s, c) =
    (load s.seed c.home ≡ ok s)
    × (is_open s ≡ false)
    × ((t : Session) → current c.home ≡ ok t → t.seed ≢ s.seed)
Closes h (err e, c) =
    (c.home ≡ h)
    ⊎ ((e ≡ not_cleared)
        × ((s : Session) × (save s h ≡ ok c.home)
            × (is_open s ≡ false)
            × (names_seed (current_seed c.home) s.seed ≡ true)))

module _ {V : Type 0} where
  found-home : (r : Result HomeError Session) (c : Console V) → (found r c).1.home ≡ c.home
  found-home (ok s) c = refl
  found-home (err no_current) c = refl
  found-home (err (bad_seed e)) c = refl
  found-home (err (no_session x)) c = refl
  found-home (err (undecodable x)) c = refl
  found-home (err (ambiguous l)) c = refl

  pub current_or-home : (seed : Str) (c : Console V) → (current_or seed c).1.home ≡ c.home
  unfolding current_or
  current_or-home seed c =
      if_rule (λ (r : Result CommandError Session × Console V). r.1.home ≡ c.home) (seed == []) _ _
        (λ e. found-home (current c.home) c) (λ e. found-home (load seed c.home) c)
