-- ===== src/Cli/Target/Resolved.antt =====
-- What `resolveProblem` acts on.
use interviews.Base.{
  ◌≡◌, refl, sym, ap, subst, ◌⊎◌, inl, inr, Bool, true, false, not, ◌&&◌, List, [], Option, none,
  some, Str, ◌==◌, ==→eq, if_rule, Result, ok, err, if◌then◌else◌, >>=-eq-ok,
}
use interviews.Interview.Store.{
  Session, HomeError, no_current, bad_seed, no_session, undecodable, ambiguous, current, load,
}
use interviews.Registry.Load.{Registry, Entry, get}
use interviews.Variant.{resolve}
use interviews.Cli.Target.{
  TargetError, Overrides, no_content, no_problem, other_problem, parse_overrides, of_current,
  resolve_target, Target, Site, given, problem_of, variant_of, is_other, own_problem, workdir_for,
  resolve_as, resolve_problem,
}
use interviews.Cli.Target.Maps.{parse_overrides-AreKeyed}
use interviews.Cli.Target.Recorded.{Combines, with_recorded-lem}

-- The seed that a command means: the one that is given, or that of the current session.
pub data MeansSeed {P I : Type 0} (c : Site P I) (seed s : Str) : Type 0 where
  named : (seed == []) ≡ false → s ≡ seed → MeansSeed c seed s
  current_one : (r : Session) → seed ≡ [] → current c.home ≡ ok r → s ≡ r.seed → MeansSeed c seed s

module _ {P I : Type 0} (c : Site P I) where
  pub record IsResolved (id seed : Str) (sets : List Str) (t : Target P) : Type 0 where
    pub means : MeansSeed c seed t.seed
    pub listed :
        (reg : Registry P I) × (e : Entry P) × (c.content ≡ some reg)
        × (get reg id ≡ some e)
        × (e.problem ≡ some t.problem)
    pub own : (s : Session) → load t.seed c.home ≡ ok s → (s.problem ≡ []) ⊎ (s.problem ≡ id)
    pub resolves :
        resolve c.sources id (c.specs t.problem) t.seed t.variant.overrides ≡ ok t.variant.params
    pub combines :
        (o : Overrides) × (parse_overrides sets [] ≡ ok o)
        × Combines c id t.problem t.seed t.workdir o t.variant

  given-ok : {A : Type 0} (e : TargetError) (o : Option A) (a : A) → given c e o ≡ ok a → o ≡ some a
  given-ok e none a h = cc
  given-ok e (some b) a h = cc

  target-MeansSeed :
      (seed workdir : Str) (t : Str × Str)
      → resolve_target c.home seed workdir ≡ ok t
      → MeansSeed c seed t.0
  unfolding resolve_target
  target-MeansSeed seed workdir t =
      if_rule (λ (r : Result TargetError (Str × Str)). r ≡ ok t → MeansSeed c seed t.0) (seed == [])
        _ _ (λ e h. by_current (==→eq seed [] e) (current c.home) refl h)
        (λ e h. named e (ap (λ (p : Str × Str). p.0) (sym (pair-inj h))))
    where
      pair-inj : {a b : Str × Str} → ◌≡◌ {A = Result TargetError (Str × Str)} (ok a) (ok b) → a ≡ b
      pair-inj h = cc

      by_current :
          seed ≡ []
          → (r : Result HomeError Session) → current c.home ≡ r
          → of_current workdir r ≡ ok t
          → MeansSeed c seed t.0
      by_current z (ok s) q h = current_one s z q (ap (λ (p : Str × Str). p.0) (sym (pair-inj h)))
      by_current z (err no_current) q h = cc
      by_current z (err (bad_seed x)) q h = cc
      by_current z (err (no_session x)) q h = cc
      by_current z (err (undecodable x)) q h = cc
      by_current z (err (ambiguous x)) q h = cc

  problem_of-some :
      (o : Option (Entry P)) (p : P)
      → problem_of c o ≡ some p
      → (e : Entry P) × (o ≡ some e) × (e.problem ≡ some p)
  problem_of-some none p h = cc
  problem_of-some (some e) p h = (e, refl, h)

  own_problem-ok :
      (id seed : Str) (s : Session)
      → own_problem c id seed ≡ ok tt
      → load seed c.home ≡ ok s
      → (s.problem ≡ []) ⊎ (s.problem ≡ id)
  unfolding own_problem
  own_problem-ok id seed s h l =
      elim (free (s.problem == []) (s.problem == id) (
        subst
          (λ r.
            ◌≡◌ {A = Result TargetError Unit}
              (if is_other c id r then err (other_problem id) else ok tt) (ok tt))
          l h)) [ inl e ↦ inl (==→eq s.problem [] e) | inr e ↦ inr (==→eq s.problem id e) ]
    where
      free :
          (a b : Bool)
          → ◌≡◌ {A = Result TargetError Unit}
              (if not a && not b then err (other_problem id) else ok tt)
              (ok tt)
          → (a ≡ true) ⊎ (b ≡ true)
      free true b h = inl refl
      free false true h = inr refl
      free false false h = cc

  target-inj : {a b : Target P} → ◌≡◌ {A = Result TargetError (Target P)} (ok a) (ok b) → a ≡ b
  target-inj h = cc

  -- What `resolveProblem` returns: the seed that is given, or the current session's where none is given; a problem of the registry under that
  -- id, and not another one than the session's record names; and the variant that `Resolve` makes of it under the
  -- overrides of the flags, which win, and of the environment's state file, unless it does not resolve with these.
  pub resolve_problem-IsResolved :
      (id seed workdir : Str) (sets : List Str) (t : Target P)
      → resolve_problem c id seed workdir sets ≡ ok t
      → IsResolved id seed sets t
  unfolding resolve_problem resolve_as
  resolve_problem-IsResolved id seed workdir sets t h =
      let ((s, w), h1, r1) =
        >>=-eq-ok (resolve_target c.home seed workdir) (resolve_as c id sets) h in
      let (o, h2, r2) = >>=-eq-ok (parse_overrides sets []) _ r1 in
      let (reg, h3, r3) = >>=-eq-ok (given c no_content c.content) _ r2 in
      let (p, h4, r4) = >>=-eq-ok (given c (no_problem id) (problem_of c (get reg id))) _ r3 in
      let (_, h5, r5) = >>=-eq-ok (own_problem c id s) _ r4 in
      let (v, h6, r6) = >>=-eq-ok (variant_of c id p s o) _ r5 in
      let (dir, h7, r7) = >>=-eq-ok (workdir_for c w v) _ r6 in
      let (e, h8, h9) =
        problem_of-some (get reg id) p
          (given-ok (no_problem id) (problem_of c (get reg id)) p h4) in
      let (made, combines) =
        with_recorded-lem c id p s o (parse_overrides-AreKeyed sets [] o h2 tt) dir v
          (c.recorded dir) h6 refl in
      subst (IsResolved id seed sets) (target-inj r7) (record {
        means = target-MeansSeed seed workdir (s, w) h1;
        listed = (reg, e, given-ok no_content c.content reg h3, h8, h9);
        own = λ r l. own_problem-ok id s r h5 l;
        resolves = made;
        combines = (o, h2, combines);
      })
