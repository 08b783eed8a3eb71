-- ===== src/Grading/Score/Counts.antt =====
-- What the numbers of a score count.
use interviews.Base.{
  suc, ◌≡◌, refl, sym, ap, ◌∙◌, subst, inl, inr, Bool, true, false, List, [], ◌∷◌, keep, map,
  length, All, Option, none, some, Str, Bool-cases, Result, ok, err, if◌then◌else◌,
}
use interviews.Base.Exec.{◌>>=◌, resume}
use interviews.Interview.Store.{Time}
use interviews.Debug.Engine.{
  Substrate, State, Machine, Engine, EngineError, write_failed, FaultStatus, is_pass, Step,
  on_world, script, clock, some_pack,
}
use interviews.Debug.Engine.Outcomes.{IsUp}
use interviews.Debug.Engine.Verdicts.{IsKnown, Rows, status-Rows}
use interviews.Grading.Score.{
  FaultResult, Score, is_fixed_state, result_of, tally, score_of, save_score, score_rows,
  refresh_score,
}

abbrev pub fixed_results : List FaultResult → List FaultResult
fixed_results = keep (λ (r : FaultResult). r.is_fixed)

tally_lem :
    (rows : List FaultStatus)
    → ((tally rows).0 ≡ map result_of rows)
      × ((tally rows).1 ≡ length (fixed_results (map result_of rows)))
      × ((tally rows).2 ≡ length rows)
unfolding tally
tally_lem [] = (refl, refl, refl)
tally_lem (s ∷ rows) =
    let (a, c, d) = tally_lem rows in
    elim (Bool-cases (is_fixed_state s.state)) [
      | inl e ↦ (ap (λ l. result_of s ∷ l) a, rw e (ap suc c), ap suc d)
      | inr e ↦ (ap (λ l. result_of s ∷ l) a, rw e c, ap suc d)
    ]

-- The score of the rows that `Status` returned.
pub record Counted {W : Type 0} (b : Substrate W) (e : Engine) (ids : List Str) (w : W) (s : Score)
    : Type 0 where
  pub rows : List FaultStatus
  pub after : W
  pub checked : Rows b e ids w rows after
  pub results : s.faults ≡ map result_of rows
  pub counts_fixed : s.fixed_count ≡ length (fixed_results s.faults)
  pub counts_all : s.total ≡ length ids
  pub verified : s.verified ≡ is_pass ((b.run e.verify false after).0)

length-map : {A B : Type 0} (f : A → B) (xs : List A) → length (map f xs) ≡ length xs
length-map f [] = refl
length-map f (x ∷ xs) = ap suc (length-map f xs)

module _ {W : Type 0} (b : Substrate W) (write_score : Score → W → Bool × W) where
  score_rows-score :
      (e : Engine) (rows : List FaultStatus) (m : Machine W) (s : Score)
      → (score_rows b write_score e rows m).0 ≡ ok s
      → (pack : Str) × (t : Time) × (s
          ≡ score_of b write_score e rows pack (is_pass ((b.run e.verify false m.world).0)) t)
  unfolding score_rows
  score_rows-score e rows m s h = go e.pack h
    where
      last : Str → Step W Score
      last pack = do
        exit ← on_world (script b e.verify false)
        t ← on_world (clock b)
        on_world (save_score b write_score (score_of b write_score e rows pack (is_pass exit) t))

      saved :
          (good : Bool) (x : Score)
          → Path (Result EngineError Score) (if good then ok x else err write_failed) (ok s)
          → s ≡ x
      saved true x q = cc
      saved false x q = cc

      go :
          (p : Option Str)
          → ((some_pack b p >>= last) m).0 ≡ ok s
          → (pack : Str) × (t : Time) × (s
              ≡ score_of b write_score e rows pack (is_pass ((b.run e.verify false m.world).0)) t)
      go none q = cc
      go (some pack) q =
          let run = b.run e.verify false m.world in
          let x = score_of b write_score e rows pack (is_pass (run.0)) (b.now (run.1)) in
          (pack, b.now (run.1), saved ((write_score x (run.1)).0) x q)

  -- A score that `RefreshScore` took of a live environment whose faults the scenario has: its results are the
  -- rows of `Status`, its counters count the results that are fixed and the faults on record, and it is verified
  -- when the verify script passed after the checks.
  pub refresh_score-Counted :
      (e : Engine) (m : Machine W) (st : State) (s : Score)
      → IsUp m st
      → All (IsKnown e) st.injected
      → (refresh_score b write_score e m).0 ≡ ok s
      → Counted b e st.injected m.world s
  unfolding refresh_score
  refresh_score-Counted e m st s up known h =
      let (rows, w', q, ids, checked) = status-Rows b e m st up known in
      let h1 : (score_rows b write_score e rows (record m { world = w' })).0 ≡ ok s =
        sym (ap (λ r. (resume (r.0) (r.1) (score_rows b write_score e)).0) q) ∙ h in
      let (pack, t, r) = score_rows-score e rows (record m { world = w' }) s h1 in
      let (x, y, z) = tally_lem rows in
      subst (Counted b e st.injected m.world) (sym r) record {
        rows = rows;
        after = w';
        checked = checked;
        results = x;
        counts_fixed = y ∙ ap (λ l. length (fixed_results l)) (sym x);
        counts_all = z ∙ sym (length-map (λ (s : FaultStatus). s.id) rows) ∙ ap length ids;
        verified = refl;
      }
