-- ===== src/Grading/Score.antt =====
-- internal/session/evidence.go `RefreshScore` and internal/grading/score.go `Score`: the objective
-- score of a live environment.
pub mod Counts
use interviews.Base.{
  ℕ, zero, suc, ◌+◌, Bool, true, false, not, List, [], ◌∷◌, Option, none, some, Str, Result, ok,
  err, if◌then◌else◌, map,
}
use interviews.Base.Exec.{Exec, pure, raise, gets, ◌>>=◌, ◌>>◌}
use interviews.Interview.Store.{Time}
use interviews.Debug.Scenario.{Tier}
use interviews.Debug.Engine.{
  Substrate, Machine, Engine, EngineError, write_failed, CheckState, fixed, broken, cannot_run,
  FaultStatus, is_pass, Step, Outside, on_world, script, clock, some_pack, status,
}

pub record FaultResult : Type 0 where
  pub id : Str
  pub title : Str
  pub tier : Tier
  pub is_fixed : Bool
  pub check_failed : Bool

pub record Score : Type 0 where
  pub problem : Str
  pub interview_id : Str
  pub pack : Str
  pub faults : List FaultResult
  pub fixed_count : ℕ
  pub total : ℕ
  pub verified : Bool
  pub at : Time

abbrev pub is_fixed_state : CheckState → Bool
is_fixed_state fixed = true
is_fixed_state broken = false
is_fixed_state cannot_run = false

abbrev pub is_failed_check : CheckState → Bool
is_failed_check fixed = false
is_failed_check broken = false
is_failed_check cannot_run = true

abbrev pub result_of : FaultStatus → FaultResult
result_of s = record {
  id = s.id;
  title = s.title;
  tier = s.tier;
  is_fixed = is_fixed_state s.state;
  check_failed = is_failed_check s.state;
}

-- the loop of `RefreshScore`: the results, and the two counters
unfoldable pub tally : List FaultStatus → List FaultResult × ℕ × ℕ
tally [] = ([], 0, 0)
tally (s ∷ rows) =
    let (results, good, total) = tally rows in
    (result_of s ∷ results, if is_fixed_state s.state then suc good else good, suc total)

module _ {W : Type 0} (b : Substrate W) (write_score : Score → W → Bool × W) where
  -- `WriteScore`, whose answer says if the file was written
  abbrev pub save_score : Score → Outside W Score
  save_score s w = let (good, w') = write_score s w in (if good then ok s else err write_failed, w')

  abbrev pub score_of : Engine → List FaultStatus → Str → Bool → Time → Score
  score_of e rows pack verified t =
      let (results, good, total) = tally rows in
      record {
        problem = e.problem;
        interview_id = e.seed;
        pack = pack;
        faults = results;
        fixed_count = good;
        total = total;
        verified = verified;
        at = t;
      }

  -- `RefreshScore`, once the checks have run
  unfoldable pub score_rows : Engine → List FaultStatus → Step W Score
  unfolding tally
  score_rows e rows = do
    pack ← some_pack b e.pack
    exit ← on_world (script b e.verify false)
    t ← on_world (clock b)
    on_world (save_score (score_of e rows pack (is_pass exit) t))

  -- `RefreshScore`
  unfoldable pub refresh_score : Engine → Step W Score
  unfolding status score_rows
  refresh_score e = status b e >>= score_rows e
