-- ===== src/Cli/Commands/Offline.antt =====
-- internal/cli/interview.go `cmdStage` and bundle.go `deliver`: a session that is a bundle handed out. What writes
-- the bundle is an argument, and so is the path that an operand names, where it is there.
use interviews.Base.{
  ℕ, ◌+◌, Bool, true, false, List, [], ◌∷◌, Option, none, some, Str, ltb, not, ◌&&◌, ◌==◌, Result,
  err, ok, if◌then◌else◌,
}
use interviews.Base.Exec.{pure, raise, gets, ◌>>=◌, ◌>>◌}
use interviews.Interview.Store.{
  offline, Stage, created, sent, returned, reviewed, other_stage, Time, Session, HomeError, is_open,
  current, set_current_if_idle,
}
use interviews.Cli.Status.{is_offline}
use interviews.Cli.Commands.{
  usage, wrong_mode, no_path, not_delivered, not_marked, Step, store, call, save_record, current_or,
  blank,
}

-- the record that a drop leaves
abbrev pub drop_record : Str → Str → Str → Str → Str → ℕ → Time → Session
drop_record seed problem kind root path due t = record (blank seed problem offline t) {
  kind = kind;
  stage = created;
  bundle_path = path;
  evidence = path;
  content_root = root;
  due_at = if ltb 0 due then t + due else 0;
}

-- a live session of another seed has the marker
abbrev pub is_busy : Str → Result HomeError Session → Bool
is_busy seed (ok cur) = not (cur.seed == seed) && is_open cur
is_busy seed (err e) = false

-- `SetCurrentIfIdle`, which writes nothing beside a live session
abbrev pub mark_if_idle : {V : Type 0} → Str → Step V Unit
mark_if_idle seed c =
    if is_busy seed (current c.home)
    then (ok tt, c)
    else store not_marked (set_current_if_idle seed c.home) c

module _ {V : Type 0} (write : V → Bool × V) (now : V → Time) where
  -- `deliver`, once the problem is found and valid and its variant resolved
  unfoldable pub deliver : Str → Str → Str → Str → Str → ℕ → Step V Session
  deliver seed problem kind root path due = do
    call not_delivered write
    t ← gets (λ c. now c.world)
    save_record (drop_record seed problem kind root path due t)
    mark_if_idle seed
    pure (drop_record seed problem kind root path due t)

abbrev pub wants_path : Stage → Bool
wants_path created = false
wants_path sent = false
wants_path returned = true
wants_path reviewed = false
wants_path (other_stage s) = false

-- the record at a new stage; the review ends the session
unfoldable pub at_stage : Stage → Time → Session → Session
at_stage reviewed t s = record s { stage = reviewed; reviewed_at = t; ended_at = t }
at_stage created t s = record s { stage = created }
at_stage sent t s = record s { stage = sent }
at_stage returned t s = record s { stage = returned }
at_stage (other_stage x) t s = record s { stage = other_stage x }

module _ {V : Type 0} where
  abbrev pub only_offline : Session → Step V Unit
  only_offline s = if is_offline s.mode then pure tt else raise wrong_mode

  abbrev pub counted : Stage → List Str → Step V Unit
  counted stage [] = if wants_path stage then raise usage else pure tt
  counted stage (arg ∷ []) = if wants_path stage then pure tt else raise usage
  counted stage (a ∷ b ∷ rest) = raise usage

module _ {V : Type 0} (find_path : Str → V → Option Str) (now : V → Time) where
  abbrev pub with_path : Option Str → Session → Step V Session
  with_path none s = raise no_path
  with_path (some path) s = pure (record s { submission_path = path })

  -- the operand of `returned`, and none of the others
  abbrev pub take_path : Stage → List Str → Session → Step V Session
  take_path stage [] s c = if wants_path stage then raise usage c else pure s c
  take_path stage (arg ∷ []) s c =
      if wants_path stage then with_path (find_path arg c.world) s c else raise usage c
  take_path stage (a ∷ b ∷ rest) s c = raise usage c

  -- `cmdStage`
  unfoldable pub move_to : Stage → Str → List Str → Step V Session
  unfolding current_or at_stage
  move_to stage seed args = do
    counted stage args
    rec ← current_or seed
    only_offline rec
    s ← take_path stage args rec
    t ← gets (λ c. now c.world)
    save_record (at_stage stage t s)
    pure (at_stage stage t s)
