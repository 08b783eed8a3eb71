-- ===== src/Cli/Status.antt =====
-- internal/cli/interview.go `sessionStatus` and `offlineStatus`, and the same of a host in discover.go.
-- The texts are constructors, with the numbers that they print; the clock and the state file of a workdir
-- are arguments. Times and durations are in nanoseconds.
pub mod Stranded
use interviews.Base.{
  ℕ, zero, suc, ◌+◌, ◌-◌, ◌*◌, Bool, true, false, ◌&&◌, not, List, [], ◌∷◌, Option, none, some, Str,
  codes, ◌==◌, leb, ltb, length, if◌then◌else◌,
}
use interviews.Interview.Store.{
  Mode, local, aws, offline, other_mode, Stage, created, sent, returned, reviewed, other_stage,
  Time, is_zero, Session,
}
use interviews.Debug.Engine.{State, is_live}

pub data Said : Type 0 where
  provisioning stopped_with_disk past_ttl up ended no_workdir gone torn_down healthy
        still_up_after_end :
      Said
  host_gone to_review done_review sent_out not_sent : Said
  up_for overdue_by due_in injected_count : ℕ → Said
  stage_name : Str → Said

-- The order of a listing, the first ranks first.
pub data Rank : Type 0 where
  rank_stranded rank_to_review rank_overdue rank_not_sent rank_sent rank_live rank_reviewed
        rank_closed :
      Rank

abbrev pub minute : ℕ
minute = 60000000000

-- `time.Until` of the end of a ttl, when any is left
abbrev pub within_ttl : Time → Time → ℕ → Said × Rank
within_ttl now from ttl =
    let end = from + ttl * minute in
    if leb end now then (past_ttl, rank_stranded) else (up_for (end - now), rank_live)

-- `offlineStatus`
unfoldable pub offline_status : Time → Time → Stage → Said × Rank
offline_status now due_at returned = (to_review, rank_to_review)
offline_status now due_at reviewed = (done_review, rank_reviewed)
offline_status now due_at sent =
    if not (is_zero due_at) && ltb due_at now
    then (overdue_by (now - due_at), rank_overdue)
    else if not (is_zero due_at)
    then (due_in (due_at - now), rank_sent)
    else (sent_out, rank_sent)
offline_status now due_at created = (not_sent, rank_not_sent)
offline_status now due_at (other_stage s) = (stage_name s, rank_closed)

abbrev pub aws_status : Time → Session → Said × Rank
aws_status now s =
    if s.host == []
    then (provisioning, rank_live)
    else if ltb 0 s.ttl_minutes
    then within_ttl now (if is_zero s.provisioned_at then s.created_at else s.provisioned_at)
        s.ttl_minutes
    else (up, rank_live)

abbrev pub injected_said : List Str → Said
injected_said [] = healthy
injected_said (id ∷ ids) = injected_count (length (id ∷ ids))

-- What the state file of a local session says; `none` is an error of `LoadState`.
abbrev pub local_status : Str → Option State → Said × Rank
local_status workdir st = if workdir == [] then (no_workdir, rank_closed) else elim st [
  | none ↦ (gone, rank_closed)
  | some s ↦ if is_live s then (injected_said s.injected, rank_live) else (torn_down, rank_closed)
]

abbrev pub is_aws : Mode → Bool
is_aws local = false
is_aws aws = true
is_aws offline = false
is_aws (other_mode m) = false

abbrev pub is_offline : Mode → Bool
is_offline local = false
is_offline aws = false
is_offline offline = true
is_offline (other_mode m) = false

-- `sessionStatus`
unfoldable pub session_status : (Str → Option State) → Time → Session → Said × Rank
unfolding offline_status
session_status load_state now s =
    if is_offline s.mode
    then offline_status now s.due_at s.stage
    else if not (is_zero s.ended_at)
    then (ended, rank_closed)
    else if is_aws s.mode
    then aws_status now s
    else local_status s.workdir (load_state s.workdir)
