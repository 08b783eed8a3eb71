-- ===== src/Cli/Reconcile.antt =====
-- internal/cli/discover.go: the local rows settled against the hosts that the account reports, and
-- `localRows` of interview.go. A map by seed is a list in which the last entry of a seed counts.
pub mod Hosts
pub mod Survivors
use interviews.Base.{
  ℕ, ◌*◌, ◌+◌, Bool, true, false, ◌&&◌, ◌||◌, not, List, [], ◌∷◌, ◌++◌, keep, any, map, Option,
  none, some, Str, codes, ◌==◌, ltb, if◌then◌else◌,
}
use interviews.Interview.Store.{Mode, aws, Stage, other_stage, Time, is_zero, is_open, Session}
use interviews.Debug.Engine.{State}
use interviews.Cli.Status.{
  Said, Rank, provisioning, stopped_with_disk, up, still_up_after_end, host_gone, rank_stranded,
  rank_live, within_ttl, is_aws, session_status,
}

pub record RemoteHost : Type 0 where
  pub seed : Str
  pub problem : Str
  pub state : Str
  pub launched_at : Time
  pub ttl_minutes : ℕ

pub record SessionRow : Type 0 where
  pub session : Session  -- `s`
  pub state : Said
  pub rank : Rank
  pub elsewhere : Bool

-- `remoteHost.status`
unfoldable pub host_status : Time → RemoteHost → Said × Rank
host_status now h =
    if h.state == codes "pending"
    then (provisioning, rank_live)
    else if (h.state == codes "stopping") || (h.state == codes "stopped")
    then (stopped_with_disk, rank_stranded)
    else if ltb 0 h.ttl_minutes
    then within_ttl now h.launched_at h.ttl_minutes
    else (up, rank_live)

-- `remoteHost.session`, the fields that it leaves out at their zero values
unfoldable pub host_session : RemoteHost → Session
host_session h = record {
  seed = h.seed;
  problem = h.problem;
  kind = [];
  level = [];
  mode = aws;
  created_at = h.launched_at;
  ended_at = 0;
  ttl_minutes = 0;
  provisioned_at = 0;
  workdir = [];
  content_root = [];
  terraform_dir = [];
  content_version = [];
  evidence = [];
  stage = other_stage [];
  bundle_path = [];
  submission_path = [];
  due_at = 0;
  reviewed_at = 0;
  candidate_url = [];
  observer_url = [];
  app_url = [];
  host = [];
}

-- `byseed`
unfoldable pub host_of : List RemoteHost → Str → Option RemoteHost
host_of [] seed = none
host_of (h ∷ hosts) seed =
    let later = host_of hosts seed in
    elim later [ some g ↦ some g | none ↦ if h.seed == seed then some h else none ]

-- `known`
unfoldable pub known_of : List Session → Str → Option Session
known_of [] seed = none
known_of (s ∷ sessions) seed =
    let later = known_of sessions seed in
    elim later [ some t ↦ some t | none ↦ if s.seed == seed then some s else none ]

abbrev pub said : Said × Rank → SessionRow → SessionRow
said (state, rank) r = record r { state = state; rank = rank }

-- the `switch` of `reconcile`, of the row's host
abbrev pub settle_with : Time → Option RemoteHost → SessionRow → SessionRow
settle_with now none r =
    if not (is_zero r.session.ended_at)
    then r
    else if r.session.host == []
    then r
    else said (host_gone, rank_stranded) r
settle_with now (some h) r =
    if not (is_zero r.session.ended_at)
    then said (still_up_after_end, rank_stranded) r
    else said (host_status now h) r

-- the first loop of `reconcile`
unfoldable pub settle : Time → List RemoteHost → SessionRow → SessionRow
unfolding host_of host_status
settle now hosts r =
    if is_aws r.session.mode then settle_with now (host_of hosts r.session.seed) r else r

-- a host that no row shows
unfoldable pub new_row : Time → List Session → RemoteHost → SessionRow
unfolding known_of host_status host_session
new_row now known h = elim (known_of known h.seed) [
  | some rec ↦ record {
    session = rec;
    state = still_up_after_end;
    rank = rank_stranded;
    elsewhere = false;
  }
  | none ↦
      said (host_status now h)
        record { session = host_session h; state = up; rank = rank_live; elsewhere = true }
]

abbrev pub is_shown : List SessionRow → Str → Bool
is_shown rows seed = any (λ (r : SessionRow). r.session.seed == seed) rows

-- `reconcile`
unfoldable pub reconcile : Time → List SessionRow → List Session → List RemoteHost → List SessionRow
unfolding settle new_row
reconcile now rows known hosts =
    map (settle now hosts) rows
    ++ map (new_row now known) (keep (λ (h : RemoteHost). not (is_shown rows h.seed)) hosts)

abbrev pub local_row : (Str → Option State) → Time → Session → SessionRow
local_row load_state now s =
    let (state, rank) = session_status load_state now s in
    record { session = s; state = state; rank = rank; elsewhere = false }

-- `localRows`, of the registry's list; the list itself is `known`.
unfoldable pub local_rows : (Str → Option State) → Time → Bool → List Session → List SessionRow
unfolding session_status
local_rows load_state now whole list =
    map (local_row load_state now) (if whole then list else keep is_open list)
