-- ===== src/Cli/Commands/Remote.antt =====
-- internal/cli/remote.go, and `adopt` of discover.go: a session on a provisioned host. `end_session` is `cmdEnd`
-- of interview.go, which has both kinds.
use interviews.Base.{
  Bool, true, not, List, [], ◌∷◌, ◌++◌, Option, none, some, Str, codes, ◌==◌, Result, ok, err,
  if◌then◌else◌,
}
use interviews.Base.Exec.{pure, raise, gets, ◌>>=◌, ◌>>◌}
use interviews.Interview.Store.{aws, Time, Session}
use interviews.Cli.Status.{is_aws}
use interviews.Cli.Reconcile.{RemoteHost}
use interviews.Cli.Commands.{
  Live, AwsSetup, Outputs, Cloud, Console, CommandError, no_setup, no_infra, no_env, no_identity,
  not_initialised, not_applied, no_outputs, not_ready, no_directory, no_copy, not_destroyed, Step,
  call, attempt, given, fetch, save_record, mark_current, close, current_or, blank, with_urls,
  Request, end_local,
}

abbrev pub bucket_path : AwsSetup → Str → Str
bucket_path a seed = codes "s3://" ++ a.bucket ++ codes "/" ++ seed ++ codes "/"

abbrev pub module_dir : Str → Str
module_dir root = root ++ codes "/interview"

abbrev pub text_or : Str → Option Str → Str
text_or other none = other
text_or other (some s) = s

abbrev pub remote_record : Request → AwsSetup → Str → Str → Time → Session
remote_record q a root version t = record (blank q.seed q.problem aws t) {
  level = q.level;
  terraform_dir = module_dir root;
  ttl_minutes = q.ttl_minutes;
  evidence = bucket_path a q.seed;
  content_version = version;
}

abbrev pub with_outputs : Session → Outputs → Time → Session
with_outputs s o t = record (with_urls s o.urls) {
  provisioned_at = t;
  host = o.public_ip;
  evidence = if o.evidence_path == [] then s.evidence else o.evidence_path;
}

unfoldable pub first_host : Str → List RemoteHost → Option RemoteHost
first_host seed [] = none
first_host seed (h ∷ hosts) =
    let rest = first_host seed hosts in if h.seed == seed then some h else rest

module _ {V : Type 0} (k : Cloud V) where
  -- `startRemote`, past the record
  unfoldable pub provision : Request → Session → Step V Session
  provision q s = do
    call not_initialised (k.init q.seed)
    call not_applied (k.apply s)
    t ← gets (λ c. k.now c.world)
    o ← fetch no_outputs k.outputs
    save_record (with_outputs s o t)
    call not_ready (k.wait_ready (with_outputs s o t))
    pure (with_outputs s o t)

  -- what `startRemote` finds out before it records: the setup, the module's root and the content version
  abbrev pub remote_ready : Request → Step V (AwsSetup × Str × Str)
  remote_ready q = do
    o ← gets (λ c. k.setup c.world)
    a ← given no_setup o
    r ← gets (λ c. k.infra c.world)
    root ← given no_infra r
    env ← gets (λ c. k.has_env q.seed c.world)
    call no_env (λ v. (env, v))
    call no_identity k.identity
    version ← (λ c. let (o, v) = k.version c.world in (ok (text_or [] o), record c { world = v }))
    pure (a, root, version)

  -- `startRemote`
  unfoldable pub start_remote : Request → Step V Session
  unfolding provision
  start_remote q = do
    (a, root, version) ← remote_ready q
    t ← gets (λ c. k.now c.world)
    save_record (remote_record q a root version t)
    mark_current q.seed
    provision q (remote_record q a root version t)

  -- the evidence of `endRemote`: deleted by a purge, and pulled without one
  abbrev pub settle_evidence : Session → Bool → Step V Session
  settle_evidence s purge =
      if s.evidence == []
      then pure s
      else if purge
      then (do
        gone ← attempt (k.remove_evidence s.evidence)
        pure (if gone then record s { evidence = [] } else s))
      else (do call no_copy k.make_copy; attempt (k.sync s.evidence); pure s)

  -- `endRemote`, once the evidence is settled
  unfoldable pub destroy_host : Session → Step V Session
  unfolding close
  destroy_host s = do
    o ← gets (λ c. k.setup c.world)
    a ← given no_setup o
    call not_initialised (k.init s.seed)
    call not_destroyed (k.destroy s)
    attempt (λ v. (true, k.remove_data v))
    t ← gets (λ c. k.now c.world)
    close (record s { ended_at = t })

  -- `endRemote`
  unfoldable pub end_remote : Session → Bool → Step V Session
  unfolding destroy_host
  end_remote s purge = do
    env ← gets (λ c. k.has_env s.seed c.world)
    call no_env (λ v. (env, v))
    call no_directory (λ v. (not (s.terraform_dir == []), v))
    s' ← settle_evidence s purge
    destroy_host s'

  abbrev pub adopted : Str → AwsSetup → Option RemoteHost → Option Str → Option Session
  adopted seed a none r = none
  adopted seed a (some h) none = none
  adopted seed a (some h) (some root) = some (record (blank seed h.problem aws h.launched_at) {
    kind = [];
    ttl_minutes = h.ttl_minutes;
    terraform_dir = module_dir root;
    evidence = bucket_path a seed;
  })

  abbrev pub among : Str → Option (List RemoteHost) → Option RemoteHost
  among seed none = none
  among seed (some hosts) = first_host seed hosts

  -- `adoptOrNot` and `adopt`: the session of a host that has the seed, from the account
  unfoldable pub adopt_or_not : Str → Console V → Option Session
  unfolding first_host
  adopt_or_not seed c = if seed == [] then none else elim (k.setup c.world) [
    | none ↦ none
    | some a ↦ adopted seed a (among seed (k.hosts c.world)) (k.infra c.world)
  ]

  module _ (l : Live V) where
    abbrev pub end_found : Bool → Session → Step V Session
    end_found purge s = if is_aws s.mode then end_remote s purge else end_local l s purge

    abbrev pub end_adopted : Bool → CommandError → Option Session → Step V Session
    end_adopted purge e none = raise e
    end_adopted purge e (some s) = end_remote s purge

    abbrev pub end_either : Bool → Str → Result CommandError Session → Step V Session
    end_either purge seed (ok s) c = end_found purge s c
    end_either purge seed (err e) c = end_adopted purge e (adopt_or_not seed c) c

    -- `cmdEnd`
    unfoldable pub end_session : Str → Bool → Step V Session
    unfolding end_remote end_local adopt_or_not current_or
    end_session seed purge c = let (r, c') = current_or seed c in end_either purge seed r c'
