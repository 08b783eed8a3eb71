-- ===== src/Cli/Tests.antt =====
-- Two local rows, and an account with a host of an ended session and one that is not known here.
mod Lifecycle
mod Wholes
use interviews.Base.{
  ◌≡◌, refl, sym, ap, ◌∙◌, none, ◌==◌, false, not, List, [], ◌∷◌, ◌++◌, keep, Memᴰ, All, Str, codes,
}
use interviews.Interview.Store.{aws, created, Time, Session}
use interviews.Cli.Status.{ended, up, rank_closed, rank_live}
use interviews.Cli.Reconcile.{RemoteHost, SessionRow, is_shown, reconcile, local_rows}
use interviews.Cli.Reconcile.Hosts.{row_seeds, host_seeds, row_seeds-reconcile}
use interviews.Cli.Reconcile.Survivors.{Warns, reconcile-local_rows}

abbrev session_of : Str → Time → Session
session_of seed ended_at = record {
  seed = seed;
  problem = codes "shop";
  kind = [];
  level = [];
  mode = aws;
  created_at = 1;
  ended_at = ended_at;
  ttl_minutes = 2;
  provisioned_at = 5;
  workdir = [];
  content_root = [];
  terraform_dir = [];
  content_version = [];
  evidence = [];
  stage = created;
  bundle_path = [];
  submission_path = [];
  due_at = 0;
  reviewed_at = 0;
  candidate_url = [];
  observer_url = [];
  app_url = [];
  host = codes "10.0.0.1";
}

abbrev host_at : Str → RemoteHost
host_at seed = record {
  seed = seed;
  problem = codes "shop";
  state = codes "running";
  launched_at = 1;
  ttl_minutes = 0;
}

abbrev rows : List SessionRow
rows =
    record {
      session = session_of (codes "a") 9;
      state = ended;
      rank = rank_closed;
      elsewhere = false;
    }
    ∷ record { session = session_of (codes "b") 0; state = up; rank = rank_live; elsewhere = false }
    ∷ []

abbrev known : List Session
known = session_of (codes "a") 9 ∷ session_of (codes "b") 0 ∷ []

abbrev hosts : List RemoteHost
hosts = host_at (codes "a") ∷ host_at (codes "c") ∷ []

apart : (codes "b" == codes "a") ≡ (codes "a" == codes "a") → ⊥
unfolding ◌==◌
apart h = cc

only_a : (t : Session) → Memᴰ t known → t.seed ≡ codes "a" → t ≡ session_of (codes "a") 9
only_a t (Memᴰ.head e) q = e
only_a t (Memᴰ.tail (Memᴰ.head e)) q =
    absurd (apart (sym (ap (λ (s : Session). s.seed == codes "a") e) ∙ ap (λ x. x == codes "a") q))
only_a t (Memᴰ.tail (Memᴰ.tail m)) q = elim m [ ]

reconcile-local_rows_example :
    Warns
      (session_of (codes "a") 9)
      (reconcile 10 (local_rows (λ dir. none) 10 false known) known hosts)
reconcile-local_rows_example =
    reconcile-local_rows (λ dir. none) 10 false known hosts (host_at (codes "a"))
      (session_of (codes "a") 9) (Memᴰ.head refl) (Memᴰ.head refl) refl refl refl only_a
