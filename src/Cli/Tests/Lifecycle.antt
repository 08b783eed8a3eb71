-- ===== src/Cli/Tests/Lifecycle.antt =====
-- Commands over a registry that has one local session, on a machine that counts its calls.
use mathlib.Core.List.{filter_map}
use interviews.Base.Sort.{str_le}
use interviews.Base.{
  ℕ, suc, ◌≡◌, ◌≢◌, refl, Bool, true, false, [], ◌∷◌, Option, none, some, Str, codes, ◌==◌, ==_iff,
  sym, trim_space, newline, ◌++◌, ok, if◌then◌else◌,
}
use interviews.Interview.Seed.{valid_seed}
use interviews.Interview.Store.{
  Mode, local, offline, created, sent, Time, Session, recorded, get, save, load, current_seed,
  current, marked, open_sessions, list, set_current, set_current_if_idle,
}
use interviews.Cli.Commands.{Live, Cloud, Console, Request, start_local, current_or}
use interviews.Cli.Commands.Remote.{start_remote, module_dir}
use interviews.Cli.Commands.Offline.{deliver, move_to, at_stage}
use interviews.Cli.Commands.Recorded.{start_local-current, start_remote-current}
use interviews.Cli.Commands.Staged.{move_to_lem, deliver-current}

true-false : true ≡ false → ⊥
true-false h = cc

abbrev bison : Str
bison = codes "calm-bison-0801"

abbrev heron : Str
heron = codes "keen-heron-0801"

abbrev session : Str → Mode → Session
session seed mode = record {
  seed = seed;
  problem = codes "shop";
  kind = [];
  level = [];
  mode = mode;
  created_at = 1;
  ended_at = 0;
  ttl_minutes = 0;
  provisioned_at = 0;
  workdir = codes "/w";
  content_root = [];
  terraform_dir = [];
  content_version = [];
  evidence = [];
  stage = created;
  bundle_path = [];
  submission_path = [];
  due_at = 0;
  reviewed_at = 0;
  candidate_url = [];
  observer_url = [];
  app_url = [];
  host = [];
}

abbrev console : Mode → Console ℕ
console mode = record {
  home = record {
    docs = (bison, recorded (session bison mode)) ∷ [];
    marker = some (bison ++ newline ∷ []);
  };
  world = 1;
  disk = λ n. true;
}

-- a machine whose session stack never comes up
abbrev machine : Live ℕ
machine = record {
  builds = λ problem seed v. true;
  up = λ v. (true, suc v);
  inject = λ v. (true, suc v);
  start = λ v. (none, v);
  stop = λ v. (false, v);
  down = λ purge v. (true, suc v);
  now = λ v. 7;
}

abbrev account : Cloud ℕ
account = record {
  setup = λ v. some (record { bucket = codes "b"; region = codes "r" });
  infra = λ v. some (codes "/infra");
  has_env = λ seed v. true;
  identity = λ v. (true, v);
  version = λ v. (none, v);
  init = λ seed v. (true, v);
  apply = λ s v. (false, suc v);
  outputs = λ v. (none, v);
  wait_ready = λ s v. (true, v);
  remove_evidence = λ e v. (true, v);
  make_copy = λ v. (true, v);
  sync = λ e v. (true, v);
  destroy = λ s v. (true, v);
  remove_data = λ v. v;
  hosts = λ v. some [];
  now = λ v. 7;
}

abbrev request : Request
request = record {
  seed = heron;
  problem = codes "shop";
  level = [];
  workdir = codes "/v";
  content_root = [];
  no_break = false;
  ttl_minutes = 30;
}

heron_valid : valid_seed heron ≡ ok tt
unfolding valid_seed ◌==◌
heron_valid = refl

start_local-current_example :
    (t : Session) × (current (start_local machine request (console local)).1.home ≡ ok t)
    × (t.seed ≡ heron)
    × (t.workdir ≡ codes "/v")
    × (t.ended_at ≡ 0)
start_local-current_example =
    start_local-current machine request (console local) heron_valid refl refl refl

start_remote-current_example :
    (t : Session) × (current (start_remote account request (console local)).1.home ≡ ok t)
    × (t.seed ≡ heron)
    × (t.terraform_dir ≡ module_dir (codes "/infra"))
    × (t.ended_at ≡ 0)
start_remote-current_example =
    start_remote-current account request (console local)
      (record { bucket = codes "b"; region = codes "r" }) (codes "/infra") [] heron_valid refl refl
      refl

-- what the operands name, of which these commands have none
abbrev no_file : Str → ℕ → Option Str
no_file arg v = none

abbrev seven : ℕ → Time
seven v = 7

moved : (s : Session) × ((move_to no_file seven sent bison [] (console offline)).0 ≡ ok s)
unfolding move_to load get save at_stage valid_seed ◌==◌
moved = (_, refl)

move_to_lem_example :
    (rec : Session) × ((current_or bison (console offline)).0 ≡ ok rec)
    × (rec.mode ≡ offline)
    × (moved.0.stage ≡ sent)
    × ((j : Str)
        → load j (move_to no_file seven sent bison [] (console offline)).1.home
          ≡ (if rec.seed == j then ok moved.0 else load j (console offline).home))
move_to_lem_example = move_to_lem no_file seven sent bison [] (console offline) moved.0 moved.1

abbrev writes : ℕ → Bool × ℕ
writes v = (true, v)

delivered :
    (s : Session) × ((deliver writes seven heron
        (codes "cache")
        (codes "take-home")
        []
        (codes "/d")
        0
        (console local)).0
      ≡ ok s)
unfolding deliver save valid_seed ◌==◌ current str_le
delivered = (_, refl)

bison_marked : current_seed (console local).home ≡ some bison
unfolding current_seed trim_space
bison_marked = refl

bison_loads : load bison (console local).home ≡ ok (session bison local)
unfolding load get ◌==◌
bison_loads = refl

bison_named : (bison == []) ≡ false
unfolding ◌==◌
bison_named = refl

seeds_apart : bison ≢ heron
unfolding ◌==◌
seeds_apart h = true-false (sym ((==_iff bison heron).1 h))

deliver-current_example :
    current
      (deliver writes seven heron
        (codes "cache")
        (codes "take-home")
        []
        (codes "/d")
        0
        (console local)).1.home
    ≡ ok (session bison local)
deliver-current_example =
    deliver-current writes seven heron (codes "cache") (codes "take-home") [] (codes "/d") 0
      (console local) (session bison local) delivered.0 bison_marked bison_loads bison_named refl
      seeds_apart delivered.1

-- Without a marker, a drop beside the one open session takes the commands over.
drop_takes_over :
    (s : Session) × (current
        (deliver writes seven heron (codes "cache") (codes "take-home") [] (codes "/d") 0 (record {
          home = record (console local).home { marker = none };
          world = 1;
          disk = λ n. true;
        })).1.home
      ≡ ok s)
    × (s.seed ≡ heron)
unfolding deliver save load get valid_seed current marked open_sessions list current_seed trim_space
    set_current set_current_if_idle ◌==◌ filter_map str_le
drop_takes_over = (_, refl, refl)
