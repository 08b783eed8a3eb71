-- ===== src/Cli/Tests/Wholes.antt =====
-- A local start on a machine where every call works, down to its processes.
use interviews.Base.{ℕ, suc, ◌+◌, ◌≡◌, refl, true, false, leb, [], none, some, codes, ◌==◌, ok}
use interviews.Base.Exec.{pure}
use interviews.Interview.Seed.{valid_seed}
use interviews.Interview.Store.{Session, save}
use interviews.Debug.Scenario.{pack_faults}
use interviews.Debug.Engine.{passed, Substrate, listable, Engine, up, break}
use interviews.Session.Stack.{Host, StartOptions}
use interviews.Session.Stack.Launch.{cleanup}
use interviews.Session.Stack.Launch.Forward.{IsFiled}
use interviews.Session.Stack.Start.{Setup, start, prepare, open_session, bring_live}
use interviews.Cli.Commands.{Console, Live, Request, start_local}
use interviews.Cli.Live.{Bench, desk, live}
use interviews.Cli.Live.Started.{start_local-IsFiled}

abbrev substrate : Substrate ℕ
substrate = record {
  run = λ path fast w. (passed, w);
  detect = λ w. (true, w);
  provider_up = λ w. (true, w);
  provider_down = λ w. (true, w);
  make_workdir = λ w. (true, w);
  write_state = λ w. (true, w);
  remove = λ path w. (true, w);
  remove_workdir = λ w. (true, w);
  listing = λ w. listable;
  entries = λ w. [];
  now = λ w. 7;
  wait = λ n w. w;
  cancelled = λ w. false;
}

-- the ports answer once four processes were launched or waits were taken
abbrev host : Host ℕ
host = record {
  launch = λ bin args w. (some (100 + w), suc w);
  command = λ bin args w. (true, w);
  alive = λ pid w. true;
  signal = λ pid w. (true, w);
  dial = λ port w. leb 4 w;
  new_token = λ w. (some (codes "t"), w);
  account = λ w. none;
  write_pid = λ name w. (true, w);
  remove_pid = λ name w. (true, w);
  remove_pids = λ w. (true, w);
  write_info = λ w. (true, w);
  make_scratch = λ w. (true, w);
  mint_kubeconfig = λ w. w;
  drop_kubeconfig = λ w. w;
  now = λ w. w;
  wait = λ poll w. suc w;
  cancelled = λ w. false;
}

abbrev engine : Engine
engine = record {
  problem = codes "shop";
  seed = codes "s";
  overrides = [];
  pack = some (codes "p");
  faults = [];
  verify = codes "verify.sh";
  provider = codes "compose";
  settle = 1;
  poll_interval = 1;
  fix_timeout = 1;
  verify_timeout = 1;
}

abbrev setup : Setup
setup = record {
  name = codes "drill";
  workdir = codes "/w";
  fuel = 9;
  listener_poll = 1;
  listener_wait = 5;
  plan = record {
    app = none;
    provider = codes "compose";
    namespace = none;
    kubeconfig = [];
    executable = none;
    render = λ s. some s;
    quoted = λ s. s;
    atoi = λ s. none;
    itoa = λ n. [];
  };
}

abbrev options : StartOptions
options = record {
  base_url = [];
  candidate_token = codes "c";
  observer_token = codes "o";
  app_token = [];
  candidate_user = [];
  tmux_socket = [];
  candidate_kubeconfig = [];
}

abbrev request : Request
request = record {
  seed = codes "keen-heron-0801";
  problem = codes "shop";
  level = [];
  workdir = codes "/w";
  content_root = [];
  no_break = false;
  ttl_minutes = 0;
}

abbrev idle : Console (Bench ℕ)
idle = record {
  home = record { docs = []; marker = none };
  world = record { machine = record { world = 0; state = none }; pids = []; info = none; log = [] };
  disk = λ n. true;
}

abbrev calls : Live (Bench ℕ)
calls = live substrate host engine setup options 3 (λ problem seed v. true) (pure tt)

started : (s : Session) × ((start_local calls request idle).0 ≡ ok s)
unfolding start_local live up break start prepare open_session bring_live cleanup save valid_seed
    ◌==◌ pack_faults
started = (_, refl)

start_local-IsFiled_example : IsFiled (desk (start_local calls request idle).1.world)
start_local-IsFiled_example =
    start_local-IsFiled substrate host engine setup options 3 (λ problem seed v. true) (pure tt)
      request started.0 idle (λ p m. elim m [ ]) started.1
