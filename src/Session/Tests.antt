-- ===== src/Session/Tests.antt =====
-- Runs of the session stack on small hosts.
mod Bundles
use interviews.Base.{
  ℕ, suc, ◌+◌, ◌≡◌, ◌≢◌, ◌⊎◌, ◌<◌, le→leb, refl, Bool, true, false, [], ◌∷◌, ◌++◌, Memᴰ, none, some,
  codes, ◌==◌, leb, ◌=?◌, ok, err, arith,
}
use interviews.Debug.Engine.{State}
use interviews.Session.Stack.{
  Proc, launched, signalled, found_dead, ran, Info, StartOptions, Host, Desk, listener_exited,
  out_of_fuel,
}
use interviews.Session.Stack.Shell.{Plan, sh_quote}
use interviews.Session.Stack.Shell.Words.{plain, read_word, read_word-sh_quote}
use interviews.Session.Stack.Launch.{listening_until, cleanup}
use interviews.Session.Stack.Launch.Ended.{IsEnded}
use interviews.Session.Stack.Launch.Waits.{listening_until-ends, listening_until-finds}
use interviews.Session.Stack.Start.{Setup, live_pids, prepare, open_session, bring_live, start}
use interviews.Session.Stack.Start.Idle.{IsIdle}
use interviews.Session.Stack.Start.Outcomes.{start-IsEnded}
use interviews.Session.Stack.Stop.{stop_session, stop_session-log, kill_command, start-stop}

-- A host whose world counts its launches and waits, with the pids that run and the worlds whose ports answer.
abbrev host : (ℕ → Bool) → (ℕ → Bool) → Host ℕ
host running answers = record {
  launch = λ bin args w. (some (100 + w), suc w);
  command = λ bin args w. (true, w);
  alive = λ pid w. running pid;
  signal = λ pid w. (true, w);
  dial = λ port w. answers w;
  new_token = λ w. (some (codes "t"), w);
  account = λ w. some (codes "me");
  write_pid = λ name w. (true, w);
  remove_pid = λ name w. (true, w);
  remove_pids = λ w. (true, w);
  write_info = λ w. (true, w);
  make_scratch = λ w. (true, w);
  mint_kubeconfig = λ w. w;
  drop_kubeconfig = λ w. w;
  now = λ w. w;
  wait = λ poll w. suc w;
  cancelled = λ w. false;
}

abbrev env_state : State
env_state = record {
  problem = codes "web";
  seed = codes "s";
  overrides = [];
  pack = codes "easy";
  injected = [];
  provider = codes "compose";
  created_at = 1;
  torn_down_at = 0;
}

abbrev plan : Plan
plan = record {
  app = none;
  provider = codes "compose";
  namespace = none;
  kubeconfig = codes "k";
  executable = some (codes "e");
  render = λ s. some s;
  quoted = λ s. s;
  atoi = λ s. some 9;
  itoa = λ n. codes "9";
}

abbrev setup : Setup
setup = record {
  name = codes "drill";
  workdir = codes "/w";
  plan = plan;
  fuel = 9;
  listener_poll = 1;
  listener_wait = 5;
}

abbrev options : StartOptions
options = record {
  base_url = [];
  candidate_token = codes "c";
  observer_token = codes "o";
  app_token = [];
  candidate_user = [];
  tmux_socket = [];
  candidate_kubeconfig = [];
}

abbrev empty_desk : Desk ℕ
empty_desk = record { world = 0; state = some env_state; pids = []; info = none; log = [] }

empty-IsIdle : IsIdle empty_desk
empty-IsIdle p m = elim m [ ]

abbrev healthy : Host ℕ
healthy = host (λ pid. true) (leb 4)

-- a host where the listeners exit at once
abbrev failing : Host ℕ
failing = host (λ pid. pid =? 100) (λ w. false)

abbrev recorder : Proc
recorder = record { name = codes "asciinema"; pid = 100 }

abbrev candidate_ttyd : Proc
candidate_ttyd = record { name = codes "ttyd-candidate"; pid = 101 }

start_ok : (r : Info) × ((start healthy setup options empty_desk).0 ≡ ok r)
unfolding start prepare open_session bring_live cleanup ◌==◌
start_ok = (_, refl)

start_launches : Memᴰ (launched candidate_ttyd) (start healthy setup options empty_desk).1.log
unfolding start prepare open_session bring_live cleanup ◌==◌
start_launches = Memᴰ.tail (Memᴰ.head refl)

start-IsEnded_example : IsEnded candidate_ttyd (start failing setup options empty_desk).1.log
unfolding start prepare open_session bring_live cleanup ◌==◌
start-IsEnded_example =
    start-IsEnded failing setup options empty_desk empty-IsIdle (listener_exited 8001) refl
      candidate_ttyd (Memᴰ.tail (Memᴰ.tail (Memᴰ.tail (Memᴰ.tail (Memᴰ.tail (Memᴰ.head refl))))))

start-stop_example :
    Memᴰ
      (signalled candidate_ttyd)
      (stop_session healthy (codes "drill") (start healthy setup options empty_desk).1).log
    ⊎ Memᴰ
        (found_dead candidate_ttyd)
        (stop_session healthy (codes "drill") (start healthy setup options empty_desk).1).log
    ⊎ (candidate_ttyd.name ≡ codes "app-forward")
start-stop_example =
    start-stop healthy setup options empty_desk start_ok.0 empty-IsIdle start_ok.1 candidate_ttyd
      start_launches refl

abbrev two_on_file : Desk ℕ
two_on_file = record empty_desk { pids = (codes "a", some 100) ∷ (codes "b", some 7) ∷ [] }

-- the clock of the test hosts
healthy_ticks : (w : ℕ) → w < suc w
healthy_ticks w = omega arith

listening_until-finds_example : (listening_until healthy 1 5 8001 100 6 0).0 ≡ ok tt
listening_until-finds_example =
    listening_until-finds healthy 1 5 8001 100 6 0 4 healthy_ticks (omega arith)
      (λ w e. le→leb 4 w e) (λ w. refl) (λ w. refl) (omega arith) (omega arith)

read_word-sh_quote_example :
    read_word plain (sh_quote (codes "it's") ++ codes " next") ≡ some (codes "it's", codes " next")
unfolding read_word
read_word-sh_quote_example = read_word-sh_quote (codes "it's") (codes " next") refl
