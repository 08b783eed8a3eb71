-- ===== src/Grading/Tests.antt =====
-- Two ledgers that share a hint, and a score.
use interviews.Base.{ℕ, ◌≡◌, refl, ◌↔◌, true, false, List, [], ◌∷◌, Memᴰ, some, codes, ◌==◌, ok}
use interviews.Base.Sort.{IsSorted}
use interviews.Debug.Scenario.{Fault, easy, find_fault}
use interviews.Debug.Engine.{
  passed, Substrate, listable, State, recorded, Machine, Engine, verdict, check, check_all, status,
}
use interviews.Debug.Engine.Verdicts.{IsKnown}
use interviews.Grading.Hints.{Hint, all_of, earlier, merge_hints}
use interviews.Grading.Hints.Merged.{IsDistinct, merge_hints_lem}
use interviews.Grading.Score.{Score, tally, score_rows, refresh_score}
use interviews.Grading.Score.Counts.{Counted, refresh_score-Counted}

abbrev hint_at : ℕ → Hint
hint_at n = record { minute = n; text = codes "look at the logs"; at = n; zone = 0 }

abbrev ledgers : List (List Hint)
ledgers = (hint_at 9 ∷ hint_at 4 ∷ []) ∷ (hint_at 4 ∷ []) ∷ []

merge_hints_lem_example :
    IsSorted earlier (merge_hints ledgers)
    × ((h : Hint) → Memᴰ h (merge_hints ledgers) ↔ Memᴰ h (all_of ledgers))
    × IsDistinct (merge_hints ledgers)
merge_hints_lem_example = merge_hints_lem ledgers

-- a world without state, in which the one fault is fixed and the app is healthy
abbrev still : Substrate Unit
still = record {
  run = λ path fast w. (passed, w);
  detect = λ w. (true, w);
  provider_up = λ w. (true, w);
  provider_down = λ w. (true, w);
  make_workdir = λ w. (true, w);
  write_state = λ w. (true, w);
  remove = λ name w. (true, w);
  remove_workdir = λ w. (true, w);
  listing = λ w. listable;
  entries = λ w. [];
  now = λ w. 5;
  wait = λ d w. w;
  cancelled = λ w. false;
}

abbrev one_fault : Fault
one_fault = record {
  spec = record {
    id = codes "a";
    title = codes "t";
    tier = easy;
    packs = codes "p" ∷ [];
    masks = [];
    settle_seconds = 0;
    fix_timeout_seconds = 0;
  };
  dir = codes "faults/a";
}

abbrev engine : Engine
engine = record {
  problem = codes "shop";
  seed = codes "s1";
  overrides = [];
  pack = some (codes "p");
  faults = one_fault ∷ [];
  verify = codes "verify.sh";
  provider = codes "kind";
  settle = 0;
  poll_interval = 1;
  fix_timeout = 1;
  verify_timeout = 1;
}

abbrev state : State
state = record {
  problem = codes "shop";
  seed = codes "s1";
  overrides = [];
  pack = codes "p";
  injected = codes "a" ∷ [];
  provider = codes "kind";
  created_at = 1;
  torn_down_at = 0;
}

abbrev machine : Machine Unit
machine = record { world = tt; state = some (recorded state) }

abbrev score : Score
score = record {
  problem = codes "shop";
  interview_id = codes "s1";
  pack = codes "p";
  faults =
      record {
        id = codes "a";
        title = codes "t";
        tier = easy;
        is_fixed = true;
        check_failed = false;
      }
      ∷ [];
  fixed_count = 1;
  total = 1;
  verified = true;
  at = 5;
}

a_IsKnown : IsKnown engine (codes "a")
unfolding find_fault ◌==◌
a_IsKnown = record { fault = one_fault; found = refl }

score_run : (refresh_score still (λ s w. (true, w)) engine machine).0 ≡ ok score
unfolding refresh_score score_rows tally status check_all check verdict find_fault ◌==◌
score_run = refl

refresh_score-Counted_example : Counted still engine (codes "a" ∷ []) tt score
refresh_score-Counted_example =
    refresh_score-Counted still (λ s w. (true, w)) engine machine state score
      record { on_disk = refl; live = refl } (a_IsKnown, tt) score_run
