-- ===== src/Redteam/Tests.antt =====
-- Two runs of one pack.
use interviews.Base.{ℕ, ◌≡◌, refl, false, List, [], ◌∷◌, codes, ◌==◌}
use interviews.Base.Sort.{str_le}
use interviews.Redteam.Ledger.{
  Attempt, Verdict, holds, too_easy, is_easy_share, judge, key_of, look, enter, take_in,
  latest_from, latest, rework, stale,
}

abbrev attempt : ℕ → ℕ → Verdict → Attempt
attempt at good verdict = record {
  problem = codes "shop";
  pack = codes "red";
  at = at;
  fixed_count = good;
  total = 5;
  verified = false;
  verdict = verdict;
}

abbrev runs : List Attempt
runs = attempt 4 3 too_easy ∷ attempt 2 1 holds ∷ []

three_of_five : judge (attempt 1 3 holds) ≡ too_easy
unfolding judge is_easy_share
three_of_five = refl

two_of_five : judge (attempt 1 2 holds) ≡ holds
unfolding judge is_easy_share
two_of_five = refl

stale_run : stale runs ≡ attempt 4 3 too_easy ∷ []
unfolding stale rework latest latest_from take_in look enter key_of str_le ◌==◌
stale_run = refl
