-- ===== src/Interview/Store/Fresh.antt =====
-- `NewSeed` invents a seed that no session has.
use interviews.Base.{
  ◌≤◌, ◌≡◌, inl, inr, true, List, [], ◌∷◌, Memᴰ, none, some, Str, arith, all, All, Option-cases,
  length, ok,
}
use interviews.Interview.Seed.{is_seed_char, valid_seed, adjectives, nouns, seed_of}
use interviews.Interview.Seed.Valid.{seed_of-valid}
use interviews.Interview.Store.{Doc, Home, get, new_seed}

-- The drawn words come from the two lists.
abbrev pub IsDraw : Str × Str → Type 0
IsDraw (a, n) = Memᴰ a adjectives × Memᴰ n nouns

-- A seed that `NewSeed` returns is valid and names no document of the registry; it gives up only
-- if every seed that it drew is taken.
pub new_seed_lem :
    (draws : List (Str × Str)) (stamp : Str) (h : Home)
    → All IsDraw draws
    → all is_seed_char stamp ≡ true
    → length stamp ≤ 20
    → ((seed : Str)
        → new_seed draws stamp h ≡ some seed
        → (get h.docs seed ≡ none) × (valid_seed seed ≡ ok tt))
      × (new_seed draws stamp h ≡ none
          → All (λ (a, n). (d : Doc) × (get h.docs (seed_of a n stamp) ≡ some d)) draws)
unfolding new_seed
new_seed_lem [] stamp h d c l = (λ seed e. absurd (ground arith), λ e. tt)
new_seed_lem ((a, n) ∷ draws) stamp h d c l =
    let (found, failed) = new_seed_lem draws stamp h d.1 c l in
    elim (Option-cases (get h.docs (seed_of a n stamp))) [
      | inl free ↦ (
        λ seed e.
            let same : seed_of a n stamp ≡ seed = ground (arith, free, e) in
            (rw (← same) free, rw (← same) (seed_of-valid a n stamp d.0.0 d.0.1 c l)),
        λ e. absurd (ground (arith, free, e)),
      )
      | inr (doc, taken) ↦ (
        λ seed e. found seed (ground (arith, taken, e)),
        λ e. ((doc, taken), failed (ground (arith, taken, e))),
      )
    ]
