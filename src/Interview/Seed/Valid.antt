-- ===== src/Interview/Seed/Valid.antt =====
-- What a valid seed is, and that the invented ones are valid.
use interviews.Base.{
  ℕ, ◌≤◌, ◌≡◌, refl, ap, ◌↔◌, inl, inr, Bool, true, false, ◌&&◌, [], ◌∷◌, ◌++◌, Memᴰ, Str, codes,
  arith, ◌==◌, ==→eq, elem, any, all, all-All, all-append, All, All-mem, length, length-append, ltb,
  leb, ◌=?◌, is_space, Bool-cases, ok,
}
use interviews.Interview.Seed.{
  reserved_seeds, is_seed_char, check_chars, valid_seed, adjectives, nouns, dash, seed_of,
}

-- A text that is safe as a file name, a cluster name and a bucket key of its own.
pub record IsSeed (seed : Str) : Type 0 where
  pub nonempty : (seed == []) ≡ false
  pub unreserved : elem seed reserved_seeds ≡ false
  pub short : length seed ≤ 64
  pub chars : All (λ r. is_seed_char r ≡ true) seed

check_chars-ok : (seed s : Str) → check_chars seed s ≡ ok tt → All (λ r. is_seed_char r ≡ true) s
unfolding check_chars
check_chars-ok seed [] h = tt
check_chars-ok seed (r ∷ s) h = elim (Bool-cases (is_seed_char r)) [
  | inl e ↦ (e, check_chars-ok seed s (rw e at h))
  | inr e ↦ absurd (ground arith)
]

check_chars_of_All :
    (seed s : Str) → All (λ r. is_seed_char r ≡ true) s → check_chars seed s ≡ ok tt
unfolding check_chars
check_chars_of_All seed [] h = refl
check_chars_of_All seed (r ∷ s) h = rw (h.0) (check_chars_of_All seed s h.1)

valid_seed→IsSeed : (seed : Str) → valid_seed seed ≡ ok tt → IsSeed seed
unfolding valid_seed
valid_seed→IsSeed seed h = elim (Bool-cases (seed == [])) [
  | inl e ↦ absurd (ground arith)
  | inr e ↦ elim (Bool-cases (elem seed reserved_seeds)) [
    | inl r ↦ absurd (ground arith)
    | inr r ↦ elim (Bool-cases (ltb 64 (length seed))) [
      | inl l ↦ absurd (ground arith)
      | inr l ↦ record {
        nonempty = e;
        unreserved = r;
        short = ground arith;
        chars = check_chars-ok seed seed (rw (e, r, l) at h);
      }
    ]
  ]
]

IsSeed→valid_seed : (seed : Str) → IsSeed seed → valid_seed seed ≡ ok tt
unfolding valid_seed
IsSeed→valid_seed seed s =
    let short : ltb 64 (length seed) ≡ false = ground (arith, s.short) in
    rw (s.nonempty, s.unreserved, short) (check_chars_of_All seed seed s.chars)

-- `ValidSeed` accepts exactly the texts that are not empty, not reserved, at most 64 bytes long
-- and spelled in lower-case letters, digits and dashes alone.
pub valid_seed_iff : (seed : Str) → (valid_seed seed ≡ ok tt) ↔ IsSeed seed
valid_seed_iff seed = (valid_seed→IsSeed seed, IsSeed→valid_seed seed)

seed_char-not-space : (r : ℕ) → is_seed_char r ≡ true → is_space r ≡ false
seed_char-not-space r h = ground arith

pub IsSeed-no_space :
    (s : Str) → All (λ r. is_seed_char r ≡ true) s → All (λ r. is_space r ≡ false) s
IsSeed-no_space [] h = tt
IsSeed-no_space (r ∷ s) h = (seed_char-not-space r h.0, IsSeed-no_space s h.1)

-- A word that may stand in an invented seed.
abbrev is_word : Str → Bool
is_word w = all is_seed_char w && leb (length w) 20

words_checked : (all is_word adjectives ≡ true) × (all is_word nouns ≡ true)
unfolding adjectives nouns
words_checked = (refl, refl)

has_dash-append : (a b : Str) → any (λ r. r =? dash) (a ++ dash ∷ b) ≡ true
has_dash-append [] b = refl
has_dash-append (x ∷ a) b = ground (arith, has_dash-append a b)

unreserved_of_dash :
    (seed : Str) → any (λ r. r =? dash) seed ≡ true → elem seed reserved_seeds ≡ false
unreserved_of_dash seed h = elim (Bool-cases (elem seed reserved_seeds)) [
  | inr e ↦ e
  | inl e ↦ absurd (
      ground (
        arith,
        ==→eq seed (codes "state"),
        ==→eq seed (codes "tarballs"),
        λ (q : seed ≡ codes "state"). ap (any (λ r. r =? dash)) q,
        λ (q : seed ≡ codes "tarballs"). ap (any (λ r. r =? dash)) q,
      ))
]

IsSeed-seed_of :
    (a n s : Str)
    → is_word a ≡ true
    → is_word n ≡ true
    → all is_seed_char s ≡ true
    → length s ≤ 20
    → IsSeed (seed_of a n s)
unfolding seed_of
IsSeed-seed_of a n s ha hn hs short =
    let chars =
      all-append is_seed_char a (dash ∷ (n ++ dash ∷ s)) (ground arith)
        (all-append is_seed_char n (dash ∷ s) (ground arith) hs) in
    record {
      nonempty = unreserved_empty (a ++ dash ∷ (n ++ dash ∷ s)) (has_dash-append a (n ++ dash ∷ s));
      unreserved = unreserved_of_dash _ (has_dash-append a (n ++ dash ∷ s));
      short = ground (arith, length-append a (dash ∷ (n ++ dash ∷ s)), length-append n (dash ∷ s));
      chars = all-All is_seed_char _ chars;
    }
  where
    unreserved_empty : (t : Str) → any (λ r. r =? dash) t ≡ true → (t == []) ≡ false
    unreserved_empty [] h = absurd (ground arith)
    unreserved_empty (x ∷ t) h = unfold ◌==◌ in refl

-- An adjective and a noun of the lists with a stamp of at most 20 seed characters make a valid
-- seed.
pub seed_of-valid :
    (a n s : Str)
    → Memᴰ a adjectives
    → Memᴰ n nouns
    → all is_seed_char s ≡ true
    → length s ≤ 20
    → valid_seed (seed_of a n s) ≡ ok tt
seed_of-valid a n s ha hn hs short = IsSeed→valid_seed (seed_of a n s) (
    IsSeed-seed_of a n s
      (All-mem (λ w. is_word w ≡ true) adjectives (all-All is_word adjectives words_checked.0) ha)
      (All-mem (λ w. is_word w ≡ true) nouns (all-All is_word nouns words_checked.1) hn) hs short)
