-- ===== src/Redteam/Ledger/Recent.antt =====
-- What `Latest` keeps.
use interviews.Base.{
  ◌≤◌, ◌≡◌, refl, sym, ap, ◌∙◌, subst, inl, inr, false, List, [], ◌∷◌, Memᴰ, some, Str, ◌==◌, ==→eq,
  ==_refl, Bool-cases, Option-cases, ltb, ltb→lt, lt→ltb, arith, if◌then◌else◌,
}
use interviews.Base.Sort.{str_le}
use interviews.Redteam.Ledger.{Attempt, key_of, look, enter, take_in, latest_from, latest}

look-enter :
    (out : List (Str × Attempt)) (key : Str) (e : Attempt) → look (enter out key e) key ≡ some e
unfolding look enter
look-enter [] key e = rw (==_refl key) refl
look-enter ((k, d) ∷ out) key e = elim (Bool-cases (k == key)) [
  | inl q ↦ rw (q, enter) (rw (==_refl key) refl)
  | inr q ↦
      rw (q, enter)
        (elim (Bool-cases (str_le key k)) [
          | inl t ↦ rw t (rw (==_refl key) refl)
          | inr t ↦ rw t (rw (q, look) (look-enter out key e))
        ])
]

look-enter_other :
    (out : List (Str × Attempt)) (key other : Str) (e : Attempt)
    → (key == other) ≡ false
    → look (enter out key e) other ≡ look out other
unfolding look enter
look-enter_other [] key other e n = rw n refl
look-enter_other ((k, d) ∷ out) key other e n = elim (Bool-cases (k == key)) [
  | inl q ↦
      rw (q, enter) (rw n (rw (subst (λ x. (x == other) ≡ false) (sym (==→eq k key q)) n) refl))
  | inr q ↦
      rw (q, enter)
        (elim (Bool-cases (str_le key k)) [
          | inl t ↦ rw t (rw n refl)
          | inr t ↦
              rw t (ap (λ o. if k == other then some d else o) (look-enter_other out key other e n))
        ])
]

-- The ledger's map has a run under the same key that is no older.
pub record HasRecent (out : List (Str × Attempt)) (e : Attempt) : Type 0 where
  pub found : Attempt
  pub there : look out (key_of e) ≡ some found
  pub no_older : e.at ≤ found.at

-- What the map has under a key is a run of the list, of that key.
abbrev pub IsFrom : List Attempt → List (Str × Attempt) → Type 0
IsFrom entries out =
    (key : Str) (f : Attempt) → look out key ≡ some f → Memᴰ f entries × (key_of f ≡ key)

some-inj : (a b : Attempt) → some a ≡ some b → a ≡ b
some-inj a b h = cc

enter-HasRecent :
    (out : List (Str × Attempt)) (d e : Attempt)
    → ((f : Attempt) → look out (key_of d) ≡ some f → f.at ≤ d.at)
    → HasRecent out e
    → HasRecent (enter out (key_of d) d) e
enter-HasRecent out d e newer h = elim (Bool-cases (key_of d == key_of e)) [
  | inl q ↦
      let same = ==→eq (key_of d) (key_of e) q in
      let old = newer h.found (ap (look out) same ∙ h.there) in
      record {
        found = d;
        there =
            subst (λ k. look (enter out (key_of d) d) k ≡ some d) same
              (look-enter out (key_of d) d);
        no_older = ground (arith, old, h.no_older);
      }
  | inr q ↦ record {
    found = h.found;
    there = look-enter_other out (key_of d) (key_of e) d q ∙ h.there;
    no_older = h.no_older;
  }
]

take_in-keeps :
    (out : List (Str × Attempt)) (d e : Attempt) → HasRecent out e → HasRecent (take_in out d) e
unfolding take_in
take_in-keeps out d e h = elim (Option-cases (look out (key_of d))) [
  | inl q ↦ rw (q, take_in) (enter-HasRecent out d e (λ f r. cc) h)
  | inr (prev, q) ↦
      rw (q, take_in)
        (elim (Bool-cases (ltb prev.at d.at)) [
          | inl t ↦ rw t (
              enter-HasRecent out d e
                (λ f r.
                  subst (λ (x : Attempt). x.at ≤ d.at) (some-inj prev f (sym q ∙ r))
                    (ground (arith, ltb→lt prev.at d.at t)))
                h)
          | inr t ↦ rw t h
        ])
]

take_in-has : (out : List (Str × Attempt)) (d : Attempt) → HasRecent (take_in out d) d
unfolding take_in
take_in-has out d = elim (Option-cases (look out (key_of d))) [
  | inl q ↦
      rw (q, take_in)
        record { found = d; there = look-enter out (key_of d) d; no_older = ground arith }
  | inr (prev, q) ↦
      rw (q, take_in)
        (elim (Bool-cases (ltb prev.at d.at)) [
          | inl t ↦
              rw t
                record { found = d; there = look-enter out (key_of d) d; no_older = ground arith }
          | inr t ↦
              rw t
                record { found = prev; there = q; no_older = ground (arith, lt→ltb prev.at d.at) }
        ])
]

enter-IsFrom :
    (entries : List Attempt) (out : List (Str × Attempt)) (d : Attempt)
    → Memᴰ d entries
    → IsFrom entries out
    → IsFrom entries (enter out (key_of d) d)
enter-IsFrom entries out d m h key f r = elim (Bool-cases (key_of d == key)) [
  | inl q ↦
      let same = ==→eq (key_of d) key q in
      let e =
        some-inj d f
          (sym (look-enter out (key_of d) d) ∙ ap (look (enter out (key_of d) d)) same ∙ r) in
      (subst (λ x. Memᴰ x entries) e m, ap key_of (sym e) ∙ same)
  | inr q ↦ h key f (sym (look-enter_other out (key_of d) key d q) ∙ r)
]

take_in-IsFrom :
    (entries : List Attempt) (out : List (Str × Attempt)) (d : Attempt)
    → Memᴰ d entries
    → IsFrom entries out
    → IsFrom entries (take_in out d)
unfolding take_in
take_in-IsFrom entries out d m h = elim (Option-cases (look out (key_of d))) [
  | inl q ↦ rw (q, take_in) (enter-IsFrom entries out d m h)
  | inr (prev, q) ↦
      rw (q, take_in)
        (elim (Bool-cases (ltb prev.at d.at)) [
          | inl t ↦ rw t (enter-IsFrom entries out d m h)
          | inr t ↦ rw t h
        ])
]

latest_from-keeps :
    (entries : List Attempt) (out : List (Str × Attempt)) (e : Attempt)
    → HasRecent out e
    → HasRecent (latest_from out entries) e
unfolding latest_from
latest_from-keeps [] out e h = h
latest_from-keeps (d ∷ entries) out e h =
    latest_from-keeps entries (take_in out d) e (take_in-keeps out d e h)

latest_from-has :
    (entries : List Attempt) (out : List (Str × Attempt)) (e : Attempt)
    → Memᴰ e entries
    → HasRecent (latest_from out entries) e
unfolding latest_from
latest_from-has [] out e m = elim m [ ]
latest_from-has (d ∷ entries) out e (Memᴰ.head q) =
    latest_from-keeps entries (take_in out d) e
      (subst (λ x. HasRecent (take_in out d) x) (sym q) (take_in-has out d))
latest_from-has (d ∷ entries) out e (Memᴰ.tail m) = latest_from-has entries (take_in out d) e m

latest_from-IsFrom :
    (all entries : List Attempt) (out : List (Str × Attempt))
    → ((e : Attempt) → Memᴰ e entries → Memᴰ e all)
    → IsFrom all out
    → IsFrom all (latest_from out entries)
unfolding latest_from
latest_from-IsFrom all [] out sub h = h
latest_from-IsFrom all (d ∷ entries) out sub h =
    latest_from-IsFrom all entries (take_in out d) (λ e m. sub e (Memᴰ.tail m))
      (take_in-IsFrom all out d (sub d (Memᴰ.head refl)) h)

none_there : (entries : List Attempt) → IsFrom entries []
unfolding look
none_there entries key f r = cc

-- For each run of the ledger, `Latest` has a run under its key that is no older; and what it has under
-- a key is a run of the ledger with that key.
pub latest_lem :
    (entries : List Attempt)
    → ((e : Attempt) → Memᴰ e entries → HasRecent (latest entries) e)
      × IsFrom entries (latest entries)
unfolding latest
latest_lem entries = (
  latest_from-has entries [],
  latest_from-IsFrom entries entries [] (λ e m. m) (none_there entries),
)
