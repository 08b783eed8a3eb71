-- ===== src/Session/Evidence/Accounted.antt =====
-- Every file of the candidate's directory is packed or named as left out.
use interviews.Base.{
  ℕ, ◌≡◌, refl, ap, ◌≤◌, ◌<◌, arith, ◌⊎◌, inl, inr, Bool, true, false, not, List, [], ◌∷◌, ◌++◌,
  Memᴰ, All, mem-append_left, mem-append_right, Option, none, some, Str, ◌==◌, ltb, ltb→lt, subst,
  Bool-cases, if_rule, Result, ok,
}
use interviews.Base.Exec.{>>=-ran}
use interviews.Session.Evidence.{
  Read, missing, unreadable, content, Visit, walk_error, directory, visited, Skipped, not_regular,
  too_large, Entry, EvidenceError, Workdir, Shelf, Pass, info_file, candidate_file_limit,
  redacted_info, with_entry, add_bytes, add_redacted, add_read, add_file, add_visits,
}

-- The draft is open and has an entry of that name.
abbrev pub IsPacked : Str → Option (List Entry) → Type 0
IsPacked name none = ⊥
IsPacked name (some es) = (e : Entry) × Memᴰ e es × (e.name ≡ name)

abbrev pub IsOpen : Option (List Entry) → Type 0
IsOpen none = ⊥
IsOpen (some es) = Unit

-- What became of a file that the walk came to: it is packed, or was gone when it was to be read, or it is named with
-- the reason for which it is left out.
pub data IsFiled {W : Type 0} (d : Workdir W) (out : List Skipped) (m : Shelf W) (name : Str)
    (regular : Bool) (size : ℕ) : Type 0 where
  packed :
      regular ≡ true
      → size ≤ candidate_file_limit
      → IsPacked name m.draft
      → IsFiled d out m name regular size
  gone : (w : W) → d.read name w ≡ missing → IsFiled d out m name regular size
  irregular : regular ≡ false → Memᴰ (not_regular name) out → IsFiled d out m name regular size
  over :
      candidate_file_limit < size
      → Memᴰ (too_large name size) out
      → IsFiled d out m name regular size

module _ {W : Type 0} (d : Workdir W) where
  abbrev pub IsAccounted : List Skipped → Shelf W → Visit → Type 0
  IsAccounted out m walk_error = ⊥
  IsAccounted out m directory = Unit
  IsAccounted out m (visited name regular size) = IsFiled d out m name regular size

  -- What a step that returned kept of the draft.
  record Grows (m m' : Shelf W) : Type 0 where
    pub is_open : IsOpen m'.draft
    pub keeps : (n : Str) → IsPacked n m.draft → IsPacked n m'.draft

  IsPacked-with_entry :
      (n : Str) (e : Entry) (o : Option (List Entry)) → IsPacked n o → IsPacked n (with_entry d e o)
  IsPacked-with_entry n e none k = k
  IsPacked-with_entry n e (some es) (f, m, q) = (f, mem-append_left es (e ∷ []) m, q)

  IsPacked-new :
      (e : Entry) (o : Option (List Entry)) → IsOpen o → IsPacked e.name (with_entry d e o)
  IsPacked-new e none k = k
  IsPacked-new e (some es) k = (e, mem-append_right es (Memᴰ.head refl), refl)

  IsOpen-with_entry : (e : Entry) (o : Option (List Entry)) → IsOpen o → IsOpen (with_entry d e o)
  IsOpen-with_entry e none k = k
  IsOpen-with_entry e (some es) k = tt

  add_bytes-Grows :
      (name bytes : Str) (m m' : Shelf W)
      → add_bytes d name bytes m ≡ (ok tt, m')
      → IsOpen m.draft
      → Grows m m' × IsPacked name m'.draft
  unfolding add_bytes
  add_bytes-Grows name bytes m m' h o = elim (Bool-cases ((d.append m.world).0)) [
    | inr e ↦ cc (rw e at h)
    | inl e ↦
        subst (λ s. Grows m s × IsPacked name s.draft)
          (ap (λ (r : Result EvidenceError Unit × Shelf W). r.1) (rw e at h))
          (
            record {
              is_open = IsOpen-with_entry (record { name = name; bytes = bytes }) m.draft o;
              keeps =
                  λ n k. IsPacked-with_entry n (record { name = name; bytes = bytes }) m.draft k;
            },
            IsPacked-new (record { name = name; bytes = bytes }) m.draft o,
          )
  ]

  add_read-Grows :
      (name : Str) (r : Read) (m m' : Shelf W)
      → add_read d name r m ≡ (ok tt, m')
      → IsOpen m.draft
      → Grows m m' × (IsPacked name m'.draft ⊎ (r ≡ missing))
  add_read-Grows name missing m m' h o =
      subst (λ s. Grows m s × (IsPacked name s.draft ⊎ (missing ≡ missing)))
        (ap (λ (r : Result EvidenceError Unit × Shelf W). r.1) h)
        (record { is_open = o; keeps = λ n k. k }, inr refl)
  add_read-Grows name unreadable m m' h o = cc
  add_read-Grows name (content bytes) m m' h o =
      if_rule
        (λ (f : Pass W Unit).
          f m ≡ (ok tt, m') → Grows m m' × (IsPacked name m'.draft ⊎ (content bytes ≡ missing)))
        (name == info_file) _ _ (λ _. redact (redacted_info d bytes))
        (λ _ q. let (g, k) = add_bytes-Grows name bytes m m' q o in (g, inl k)) h
    where
      redact :
          (o' : Option Str)
          → add_redacted d name o' m ≡ (ok tt, m')
          → Grows m m' × (IsPacked name m'.draft ⊎ (content bytes ≡ missing))
      redact none q = cc
      redact (some raw) q = let (g, k) = add_bytes-Grows name raw m m' q o in (g, inl k)

  add_file-Grows :
      (name : Str) (m m' : Shelf W)
      → add_file d name m ≡ (ok tt, m')
      → IsOpen m.draft
      → Grows m m' × (IsPacked name m'.draft ⊎ (d.read name m.world ≡ missing))
  unfolding add_file
  add_file-Grows name m m' h o = add_read-Grows name (d.read name m.world) m m' h o

  module _ (out : List Skipped) (m' : Shelf W) where
    add_visits-Grows :
        (vs : List Visit) (skipped : List Skipped) (m : Shelf W)
        → add_visits d vs skipped m ≡ (ok out, m')
        → IsOpen m.draft
        → ((s : Skipped) → Memᴰ s skipped → Memᴰ s out) × Grows m m' × All (IsAccounted out m') vs
    unfolding add_visits
    add_visits-Grows [] skipped m h o =
        let same : skipped ≡ out =
          skipped-inj (ap (λ (r : Result EvidenceError (List Skipped) × Shelf W). r.0) h) in
        (
          (λ s k. subst (λ l. Memᴰ s l) same k),
          subst (λ t. Grows m t) (ap (λ (r : Result EvidenceError (List Skipped) × Shelf W). r.1) h)
              (record { is_open = o; keeps = λ n k. k }),
          tt,
        )
      where
        skipped-inj :
            {a b : List Skipped}
            → ◌≡◌ {A = Result EvidenceError (List Skipped)} (ok a) (ok b)
            → a ≡ b
        skipped-inj e = cc
    add_visits-Grows (walk_error ∷ vs) skipped m h o = cc
    add_visits-Grows (directory ∷ vs) skipped m h o =
        let (k, g, a) = add_visits-Grows vs skipped m h o in (k, g, (tt, a))
    add_visits-Grows (visited name regular size ∷ vs) skipped m h o =
        if_rule Goal (not regular) _ _
          (λ e q.
            let (k, g, a) = add_visits-Grows vs (skipped ++ not_regular name ∷ []) m q o in
            (
              (λ s i. k s (mem-append_left skipped (not_regular name ∷ []) i)),
              g,
              (
                irregular (off regular e)
                    (k (not_regular name) (mem-append_right skipped (Memᴰ.head refl))),
                a,
              ),
            ))
          (λ e.
            if_rule Goal (ltb candidate_file_limit size) _ _
              (λ l q.
                let (k, g, a) = add_visits-Grows vs (skipped ++ too_large name size ∷ []) m q o in
                (
                  (λ s i. k s (mem-append_left skipped (too_large name size ∷ []) i)),
                  g,
                  (
                    over (ltb→lt candidate_file_limit size l)
                        (k (too_large name size) (mem-append_right skipped (Memᴰ.head refl))),
                    a,
                  ),
                ))
              (λ l q.
                let (u, m1, q1, q2) =
                  >>=-ran (add_file d name) (λ _. add_visits d vs skipped) m q in
                let (g1, f) = add_file-Grows name m m1 q1 o in
                let (k, g, a) = add_visits-Grows vs skipped m1 q2 g1.is_open in
                (
                  k,
                  record { is_open = g.is_open; keeps = λ n i. g.keeps n (g1.keeps n i) },
                  (
                    elim f [
                      | inl i ↦ packed (on regular e) (small size l) (g.keeps name i)
                      | inr i ↦ gone m.world i
                    ],
                    a,
                  ),
                )))
          h
      where
        Goal : Pass W (List Skipped) → Type 0
        Goal f =
            f m ≡ (ok out, m')
            → ((s : Skipped) → Memᴰ s skipped → Memᴰ s out)
              × Grows m m'
              × All (IsAccounted out m') (visited name regular size ∷ vs)

        off : (b : Bool) → not b ≡ true → b ≡ false
        off true e = cc
        off false e = refl

        on : (b : Bool) → not b ≡ false → b ≡ true
        on true e = refl
        on false e = cc

        small : (n : ℕ) → ltb candidate_file_limit n ≡ false → n ≤ candidate_file_limit
        small n e = ground arith

    -- When the walk of the candidate's directory returns, over a draft that is open: each file that it came to is
    -- regular, no larger than 4 MiB and in the draft, or was gone when it was to be read; or it is on the list of what
    -- was left out, as irregular, or as larger than 4 MiB with its size.
    pub add_visits-IsAccounted :
        (vs : List Visit) (m : Shelf W)
        → add_visits d vs [] m ≡ (ok out, m')
        → IsOpen m.draft
        → All (IsAccounted out m') vs
    add_visits-IsAccounted vs m h o = let (_, _, a) = add_visits-Grows vs [] m h o in a
