-- ===== src/Fileio/Interleaved.antt =====
-- Any number of calls of `WriteAtomic` at a time, in any order of their steps.
use interviews.Base.{
  ◌≡◌, refl, ◌∙◌, ◌⊎◌, inl, inr, List, [], ◌∷◌, map, Memᴰ, All, Option, none, some, Str,
}
use interviews.Fileio.{
  Disk, Job, Phase, begun, opened, written, shut, ready, failing, done, failed, Call, Writer, Turn,
  here, there, Reach, start, next, whole,
}
use interviews.Fileio.Calls.{
  IsPlain, Held, temp_of, IsNot, IsApart-sym, Call-Held, Call-frame, Call-plain,
}

AreNot : Option Str → Option Str → Type 0
AreNot none o = Unit
AreNot (some t) o = IsNot t o

AreNot-sym : (o q : Option Str) → AreNot o q → AreNot q o
unfolding AreNot
AreNot-sym none none h = tt
AreNot-sym none (some u) h = tt
AreNot-sym (some t) none h = tt
AreNot-sym (some t) (some u) h = IsApart-sym t u h

-- Two phases with different temporary files.
abbrev AreClear : Phase → Phase → Type 0
AreClear a b = AreNot (temp_of a) (temp_of b)

-- Each call has its own file as it should be.
abbrev IsKept : Disk → List Writer → Type 0
IsKept d [] = Unit
IsKept d (w ∷ ws) = Held w.job d w.phase × All (λ s. AreClear w.phase s.phase) ws × IsKept d ws

-- The calls are those of the jobs, each to a name without a dot.
abbrev AreOf : List Job → List Writer → Type 0
AreOf js ws = All (λ w. Memᴰ w.job js × IsPlain w.job.name) ws

-- What a reader finds: the file that was there, or whole what one of the calls writes to that name.
abbrev pub IsWhole : List Job → Disk → Disk → Str → Type 0
IsWhole js d0 d n = (d n ≡ d0 n) ⊎ ((j : Job) × Memᴰ j js × (j.name ≡ n) × (d n ≡ some (whole j)))

-- A call that waits while another one moves.
Call-kept :
    {j : Job} {a b : Phase} {d d' : Disk} (k : Job) (c : Phase)
    → Call j a d b d'
    → IsPlain j.name
    → Held k d c
    → AreClear c a
    → Held k d' c × AreClear c b
unfolding AreNot
Call-kept k begun m p h e = (tt, tt)
Call-kept k (opened t) m p (i, h) e = let (h', e') = Call-frame m p t i h e in ((i, h'), e')
Call-kept k (written t) m p (i, h) e = let (h', e') = Call-frame m p t i h e in ((i, h'), e')
Call-kept k (shut t) m p (i, h) e = let (h', e') = Call-frame m p t i h e in ((i, h'), e')
Call-kept k (ready t) m p (i, h) e = let (h', e') = Call-frame m p t i h e in ((i, h'), e')
Call-kept k (failing t) m p (i, (f, h)) e =
    let (h', e') = Call-frame m p t i h e in ((i, (f, h')), e')
Call-kept k done m p h e = (tt, tt)
Call-kept k failed m p h e = (tt, tt)

-- The calls behind the one that moves.
rest-IsKept :
    {j : Job} {a b : Phase} {d d' : Disk} (ws : List Writer)
    → Call j a d b d'
    → IsPlain j.name
    → All (λ s. AreClear a s.phase) ws
    → IsKept d ws
    → All (λ s. AreClear b s.phase) ws × IsKept d' ws
rest-IsKept [] m p e h = (tt, tt)
rest-IsKept {b} (s ∷ ws) m p e (held, clear, kept) =
    let (held', away) = Call-kept s.job s.phase m p held (AreNot-sym _ (temp_of s.phase) e.0) in
    let (clear', kept') = rest-IsKept ws m p e.1 kept in
    ((AreNot-sym (temp_of s.phase) (temp_of b) away, clear'), (held', clear, kept'))

module _ (js : List Job) where
  Turn-kept :
      {ws ws' : List Writer} {d d' : Disk} (k : Job) (c : Phase)
      → Turn ws d ws' d'
      → AreOf js ws
      → Held k d c
      → All (λ s. AreClear c s.phase) ws
      → Held k d' c × All (λ s. AreClear c s.phase) ws'
  Turn-kept k c (here m) o h e = let (h', e') = Call-kept k c m (o.0.1) h e.0 in (h', (e', e.1))
  Turn-kept k c (there t) o h e = let (h', e') = Turn-kept k c t o.1 h e.1 in (h', (e.0, e'))

  Turn-IsKept :
      {ws ws' : List Writer} {d d' : Disk}
      → Turn ws d ws' d'
      → AreOf js ws
      → IsKept d ws
      → IsKept d' ws'
  Turn-IsKept (here {ws} m) o (held, clear, kept) =
      let (clear', kept') = rest-IsKept ws m (o.0.1) clear kept in (Call-Held m held, clear', kept')
  Turn-IsKept (there {w} t) o (held, clear, kept) =
      let (held', clear') = Turn-kept w.job w.phase t o.1 held clear in
      (held', clear', Turn-IsKept t o.1 kept)

  Turn-AreOf : {ws ws' : List Writer} {d d' : Disk} → Turn ws d ws' d' → AreOf js ws → AreOf js ws'
  Turn-AreOf (here m) o = o
  Turn-AreOf (there t) o = (o.0, Turn-AreOf t o.1)

  -- What a turn does to a name without a dot.
  Turn-plain :
      {ws ws' : List Writer} {d d' : Disk}
      → Turn ws d ws' d'
      → AreOf js ws
      → IsKept d ws
      → (n : Str) → IsPlain n
      → (d' n ≡ d n) ⊎ ((j : Job) × Memᴰ j js × (j.name ≡ n) × (d' n ≡ some (whole j)))
  Turn-plain (here {j} m) o (held, _, _) n p = elim (Call-plain m held n p) [
    | inl e ↦ inl e
    | inr (e, q) ↦ inr (j, o.0.0, e, q)
  ]
  Turn-plain (there t) o (_, _, kept) n p = Turn-plain t o.1 kept n p

  Reach-IsKept :
      {ws0 : List Writer} {d0 : Disk} {ws : List Writer} {d : Disk}
      → Reach ws0 d0 ws d
      → AreOf js ws0
      → IsKept d0 ws0
      → AreOf js ws × IsKept d ws × ((n : Str) → IsPlain n → IsWhole js d0 d n)
  Reach-IsKept start o h = (o, h, λ n p. inl refl)
  Reach-IsKept (next r t) o h =
      let (o', h', k) = Reach-IsKept r o h in
      (
        Turn-AreOf t o',
        Turn-IsKept t o' h',
        λ n p. elim (Turn-plain t o' h' n p) [
          | inr x ↦ inr x
          | inl e ↦ elim (k n p) [ inl q ↦ inl (e ∙ q) | inr (j, m, f, q) ↦ inr (j, m, f, e ∙ q) ]
        ],
      )

-- Calls that have not begun.
abbrev pub beginning : List Job → List Writer
beginning js = map (λ j. record { job = j; phase = begun }) js

beginning-AreOf :
    (all js : List Job)
    → All (λ j. IsPlain j.name) js
    → ((j : Job) → Memᴰ j js → Memᴰ j all)
    → AreOf all (beginning js)
beginning-AreOf all [] p m = tt
beginning-AreOf all (j ∷ js) p m =
    ((m j (Memᴰ.head refl), p.0), beginning-AreOf all js p.1 (λ k n. m k (Memᴰ.tail n)))

beginning-IsKept : (d : Disk) (js : List Job) → IsKept d (beginning js)
unfolding AreNot
beginning-IsKept d [] = tt
beginning-IsKept d (j ∷ js) = (tt, clear js, beginning-IsKept d js)
  where
    clear : (ks : List Job) → All (λ s. AreClear begun s.phase) (beginning ks)
    clear [] = tt
    clear (k ∷ ks) = (tt, clear ks)

-- However the calls of any number of writers interleave and whichever of them fail, where their names begin with no
-- dot: at each moment a reader of such a name finds the file that was there before, or whole, with its mode, the
-- file that one of the writers means to leave there.
pub Reach-IsWhole :
    (js : List Job) (d0 : Disk) (ws : List Writer) (d : Disk) (n : Str)
    → All (λ j. IsPlain j.name) js
    → Reach (beginning js) d0 ws d
    → IsPlain n
    → IsWhole js d0 d n
Reach-IsWhole js d0 ws d n plain r p =
    let (_, _, k) =
      Reach-IsKept js r (beginning-AreOf js js plain (λ j m. m)) (beginning-IsKept d0 js) in
    k n p
