-- ===== src/Interview/Store/Current.antt =====
-- Which session the commands mean.
use mathlib.Core.List.{filter_map}
use interviews.Base.{
  ◌≡◌, refl, sym, ap, ◌∙◌, subst, ◌≢◌, inl, inr, true, false, not, ◌&&◌, List, [], ◌∷◌, Memᴰ,
  Option, none, some, Str, arith, ◌==◌, ==→eq, ==_iff, ==_refl, Bool-cases, keep-mem, All, All-mem,
  trim_space-line, Result, ok, err, if◌then◌else◌,
}
use interviews.Base.Sort.{sort-All}
use interviews.Interview.Seed.{valid_seed}
use interviews.Interview.Seed.Valid.{IsSeed, IsSeed-no_space, valid_seed_iff}
use interviews.Interview.Store.{
  Session, Doc, recorded, garbled, Home, HomeError, no_session, undecodable, get, is_key, delete,
  put, save, load, list, newest_first, readable, current_seed, names_seed, set_current,
  clear_current, remove, is_open, open_sessions, only_open, marked, current, set_current_if_idle,
}
use interviews.Interview.Store.Docs.{
  load-save, save-IsFiled, remove-IsFiled, IsFiled, All-put, All-delete_key, save-ok,
  docs-clear_current,
}

pub current_seed-set_current :
    (seed : Str) (h : Home) → IsSeed seed → current_seed (set_current seed h) ≡ some seed
unfolding current_seed set_current
current_seed-set_current seed h s = ap some (trim_space-line seed (IsSeed-no_space seed s.chars))

pub load-set_current : (seed j : Str) (h : Home) → load j (set_current seed h) ≡ load j h
unfolding load set_current
load-set_current seed j h = refl

marked-set_current :
    (s : Session) (seed : Str) (h : Home)
    → valid_seed seed ≡ ok tt
    → load seed h ≡ ok s
    → marked (set_current seed h) ≡ some s
unfolding marked
marked-set_current s seed h v l =
    let v' = (valid_seed_iff seed).0 v in
    rw (current_seed-set_current seed h v', marked)
      (rw (v'.nonempty) (rw (load-set_current seed seed h, load) (rw (l, load))))

-- A valid seed that loads is what `Current` returns once the marker is set to it.
pub current-set_current :
    (s : Session) (seed : Str) (h : Home)
    → valid_seed seed ≡ ok tt
    → load seed h ≡ ok s
    → current (set_current seed h) ≡ ok s
unfolding current
current-set_current s seed h v l = rw (marked-set_current s seed h v l, current)

-- A session that starts is recorded, and is then the one that the commands mean.
pub current-set_current-save :
    (s : Session) (h h' : Home) → save s h ≡ ok h' → current (set_current s.seed h') ≡ ok s
current-set_current-save s h h' e =
    current-set_current s s.seed h' ((save-ok s h h' e).0)
      (load-save s h h' s.seed e ∙ (rw (==_refl s.seed)))

-- An interview in progress keeps the marker when another one is prepared, and an idle marker
-- moves to the new session, whatever it pointed at.
pub set_current_if_idle-current :
    (s : Session) (seed : Str) (h : Home)
    → valid_seed seed ≡ ok tt
    → load seed h ≡ ok s
    → ((cur : Session)
        → current h ≡ ok cur
        → cur.seed ≢ seed
        → (is_open cur ≡ true → set_current_if_idle seed h ≡ h)
          × (is_open cur ≡ false → current (set_current_if_idle seed h) ≡ ok s))
      × ((e : HomeError) → current h ≡ err e → current (set_current_if_idle seed h) ≡ ok s)
unfolding set_current_if_idle
set_current_if_idle-current s seed h v l = (
  λ cur c ne. (
    λ o. ground (arith, c, o, ==_iff cur.seed seed),
    λ o. rw (c, set_current_if_idle) (rw o (moved cur.seed)),
  ),
  λ e c. rw (c, set_current_if_idle) (current-set_current s seed h v l),
)
  where
    moved : (k : Str) → current (if not (k == seed) && false then h else set_current seed h) ≡ ok s
    moved k = elim (Bool-cases (k == seed)) [
      | inl e ↦ rw e (current-set_current s seed h v l)
      | inr e ↦ rw e (current-set_current s seed h v l)
    ]

-- A session that the fallback of `Current` must not find.
abbrev IsGone : Str → Str × Doc → Type 0
IsGone seed (k, garbled) = Unit {0}
IsGone seed (k, recorded s) = is_open s ≡ true → s.seed ≢ seed

All-filter_map :
    (P : Session → Type 0) (docs : List (Str × Doc))
    → All (λ kd. (s : Session) → readable kd ≡ some s → P s) docs
    → All P (filter_map readable docs)
unfolding filter_map
All-filter_map P [] h = tt
All-filter_map P ((k, garbled) ∷ docs) h = All-filter_map P docs h.1
All-filter_map P ((k, recorded s) ∷ docs) h = (h.0 s refl, All-filter_map P docs h.1)

IsGone-readable :
    (seed : Str) (docs : List (Str × Doc))
    → All (IsGone seed) docs
    → All (λ kd. (s : Session) → readable kd ≡ some s → is_open s ≡ true → s.seed ≢ seed) docs
IsGone-readable seed [] h = tt
IsGone-readable seed ((k, garbled) ∷ docs) h = (λ s e. cc e, IsGone-readable seed docs h.1)
IsGone-readable seed ((k, recorded t) ∷ docs) h = (
  λ s e.
      subst (λ (x : Session). is_open x ≡ true → x.seed ≢ seed) {x = t} {y = s} (ground (arith, e))
        h.0,
  IsGone-readable seed docs h.1,
)

-- None of the open sessions is the one that is gone.
open_sessions-gone :
    (seed : Str) (h : Home)
    → All (IsGone seed) h.docs
    → (s : Session) → Memᴰ s (open_sessions h)
    → s.seed ≢ seed
unfolding open_sessions list
open_sessions-gone seed h g s m =
    let (k, o) = keep-mem is_open (list h) m in
    All-mem (λ (x : Session). is_open x ≡ true → x.seed ≢ seed) (list h)
      (sort-All newest_first _ (filter_map readable h.docs)
        (All-filter_map _ h.docs (IsGone-readable seed h.docs g)))
      k o

only_open-mem : (l : List Session) (s : Session) → only_open l ≡ ok s → Memᴰ s l
only_open-mem [] s e = absurd (ground arith)
only_open-mem (x ∷ []) s e = Memᴰ.head (ground arith)
only_open-mem (x ∷ y ∷ l) s e = absurd (ground arith)

-- What a marked session's seed is, in a registry that is well filed.
filed_here :
    (k seed : Str) (d : Doc) (s : Session)
    → IsFiled (k, d)
    → (k == seed) ≡ true
    → some d ≡ some (recorded s)
    → s.seed ≡ seed
filed_here k seed garbled s f q e = absurd (ground arith)
filed_here k seed (recorded t) s f q e =
    ap (λ (o : Option Doc). elim o [ some (recorded x) ↦ x.seed | _ ↦ t.seed ]) (sym e)
    ∙ f.0
    ∙ ==→eq k seed q

get-IsFiled :
    (docs : List (Str × Doc)) (seed : Str) (s : Session)
    → All IsFiled docs
    → get docs seed ≡ some (recorded s)
    → s.seed ≡ seed
unfolding get
get-IsFiled [] seed s a e = absurd (ground arith)
get-IsFiled ((k, d) ∷ docs) seed s a e = elim (Bool-cases (k == seed)) [
  | inr q ↦ get-IsFiled docs seed s a.1 (rw q at e)
  | inl q ↦ filed_here k seed d s a.0 q (rw q at e)
]

load-IsFiled :
    (seed : Str) (h : Home) (s : Session) → All IsFiled h.docs → load seed h ≡ ok s → s.seed ≡ seed
load-IsFiled seed h s a e = go (get h.docs seed) refl (unfold load in e)
  where
    go :
        (o : Option Doc)
        → get h.docs seed ≡ o
        → elim o as (λ _. Result HomeError Session) [
          | none ↦ err (no_session seed)
          | some garbled ↦ err (undecodable seed)
          | some (recorded t) ↦ ok t
        ]
          ≡ ok s
        → s.seed ≡ seed
    go none q k = absurd (ground arith)
    go (some garbled) q k = absurd (ground arith)
    go (some (recorded t)) q k =
        get-IsFiled h.docs seed s a (q ∙ ap (λ (x : Session). some (recorded x)) (ground arith))

-- A session that is neither marked nor open is not the current one.
current-gone :
    (seed : Str) (h : Home) (s : Session)
    → All IsFiled h.docs
    → All (IsGone seed) h.docs
    → names_seed (current_seed h) seed ≡ false
    → current h ≡ ok s
    → s.seed ≢ seed
current-gone seed h s a g n e = by_marker (current_seed h) refl n
  where
    fallback : marked h ≡ none → s.seed ≢ seed
    fallback m =
        open_sessions-gone seed h g s
          (only_open-mem (open_sessions h) s (unfold current in rw (m, current) at e))

    by_load :
        (k : Str)
        → current_seed h ≡ some k
        → (k == seed) ≡ false
        → (r : Result HomeError Session) → load k h ≡ r
        → s.seed ≢ seed
    by_load k c n (err x) l = fallback (unfold marked in ground (arith, c, l))
    by_load k c n (ok t) l = elim (Bool-cases (k == [])) [
      | inl z ↦ fallback (unfold marked in ground (arith, c, z))
      | inr z ↦
          let m : marked h ≡ some t = unfold marked in ground (arith, c, z, l) in
          let same : t ≡ s = unfold current in ground (arith, m, e) in
          λ q.
            ground (
              arith,
              ==_iff k seed,
              n,
              load-IsFiled k h t a l,
              ap (λ (x : Session). x.seed) same,
              q,
            )
    ]

    by_marker : (o : Option Str) → current_seed h ≡ o → names_seed o seed ≡ false → s.seed ≢ seed
    by_marker none c n = fallback (unfold marked in ground (arith, c))
    by_marker (some k) c n = by_load k c n (load k h) refl

marker-clear_current :
    (seed : Str) (h : Home) → names_seed (current_seed (clear_current seed h)) seed ≡ false
unfolding clear_current current_seed
marker-clear_current seed h = ground arith

others-IsGone :
    (seed : Str) (docs : List (Str × Doc))
    → All IsFiled docs
    → All (λ kd. is_key seed kd ≡ false → IsGone seed kd) docs
others-IsGone seed [] a = tt
others-IsGone seed ((k, garbled) ∷ docs) a = (λ _. tt, others-IsGone seed docs a.1)
others-IsGone seed ((k, recorded t) ∷ docs) a =
    (λ e _ q. ground (arith, ==_iff k seed, a.0.0, q, e), others-IsGone seed docs a.1)

-- An interview that ends is recorded with its time of end and the marker cleared of it: whatever
-- `Current` then returns is another session.
pub current-clear_current-save :
    (s t : Session) (h h' : Home)
    → All IsFiled h.docs
    → is_open s ≡ false
    → save s h ≡ ok h'
    → current (clear_current s.seed h') ≡ ok t
    → t.seed ≢ s.seed
current-clear_current-save s t h h' a o e c =
    current-gone s.seed (clear_current s.seed h') t
      (rw (docs-clear_current s.seed h') (save-IsFiled s h h' e a))
      (rw (docs-clear_current s.seed h') (rw (save-ok s h h' e).1 gone))
      (marker-clear_current s.seed h') c
  where
    gone : All (IsGone s.seed) (put h.docs s.seed (recorded s))
    gone =
        All-put (IsGone s.seed) h.docs s.seed (recorded s) (λ q. absurd (ground (arith, q, o)))
          (All-delete_key (IsGone s.seed) h.docs s.seed (others-IsGone s.seed h.docs a))

-- A session that is removed is forgotten: `Current` never returns it.
pub current-remove :
    (seed : Str) (t : Session) (h : Home)
    → All IsFiled h.docs
    → current (remove seed h) ≡ ok t
    → t.seed ≢ seed
unfolding remove
current-remove seed t h a c =
    current-gone seed (remove seed h) t (remove-IsFiled seed h a)
      (rw (docs-clear_current seed (record h { docs = delete h.docs seed }))
        (All-delete_key (IsGone seed) h.docs seed (others-IsGone seed h.docs a)))
      (marker-clear_current seed (record h { docs = delete h.docs seed })) c
