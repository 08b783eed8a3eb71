-- ===== src/Cli/Commands/Staged.antt =====
-- What the commands of an offline session leave behind.
use interviews.Base.{
  ◌≡◌, refl, arith, sym, ap, ◌∙◌, subst, ◌≢◌, Bool, true, false, Bool-cases, inl, inr, List, [],
  ◌∷◌, Option, none, some, Str, ◌==◌, ==→eq, Result, ok, err, if◌then◌else◌, if_rule, ℕ,
}
use interviews.Base.Exec.{◌>>=◌, >>=-returns}
use interviews.Interview.Store.{
  Mode, local, aws, offline, other_mode, Stage, created, sent, returned, reviewed, other_stage,
  Time, is_open, Session, Doc, Home, HomeError, save, load, current_seed, marked, current,
}
use interviews.Interview.Store.Docs.{save-ok, load-save}
use interviews.Cli.Status.{is_offline}
use interviews.Cli.Commands.{
  Console, CommandError, not_delivered, Step, call, saved, save_record, current_or,
}
use interviews.Cli.Commands.Closed.{current_or-home}
use interviews.Cli.Commands.Offline.{
  is_busy, mark_if_idle, drop_record, deliver, wants_path, at_stage, with_path, take_path,
  only_offline, counted, move_to,
}

at_stage-stage : (stage : Stage) (t : Time) (s : Session) → (at_stage stage t s).stage ≡ stage
unfolding at_stage
at_stage-stage created t s = refl
at_stage-stage sent t s = refl
at_stage-stage returned t s = refl
at_stage-stage reviewed t s = refl
at_stage-stage (other_stage x) t s = refl

at_stage-seed : (stage : Stage) (t : Time) (s : Session) → (at_stage stage t s).seed ≡ s.seed
unfolding at_stage
at_stage-seed created t s = refl
at_stage-seed sent t s = refl
at_stage-seed returned t s = refl
at_stage-seed reviewed t s = refl
at_stage-seed (other_stage x) t s = refl

ok-inj : (a b : Session) → ◌≡◌ {A = Result CommandError Session} (ok a) (ok b) → a ≡ b
ok-inj a b h = cc

is_offline-eq : (m : Mode) → is_offline m ≡ true → m ≡ offline
is_offline-eq local h = cc
is_offline-eq aws h = cc
is_offline-eq offline h = refl
is_offline-eq (other_mode m) h = cc

module _ {V : Type 0} where
  -- a part that returned and left the console alone
  same-returns :
      {A B : Type 0} (part : Step V A) (next : A → Step V B) (c : Console V) (b : B)
      → (part c).1 ≡ c
      → ((part >>= next) c).0 ≡ ok b
      → (a : A) × ((part c).0 ≡ ok a) × ((next a c).0 ≡ ok b) × ((part >>= next) c ≡ next a c)
  same-returns part next c b k h =
      let (a, r, n, e) = >>=-returns part next c h in
      (a, r, subst (λ d. (next a d).0 ≡ ok b) k n, e ∙ ap (next a) k)

  counted-console : (stage : Stage) (args : List Str) (c : Console V) → (counted stage args c).1 ≡ c
  counted-console stage [] c =
      if_rule (λ (f : Step V Unit). (f c).1 ≡ c) (wants_path stage) _ _ (λ e. refl) (λ e. refl)
  counted-console stage (a ∷ []) c =
      if_rule (λ (f : Step V Unit). (f c).1 ≡ c) (wants_path stage) _ _ (λ e. refl) (λ e. refl)
  counted-console stage (a ∷ b ∷ rest) c = refl

  only_offline-console : (s : Session) (c : Console V) → (only_offline s c).1 ≡ c
  only_offline-console s c =
      if_rule (λ (f : Step V Unit). (f c).1 ≡ c) (is_offline s.mode) _ _ (λ e. refl) (λ e. refl)

  only_offline-mode :
      (s : Session) (c : Console V) (u : Unit {0}) → (only_offline s c).0 ≡ ok u → s.mode ≡ offline
  only_offline-mode s c u =
      if_rule (λ (f : Step V Unit). (f c).0 ≡ ok u → s.mode ≡ offline) (is_offline s.mode) _ _
        (λ e h. is_offline-eq s.mode e) (λ e h. cc)

  save_record-ok :
      (s : Session) (c : Console V) (u : Unit {0})
      → (save_record s c).0 ≡ ok u
      → save s c.home ≡ ok (save_record s c).1.home
  save_record-ok s c u = go (save s c.home) refl
    where
      go :
          (r : Result HomeError Home)
          → save s c.home ≡ r
          → (saved r c).0 ≡ ok u
          → r ≡ ok (saved r c).1.home
      go (ok h') e =
          if_rule
            (λ (x : Result CommandError (Unit {0}) × Console V).
              x.0 ≡ ok u → ◌≡◌ {A = Result HomeError Home} (ok h') (ok x.1.home))
            (c.disk 0) _ _ (λ _ h. refl) (λ _ h. cc)
      go (err x) e = λ h. cc

module _ {V : Type 0} (find_path : Str → V → Option Str) (now : V → Time) where
  with_path-same :
      (o : Option Str) (rec s : Session) (c : Console V)
      → (with_path find_path now o rec c).0 ≡ ok s
      → s.seed ≡ rec.seed
  with_path-same none rec s c h = cc
  with_path-same (some p) rec s c h =
      ap (λ (x : Session). x.seed) (sym (ok-inj (record rec { submission_path = p }) s h))

  with_path-console :
      (o : Option Str) (rec : Session) (c : Console V) → (with_path find_path now o rec c).1 ≡ c
  with_path-console none rec c = refl
  with_path-console (some p) rec c = refl

  take_path-console :
      (stage : Stage) (args : List Str) (rec : Session) (c : Console V)
      → (take_path find_path now stage args rec c).1 ≡ c
  take_path-console stage [] rec c =
      if_rule (λ (r : Result CommandError Session × Console V). r.1 ≡ c) (wants_path stage) _ _
        (λ e. refl) (λ e. refl)
  take_path-console stage (a ∷ []) rec c =
      if_rule (λ (r : Result CommandError Session × Console V). r.1 ≡ c) (wants_path stage) _ _
        (λ e. with_path-console (find_path a c.world) rec c) (λ e. refl)
  take_path-console stage (a ∷ b ∷ rest) rec c = refl

  take_path-seed :
      (stage : Stage) (args : List Str) (rec s : Session) (c : Console V)
      → (take_path find_path now stage args rec c).0 ≡ ok s
      → s.seed ≡ rec.seed
  take_path-seed stage [] rec s c =
      if_rule (λ (r : Result CommandError Session × Console V). r.0 ≡ ok s → s.seed ≡ rec.seed)
        (wants_path stage) _ _ (λ e h. cc)
        (λ e h. ap (λ (x : Session). x.seed) (sym (ok-inj rec s h)))
  take_path-seed stage (a ∷ []) rec s c =
      if_rule (λ (r : Result CommandError Session × Console V). r.0 ≡ ok s → s.seed ≡ rec.seed)
        (wants_path stage) _ _ (λ e. with_path-same (find_path a c.world) rec s c) (λ e h. cc)
  take_path-seed stage (a ∷ b ∷ rest) rec s c = λ h. cc

  -- `sent`, `returned` and `reviewed`, when they return, have moved an offline session to their stage: the one that the
  -- seed names, or the current one. Its record is the only one that changed.
  pub move_to_lem :
      (stage : Stage) (seed : Str) (args : List Str) (c : Console V) (s : Session)
      → (move_to find_path now stage seed args c).0 ≡ ok s
      → (rec : Session) × ((current_or seed c).0 ≡ ok rec)
        × (rec.mode ≡ offline)
        × (s.stage ≡ stage)
        × ((j : Str)
            → load j (move_to find_path now stage seed args c).1.home
              ≡ (if rec.seed == j then ok s else load j c.home))
  unfolding move_to
  move_to_lem stage seed args c s h =
      let (_, _, h1, e1) =
        same-returns (counted stage args) _ c s (counted-console stage args c) h in
      let (rec, r, h2, e2) = >>=-returns (current_or seed) _ c h1 in
      let d = (current_or seed c).1 in
      let (u, o, h3, e3) = same-returns (only_offline rec) _ d s (only_offline-console rec d) h2 in
      let (p, t, h4, e4) =
        same-returns (take_path find_path now stage args rec) _ d s
          (take_path-console stage args rec d) h3 in
      let now_at = now d.world in
      let s' = at_stage stage now_at p in
      let (v, w, h5, e5) = >>=-returns (save_record s') _ d h4 in
      let q = ok-inj s' s h5 in
      let final = e1 ∙ e2 ∙ e3 ∙ e4 ∙ e5 in
      let seeds = at_stage-seed stage now_at p ∙ take_path-seed stage args rec p d t in
      (
        rec,
        r,
        only_offline-mode rec d u o,
        ap (λ (x : Session). x.stage) (sym q) ∙ at_stage-stage stage now_at p,
        λ j.
            ap (λ (x : Result CommandError Session × Console V). load j x.1.home) final
            ∙ load-save s' d.home (save_record s' d).1.home j (save_record-ok s' d v w)
            ∙ ap (λ x. if x == j then ok s' else load j d.home) seeds
            ∙ ap (λ (x : Session). if rec.seed == j then ok x else load j d.home) q
            ∙ ap (λ (x : Home). if rec.seed == j then ok s else load j x) (current_or-home seed c),
      )

marked-eq :
    (h : Home) (cur : Session)
    → current_seed h ≡ some cur.seed
    → load cur.seed h ≡ ok cur
    → (cur.seed == []) ≡ false
    → marked h ≡ some cur
unfolding marked
marked-eq h cur m l n = rw (m, marked) (rw n (rw (l, load) refl))

-- the session that the marker names, where it loads
current-marked :
    (h : Home) (cur : Session)
    → current_seed h ≡ some cur.seed
    → load cur.seed h ≡ ok cur
    → (cur.seed == []) ≡ false
    → current h ≡ ok cur
unfolding current
current-marked h cur m l n = rw (marked-eq h cur m l n, current) refl

marker_only :
    (h : Home) (docs : List (Str × Doc)) → current_seed (record h { docs = docs }) ≡ current_seed h
unfolding current_seed
marker_only h docs = refl

not_mine :
    (seed : Str) (cur : Session)
    → cur.seed ≢ seed
    → (h : Home) (new : Session) → load cur.seed h ≡ ok cur
    → (if seed == cur.seed then ok new else load cur.seed h) ≡ ok cur
not_mine seed cur apart h new l = elim (Bool-cases (seed == cur.seed)) [
  | inl e ↦ absurd (apart (sym (==→eq seed cur.seed e)))
  | inr e ↦ rw e l
]

-- beside an open session of another seed the marker is left alone
mark_if_idle-busy :
    {V : Type 0} (seed : Str) (cur : Session) (c : Console V)
    → current c.home ≡ ok cur
    → cur.seed ≢ seed
    → is_open cur ≡ true
    → (mark_if_idle seed c).1 ≡ c
mark_if_idle-busy seed cur c k apart o =
    if_rule (λ (r : Result CommandError Unit × Console _). r.1 ≡ c) (is_busy seed (current c.home))
      _ _ (λ _. refl) (λ idle. absurd (busy (ap (is_busy seed) (sym k) ∙ idle)))
  where
    busy : is_busy seed (ok cur) ≡ false → ⊥
    busy h = elim (Bool-cases (cur.seed == seed)) [
      | inl e ↦ apart (==→eq cur.seed seed e)
      | inr e ↦ ground (arith, e, o, h)
    ]

-- A drop that is delivered while the marker names an open session of another seed leaves that session the one that
-- the commands mean.
pub deliver-current :
    {V : Type 0} (write : V → Bool × V) (now : V → Time) (seed problem kind root path : Str)
    (due : ℕ) (c : Console V) (cur s : Session)
    → current_seed c.home ≡ some cur.seed
    → load cur.seed c.home ≡ ok cur
    → (cur.seed == []) ≡ false
    → is_open cur ≡ true
    → cur.seed ≢ seed
    → (deliver write now seed problem kind root path due c).0 ≡ ok s
    → current (deliver write now seed problem kind root path due c).1.home ≡ ok cur
unfolding deliver
deliver-current write now seed problem kind root path due c cur s marker loads named open_cur apart
      h =
    let (_, _, h1, e1) = >>=-returns (call not_delivered write) _ c h in
    let d : Console _ = record c { world = (write c.world).1 } in
    let new = drop_record seed problem kind root path due (now d.world) in
    let (v, w, h2, e2) = >>=-returns (save_record new) _ d h1 in
    let d' = (save_record new d).1 in
    let h' = d'.home in
    let saves = save_record-ok new d v w in
    let same = load-save new c.home h' cur.seed saves ∙ not_mine seed cur apart c.home new loads in
    let kept =
      current-marked h' cur
        (ap current_seed ((save-ok new c.home h' saves).1) ∙ marker_only c.home _ ∙ marker) same
        named in
    let (_, _, _, e3) = >>=-returns (mark_if_idle seed) _ d' h2 in
    ap (λ (x : Result CommandError Session × Console _). current x.1.home) (e1 ∙ e2 ∙ e3)
    ∙ ap (λ (x : Console _). current x.home) (mark_if_idle-busy seed cur d' kept apart open_cur)
    ∙ kept
