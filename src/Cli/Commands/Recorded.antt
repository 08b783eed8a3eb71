-- ===== src/Cli/Commands/Recorded.antt =====
-- What `start` leaves behind, whatever happens on its way.
use interviews.Base.{
  ◌≡◌, refl, suc, if_rule, sym, ap, ◌∙◌, subst, true, [], ◌∷◌, ◌++◌, newline, Option, none, some,
  Str, ==_refl, Result, ok, err, if◌then◌else◌,
}
use interviews.Base.Exec.{resume, ◌>>=◌}
use interviews.Interview.Seed.{SeedError, valid_seed}
use interviews.Interview.Store.{
  Session, Home, HomeError, bad_seed, put, recorded, save, load, set_current, current,
}
use interviews.Interview.Store.Docs.{save-ok, load-save}
use interviews.Interview.Store.Current.{current-set_current}
use interviews.Cli.Commands.{
  Live, Cloud, AwsSetup, Console, CommandError, not_up, not_broken, not_started, not_initialised,
  not_applied, no_outputs, not_ready, Step, call, given, fetch, store, saved, save_record,
  mark_current, not_stored, not_marked, with_urls, Request, local_record, bring_session_up,
  start_local,
}
use interviews.Cli.Commands.Remote.{
  module_dir, remote_record, with_outputs, provision, remote_ready, start_remote,
}

-- The marker names the session, and its record is on file.
pub record IsHeld (s : Session) (h : Home) : Type 0 where
  pub marker : h.marker ≡ some (s.seed ++ newline ∷ [])
  pub loads : load s.seed h ≡ ok s

-- two records of a session that name the same things to clean up
pub record IsSame (s t : Session) : Type 0 where
  pub seed : t.seed ≡ s.seed
  pub workdir : t.workdir ≡ s.workdir
  pub terraform_dir : t.terraform_dir ≡ s.terraform_dir
  pub ended_at : t.ended_at ≡ s.ended_at

abbrev pub Leaves : {V A : Type 0} → Session → Result CommandError A × Console V → Type 0
Leaves s r = (t : Session) × IsSame s t × IsHeld t r.1.home

IsSame-refl : (s : Session) → IsSame s s
IsSame-refl s = record { seed = refl; workdir = refl; terraform_dir = refl; ended_at = refl }

save-IsHeld :
    (s t : Session) (h h' : Home) → IsSame s t → IsHeld s h → save t h ≡ ok h' → IsHeld t h'
save-IsHeld s t h h' same k e = record {
  marker =
      ap (λ (x : Home). x.marker) (save-ok t h h' e).1
      ∙ k.marker
      ∙ ap (λ x. some (x ++ newline ∷ [])) (sym same.seed);
  loads = load-save t h h' t.seed e ∙ (rw (==_refl t.seed));
}

-- The session that is held is the one that the commands mean.
IsHeld-current :
    (s : Session) (h : Home) → valid_seed s.seed ≡ ok tt → IsHeld s h → current h ≡ ok s
IsHeld-current s h v k =
    ap current (sym (marked h k.marker)) ∙ current-set_current s s.seed h v k.loads
  where
    marked : (h : Home) → h.marker ≡ some (s.seed ++ newline ∷ []) → set_current s.seed h ≡ h
    marked h m = unfold set_current in ap (λ x. record h { marker = x }) (sym m)

-- A fresh record that is saved and marked is held.
save-set_current-IsHeld :
    (s : Session) (h h' : Home) → save s h ≡ ok h' → IsHeld s (set_current s.seed h')
unfolding set_current load
save-set_current-IsHeld s h h' e = record {
  marker = refl;
  loads = load-save s h h' s.seed e ∙ (rw (==_refl s.seed));
}

-- A session with a valid seed is saved.
valid-save : (s : Session) (h : Home) → valid_seed s.seed ≡ ok tt → (h' : Home) × (save s h ≡ ok h')
unfolding save
valid-save s h v =
    subst
      (λ (r : Result SeedError (Unit {0})).
        (h' : Home) × ((elim r [
          | err e ↦ err (bad_seed e)
          | ok _ ↦ ok (record h { docs = put h.docs s.seed (recorded s) })
        ])
          ≡ ok h'))
      (sym v) (_, refl)

module _ {V : Type 0} where
  held_then :
      {A B : Type 0} (s : Session) (part : Step V A) (next : A → Step V B) (c : Console V)
      → IsHeld s (part c).1.home
      → ((a : A) (c' : Console V) → IsHeld s c'.home → Leaves s (next a c'))
      → Leaves s ((part >>= next) c)
  held_then s part next c k f = go ((part c).0) ((part c).1) k
    where
      go :
          (r : Result CommandError _) (c' : Console V)
          → IsHeld s c'.home
          → Leaves s (resume r c' next)
      go (ok a) c' k = f a c' k
      go (err e) c' k = (s, IsSame-refl s, k)

  -- a save of the same session, and what comes after it
  save_then :
      {B : Type 0} (s t : Session) (next : Unit {0} → Step V B) (c : Console V)
      → IsSame s t
      → IsHeld s c.home
      → ((c' : Console V) → IsHeld t c'.home → Leaves s (next tt c'))
      → Leaves s ((save_record t >>= next) c)
  save_then s t next c same k f = go (save t c.home) refl
    where
      go :
          (r : Result HomeError Home)
          → save t c.home ≡ r
          → Leaves s (resume ((saved r c).0) ((saved r c).1) next)
      go (ok h') e =
          if_rule
            (λ (r : Result CommandError (Unit {0}) × Console V). Leaves s (resume r.0 r.1 next))
            (c.disk 0) _ _
            (λ _.
              f (record c { home = h'; disk = λ n. c.disk (suc n) })
                (save-IsHeld s t c.home h' same k e))
            (λ _. (s, IsSame-refl s, k))
      go (err x) e = (s, IsSame-refl s, k)

  given-IsHeld :
      {A : Type 0} (s : Session) (e : CommandError) (o : Option A) (c : Console V)
      → IsHeld s c.home
      → IsHeld s (given e o c).1.home
  given-IsHeld s e none c k = k
  given-IsHeld s e (some a) c k = k

  bring_session_up-Leaves :
      (l : Live V) (q : Request) (s : Session) (c : Console V)
      → IsHeld s c.home
      → Leaves s (bring_session_up l q s c)
  unfolding bring_session_up
  bring_session_up-Leaves l q s c k = held_then s (call not_up l.up) _ c k (λ _ c k.
      held_then s (call not_broken (λ v. if q.no_break then (true, v) else l.inject v)) _ c k
        (λ _ c k.
          held_then s (fetch not_started l.start) _ c
            (given-IsHeld s not_started (l.start c.world).0
              (record c { world = (l.start c.world).1 }) k)
            (λ urls c k.
              save_then s (with_urls s urls) _ c
                (record { seed = refl; workdir = refl; terraform_dir = refl; ended_at = refl }) k
                (λ c k'. (
                  with_urls s urls,
                  record { seed = refl; workdir = refl; terraform_dir = refl; ended_at = refl },
                  k',
                )))))

  provision-Leaves :
      (k : Cloud V) (q : Request) (s : Session) (c : Console V)
      → IsHeld s c.home
      → Leaves s (provision k q s c)
  unfolding provision
  provision-Leaves w q s c k = held_then s (call not_initialised (w.init q.seed)) _ c k (λ _ c k.
      held_then s (call not_applied (w.apply s)) _ c k (λ _ c k.
        let t = w.now c.world in
        held_then s (fetch no_outputs w.outputs) _ c
          (given-IsHeld s no_outputs (w.outputs c.world).0
            (record c { world = (w.outputs c.world).1 }) k)
          (λ o c k.
            let s' = with_outputs s o t in
            save_then s s' _ c
              (record { seed = refl; workdir = refl; terraform_dir = refl; ended_at = refl }) k
              (λ c k'.
                let (t, same, held) =
                  held_then s' (call not_ready (w.wait_ready s')) _ c k'
                    (λ _ c k. (s', IsSame-refl s', k)) in
                (
                  t,
                  record {
                    seed = same.seed;
                    workdir = same.workdir;
                    terraform_dir = same.terraform_dir;
                    ended_at = same.ended_at;
                  },
                  held,
                )))))

  written :
      {B : Type 0} (P : Result CommandError B × Console V → Type 0) (e : CommandError) (h : Home)
      (next : Unit {0} → Step V B) (c : Console V)
      → c.disk 0 ≡ true
      → P (next tt (record c { home = h; disk = λ n. c.disk (suc n) }))
      → P ((store e h >>= next) c)
  written P e h next c good p =
      if_rule (λ (r : Result CommandError (Unit {0}) × Console V). P (resume r.0 r.1 next))
        (c.disk 0) _ _ (λ _. p) (λ bad. cc (good, bad))

  -- the record and the marker, which a valid seed gets where the two files are written
  recorded_then :
      {B : Type 0} (s : Session) (next : Unit {0} → Step V B) (c : Console V)
      → valid_seed s.seed ≡ ok tt
      → c.disk 0 ≡ true
      → c.disk 1 ≡ true
      → ((c' : Console V) → IsHeld s c'.home → Leaves s (next tt c'))
      → Leaves s ((save_record s >>= λ _. mark_current s.seed >>= next) c)
  recorded_then s next c v stored pointed f = go (save s c.home) refl (valid-save s c.home v)
    where
      go :
          (r : Result HomeError Home)
          → save s c.home ≡ r
          → (h' : Home) × (save s c.home ≡ ok h')
          → Leaves s (resume ((saved r c).0) ((saved r c).1) (λ _. mark_current s.seed >>= next))
      go (ok h') e x =
          let d = record c { home = h'; disk = λ n. c.disk (suc n) } in
          written (Leaves s) not_stored h' (λ _. mark_current s.seed >>= next) c stored
            (written (Leaves s) not_marked (set_current s.seed h') next d pointed (
              f (record d { home = set_current s.seed h'; disk = λ n. d.disk (suc n) })
                (save-set_current-IsHeld s c.home h' e)))
      go (err y) e (h', x) = cc

  -- When its engine builds and the registry's first two writes, of the record and of the marker, succeed, `start` of a
  -- local problem with a valid seed leaves, however far it gets from there, a record of the session that is still open
  -- and names its workdir, and this is the session that the commands mean.
  pub start_local-current :
      (l : Live V) (q : Request) (c : Console V)
      → valid_seed q.seed ≡ ok tt
      → l.builds q.problem q.seed c.world ≡ true
      → c.disk 0 ≡ true
      → c.disk 1 ≡ true
      → (t : Session) × (current (start_local l q c).1.home ≡ ok t)
        × (t.seed ≡ q.seed)
        × (t.workdir ≡ q.workdir)
        × (t.ended_at ≡ 0)
  unfolding start_local
  start_local-current l q c v b stored pointed =
      let s = local_record q (l.now c.world) in
      let (t, same, held) =
        recorded_then s (λ _. bring_session_up l q s) c v stored pointed
          (λ c' k. bring_session_up-Leaves l q s c' k) in
      rw b (
        t,
        IsHeld-current t _ (ap valid_seed same.seed ∙ v) held,
        same.seed,
        same.workdir,
        same.ended_at,
      )

  -- Once `start` of a provisioned session has the setup, the account and the content version, and the registry's next
  -- two writes, of the record and of the marker, succeed, a valid seed leaves, however far it gets from there, a record that is still open and names the Terraform module, and this is the session that the
  -- commands mean.
  pub start_remote-current :
      (w : Cloud V) (q : Request) (c : Console V) (a : AwsSetup) (root version : Str)
      → valid_seed q.seed ≡ ok tt
      → (remote_ready w q c).0 ≡ ok (a, root, version)
      → (remote_ready w q c).1.disk 0 ≡ true
      → (remote_ready w q c).1.disk 1 ≡ true
      → (t : Session) × (current (start_remote w q c).1.home ≡ ok t)
        × (t.seed ≡ q.seed)
        × (t.terraform_dir ≡ module_dir root)
        × (t.ended_at ≡ 0)
  unfolding start_remote
  start_remote-current w q c a root version v ready stored pointed =
      let d = (remote_ready w q c).1 in
      let s = remote_record q a root version (w.now d.world) in
      let (t, same, held) =
        recorded_then s (λ _. provision w q s) d v stored pointed
          (λ c' k. provision-Leaves w q s c' k) in
      rw ready (
        t,
        IsHeld-current t _ (ap valid_seed same.seed ∙ v) held,
        same.seed,
        same.terraform_dir,
        same.ended_at,
      )
