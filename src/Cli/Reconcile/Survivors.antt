-- ===== src/Cli/Reconcile/Survivors.antt =====
-- What the listing of the local sessions shows of a host that outlived its session.
use interviews.Base.{
  ◌≡◌, refl, ap, ◌∙◌, sym, subst, inl, inr, Bool, true, false, not, List, [], ◌∷◌, keep, map, Memᴰ,
  any-mem, keep-mem, mem-keep, mem-append_left, mem-append_right, Option, some, Str, ◌==◌, ==→eq,
  ==_refl, Bool-cases, Option-cases,
}
use interviews.Interview.Store.{Time, is_zero, is_open, Session}
use interviews.Debug.Engine.{State}
use interviews.Cli.Status.{still_up_after_end, rank_stranded, is_aws}
use interviews.Cli.Reconcile.{
  RemoteHost, SessionRow, host_of, known_of, settle_with, settle, new_row, is_shown, reconcile,
  local_row, local_rows,
}
use interviews.Cli.Reconcile.Hosts.{settle-session, host_of-mem}

mem-map : {A B : Type 0} (f : A → B) {x : A} (xs : List A) → Memᴰ x xs → Memᴰ (f x) (map f xs)
mem-map f [] m = elim m [ ]
mem-map f (y ∷ ys) (Memᴰ.head e) = Memᴰ.head (ap f e)
mem-map f (y ∷ ys) (Memᴰ.tail m) = Memᴰ.tail (mem-map f ys m)

-- The row of session `s` that warns of its host.
pub record Warns (s : Session) (rows : List SessionRow) : Type 0 where
  pub row : SessionRow
  pub shown : Memᴰ row rows
  pub of_session : row.session ≡ s
  pub says : row.state ≡ still_up_after_end
  pub ranks : row.rank ≡ rank_stranded

some-inj : (a b : Session) → some a ≡ some b → a ≡ b
some-inj a b h = cc

known_of-in :
    (known : List Session) (seed : Str) (u : Session)
    → known_of known seed ≡ some u
    → Memᴰ u known × (u.seed ≡ seed)
unfolding known_of
known_of-in [] seed u = λ h. cc
known_of-in (t ∷ known) seed u = elim (Option-cases (known_of known seed)) [
  | inr (v, e) ↦
      rw (e, known_of) (λ h. let (m, q) = known_of-in known seed u (e ∙ h) in (Memᴰ.tail m, q))
  | inl e ↦
      rw (e, known_of)
        (elim (Bool-cases (t.seed == seed)) [
          | inl q ↦ rw q (λ h.
              let same = some-inj t u h in
              (
                Memᴰ.head (sym same),
                subst (λ (x : Session). x.seed ≡ seed) same (==→eq t.seed seed q),
              ))
          | inr q ↦ rw q (λ h. cc)
        ])
]

known_of-some :
    (known : List Session) (s : Session)
    → Memᴰ s known
    → (t : Session) × (known_of known s.seed ≡ some t)
unfolding known_of
known_of-some [] s m = elim m [ ]
known_of-some (t ∷ known) s (Memᴰ.tail m) =
    let (u, e) = known_of-some known s m in (u, rw (e, known_of) refl)
known_of-some (t ∷ known) s (Memᴰ.head q) = elim (Option-cases (known_of known s.seed)) [
  | inr (u, e) ↦ (u, rw (e, known_of) refl)
  | inl e ↦ (
    t,
    rw (e, known_of)
        (rw (subst (λ (x : Session). (x.seed == s.seed) ≡ true) q (==_refl s.seed)) refl),
  )
]

module _ (s : Session) (cloud : is_aws s.mode ≡ true) (ended : is_zero s.ended_at ≡ false) where
  settle_with-warns :
      (now : Time) (g : RemoteHost) (r : SessionRow)
      → r.session ≡ s
      → ((settle_with now (some g) r).state ≡ still_up_after_end)
        × ((settle_with now (some g) r).rank ≡ rank_stranded)
  settle_with-warns now g r same =
      let e : is_zero r.session.ended_at ≡ false =
        ap (λ (x : Session). is_zero x.ended_at) same ∙ ended in
      rw e (refl, refl)

  settle_cloud :
      (now : Time) (hosts : List RemoteHost) (r : SessionRow) (g : RemoteHost)
      → r.session ≡ s
      → host_of hosts s.seed ≡ some g
      → settle now hosts r ≡ settle_with now (some g) r
  unfolding settle
  settle_cloud now hosts r g same found =
      let e : is_aws r.session.mode ≡ true = ap (λ (x : Session). is_aws x.mode) same ∙ cloud in
      rw e (ap (λ o. settle_with now o r) (ap (λ (x : Session). host_of hosts x.seed) same ∙ found))

  settled :
      (now : Time) (hosts : List RemoteHost) (h : RemoteHost) (r : SessionRow)
      → Memᴰ h hosts
      → h.seed ≡ s.seed
      → r.session ≡ s
      → ((settle now hosts r).state ≡ still_up_after_end)
        × ((settle now hosts r).rank ≡ rank_stranded)
  settled now hosts h r m here same =
      let (g, found) = host_of-mem hosts h m in
      let q = settle_cloud now hosts r g same (ap (host_of hosts) (sym here) ∙ found) in
      subst (λ (x : SessionRow). (x.state ≡ still_up_after_end) × (x.rank ≡ rank_stranded)) (sym q)
        (settle_with-warns now g r same)

  new_row-known :
      (now : Time) (known : List Session) (h : RemoteHost)
      → known_of known h.seed ≡ some s
      → ((new_row now known h).session ≡ s)
        × ((new_row now known h).state ≡ still_up_after_end)
        × ((new_row now known h).rank ≡ rank_stranded)
  unfolding new_row
  new_row-known now known h e = rw (e, new_row) (refl, refl, refl)

-- the rows are made of sessions in the list
map-sessions :
    (load_state : Str → Option State) (now : Time) (sessions : List Session) (r : SessionRow)
    → Memᴰ r (map (local_row load_state now) sessions)
    → Memᴰ r.session sessions
map-sessions load_state now [] r m = elim m [ ]
map-sessions load_state now (s ∷ sessions) r (Memᴰ.head e) =
    Memᴰ.head (ap (λ (x : SessionRow). x.session) e)
map-sessions load_state now (s ∷ sessions) r (Memᴰ.tail m) =
    Memᴰ.tail (map-sessions load_state now sessions r m)

local_rows-known :
    (load_state : Str → Option State) (now : Time) (whole : Bool) (known : List Session)
    (r : SessionRow)
    → Memᴰ r (local_rows load_state now whole known)
    → Memᴰ r.session known
unfolding local_rows
local_rows-known load_state now true known r m = map-sessions load_state now known r m
local_rows-known load_state now false known r m =
    (keep-mem is_open known (map-sessions load_state now (keep is_open known) r m)).0

-- A cloud session that has ended on record, and whose host the account still reports, has a row in the listing, also in
-- the default one that leaves ended sessions out: it says that the host is still up after the end, and it ranks as
-- stranded, which is the first rank. This is where no other record of the registry has its seed.
pub reconcile-local_rows :
    (load_state : Str → Option State) (now : Time) (whole : Bool) (known : List Session)
    (hosts : List RemoteHost) (h : RemoteHost) (s : Session)
    → Memᴰ h hosts
    → Memᴰ s known
    → h.seed ≡ s.seed
    → is_aws s.mode ≡ true
    → is_zero s.ended_at ≡ false
    → ((t : Session) → Memᴰ t known → t.seed ≡ s.seed → t ≡ s)
    → Warns s (reconcile now (local_rows load_state now whole known) known hosts)
unfolding reconcile
reconcile-local_rows load_state now whole known hosts h s m n here cloud ended only =
    let rows = local_rows load_state now whole known in
    let fresh = keep (λ (g : RemoteHost). not (is_shown rows g.seed)) hosts in
    elim (Bool-cases (is_shown rows h.seed)) [
      | inl shown ↦
          let (r, mr, same_seed) =
            any-mem (λ (r : SessionRow). r.session.seed == h.seed) rows shown in
          let same =
            only r.session (local_rows-known load_state now whole known r mr)
              (==→eq r.session.seed h.seed same_seed ∙ here) in
          let (says, ranks) = settled s cloud ended now hosts h r m here same in
          record {
            row = settle now hosts r;
            shown = mem-append_left _ _ (mem-map (settle now hosts) rows mr);
            of_session = settle-session now hosts r ∙ same;
            says = says;
            ranks = ranks;
          }
      | inr hidden ↦
          let (t, found) = known_of-some known s n in
          let (mt, qt) = known_of-in known s.seed t found in
          let e : known_of known h.seed ≡ some s =
            ap (known_of known) here ∙ found ∙ ap some (only t mt qt) in
          let (of_session, says, ranks) = new_row-known s cloud ended now known h e in
          record {
            row = new_row now known h;
            shown = mem-append_right (map (settle now hosts) rows) (
                mem-map (new_row now known) fresh (
                  mem-keep (λ (g : RemoteHost). not (is_shown rows g.seed)) hosts m
                    (ap not hidden)));
            of_session = of_session;
            says = says;
            ranks = ranks;
          }
    ]
