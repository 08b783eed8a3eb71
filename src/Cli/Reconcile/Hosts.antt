-- ===== src/Cli/Reconcile/Hosts.antt =====
-- What a reconciled listing shows.
use interviews.Base.{
  ◌≡◌, refl, ap, ◌∙◌, subst, inl, inr, true, not, List, [], ◌∷◌, ◌++◌, keep, map, Memᴰ, Option,
  none, some, Str, ◌==◌, ==→eq, ==_refl, Bool-cases, Option-cases,
}
use interviews.Interview.Store.{Time, is_zero, Session}
use interviews.Cli.Status.{is_aws}
use interviews.Cli.Reconcile.{
  RemoteHost, SessionRow, host_session, host_of, known_of, settle_with, settle, new_row, is_shown,
  reconcile,
}

abbrev pub row_seeds : List SessionRow → List Str
row_seeds = map (λ (r : SessionRow). r.session.seed)

some-inj : (a b : Session) → some a ≡ some b → a ≡ b
some-inj a b h = cc

known_of-seed :
    (known : List Session) (seed : Str) (s : Session) → known_of known seed ≡ some s → s.seed ≡ seed
unfolding known_of
known_of-seed [] seed s = λ h. cc
known_of-seed (t ∷ known) seed s = elim (Option-cases (known_of known seed)) [
  | inr (u, e) ↦ rw (e, known_of) (λ h. known_of-seed known seed s (e ∙ h))
  | inl e ↦
      rw (e, known_of)
        (elim (Bool-cases (t.seed == seed)) [
          | inl q ↦
              rw q
                (λ h. subst (λ (x : Session). x.seed ≡ seed) (some-inj t s h) (==→eq t.seed seed q))
          | inr q ↦ rw q (λ h. cc)
        ])
]

settle_with-session :
    (now : Time) (o : Option RemoteHost) (r : SessionRow)
    → (settle_with now o r).session ≡ r.session
settle_with-session now none r = elim (Bool-cases (is_zero r.session.ended_at)) [
  | inl e ↦
      rw e (elim (Bool-cases (r.session.host == [])) [ inl q ↦ rw q refl | inr q ↦ rw q refl ])
  | inr e ↦ rw e refl
]
settle_with-session now (some h) r = elim (Bool-cases (is_zero r.session.ended_at)) [
  | inl e ↦ rw e refl
  | inr e ↦ rw e refl
]

pub settle-session :
    (now : Time) (hosts : List RemoteHost) (r : SessionRow)
    → (settle now hosts r).session ≡ r.session
unfolding settle
settle-session now hosts r = elim (Bool-cases (is_aws r.session.mode)) [
  | inl e ↦ rw e (settle_with-session now (host_of hosts r.session.seed) r)
  | inr e ↦ rw e refl
]

new_row-seed :
    (now : Time) (known : List Session) (h : RemoteHost)
    → (new_row now known h).session.seed ≡ h.seed
unfolding new_row host_session
new_row-seed now known h = elim (Option-cases (known_of known h.seed)) [
  | inl e ↦ rw (e, new_row) refl
  | inr (s, e) ↦ rw (e, new_row) (known_of-seed known h.seed s e)
]

abbrev pub host_seeds : List RemoteHost → List Str
host_seeds = map (λ (h : RemoteHost). h.seed)

row_seeds-append : (xs ys : List SessionRow) → row_seeds (xs ++ ys) ≡ row_seeds xs ++ row_seeds ys
row_seeds-append [] ys = refl
row_seeds-append (x ∷ xs) ys = ap (λ l. x.session.seed ∷ l) (row_seeds-append xs ys)

settled_seeds :
    (now : Time) (hosts : List RemoteHost) (rows : List SessionRow)
    → row_seeds (map (settle now hosts) rows) ≡ row_seeds rows
settled_seeds now hosts [] = refl
settled_seeds now hosts (r ∷ rows) =
    let e = ap (λ (s : Session). s.seed) (settle-session now hosts r) in
    cc (e, settled_seeds now hosts rows)

new_seeds :
    (now : Time) (known : List Session) (hosts : List RemoteHost)
    → row_seeds (map (new_row now known) hosts) ≡ host_seeds hosts
new_seeds now known [] = refl
new_seeds now known (h ∷ hosts) = cc (new_row-seed now known h, new_seeds now known hosts)

-- A reconciled listing has the local rows in their order, and after them a row for each host of the account
-- that no local row shows, each under the host's seed: no row is lost and no host is left out.
pub row_seeds-reconcile :
    (now : Time) (rows : List SessionRow) (known : List Session) (hosts : List RemoteHost)
    → row_seeds (reconcile now rows known hosts)
      ≡ row_seeds rows ++ host_seeds (keep (λ (h : RemoteHost). not (is_shown rows h.seed)) hosts)
unfolding reconcile
row_seeds-reconcile now rows known hosts =
    let fresh = keep (λ (h : RemoteHost). not (is_shown rows h.seed)) hosts in
    row_seeds-append (map (settle now hosts) rows) (map (new_row now known) fresh)
    ∙ cc (settled_seeds now hosts rows, new_seeds now known fresh)

pub host_of-mem :
    (hosts : List RemoteHost) (h : RemoteHost)
    → Memᴰ h hosts
    → (g : RemoteHost) × (host_of hosts h.seed ≡ some g)
unfolding host_of
host_of-mem [] h m = elim m [ ]
host_of-mem (g ∷ hosts) h (Memᴰ.tail m) =
    let (k, e) = host_of-mem hosts h m in (k, rw (e, host_of) refl)
host_of-mem (g ∷ hosts) h (Memᴰ.head q) = elim (Option-cases (host_of hosts h.seed)) [
  | inr (k, e) ↦ (k, rw (e, host_of) refl)
  | inl e ↦ (
    g,
    rw (e, host_of)
        (rw (subst (λ (x : RemoteHost). (x.seed == h.seed) ≡ true) q (==_refl h.seed)) refl),
  )
]
