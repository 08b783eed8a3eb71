-- ===== src/Cli/Status/Stranded.antt =====
-- Which sessions are listed first.
use interviews.Base.{
  ℕ, zero, ◌+◌, ◌*◌, ◌≤◌, ◌<◌, ◌≡◌, refl, subst, ◌≢◌, ◌↔◌, inl, inr, true, false, not, ◌&&◌, [],
  Option, none, some, Str, ◌==◌, ==→eq, ==_refl, Bool-cases, leb, leb→le, ltb, lt→ltb, =?_iff,
  ltb→lt, arith, if◌then◌else◌,
}
use interviews.Interview.Store.{
  Mode, local, aws, offline, other_mode, Stage, created, sent, returned, reviewed, other_stage,
  Time, is_zero, Session,
}
use interviews.Debug.Engine.{State, is_live}
use interviews.Cli.Status.{
  rank_stranded, minute, offline_status, aws_status, local_status, is_aws, is_offline,
  session_status,
}

-- A cloud session in progress whose host is past its ttl, from when the host was up where that is known.
pub record IsPastTtl (now : Time) (s : Session) : Type 0 where
  pub cloud : is_aws s.mode ≡ true
  pub in_progress : s.ended_at ≡ 0
  pub addressed : s.host ≢ []
  pub limited : zero < s.ttl_minutes
  pub past :
      (if is_zero s.provisioned_at then s.created_at else s.provisioned_at) + s.ttl_minutes * minute
      ≤ now

aws_not_offline : (m : Mode) → is_aws m ≡ true → is_offline m ≡ false
aws_not_offline local h = cc
aws_not_offline aws h = refl
aws_not_offline offline h = cc
aws_not_offline (other_mode t) h = refl

offline_status-rank :
    (now due_at : Time) (st : Stage) → (offline_status now due_at st).1 ≢ rank_stranded
unfolding offline_status
offline_status-rank now due_at created = λ h. cc
offline_status-rank now due_at returned = λ h. cc
offline_status-rank now due_at reviewed = λ h. cc
offline_status-rank now due_at (other_stage s) = λ h. cc
offline_status-rank now due_at sent = elim (Bool-cases (not (is_zero due_at) && ltb due_at now)) [
  | inl e ↦ rw e (λ h. cc)
  | inr e ↦
      rw e (elim (Bool-cases (not (is_zero due_at))) [
        | inl q ↦ rw q (λ h. cc)
        | inr q ↦ rw q (λ h. cc)
      ])
]

local_status-rank :
    (workdir : Str) (st : Option State) → (local_status workdir st).1 ≢ rank_stranded
local_status-rank workdir none = elim (Bool-cases (workdir == [])) [
  | inl e ↦ rw e (λ h. cc)
  | inr e ↦ rw e (λ h. cc)
]
local_status-rank workdir (some s) = elim (Bool-cases (workdir == [])) [
  | inl e ↦ rw e (λ h. cc)
  | inr e ↦ rw e (elim (Bool-cases (is_live s)) [ inl q ↦ rw q (λ h. cc) | inr q ↦ rw q (λ h. cc) ])
]

-- what the three tests of `sessionStatus` leave
session_status-rank :
    (load_state : Str → Option State) (now : Time) (s : Session)
    → (session_status load_state now s).1 ≡ rank_stranded
    → (is_aws s.mode ≡ true) × (is_zero s.ended_at ≡ true) × ((aws_status now s).1 ≡ rank_stranded)
unfolding session_status
session_status-rank load_state now s = elim (Bool-cases (is_offline s.mode)) [
  | inl e ↦ rw e (λ h. absurd (offline_status-rank now s.due_at s.stage h))
  | inr e ↦ rw e (elim (Bool-cases (is_zero s.ended_at)) [
    | inr q ↦ rw q (λ h. cc)
    | inl q ↦ rw q (elim (Bool-cases (is_aws s.mode)) [
      | inl a ↦ rw a (λ h. (refl, refl, h))
      | inr a ↦ rw a (λ h. absurd (local_status-rank s.workdir (load_state s.workdir) h))
    ])
  ])
]

==-nil : (s : Str) → (s == []) ≡ false → s ≢ []
==-nil s h e = ground (arith, h, subst (λ t. (s == t) ≡ true) e (==_refl s))

aws_status-rank :
    (now : Time) (s : Session)
    → is_aws s.mode ≡ true
    → is_zero s.ended_at ≡ true
    → (aws_status now s).1 ≡ rank_stranded
    → IsPastTtl now s
aws_status-rank now s cloud running =
    let from = if is_zero s.provisioned_at then s.created_at else s.provisioned_at in
    elim (Bool-cases (s.host == [])) [
      | inl e ↦ rw e (λ h. cc)
      | inr e ↦ rw e (elim (Bool-cases (ltb 0 s.ttl_minutes)) [
        | inr q ↦ rw q (λ h. cc)
        | inl q ↦ rw q (elim (Bool-cases (leb (from + s.ttl_minutes * minute) now)) [
          | inr t ↦ rw t (λ h. cc)
          | inl t ↦ rw t (λ h. record {
            cloud = cloud;
            in_progress = (=?_iff s.ended_at 0).0 running;
            addressed = ==-nil s.host e;
            limited = ltb→lt 0 s.ttl_minutes q;
            past = leb→le (from + s.ttl_minutes * minute) now t;
          })
        ])
      ])
    ]

no_nil : (s : Str) → s ≢ [] → (s == []) ≡ false
no_nil s n = elim (Bool-cases (s == [])) [ inl e ↦ elim (n (==→eq s [] e)) [ ] | inr e ↦ e ]

le→leb : (a b : ℕ) → a ≤ b → leb a b ≡ true
le→leb a b h = ground arith

past-session_status :
    (load_state : Str → Option State) (now : Time) (s : Session)
    → IsPastTtl now s
    → (session_status load_state now s).1 ≡ rank_stranded
unfolding session_status
past-session_status load_state now s p =
    let from = if is_zero s.provisioned_at then s.created_at else s.provisioned_at in
    rw (aws_not_offline s.mode p.cloud) (
      rw ((=?_iff s.ended_at 0).1 p.in_progress) (
        rw p.cloud (
          rw (no_nil s.host p.addressed) (
            rw (lt→ltb 0 s.ttl_minutes p.limited)
              (rw (le→leb (from + s.ttl_minutes * minute) now p.past) refl)))))

-- A session is listed as stranded exactly when it is a cloud session in progress with an address and a ttl that
-- has run out, counted from when its host was up if that is recorded and from its creation if not.
pub session_status_iff :
    (load_state : Str → Option State) (now : Time) (s : Session)
    → ((session_status load_state now s).1 ≡ rank_stranded) ↔ IsPastTtl now s
session_status_iff load_state now s = (
  λ h.
      let (cloud, running, r) = session_status-rank load_state now s h in
      aws_status-rank now s cloud running r,
  past-session_status load_state now s,
)
