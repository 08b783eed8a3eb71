-- ===== src/Fileio/Alone.antt =====
-- One call of `WriteAtomic` while no other one runs.
use interviews.Base.{
  ◌≡◌, refl, sym, ap, ◌∙◌, inl, inr, Option, none, some, Str, ◌==◌, ==→eq, Bool-cases,
}
use interviews.Fileio.{
  File, Disk, Job, Phase, begun, opened, written, shut, ready, failing, done, failed, put, new_file,
  with_text, with_perm, rename, Call, create, no_temp, write, write_short, close, not_closed, chmod,
  not_chmodded, rename_over, not_renamed, remove, not_removed, whole,
}
use interviews.Fileio.Calls.{IsPlain, IsApart, Held, Call-Held, put-apart, IsApart-of_files}

pub data Ran (j : Job) (d0 : Disk) : Phase → Disk → Type 0 where
  start : Ran j d0 begun d0
  next : {a b : Phase} {d d' : Disk} → Ran j d0 a d → Call j a d b d' → Ran j d0 b d'

-- Only the temporary file is new.
abbrev IsSpare : Disk → Disk → Str → Type 0
IsSpare d0 d t = (d0 t ≡ none) × ((n : Str) → IsApart n t → d n ≡ d0 n)

-- What a call has done by a phase. At the end it has replaced the file, or no file that was there is another one.
abbrev pub HasDone : Job → Disk → Disk → Phase → Type 0
HasDone j d0 d begun = (n : Str) → d n ≡ d0 n
HasDone j d0 d (opened t) = IsSpare d0 d t
HasDone j d0 d (written t) = IsSpare d0 d t
HasDone j d0 d (shut t) = IsSpare d0 d t
HasDone j d0 d (ready t) = IsSpare d0 d t
HasDone j d0 d (failing t) = IsSpare d0 d t
HasDone j d0 d done = (n : Str) → d n ≡ put d0 j.name (some (whole j)) n
HasDone j d0 d failed = (n : Str) (f : File) → d0 n ≡ some f → d n ≡ some f

IsSpare-put : (d0 d : Disk) (t : Str) (f : Option File) → IsSpare d0 d t → IsSpare d0 (put d t f) t
IsSpare-put d0 d t f (h, k) = (h, λ n e. put-apart d n t f e ∙ k n e)

kept_of_spare : (d0 d : Disk) (t n : Str) (f : File) → IsSpare d0 d t → d0 n ≡ some f → d n ≡ some f
kept_of_spare d0 d t n f (h, k) e = k n (IsApart-of_files d0 n t e h) ∙ e

rename-HasDone :
    (j : Job) (d0 d : Disk) (t : Str)
    → Held j d (ready t)
    → IsSpare d0 d t
    → IsPlain j.name
    → HasDone j d0 (rename t j.name d) done
rename-HasDone j d0 d t (i, h) (free, k) p n = elim (Bool-cases (n == j.name)) [
  | inl e ↦ rw e h
  | inr e ↦ rw e (elim (Bool-cases (n == t)) [
    | inl q ↦ rw q (sym free ∙ ap d0 (sym (==→eq n t q)))
    | inr q ↦ rw q (k n q)
  ])
]

Call-HasDone :
    {j : Job} (d0 : Disk) {d d' : Disk} {a b : Phase}
    → Call j a d b d'
    → IsPlain j.name
    → Held j d a
    → HasDone j d0 d a
    → HasDone j d0 d' b
Call-HasDone d0 (create {d} t random e free) p h k =
    (sym (k t) ∙ free, λ n q. put-apart d n t (some new_file) q ∙ k n)
Call-HasDone d0 no_temp p h k = λ n f e. k n ∙ e
Call-HasDone {j} d0 (write {t} {d}) p h k = IsSpare-put d0 d t (with_text j.text (d t)) k
Call-HasDone {j} d0 (write_short {t} {d} part) p h k = IsSpare-put d0 d t (with_text part (d t)) k
Call-HasDone d0 close p h k = k
Call-HasDone d0 not_closed p h k = k
Call-HasDone {j} d0 (chmod {t} {d}) p h k = IsSpare-put d0 d t (with_perm j.perm (d t)) k
Call-HasDone d0 not_chmodded p h k = k
Call-HasDone {j} d0 (rename_over {t} {d}) p h k = rename-HasDone j d0 d t h k p
Call-HasDone d0 not_renamed p h k = k
Call-HasDone d0 (remove {t} {d}) p h k =
    λ n f e. kept_of_spare d0 (put d t none) t n f (IsSpare-put d0 d t none k) e
Call-HasDone d0 (not_removed {t} {d}) p h k = λ n f e. kept_of_spare d0 d t n f k e

Ran-kept :
    {j : Job} {d0 d : Disk} {a : Phase}
    → Ran j d0 a d
    → IsPlain j.name
    → Held j d a × HasDone j d0 d a
Ran-kept start p = (tt, λ n. refl)
Ran-kept (next r c) p = let (h, k) = Ran-kept r p in (Call-Held c h, Call-HasDone _ c p h k)

-- A call to a name without a dot, with no other one beside it: when it is done, the file has the data and the mode, and
-- every other name has what it had; when it has failed, every file that was there is as it was.
pub Ran-HasDone :
    (j : Job) (d0 d : Disk) (a : Phase) → IsPlain j.name → Ran j d0 a d → HasDone j d0 d a
Ran-HasDone j d0 d a p r = (Ran-kept r p).1
