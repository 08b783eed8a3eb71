-- ===== src/Fileio/Calls.antt =====
-- What one call of `WriteAtomic` keeps: its own file as its phase has it, and every file of others.
use interviews.Base.{
  arith, ◌≡◌, refl, sym, ap, subst, ◌∙◌, ◌⊎◌, inl, inr, true, false, Option, none, some, Str, codes,
  ◌==◌, ==_refl, ==→eq, has_prefix, Bool-cases, if◌then◌else◌,
}
use interviews.Fileio.{
  File, Disk, Job, Phase, begun, opened, written, shut, ready, failing, done, failed, put, new_file,
  with_text, with_perm, temp_name, Call, create, no_temp, write, write_short, close, not_closed,
  chmod, not_chmodded, rename_over, not_renamed, remove, not_removed, whole,
}

-- A name that begins with a dot, as those of `CreateTemp` do here.
abbrev pub IsHidden : Str → Type 0
IsHidden n = has_prefix n (codes ".") ≡ true

abbrev pub IsPlain : Str → Type 0
IsPlain n = has_prefix n (codes ".") ≡ false

abbrev pub IsApart : Str → Str → Type 0
IsApart n t = (n == t) ≡ false

-- The temporary file of a call, as its phase has it.
abbrev pub Held : Job → Disk → Phase → Type 0
Held j d begun = Unit
Held j d (opened t) = IsHidden t × (d t ≡ some new_file)
Held j d (written t) = IsHidden t × (d t ≡ some (record { content = j.text; perm = 384 }))
Held j d (shut t) = IsHidden t × (d t ≡ some (record { content = j.text; perm = 384 }))
Held j d (ready t) = IsHidden t × (d t ≡ some (whole j))
Held j d (failing t) = IsHidden t × ((f : File) × (d t ≡ some f))
Held j d done = Unit
Held j d failed = Unit

abbrev pub temp_of : Phase → Option Str
temp_of begun = none
temp_of (opened t) = some t
temp_of (written t) = some t
temp_of (shut t) = some t
temp_of (ready t) = some t
temp_of (failing t) = some t
temp_of done = none
temp_of failed = none

abbrev pub IsNot : Str → Option Str → Type 0
IsNot n none = Unit
IsNot n (some t) = IsApart n t

-- A name that is not the phase's temporary file.
abbrev pub Avoids : Str → Phase → Type 0
Avoids n a = IsNot n (temp_of a)

pub IsApart-sym : (n t : Str) → IsApart n t → IsApart t n
IsApart-sym n t h = elim (Bool-cases (t == n)) [
  | inl e ↦ absurd (ground (arith, h, subst (λ s. (n == s) ≡ true) (sym (==→eq t n e)) (==_refl n)))
  | inr e ↦ e
]

pub IsApart-of_files : (d : Disk) (n t : Str) {f : File} → d n ≡ some f → d t ≡ none → IsApart n t
IsApart-of_files d n t h k = elim (Bool-cases (n == t)) [
  | inl e ↦ cc (ap d (==→eq n t e))
  | inr e ↦ e
]

pub IsApart-of_dot : (n t : Str) → IsHidden n → IsPlain t → IsApart n t
IsApart-of_dot n t h k = elim (Bool-cases (n == t)) [
  | inl e ↦ cc (ap (λ s. has_prefix s (codes ".")) (==→eq n t e))
  | inr e ↦ e
]

pub put_self : (d : Disk) (n : Str) (f : Option File) → put d n f n ≡ f
put_self d n f = rw (==_refl n)

pub put-apart : (d : Disk) (n t : Str) (f : Option File) → IsApart n t → put d t f n ≡ d n
put-apart d n t f h = rw h

temp_name-IsHidden : (base random t : Str) → t ≡ temp_name base random → IsHidden t
unfolding has_prefix
temp_name-IsHidden base random t e = rw e

-- The call's own file.
pub Call-Held : {j : Job} {a b : Phase} {d d' : Disk} → Call j a d b d' → Held j d a → Held j d' b
Call-Held {j} (create {d} t random e n) h =
    (temp_name-IsHidden j.name random t e, put_self d t (some new_file))
Call-Held no_temp h = tt
Call-Held {j} (write {t} {d}) (i, h) =
    (i, put_self d t (with_text j.text (d t)) ∙ ap (with_text j.text) h)
Call-Held {j} (write_short {t} {d} part) (i, h) =
    (i, (_, put_self d t (with_text part (d t)) ∙ ap (with_text part) h))
Call-Held close h = h
Call-Held not_closed (i, h) = (i, (_, h))
Call-Held {j} (chmod {t} {d}) (i, h) =
    (i, put_self d t (with_perm j.perm (d t)) ∙ ap (with_perm j.perm) h)
Call-Held not_chmodded (i, h) = (i, (_, h))
Call-Held rename_over h = tt
Call-Held not_renamed (i, h) = (i, (_, h))
Call-Held remove h = tt
Call-Held not_removed h = tt

-- The hidden files of others stay, and the call does not take them for its own.
pub Call-frame :
    {j : Job} {a b : Phase} {d d' : Disk}
    → Call j a d b d'
    → IsPlain j.name
    → (n : Str) {f : File} → IsHidden n
    → d n ≡ some f
    → Avoids n a
    → (d' n ≡ some f) × Avoids n b
Call-frame (create {d} t random e free) p n i h k =
    let apart = IsApart-of_files d n t h free in (put-apart d n t (some new_file) apart ∙ h, apart)
Call-frame no_temp p n i h k = (h, tt)
Call-frame {j} (write {t} {d}) p n i h k = (put-apart d n t (with_text j.text (d t)) k ∙ h, k)
Call-frame (write_short {t} {d} part) p n i h k = (put-apart d n t (with_text part (d t)) k ∙ h, k)
Call-frame close p n i h k = (h, k)
Call-frame not_closed p n i h k = (h, k)
Call-frame {j} (chmod {t} {d}) p n i h k = (put-apart d n t (with_perm j.perm (d t)) k ∙ h, k)
Call-frame not_chmodded p n i h k = (h, k)
Call-frame {j} (rename_over {t} {d}) p n i h k = (
  put-apart (put d t none) n j.name (d t) (IsApart-of_dot n j.name i p)
      ∙ (put-apart d n t none k ∙ h),
  tt,
)
Call-frame not_renamed p n i h k = (h, k)
Call-frame (remove {t} {d}) p n i h k = (put-apart d n t none k ∙ h, tt)
Call-frame not_removed p n i h k = (h, tt)

-- What stands under a name without a dot is what stood there, or whole what the call writes.
pub Call-plain :
    {j : Job} {a b : Phase} {d d' : Disk}
    → Call j a d b d'
    → Held j d a
    → (n : Str) → IsPlain n
    → (d' n ≡ d n) ⊎ ((j.name ≡ n) × (d' n ≡ some (whole j)))
Call-plain {j} (create {d} t random e free) h n p = inl (
    put-apart d n t (some new_file)
      (IsApart-sym t n (IsApart-of_dot t n (temp_name-IsHidden j.name random t e) p)))
Call-plain no_temp h n p = inl refl
Call-plain {j} (write {t} {d}) (i, h) n p =
    inl (put-apart d n t (with_text j.text (d t)) (IsApart-sym t n (IsApart-of_dot t n i p)))
Call-plain (write_short {t} {d} part) (i, h) n p =
    inl (put-apart d n t (with_text part (d t)) (IsApart-sym t n (IsApart-of_dot t n i p)))
Call-plain close h n p = inl refl
Call-plain not_closed h n p = inl refl
Call-plain {j} (chmod {t} {d}) (i, h) n p =
    inl (put-apart d n t (with_perm j.perm (d t)) (IsApart-sym t n (IsApart-of_dot t n i p)))
Call-plain not_chmodded h n p = inl refl
Call-plain {j} (rename_over {t} {d}) (i, h) n p = elim (Bool-cases (n == j.name)) [
  | inl e ↦ inr (
    sym (==→eq n j.name e),
    subst (λ b. (if b then d t else put d t none n) ≡ some (whole j)) (sym e) h,
  )
  | inr e ↦ inl (
      put-apart (put d t none) n j.name (d t) e
      ∙ put-apart d n t none (IsApart-sym t n (IsApart-of_dot t n i p)))
]
Call-plain not_renamed h n p = inl refl
Call-plain (remove {t} {d}) (i, h) n p =
    inl (put-apart d n t none (IsApart-sym t n (IsApart-of_dot t n i p)))
Call-plain not_removed h n p = inl refl
