-- ===== src/Fileio.antt =====
-- internal/fileio/fileio.go: `WriteAtomic`, one call of the operating system at a time, so that other writers and
-- readers can come between any two of them. A disk is the files of one directory by their names.
pub mod Calls
pub mod Interleaved
pub mod Alone
mod Tests
use interviews.Base.{
  ℕ, ◌≡◌, Bool, true, false, List, [], ◌∷◌, ◌++◌, Option, none, some, Str, codes, ◌==◌, has_prefix,
  if◌then◌else◌,
}

pub record File : Type 0 where
  pub content : Str
  pub perm : ℕ

abbrev pub Disk : Type 0
Disk = Str → Option File

-- One call of `WriteAtomic`: the path's last part, the data and the mode.
pub record Job : Type 0 where
  pub name : Str
  pub text : Str
  pub perm : ℕ

-- Where a call of it stands: what it does next, with its temporary file.
pub data Phase : Type 0 where
  begun : Phase  -- before `os.CreateTemp`
  opened written shut ready : Str → Phase  -- before the write, the close, the chmod and the rename
  failing : Str → Phase  -- before the deferred `os.Remove`
  done failed : Phase

abbrev pub put : Disk → Str → Option File → Disk
put d name f n = if n == name then f else d n

-- `CreateTemp` makes its file 0600, which is 384.
abbrev pub new_file : File
new_file = record { content = []; perm = 384 }

abbrev pub with_text : Str → Option File → Option File
with_text text none = none
with_text text (some f) = some (record f { content = f.content ++ text })

abbrev pub with_perm : ℕ → Option File → Option File
with_perm perm none = none
with_perm perm (some f) = some (record f { perm = perm })

-- `os.Rename`, which replaces what has the new name
abbrev pub rename : Str → Str → Disk → Disk
rename from to d = put (put d from none) to (d from)

-- the name that `CreateTemp` makes of the pattern, with what it puts for the random part
abbrev pub temp_name : Str → Str → Str
temp_name base random = codes "." ++ (base ++ (codes "." ++ random))

-- One call, with what it answered. `CreateTemp` gives the name of no file that is there.
pub data Call (j : Job) : Phase → Disk → Phase → Disk → Type 0 where
  create :
      {d : Disk} (t random : Str)
      → t ≡ temp_name j.name random
      → d t ≡ none
      → Call j begun d (opened t) (put d t (some new_file))
  no_temp : {d : Disk} → Call j begun d failed d
  write : {t : Str} {d : Disk} → Call j (opened t) d (written t) (put d t (with_text j.text (d t)))
  write_short :
      {t : Str} {d : Disk} (part : Str)
      → Call j (opened t) d (failing t) (put d t (with_text part (d t)))
  close : {t : Str} {d : Disk} → Call j (written t) d (shut t) d
  not_closed : {t : Str} {d : Disk} → Call j (written t) d (failing t) d
  chmod : {t : Str} {d : Disk} → Call j (shut t) d (ready t) (put d t (with_perm j.perm (d t)))
  not_chmodded : {t : Str} {d : Disk} → Call j (shut t) d (failing t) d
  rename_over : {t : Str} {d : Disk} → Call j (ready t) d done (rename t j.name d)
  not_renamed : {t : Str} {d : Disk} → Call j (ready t) d (failing t) d
  remove : {t : Str} {d : Disk} → Call j (failing t) d failed (put d t none)
  not_removed : {t : Str} {d : Disk} → Call j (failing t) d failed d

-- The calls that are under way, and a turn of one of them.
pub record Writer : Type 0 where
  pub job : Job
  pub phase : Phase

pub data Turn : List Writer → Disk → List Writer → Disk → Type 0 where
  here :
      {j : Job} {a b : Phase} {d d' : Disk} {ws : List Writer}
      → Call j a d b d'
      → Turn (record { job = j; phase = a } ∷ ws) d (record { job = j; phase = b } ∷ ws) d'
  there :
      {w : Writer} {ws ws' : List Writer} {d d' : Disk}
      → Turn ws d ws' d'
      → Turn (w ∷ ws) d (w ∷ ws') d'

pub data Reach (ws0 : List Writer) (d0 : Disk) : List Writer → Disk → Type 0 where
  start : Reach ws0 d0 ws0 d0
  next :
      {ws ws' : List Writer} {d d' : Disk}
      → Reach ws0 d0 ws d
      → Turn ws d ws' d'
      → Reach ws0 d0 ws' d'

-- What a writer means to leave.
abbrev pub whole : Job → File
whole j = record { content = j.text; perm = j.perm }
