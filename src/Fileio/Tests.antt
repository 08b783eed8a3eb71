-- ===== src/Fileio/Tests.antt =====
-- Two writers of one file: one is done, and the other one's disk fills up.
use interviews.Base.{◌≡◌, refl, false, List, [], ◌∷◌, none, some, Str, codes, ◌==◌, has_prefix}
use interviews.Fileio.{
  Disk, Job, Writer, done, failing, put, with_text, with_perm, rename, create, write, write_short,
  close, chmod, rename_over, Reach, start, next, here, there, temp_name, whole, new_file,
}
use interviews.Fileio.Alone.{Ran, HasDone, Ran-HasDone}
use interviews.Fileio.Interleaved.{IsWhole, beginning, Reach-IsWhole}

abbrev state : Str
state = codes "state.json"

abbrev job : Str → Job
job text = record { name = state; text = text; perm = 420 }

abbrev jobs : List Job
jobs = job (codes "a") ∷ job (codes "b") ∷ []

abbrev empty : Disk
empty name = none

abbrev temp : Str → Str
temp random = temp_name state random

-- The first one opens, the second one opens and writes a part, and the first one goes on to its end.
abbrev d1 : Disk
d1 = put empty (temp (codes "1")) (some new_file)

abbrev d2 : Disk
d2 = put d1 (temp (codes "2")) (some new_file)

abbrev d3 : Disk
d3 = put d2 (temp (codes "2")) (with_text [] (d2 (temp (codes "2"))))

abbrev d4 : Disk
d4 = put d3 (temp (codes "1")) (with_text (codes "a") (d3 (temp (codes "1"))))

abbrev d5 : Disk
d5 = put d4 (temp (codes "1")) (with_perm 420 (d4 (temp (codes "1"))))

abbrev d6 : Disk
d6 = rename (temp (codes "1")) state d5

abbrev ended : List Writer
ended =
    record { job = job (codes "a"); phase = done }
    ∷ record { job = job (codes "b"); phase = failing (temp (codes "2")) }
    ∷ []

apart : d1 (temp (codes "2")) ≡ none
unfolding ◌==◌
apart = refl

both : Reach (beginning jobs) empty ended d6
both =
    next
      (next
        (next
          (next
            (next
              (next (next start (here (create (temp (codes "1")) (codes "1") refl refl)))
                (there (here (create (temp (codes "2")) (codes "2") refl apart))))
              (there (here (write_short []))))
            (here write))
          (here close))
        (here chmod))
      (here rename_over)

plain : has_prefix state (codes ".") ≡ false
unfolding has_prefix
plain = refl

first_whole : d6 state ≡ some (whole (job (codes "a")))
unfolding ◌==◌
first_whole = refl

Reach-IsWhole_example : IsWhole jobs empty d6 state
Reach-IsWhole_example = Reach-IsWhole jobs empty ended d6 state (plain, (plain, tt)) both plain

abbrev e2 : Disk
e2 = put d1 (temp (codes "1")) (with_text (codes "a") (d1 (temp (codes "1"))))

abbrev e3 : Disk
e3 = put e2 (temp (codes "1")) (with_perm 420 (e2 (temp (codes "1"))))

Ran-HasDone_example : HasDone (job (codes "a")) empty (rename (temp (codes "1")) state e3) done
Ran-HasDone_example =
    Ran-HasDone (job (codes "a")) empty (rename (temp (codes "1")) state e3) done plain (
      Ran.next
        (Ran.next
          (Ran.next
            (Ran.next (Ran.next Ran.start (create (temp (codes "1")) (codes "1") refl refl)) write)
            close)
          chmod)
        rename_over)
