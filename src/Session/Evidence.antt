-- ===== src/Session/Evidence.antt =====
-- internal/session/evidence.go: the evidence pass. The archive and its draft beside it are lists of entries; the
-- file system, the JSON library and the refresh of the score are a `Workdir`, a parameter.
pub mod Whole
pub mod Redacted
pub mod Accounted
use interviews.Base.{
  ℕ, zero, suc, ◌+◌, ◌*◌, Bool, true, false, ◌&&◌, not, List, [], ◌∷◌, ◌++◌, Option, none, some,
  Str, codes, ◌==◌, ltb, newline, Result, ok, err, if◌then◌else◌,
}
use interviews.Base.Exec.{Exec, pure, raise, gets, ◌>>=◌, ◌>>◌}
use interviews.Session.Stack.{Info}

-- what opening a file of the workdir comes to
pub data Read : Type 0 where
  missing unreadable : Read
  content : Str → Read

-- what the walk of the candidate's directory visits
pub data Visit : Type 0 where
  walk_error directory : Visit
  visited : Str → Bool → ℕ → Visit

pub data Skipped : Type 0 where
  not_regular : Str → Skipped
  too_large : Str → ℕ → Skipped

pub record Entry : Type 0 where
  pub name : Str
  pub bytes : Str

pub data EvidenceError : Type 0 where
  not_created not_opened bad_info not_written walk_failed not_closed not_renamed not_uploaded
        not_noted :
      EvidenceError
  not_refreshed : EvidenceError

-- `false` is a failed write.
pub record Workdir (W : Type 0) : Type 0 where
  pub read : Str → W → Read
  pub exists : Str → W → Bool
  pub walk : W → Option (List Visit)
  pub create : W → Bool × W
  pub append : W → Bool × W
  pub close : W → Bool × W
  pub rename : W → Bool × W
  pub remove_draft : W → W
  pub decode : Str → Option Info
  pub encode : Info → Option Str
  pub itoa : ℕ → Str
  pub fuel : ℕ
  pub has_faults : W → Bool  -- a live environment with faults on its record
  pub refresh : W → Bool × W  -- `RefreshScore`
  pub note_error : W → Bool × W
  pub upload : Str → W → Bool × W

pub record Shelf (W : Type 0) : Type 0 where
  pub world : W
  pub archive : Option (List Entry)
  pub draft : Option (List Entry)

-- a pass over the workdir
abbrev pub Pass : Type 0 → Type 0 → Type 0
Pass W A = Exec (Shelf W) EvidenceError A

abbrev pub info_file : Str
info_file = codes "session.json"

abbrev pub cast_file : Str
cast_file = codes "session.cast"

-- `evidenceFiles`
abbrev pub evidence_files : List Str
evidence_files =
    codes "state.json"
    ∷ codes "score.json"
    ∷ codes "hints.json"
    ∷ codes "timeline.jsonl"
    ∷ info_file
    ∷ cast_file
    ∷ codes "terminal.raw"
    ∷ codes "recorder.log"
    ∷ codes "score-error.txt"
    ∷ []

-- `candidateFileLimit`
abbrev pub candidate_file_limit : ℕ
candidate_file_limit = 4194304

-- the record without its credentials
unfoldable pub redacted : Info → Info
redacted info = record info {
  candidate_token = [];
  observer_token = [];
  app_token = [];
  candidate_url = [];
  observer_url = [];
  app_url = [];
}

module _ {W : Type 0} (d : Workdir W) where
  -- `redactedInfo`
  unfoldable pub redacted_info : Str → Option Str
  unfolding redacted
  redacted_info raw = elim (d.decode raw) [ none ↦ none | some info ↦ d.encode (redacted info) ]

  -- one entry more in the draft
  abbrev pub with_entry : Entry → Option (List Entry) → Option (List Entry)
  with_entry e none = none
  with_entry e (some es) = some (es ++ e ∷ [])

  -- `addBytes`, and the end of `addFile`
  unfoldable pub add_bytes : Str → Str → Pass W Unit
  add_bytes name bytes m =
      let (good, w) = d.append m.world in
      if good
      then (
        ok tt,
        record m { world = w; draft = with_entry (record { name = name; bytes = bytes }) m.draft },
      )
      else (err not_written, record m { world = w })

  abbrev pub add_redacted : Str → Option Str → Pass W Unit
  add_redacted name none = raise bad_info
  add_redacted name (some bytes) = add_bytes name bytes

  abbrev pub add_read : Str → Read → Pass W Unit
  add_read name missing = pure tt
  add_read name unreadable = raise not_opened
  add_read name (content bytes) =
      if name == info_file then add_redacted name (redacted_info bytes) else add_bytes name bytes

  -- `addFile`
  unfoldable pub add_file : Str → Pass W Unit
  unfolding add_bytes redacted_info
  add_file name m = add_read name (d.read name m.world) m

  -- `castSegments`, from a number on
  unfoldable pub cast_segments : ℕ → ℕ → W → List Str
  cast_segments n zero w = []
  cast_segments n (suc fuel) w =
      let rest = cast_segments (suc n) fuel w in
      let name = cast_file ++ codes "." ++ d.itoa n in if d.exists name w then name ∷ rest else []

  unfoldable pub add_files : List Str → Pass W Unit
  unfolding add_file
  add_files [] = pure tt
  add_files (name ∷ names) = add_file name >> add_files names

  -- the files of the bundle's list: behind the cast stand its segments
  unfoldable pub add_listed : List Str → Pass W Unit
  unfolding add_file add_files cast_segments
  add_listed [] = pure tt
  add_listed (name ∷ names) =
      let rest = add_listed names in
      add_file name
      >> (if name == cast_file
          then (do segments ← gets (λ m. cast_segments 1 d.fuel m.world); add_files segments; rest)
          else rest)

  -- the walk of `addCandidateWork`
  unfoldable pub add_visits : List Visit → List Skipped → Pass W (List Skipped)
  unfolding add_file
  add_visits [] skipped = pure skipped
  add_visits (walk_error ∷ vs) skipped = raise walk_failed
  add_visits (directory ∷ vs) skipped = add_visits vs skipped
  add_visits (visited name regular size ∷ vs) skipped =
      let left = add_visits vs (skipped ++ not_regular name ∷ []) in
      let large = add_visits vs (skipped ++ too_large name size ∷ []) in
      let rest = add_visits vs skipped in
      if not regular
      then left
      else if ltb candidate_file_limit size
      then large
      else add_file name >> rest

  abbrev pub skipped_line : Skipped → Str
  skipped_line (not_regular name) = name ++ codes " (not a regular file)"
  skipped_line (too_large name size) =
      name
      ++ codes " ("
      ++ d.itoa size
      ++ codes " bytes, over the "
      ++ d.itoa candidate_file_limit
      ++ codes " cap)"

  unfoldable pub skipped_text : List Skipped → Str
  skipped_text [] = []
  skipped_text (s ∷ ss) = skipped_line s ++ newline ∷ skipped_text ss

  abbrev pub note_skipped : List Skipped → Pass W Unit
  note_skipped [] = pure tt
  note_skipped (s ∷ ss) = add_bytes (codes "skipped.txt") (skipped_text (s ∷ ss))

  abbrev pub add_walk : Option (List Visit) → Pass W Unit
  add_walk none = pure tt
  add_walk (some vs) = add_visits vs [] >>= note_skipped

  -- `addCandidateWork`
  unfoldable pub add_candidate_work : Pass W Unit
  unfolding add_visits skipped_text add_bytes
  add_candidate_work m = add_walk (d.walk m.world) m

  -- what `bundle` does before it closes the draft
  unfoldable pub fill : Pass W Unit
  unfolding add_listed add_candidate_work
  fill = add_listed evidence_files >> add_candidate_work

  abbrev pub discard : EvidenceError → Pass W Unit
  discard e m = (err e, record m { world = d.remove_draft m.world; draft = none })

  -- the draft takes the archive's place
  abbrev pub swap_in : Pass W Unit
  swap_in m =
      let (good, w) = d.rename m.world in
      if good
      then (ok tt, record { world = w; archive = m.draft; draft = none })
      else discard not_renamed (record m { world = w })

  -- the deferred half of `bundle`: every writer is closed, whatever happened
  abbrev pub finish : Result EvidenceError Unit → Pass W Unit
  finish (err e) m = discard e (record m { world = (d.close m.world).1 })
  finish (ok u) m =
      let (good, w) = d.close m.world in
      if good then swap_in (record m { world = w }) else discard not_closed (record m { world = w })

  -- `bundle`
  unfoldable pub bundle : Pass W Unit
  unfolding fill
  bundle m =
      let (good, w) = d.create m.world in
      if good
      then (let (r, m') = fill (record m { world = w; draft = some [] }) in finish r m')
      else (err not_created, record m { world = w })

  -- The refresh of the score: if it failed, and it is noted.
  abbrev pub note_failure : Pass W Bool
  note_failure m =
      let (good, w) = d.note_error m.world in
      if good then (ok true, record m { world = w }) else (err not_noted, record m { world = w })

  unfoldable pub refresh_failed : Pass W Bool
  refresh_failed m =
      if not (d.has_faults m.world)
      then (ok false, m)
      else (let (good, w) = d.refresh m.world in
          if good
          then (ok false, record m { world = w })
          else note_failure (record m { world = w }))

  abbrev pub uploaded : Str → Pass W Unit
  uploaded dest m =
      if dest == []
      then (ok tt, m)
      else (let (good, w) = d.upload dest m.world in
          if good
          then (ok tt, record m { world = w })
          else (err not_uploaded, record m { world = w }))

  -- `Evidence`, with `EvidenceOptions` as its arguments
  unfoldable pub evidence : Bool → Str → Pass W Unit
  evidence final s3 = do
    failed ← refresh_failed
    bundle
    uploaded s3
    if failed && not final then raise not_refreshed else pure tt
