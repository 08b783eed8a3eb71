-- ===== src/Debug/Load/Usable.antt =====
-- The fault directories of a scenario without issues.
use interviews.Base.{
  ◌≡◌, refl, sym, ap, Bool, true, false, ◌&&◌, not, Bool-cases, inl, inr, ◌⊎◌, List, [], ◌∷◌, Memᴰ,
  All, note_if, append-silent, note_if-silent, note_if-silent_not, Option, none, some, Str, codes,
  ◌==◌, ==→eq, if_rule,
}
use interviews.Base.Sort.{sort-All, sort-mem, sort-IsSorted, IsSorted, str_le_total, str_le_trans}
use interviews.Content.Taxonomy.{valid_id}
use interviews.Debug.Scenario.{Fault, script_path}
use interviews.Debug.Load.{
  FaultDoc, Tree, Issue, missing, not_executable, other_id, no_title, bad_tier, no_packs,
  negative_time, no_faults, is_tier, is_none_given, require_file, require_executable,
  or_not_executable, file_issues, id_issues, validate_fault, fault_dir, with_fault, read_faults,
  by_id, loaded, load_faults,
}

-- A fault directory that can be used.
pub record IsUsable (t : Tree) (f : Fault) : Type 0 where
  pub kebab : valid_id f.spec.id ≡ true
  pub placed : f.dir ≡ fault_dir f.spec.id
  pub titled : (f.spec.title == []) ≡ false
  pub tiered : is_tier f.spec.tier ≡ true
  pub packed : is_none_given f.spec.packs ≡ false
  pub injects : t.is_executable (script_path f (codes "inject.sh")) ≡ true
  pub checks : t.is_executable (script_path f (codes "check.sh")) ≡ true
  pub fixes : t.is_executable (script_path f (codes "fix.sh")) ≡ true
  pub noted : t.is_file (script_path f (codes "notes.md")) ≡ true

by_id_total : (f g : Fault) → (by_id f g ≡ true) ⊎ (by_id g f ≡ true)
by_id_total f g = str_le_total f.spec.id g.spec.id

by_id_trans : (f g k : Fault) → by_id f g ≡ true → by_id g k ≡ true → by_id f k ≡ true
by_id_trans f g k = str_le_trans f.spec.id g.spec.id k.spec.id

module _ (t : Tree) where
  require_file-silent : (path field : Str) → require_file t path field ≡ [] → t.is_file path ≡ true
  unfolding require_file
  require_file-silent path field =
      if_rule (λ (is : List Issue). is ≡ [] → t.is_file path ≡ true) (path == []) _ _ (λ e h. cc)
        (λ e h. note_if-silent_not (t.is_file path) (missing path field) h)

  pub require_executable-silent :
      (path field : Str) → require_executable t path field ≡ [] → t.is_executable path ≡ true
  unfolding require_executable
  require_executable-silent path field = go (require_file t path field)
    where
      go : (is : List Issue) → or_not_executable t path field is ≡ [] → t.is_executable path ≡ true
      go [] h = note_if-silent_not (t.is_executable path) (not_executable path field) h
      go (i ∷ is) h = cc

  id_issues-silent :
      (id dir_name : Str) → id_issues id dir_name ≡ [] → (valid_id id ≡ true) × (id ≡ dir_name)
  id_issues-silent id dir_name = elim (Bool-cases (valid_id id)) [
    | inl e ↦ rw e (λ h.
        (refl, ==→eq id dir_name (note_if-silent_not (id == dir_name) (other_id id dir_name) h)))
    | inr e ↦ rw e (λ h. cc)
  ]

  validate_fault-IsUsable :
      (doc : FaultDoc) (name : Str)
      → validate_fault t doc (record { spec = doc.spec; dir = fault_dir name }) name ≡ []
      → IsUsable t (record { spec = doc.spec; dir = fault_dir name })
  unfolding validate_fault
  validate_fault-IsUsable doc name h =
      let f : Fault = record { spec = doc.spec; dir = fault_dir name } in
      let (a, h1) = append-silent (id_issues f.spec.id name) _ h in
      let (b, h2) = append-silent (note_if (f.spec.title == []) (no_title f.dir)) _ h1 in
      let (c, h3) = append-silent (note_if (not (is_tier f.spec.tier)) (bad_tier f.dir)) _ h2 in
      let (d, h4) = append-silent (note_if (is_none_given f.spec.packs) (no_packs f.dir)) _ h3 in
      let (e, h5) =
        append-silent (note_if doc.is_negative (negative_time f.dir)) (file_issues t f) h4 in
      let (i, h6) =
        append-silent (require_executable t (script_path f (codes "inject.sh")) (codes "inject.sh"))
          _ h5 in
      let (j, h7) =
        append-silent (require_executable t (script_path f (codes "check.sh")) (codes "check.sh")) _
          h6 in
      let (k, l) =
        append-silent (require_executable t (script_path f (codes "fix.sh")) (codes "fix.sh")) _
          h7 in
      let (kebab, own) = id_issues-silent f.spec.id name a in
      record {
        kebab = kebab;
        placed = ap fault_dir (sym own);
        titled = note_if-silent (f.spec.title == []) (no_title f.dir) b;
        tiered = note_if-silent_not (is_tier f.spec.tier) (bad_tier f.dir) c;
        packed = note_if-silent (is_none_given f.spec.packs) (no_packs f.dir) d;
        injects =
            require_executable-silent (script_path f (codes "inject.sh")) (codes "inject.sh") i;
        checks = require_executable-silent (script_path f (codes "check.sh")) (codes "check.sh") j;
        fixes = require_executable-silent (script_path f (codes "fix.sh")) (codes "fix.sh") k;
        noted = require_file-silent (script_path f (codes "notes.md")) (codes "notes.md") l;
      }

  read_faults-IsUsable :
      (entries : List (Str × Bool))
      → (read_faults t entries).1 ≡ []
      → All (IsUsable t) (read_faults t entries).0
  unfolding read_faults
  read_faults-IsUsable [] = λ h. tt
  read_faults-IsUsable ((name, is_dir) ∷ entries) =
      let (fs, is) = read_faults t entries in
      let ih = read_faults-IsUsable entries in
      if_rule (λ (r : List Fault × List Issue). r.1 ≡ [] → All (IsUsable t) r.0) (not is_dir) _ _
        (λ e h. cc) (λ e. read fs is ih (t.fault_doc name))
    where
      read :
          (fs : List Fault) (is : List Issue)
          → (is ≡ [] → All (IsUsable t) fs)
          → (o : Option FaultDoc) → (with_fault t name o (fs, is)).1 ≡ []
          → All (IsUsable t) (with_fault t name o (fs, is)).0
      read fs is ih none h = cc
      read fs is ih (some doc) h =
          let (a, b) =
            append-silent
              (validate_fault t doc (record { spec = doc.spec; dir = fault_dir name }) name) is h in
          (validate_fault-IsUsable doc name a, ih b)

  -- the faults that were loaded without an issue
  pub load_faults-IsUsable :
      (load_faults t).1 ≡ []
      → All (IsUsable t) (load_faults t).0
        × IsSorted by_id (load_faults t).0
        × ((f : Fault) × Memᴰ f (load_faults t).0)
  unfolding load_faults
  load_faults-IsUsable = go t.faults
    where
      first :
          (fs : List Fault) (is : List Issue)
          → is ≡ []
          → (is_none_given fs && is_none_given is) ≡ false
          → (f : Fault) × Memᴰ f fs
      first [] [] e h = cc
      first [] (i ∷ is) e h = cc
      first (f ∷ fs) is e h = (f, Memᴰ.head refl)

      go :
          (o : Option (List (Str × Bool)))
          → (loaded t o).1 ≡ []
          → All (IsUsable t) (loaded t o).0
            × IsSorted by_id (loaded t o).0
            × ((f : Fault) × Memᴰ f (loaded t o).0)
      go none h = cc
      go (some entries) h =
          let (fs, is) = read_faults t entries in
          let (a, b) =
            append-silent is (note_if (is_none_given fs && is_none_given is) no_faults) h in
          let (f, m) =
            first fs is a (note_if-silent (is_none_given fs && is_none_given is) no_faults b) in
          (
            sort-All by_id (IsUsable t) fs (read_faults-IsUsable entries a),
            sort-IsSorted by_id by_id_total by_id_trans fs,
            (f, sort-mem by_id fs m),
          )
