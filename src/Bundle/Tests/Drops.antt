-- ===== src/Bundle/Tests/Drops.antt =====
-- A design exercise written into a directory, once as it should be and once with a hole left in the brief.
use interviews.Base.{
  ℕ, zero, suc, ◌≡◌, refl, Bool, true, false, List, [], ◌∷◌, ◌++◌, some, Str, codes, ◌==◌,
  has_prefix, has_suffix, contains, ok, err,
}
use interviews.Variant.Lint.{is_templated, ext_back}
use interviews.Leak.Path.{split, clean, is_ascii, equal_fold, lower}
use interviews.Leak.Pattern.{path_match}
use interviews.Leak.Glob.{stars, seg_match, match_segs}
use interviews.Leak.Classifier.{protected}
use interviews.Leak.Scan.{links, file, leaks}
use interviews.Bundle.Gate.{Written, has_marker, check_gate}
use interviews.Bundle.Write.{
  Problem, Host, absent, occupied, gate_failed, parent, spec_of, write_candidate, write_files,
  write_about, init_repo, gate, write_bundle, ensure_empty_dir, write_directory, write_as, write,
}
use interviews.Bundle.Write.Handed.{IsHanded, write-IsHanded}
use interviews.Bundle.Write.Removed.{IsWithdrawn, write-IsWithdrawn}

-- one directory, and whether it is there
abbrev Room : Type 0
Room = Bool × List Written

-- the name below `drop/`
abbrev below : ℕ → Str → Str
below zero s = s
below (suc n) [] = []
below (suc n) (c ∷ s) = below n s

abbrev written : Str → Str → Written
written path body = record {
  entry = file (record { path = below 5 path; is_regular = true; info = links 1 });
  content = some body;
}

abbrev room : Host Room
room = record {
  exists = λ d w. w.0;
  list_dir = λ d w. elim (w.0) [ true ↦ occupied | false ↦ absent ];
  tree = λ d w. w.1;
  make_temp = λ w. (some (codes "tmp"), w);
  make_dirs = λ d w. (true, (true, w.1));
  write_file = λ d body x w. (true, (true, w.1 ++ written d body ∷ []));
  git = λ d args w. (true, w);
  create = λ d w. (true, (true, w.1));
  append = λ d e w. (true, w);
  close = λ d w. (true, w);
  remove = λ d w. (false, []);
  remove_all = λ d w. (false, []);
}

abbrev exercise : Str → Problem
exercise brief = record {
  id = codes "feed";
  kind = codes "sysdesign";
  candidate = codes "candidate/brief.md" ∷ [];
  classifier = record {
    candidate = record { src = codes "candidate/**"; segs = codes "candidate" ∷ stars ∷ [] } ∷ [];
  };
  read = λ name. some brief;
  is_executable = λ name. some false;
  render = λ text. some text;
  front = λ page harness. some (codes "about");
}

abbrev out : Str
out = codes "drop"

abbrev full : Room
full = (
  true,
  written (codes "drop/candidate/brief.md") (codes "hello")
      ∷ written (codes "drop/ABOUT.md") (codes "about")
      ∷ [],
)

feed_written : write room (exercise (codes "hello")) out (false, []) ≡ (ok tt, full)
unfolding write write_as spec_of write_directory ensure_empty_dir write_bundle write_files
    write_candidate parent write_about init_repo gate check_gate leaks protected clean split
    is_ascii equal_fold match_segs seg_match path_match ◌==◌ has_prefix has_suffix contains
    is_templated ext_back lower
feed_written = refl

hole_refused :
    write room (exercise (codes "{{.x}}")) out (false, [])
    ≡ (err (gate_failed (has_marker (codes "candidate/brief.md") (codes "{{"))), (false, []))
unfolding write write_as spec_of write_directory ensure_empty_dir write_bundle write_files
    write_candidate parent write_about init_repo gate check_gate leaks protected clean split
    is_ascii equal_fold match_segs seg_match path_match ◌==◌ has_prefix has_suffix contains
    is_templated ext_back lower
hole_refused = refl

write-IsHanded_example : IsHanded room (exercise (codes "hello")) out full
write-IsHanded_example =
    write-IsHanded room (exercise (codes "hello")) out (false, []) full feed_written

write-IsWithdrawn_example : IsWithdrawn room (exercise (codes "{{.x}}")) out (false, []) (false, [])
write-IsWithdrawn_example =
    write-IsWithdrawn room (exercise (codes "{{.x}}")) out (λ w. refl) (λ w. refl)
      (gate_failed (has_marker (codes "candidate/brief.md") (codes "{{"))) (false, []) (false, [])
      hole_refused
