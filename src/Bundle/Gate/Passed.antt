-- ===== src/Bundle/Gate/Passed.antt =====
-- What a bundle that passes the gate holds.
use mathlib.Core.List.Memᴰ
use interviews.Base.{
  ◌≡◌, refl, ap, inl, inr, true, false, ◌&&◌, not, List, [], ◌∷◌, ◌++◌, Memᴰ, Option, none, some,
  Str, arith, keep, All, has_prefix, contains, Bool-cases, mem-keep, Result, ok, err, ◌>>=◌,
  if◌then◌else◌,
}
use interviews.Base.Sort.{str_le, sort-mem}
use interviews.Leak.Pattern.{is_empty}
use interviews.Leak.Classifier.{Classifier, protected}
use interviews.Leak.Scan.{
  File, Entry, unreadable, directory, file, Tree, Scan, WalkError, scan, leaks,
}
use interviews.Leak.Scan.Agreement.{files, is_shown, paths, scan_sorts}
use interviews.Bundle.Gate.{
  Written, GateError, walk_failed, not_visible, git_prefix, forbidden, is_addition, bad_files,
  grep_markers, grep_file, grep, entries, check_gate, written_paths,
}

-- A text that holds none of the markers.
abbrev pub HasNoMarker : Str → Type 0
HasNoMarker content = All (λ needle. contains content needle ≡ false) forbidden

-- A file of a finished bundle is candidate-visible or one of the two additions, and outside the
-- repository's own directory it was read and holds no marker.
pub record IsPassed (c : Classifier) (f : File) (content : Option Str) : Type 0 where
  pub visible : is_addition f.path ≡ false → is_shown c f ≡ true
  pub marker_free :
      has_prefix f.path git_prefix ≡ false → (text : Str) × (content ≡ some text) × HasNoMarker text

grep_markers-ok :
    (name content : Str) (needles : List Str)
    → grep_markers name content needles ≡ ok tt
    → All (λ needle. contains content needle ≡ false) needles
unfolding grep_markers
grep_markers-ok name content [] h = tt
grep_markers-ok name content (n ∷ ns) h = elim (Bool-cases (contains content n)) [
  | inl e ↦ absurd (ground arith)
  | inr e ↦ (e, grep_markers-ok name content ns (rw e at h))
]

grep_file-ok :
    (name : Str) (content : Option Str)
    → grep_file name content ≡ ok tt
    → (text : Str) × (content ≡ some text) × HasNoMarker text
unfolding grep_file
grep_file-ok name none h = absurd (ground arith)
grep_file-ok name (some text) h = (text, refl, grep_markers-ok name text forbidden h)

-- What the second walk says of one file of the tree.
grep-ok :
    (ws : List Written) (f : File) (content : Option Str)
    → grep ws ≡ ok tt
    → Memᴰ (record { entry = file f; content = content }) ws
    → has_prefix f.path git_prefix ≡ false
    → (text : Str) × (content ≡ some text) × HasNoMarker text
unfolding grep
grep-ok [] f content h m g = elim m [ ]
grep-ok (w ∷ ws) f content h (Memᴰ.head e) g =
    grep_file-ok f.path content
      (ground (arith, ap (λ (x : Written). x.entry) e, ap (λ (x : Written). x.content) e))
grep-ok (w ∷ ws) f content h (Memᴰ.tail m) g = grep-ok ws f content (rest_ok (w.entry) h) m g
  where
    rest_ok :
        (x : Entry)
        → elim x as (λ _. Result GateError (Unit {0})) [
          | unreadable p ↦ if has_prefix p git_prefix then grep ws else err (walk_failed p)
          | directory p ↦ grep ws
          | file k ↦
              if has_prefix k.path git_prefix
              then grep ws
              else grep_file k.path w.content >>= λ _. grep ws
        ]
          ≡ ok tt
        → grep ws ≡ ok tt
    rest_ok (unreadable p) q = ground arith
    rest_ok (directory p) q = q
    rest_ok (file k) q = ground arith

mem-files : (tree : Tree) (f : File) → Memᴰ (file f) tree → Memᴰ f (files tree)
mem-files [] f m = elim m [ ]
mem-files (unreadable p ∷ tree) f (Memᴰ.head e) = cc
mem-files (directory p ∷ tree) f (Memᴰ.head e) = cc
mem-files (file k ∷ tree) f (Memᴰ.head e) = Memᴰ.head (ground (arith, e))
mem-files (unreadable p ∷ tree) f (Memᴰ.tail m) = mem-files tree f m
mem-files (directory p ∷ tree) f (Memᴰ.tail m) = mem-files tree f m
mem-files (file k ∷ tree) f (Memᴰ.tail m) = Memᴰ.tail (mem-files tree f m)

-- A file that is not shown is one of the leaks.
leaks-mem :
    (c : Classifier) (tree : Tree) (leaked : List Str) (f : File)
    → leaks c tree ≡ ok leaked
    → Memᴰ (file f) tree
    → is_shown c f ≡ false
    → Memᴰ f.path leaked
unfolding leaks
leaks-mem c tree leaked f h m e = go (scan c tree) refl h
  where
    hidden : Memᴰ f.path (paths (λ g. not (is_shown c g)) (files tree))
    hidden =
        Memᴰ.map (λ g. g.path)
          (mem-keep (λ g. not (is_shown c g)) (files tree) (mem-files tree f m) (rw e))

    go :
        (r : Result WalkError Scan)
        → scan c tree ≡ r
        → elim r as (λ _. Result WalkError (List Str)) [ ok s ↦ ok s.interviewer | err x ↦ err x ]
          ≡ ok leaked
        → Memᴰ f.path leaked
    go (err x) q k = absurd (ground arith)
    go (ok s) q k =
        let on_list : s.interviewer ≡ leaked = ground arith in
        rw (← on_list) (rw ((scan_sorts c tree s q).1) (sort-mem str_le _ hidden))

mem-append_right : {x : Str} (xs ys : List Str) → Memᴰ x ys → Memᴰ x (xs ++ ys)
mem-append_right xs ys m = Memᴰ.append_right xs m

not-is_empty_of_mem : {x : Str} (l : List Str) → Memᴰ x l → is_empty l ≡ false
not-is_empty_of_mem [] m = elim m [ ]
not-is_empty_of_mem (y ∷ l) m = refl

check_gate-ok :
    (c : Classifier) (ws : List Written)
    → check_gate c ws ≡ ok tt
    → (leaked : List Str) × (leaks c (entries ws) ≡ ok leaked)
      × (is_empty (bad_files ws leaked) ≡ true)
      × (grep ws ≡ ok tt)
unfolding check_gate
check_gate-ok c ws h = go (leaks c (entries ws)) refl h
  where
    go :
        (r : Result WalkError (List Str))
        → leaks c (entries ws) ≡ r
        → elim r as (λ _. Result GateError (Unit {0})) [
          | err e ↦ err (walk_failed e)
          | ok leaked ↦
              if is_empty (bad_files ws leaked)
              then grep ws
              else err (not_visible (bad_files ws leaked))
        ]
          ≡ ok tt
        → (leaked : List Str) × (leaks c (entries ws) ≡ ok leaked)
          × (is_empty (bad_files ws leaked) ≡ true)
          × (grep ws ≡ ok tt)
    go (err x) q k = absurd (ground arith)
    go (ok leaked) q k = (leaked, q, ground arith, ground arith)

shown_of_no_bad :
    (c : Classifier) (ws : List Written) (leaked : List Str) (f : File)
    → leaks c (entries ws) ≡ ok leaked
    → is_empty (bad_files ws leaked) ≡ true
    → Memᴰ (file f) (entries ws)
    → is_addition f.path ≡ false
    → is_shown c f ≡ true
unfolding bad_files
shown_of_no_bad c ws leaked f h e m a = elim (Bool-cases (is_shown c f)) [
  | inl s ↦ s
  | inr s ↦
      let bad =
        mem-append_right
          (keep (λ name. protected name && not (is_addition name)) (written_paths ws)) _
          (mem-keep (λ name. not (is_addition name)) leaked
            (leaks-mem c (entries ws) leaked f h m s) (rw a)) in
      absurd (ground (arith, not-is_empty_of_mem _ bad))
]

-- Every file of a bundle that passes the gate is candidate-visible, but for the front page and
-- what stands under `.git/`; and every file outside `.git/`, the front page too, could be read and
-- holds none of the forbidden markers.
pub check_gate_passes :
    (c : Classifier) (ws : List Written) (f : File) (content : Option Str)
    → check_gate c ws ≡ ok tt
    → Memᴰ (record { entry = file f; content = content }) ws
    → IsPassed c f content
check_gate_passes c ws f content h m =
    let (leaked, hl, e, g) = check_gate-ok c ws h in
    record {
      visible = shown_of_no_bad c ws leaked f hl e (Memᴰ.map (λ w. w.entry) m);
      marker_free = grep-ok ws f content g m;
    }
