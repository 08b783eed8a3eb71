-- ===== src/Session/Evidence/Whole/Filled.antt =====
-- What each entry keeps, filling the archive keeps.
use interviews.Base.{
  ◌≢◌, not, List, [], ◌∷◌, ◌++◌, Option, none, some, Str, codes, ◌==◌, ltb, err, if_rule,
}
use interviews.Base.Exec.{>>=-keeps, >>=-avoids}
use interviews.Session.Evidence.{
  Visit, Skipped, not_regular, too_large, walk_error, walk_failed, directory, visited,
  EvidenceError, Workdir, Shelf, Pass, cast_file, evidence_files, candidate_file_limit, add_bytes,
  add_file, cast_segments, add_files, add_listed, add_visits, skipped_text, note_skipped, add_walk,
  add_candidate_work, fill,
}

module _ {W : Type 0} (d : Workdir W) (P : Shelf W → Type 0)
    (file : (name : Str) (m : Shelf W) → P m → P (add_file d name m).1)
    (note : (text : Str) (m : Shelf W) → P m → P (add_bytes d (codes "skipped.txt") text m).1) where
  add_files-keeps : (names : List Str) (m : Shelf W) → P m → P (add_files d names m).1
  unfolding add_files
  add_files-keeps [] m k = k
  add_files-keeps (name ∷ names) m k =
      >>=-keeps P (add_file d name) _ m (file name m k) (λ _ m k. add_files-keeps names m k)

  add_listed-keeps : (names : List Str) (m : Shelf W) → P m → P (add_listed d names m).1
  unfolding add_listed
  add_listed-keeps [] m k = k
  add_listed-keeps (name ∷ names) m k = >>=-keeps P (add_file d name) _ m (file name m k) (λ _ m k.
      if_rule (λ (f : Pass W Unit). P (f m).1) (name == cast_file) _ _
        (λ e.
          >>=-keeps P (add_files d (cast_segments d 1 d.fuel m.world)) _ m
            (add_files-keeps (cast_segments d 1 d.fuel m.world) m k)
            (λ _ m k. add_listed-keeps names m k))
        (λ e. add_listed-keeps names m k))

  add_visits-keeps :
      (vs : List Visit) (skipped : List Skipped) (m : Shelf W)
      → P m
      → P (add_visits d vs skipped m).1
  unfolding add_visits
  add_visits-keeps [] skipped m k = k
  add_visits-keeps (walk_error ∷ vs) skipped m k = k
  add_visits-keeps (directory ∷ vs) skipped m k = add_visits-keeps vs skipped m k
  add_visits-keeps (visited name regular size ∷ vs) skipped m k =
      let Q = λ (f : Pass W (List Skipped)). P (f m).1 in
      if_rule Q (not regular) _ _ (λ e. add_visits-keeps vs (skipped ++ not_regular name ∷ []) m k)
        (λ e.
          if_rule Q (ltb candidate_file_limit size) _ _
            (λ e. add_visits-keeps vs (skipped ++ too_large name size ∷ []) m k)
            (λ e.
              >>=-keeps P (add_file d name) _ m (file name m k)
                (λ _ m k. add_visits-keeps vs skipped m k)))

  add_walk-keeps : (walk : Option (List Visit)) (m : Shelf W) → P m → P (add_walk d walk m).1
  add_walk-keeps none m k = k
  add_walk-keeps (some vs) m k =
      >>=-keeps P (add_visits d vs []) _ m (add_visits-keeps vs [] m k) noted
    where
      noted : (skipped : List Skipped) (m : Shelf W) → P m → P (note_skipped d skipped m).1
      noted [] m k = k
      noted (s ∷ ss) m k = note (skipped_text d (s ∷ ss)) m k

  pub fill-keeps : (m : Shelf W) → P m → P (fill d m).1
  unfolding fill add_candidate_work
  fill-keeps m k =
      >>=-keeps P (add_listed d evidence_files) _ m (add_listed-keeps evidence_files m k)
        (λ _ m k. add_walk-keeps (d.walk m.world) m k)

-- An error that no entry raises, nor the walk, filling the archive does not raise.
module _ {W : Type 0} (d : Workdir W) (e : EvidenceError) (walk_apart : walk_failed ≢ e)
    (file : (name : Str) (m : Shelf W) → (add_file d name m).0 ≢ err e)
    (note : (text : Str) (m : Shelf W) → (add_bytes d (codes "skipped.txt") text m).0 ≢ err e) where
  add_files-avoids : (names : List Str) (m : Shelf W) → (add_files d names m).0 ≢ err e
  unfolding add_files
  add_files-avoids [] m = λ h. cc
  add_files-avoids (name ∷ names) m =
      >>=-avoids (add_file d name) _ m e (file name m)
        (λ _ _. add_files-avoids names (add_file d name m).1)

  add_listed-avoids : (names : List Str) (m : Shelf W) → (add_listed d names m).0 ≢ err e
  unfolding add_listed
  add_listed-avoids [] m = λ h. cc
  add_listed-avoids (name ∷ names) m =
      let m' = (add_file d name m).1 in
      let segments = cast_segments d 1 d.fuel m'.world in
      >>=-avoids (add_file d name) _ m e (file name m) (λ _ _.
        if_rule (λ (f : Pass W Unit). (f m').0 ≢ err e) (name == cast_file) _ _
          (λ _.
            >>=-avoids (add_files d segments) _ m' e (add_files-avoids segments m')
              (λ _ _. add_listed-avoids names (add_files d segments m').1))
          (λ _. add_listed-avoids names m'))

  add_visits-avoids :
      (vs : List Visit) (skipped : List Skipped) (m : Shelf W)
      → (add_visits d vs skipped m).0 ≢ err e
  unfolding add_visits
  add_visits-avoids [] skipped m = λ h. cc
  add_visits-avoids (walk_error ∷ vs) skipped m = λ h. walk_apart (cc)
  add_visits-avoids (directory ∷ vs) skipped m = add_visits-avoids vs skipped m
  add_visits-avoids (visited name regular size ∷ vs) skipped m =
      let Q = λ (f : Pass W (List Skipped)). (f m).0 ≢ err e in
      if_rule Q (not regular) _ _ (λ _. add_visits-avoids vs (skipped ++ not_regular name ∷ []) m)
        (λ _.
          if_rule Q (ltb candidate_file_limit size) _ _
            (λ _. add_visits-avoids vs (skipped ++ too_large name size ∷ []) m)
            (λ _.
              >>=-avoids (add_file d name) _ m e (file name m)
                (λ _ _. add_visits-avoids vs skipped (add_file d name m).1)))

  add_walk-avoids : (walk : Option (List Visit)) (m : Shelf W) → (add_walk d walk m).0 ≢ err e
  add_walk-avoids none m = λ h. cc
  add_walk-avoids (some vs) m =
      >>=-avoids (add_visits d vs []) _ m e (add_visits-avoids vs [] m)
        (λ skipped _. noted skipped (add_visits d vs [] m).1)
    where
      noted : (skipped : List Skipped) (m : Shelf W) → (note_skipped d skipped m).0 ≢ err e
      noted [] m = λ h. cc
      noted (s ∷ ss) m = note (skipped_text d (s ∷ ss)) m

  pub fill-avoids : (m : Shelf W) → (fill d m).0 ≢ err e
  unfolding fill add_candidate_work
  fill-avoids m =
      let m' = (add_listed d evidence_files m).1 in
      >>=-avoids (add_listed d evidence_files) _ m e (add_listed-avoids evidence_files m)
        (λ _ _. add_walk-avoids (d.walk m'.world) m')
