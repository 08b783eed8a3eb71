-- ===== src/Bundle/Write/Handed.antt =====
-- What `Write` hands out has passed the gate as it stands.
use interviews.Base.{
  ◌≡◌, refl, ap, sym, subst, List, Memᴰ, Option, none, some, Str, if_rule, Result, ok, err,
}
use interviews.Base.Exec.{>>=-ran, ◌>>◌}
use interviews.Leak.Classifier.{Classifier}
use interviews.Leak.Scan.{File, file}
use interviews.Bundle.Gate.{Written, GateError, check_gate}
use interviews.Bundle.Gate.Passed.{IsPassed, check_gate_passes}
use interviews.Bundle.Write.{
  Spec, Problem, Host, WriteError, Step, join, spec_of, write_files, write_about, init_repo, gated,
  gate, write_bundle, ensure_empty_dir, or_remove, write_tarball, is_archive, via_temp,
  write_archive, write_directory, write_as, write,
}

-- Every file of a tree is candidate-visible or an addition of the bundle's own, and holds no marker.
abbrev pub IsClean : Classifier → List Written → Type 0
IsClean c ws =
    (f : File) (content : Option Str)
    → Memᴰ (record { entry = file f; content = content }) ws
    → IsPassed c f content

-- A drop: a directory that is clean as it stands, or an archive of a directory that was clean when the archive was
-- written from it.
pub data IsHanded {W : Type 0} (h : Host W) (p : Problem) (out : Str) (w' : W) : Type 0 where
  in_place : IsClean p.classifier (h.tree out w') → IsHanded h p out w'
  packed :
      (tmp : Str) (w1 w2 : W)
      → IsClean p.classifier (h.tree (join tmp p.id) w1)
      → write_tarball h (join tmp p.id) p.id out w1 ≡ (ok tt, w2)
      → w' ≡ h.remove_all tmp w2
      → IsHanded h p out w'

module _ {W : Type 0} (h : Host W) (p : Problem) where
  gate-IsClean :
      (dir : Str) (w w' : W) → gate h p dir w ≡ (ok tt, w') → IsClean p.classifier (h.tree dir w')
  unfolding gate
  gate-IsClean dir w w' e = go (check_gate p.classifier (h.tree dir w)) refl e
    where
      go :
          (r : Result GateError Unit)
          → check_gate p.classifier (h.tree dir w) ≡ r
          → gated h r w ≡ (ok tt, w')
          → IsClean p.classifier (h.tree dir w')
      go (ok tt) q e =
          subst (λ v. IsClean p.classifier (h.tree dir v))
            (ap (λ (r : Result WriteError Unit × W). r.1) e)
            (λ f content m. check_gate_passes p.classifier (h.tree dir w) f content q m)
      go (err x) q e = cc

  -- The gate is the last step of `writeBundle`.
  write_bundle-IsClean :
      (dir : Str) (sp : Spec) (w w' : W)
      → write_bundle h p dir sp w ≡ (ok tt, w')
      → IsClean p.classifier (h.tree dir w')
  unfolding write_bundle
  write_bundle-IsClean dir sp w w' e =
      let (a, w1, _, e1) =
        >>=-ran (write_files h p dir p.candidate)
          (λ _. write_about h p dir sp >> (init_repo h sp.git_init dir >> gate h p dir)) w e in
      let (b, w2, _, e2) =
        >>=-ran (write_about h p dir sp) (λ _. init_repo h sp.git_init dir >> gate h p dir) w1 e1 in
      let (c, w3, _, e3) = >>=-ran (init_repo h sp.git_init dir) (λ _. gate h p dir) w2 e2 in
      gate-IsClean dir w3 w' e3

  or_remove-ok :
      (undo : W → W) (r : Result WriteError Unit × W) (w' : W)
      → or_remove h undo r ≡ (ok tt, w')
      → r ≡ (ok tt, w')
  or_remove-ok undo (ok tt, w) w' e = e
  or_remove-ok undo (err x, w) w' e = cc

  via_temp-IsHanded :
      (sp : Spec) (out : Str) (t : Option Str × W) (w' : W)
      → via_temp h p sp out t ≡ (ok tt, w')
      → IsHanded h p out w'
  unfolding via_temp
  via_temp-IsHanded sp out (none, w) w' e = cc
  via_temp-IsHanded sp out (some tmp, w) w' e =
      let dir = join tmp p.id in
      let run : Step W Unit = write_bundle h p dir sp >> write_tarball h dir p.id out in
      let ran : run w ≡ (ok tt, (run w).1) =
        ap (λ (r : Result WriteError Unit). (r, (run w).1))
          (ap (λ (r : Result WriteError Unit × W). r.0) e) in
      let (tt, w1, e1, e2) =
        >>=-ran (write_bundle h p dir sp) (λ _. write_tarball h dir p.id out) w ran in
      packed tmp w1 ((run w).1) (write_bundle-IsClean dir sp w w1 e1) e2
        (sym (ap (λ (r : Result WriteError Unit × W). r.1) e))

  write_directory-IsHanded :
      (sp : Spec) (out : Str) (w w' : W)
      → write_directory h p sp out w ≡ (ok tt, w')
      → IsHanded h p out w'
  unfolding write_directory
  write_directory-IsHanded sp out w w' e =
      let (a, w1, _, e1) =
        >>=-ran (ensure_empty_dir h out)
          (λ _ w. or_remove h (h.remove_all out) (write_bundle h p out sp w)) w e in
      in_place (
        write_bundle-IsClean out sp w1 w'
          (or_remove-ok (h.remove_all out) (write_bundle h p out sp w1) w' e1))

  -- A drop that `Write` says it wrote is a directory that is clean as it stands, or an archive written from a directory
  -- that was clean then: each file in it is candidate-visible, the front page, or under `.git/`; and outside of
  -- `.git/` none holds a forbidden marker.
  pub write-IsHanded : (out : Str) (w w' : W) → write h p out w ≡ (ok tt, w') → IsHanded h p out w'
  unfolding write write_as write_archive
  write-IsHanded out w w' = go (spec_of p.kind)
    where
      go : (o : Option Spec) → write_as h p out o w ≡ (ok tt, w') → IsHanded h p out w'
      go none = λ e. cc
      go (some sp) =
          if_rule (λ (r : Step W Unit). r w ≡ (ok tt, w') → IsHanded h p out w') (is_archive h out)
            (write_archive h p sp out) (write_directory h p sp out)
            (λ _.
              if_rule (λ (r : Result WriteError Unit × W). r ≡ (ok tt, w') → IsHanded h p out w')
                (h.exists out w) _ _ (λ _ e. cc) (λ _. via_temp-IsHanded sp out (h.make_temp w) w'))
            (λ _. write_directory-IsHanded sp out w w')
