-- ===== src/Bundle/Write/Removed.antt =====
-- What a `Write` that fails leaves.
use interviews.Base.{
  ◌≡◌, refl, ap, sym, subst, inl, inr, ◌∙◌, Bool, true, false, Option, none, some, Str, if_rule,
  Result, ok, err,
}
use interviews.Base.Exec.{>>=-failed, ◌>>◌}
use interviews.Bundle.Write.{
  Spec, Problem, Listing, absent, unlisted, vacant, occupied, Host, WriteError, Step, join, spec_of,
  write_bundle, may_use, ensure_empty_dir, or_remove, begun, pack_entries, write_tarball,
  is_archive, via_temp, write_archive, write_directory, write_as, write,
}

-- How a `Write` ends that handed out nothing.
pub data IsWithdrawn {W : Type 0} (h : Host W) (p : Problem) (out : Str) (w w' : W) : Type 0 where
  refused : w' ≡ w → IsWithdrawn h p out w w'
  not_made : w' ≡ (h.make_dirs out w).1 → IsWithdrawn h p out w w'
  no_room : w' ≡ (h.make_temp w).1 → IsWithdrawn h p out w w'
  cleared : h.exists out w' ≡ false → IsWithdrawn h p out w w'
  -- the bundle failed in the temporary directory, the archive could not be created, or was taken away again
  not_begun :
      (tmp : Str) (sp : Spec) (e : WriteError) (w1 w2 : W)
      → h.make_temp w ≡ (some tmp, w1)
      → write_bundle h p (join tmp p.id) sp w1 ≡ (err e, w2)
      → w' ≡ h.remove_all tmp w2
      → IsWithdrawn h p out w w'
  not_created :
      (tmp : Str) (sp : Spec) (w1 w2 : W)
      → h.make_temp w ≡ (some tmp, w1)
      → write_bundle h p (join tmp p.id) sp w1 ≡ (ok tt, w2)
      → (h.create out w2).0 ≡ false
      → w' ≡ h.remove_all tmp ((h.create out w2).1)
      → IsWithdrawn h p out w w'
  taken_away :
      (tmp : Str) (sp : Spec) (w1 w2 w3 : W)
      → h.make_temp w ≡ (some tmp, w1)
      → write_bundle h p (join tmp p.id) sp w1 ≡ (ok tt, w2)
      → (h.create out w2).0 ≡ true
      → h.exists out w3 ≡ false
      → w' ≡ h.remove_all tmp w3
      → IsWithdrawn h p out w w'

module _ {W : Type 0} (h : Host W) (p : Problem) (out : Str)
    (all_gone : (w : W) → h.exists out (h.remove_all out w) ≡ false)
    (gone : (w : W) → h.exists out (h.remove out w) ≡ false) where
  or_remove-fails :
      (undo : W → W) (r : Result WriteError Unit × W) (e : WriteError) (w' : W)
      → ((w : W) → h.exists out (undo w) ≡ false)
      → or_remove h undo r ≡ (err e, w')
      → h.exists out w' ≡ false
  or_remove-fails undo (ok tt, w) e w' g q = cc
  or_remove-fails undo (err x, w) e w' g q =
      subst (λ v. h.exists out v ≡ false) (ap (λ (r : Result WriteError Unit × W). r.1) q) (g w)

  may_use-fails :
      (l : Listing) (e : WriteError) (w w' : W)
      → may_use h out l w ≡ (err e, w')
      → IsWithdrawn h p out w w'
  may_use-fails absent e w w' q = not_made (sym (ap (λ (r : Result WriteError Unit × W). r.1) q))
  may_use-fails unlisted e w w' q = refused (sym (ap (λ (r : Result WriteError Unit × W). r.1) q))
  may_use-fails vacant e w w' q = cc
  may_use-fails occupied e w w' q = refused (sym (ap (λ (r : Result WriteError Unit × W). r.1) q))

  write_directory-fails :
      (sp : Spec) (e : WriteError) (w w' : W)
      → write_directory h p sp out w ≡ (err e, w')
      → IsWithdrawn h p out w w'
  unfolding write_directory ensure_empty_dir
  write_directory-fails sp e w w' q =
      elim (>>=-failed (ensure_empty_dir h out)
        (λ _ w. or_remove h (h.remove_all out) (write_bundle h p out sp w)) w q) [
          | inl a ↦ may_use-fails (h.list_dir out w) e w w' a
          | inr (_, w1, _, a) ↦
              cleared
                (or_remove-fails (h.remove_all out) (write_bundle h p out sp w1) e w' all_gone a)
        ]

  -- the temporary directory goes in any case
  via_temp-fails :
      (sp : Spec) (t : Option Str × W) (e : WriteError) (w w' : W)
      → h.make_temp w ≡ t
      → via_temp h p sp out t ≡ (err e, w')
      → IsWithdrawn h p out w w'
  unfolding via_temp write_tarball
  via_temp-fails sp (none, w0) e w w' m q =
      no_room
        (cc (ap (λ (r : Option Str × W). r.1) m, ap (λ (r : Result WriteError Unit × W). r.1) q))
  via_temp-fails sp (some tmp, w0) e w w' m q =
      let dir = join tmp p.id in
      let run : Step W Unit = write_bundle h p dir sp >> write_tarball h dir p.id out in
      let last : w' ≡ h.remove_all tmp ((run w0).1) =
        sym (ap (λ (r : Result WriteError Unit × W). r.1) q) in
      let ran : run w0 ≡ (err e, (run w0).1) =
        ap (λ (r : Result WriteError Unit). (r, (run w0).1))
          (ap (λ (r : Result WriteError Unit × W). r.0) q) in
      elim (>>=-failed (write_bundle h p dir sp) (λ _. write_tarball h dir p.id out) w0 ran) [
        | inl a ↦ not_begun tmp sp e w0 ((run w0).1) m a last
        | inr (_, w1, wrote, a) ↦ made tmp w0 w1 ((run w0).1) (h.create out w1) m wrote refl a last
      ]
    where
      made :
          (tmp : Str) (w0 w1 w2 : W) (c : Bool × W)
          → h.make_temp w ≡ (some tmp, w0)
          → write_bundle h p (join tmp p.id) sp w0 ≡ (ok tt, w1)
          → h.create out w1 ≡ c
          → begun h (join tmp p.id) p.id out c ≡ (err e, w2)
          → w' ≡ h.remove_all tmp w2
          → IsWithdrawn h p out w w'
      made tmp w0 w1 w2 (false, v) m wrote c a last =
          not_created tmp sp w0 w1 m wrote (ap (λ (r : Bool × W). r.0) c) (
            last
            ∙ ap (h.remove_all tmp)
                (cc (ap (λ (r : Bool × W). r.1) c, ap (λ (r : Result WriteError Unit × W). r.1) a)))
      made tmp w0 w1 w2 (true, v) m wrote c a last =
          taken_away tmp sp w0 w1 w2 m wrote (ap (λ (r : Bool × W). r.0) c)
            (or_remove-fails (h.remove out) (pack_entries h out p.id (h.tree (join tmp p.id) v) v) e
              w2 gone a)
            last

  -- Where removing a path removes it: a `Write` that fails did nothing, or only tried to make the directories of the
  -- output or the temporary directory; or the output is gone at the end; or, for an archive, it made the temporary
  -- directory, wrote the bundle there, and removed that directory last: before it the bundle failed, and the output was
  -- not begun; or it was whole and the output could not be created; or it was created and then taken away again.
  pub write-IsWithdrawn :
      (e : WriteError) (w w' : W) → write h p out w ≡ (err e, w') → IsWithdrawn h p out w w'
  unfolding write write_as write_archive
  write-IsWithdrawn e w w' = go (spec_of p.kind)
    where
      go : (o : Option Spec) → write_as h p out o w ≡ (err e, w') → IsWithdrawn h p out w w'
      go none = λ q. refused (sym (ap (λ (r : Result WriteError Unit × W). r.1) q))
      go (some sp) =
          if_rule (λ (r : Step W Unit). r w ≡ (err e, w') → IsWithdrawn h p out w w')
            (is_archive h out) (write_archive h p sp out) (write_directory h p sp out)
            (λ _.
              if_rule
                (λ (r : Result WriteError Unit × W). r ≡ (err e, w') → IsWithdrawn h p out w w')
                (h.exists out w) _ _
                (λ _ q. refused (sym (ap (λ (r : Result WriteError Unit × W). r.1) q)))
                (λ _. via_temp-fails sp (h.make_temp w) e w w' refl))
            (λ _. write_directory-fails sp e w w')
