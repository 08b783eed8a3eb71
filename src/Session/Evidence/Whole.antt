-- ===== src/Session/Evidence/Whole.antt =====
-- The archive is whole or the one before.
pub mod Filled
use interviews.Base.{
  ◌≡◌, refl, sym, ap, ◌∙◌, subst, ◌≢◌, inl, inr, Bool, true, false, not, ◌&&◌, List, [], ◌∷◌, ◌++◌,
  Option, none, some, Str, codes, ◌==◌, ltb, Result, ok, err, if◌then◌else◌, if_rule,
}
use interviews.Base.Exec.{
  resume, ◌>>=◌, ◌>>◌, raise, pure, >>=-returns, >>=-raises, >>=-keeps, >>=-avoids,
}
use interviews.Session.Evidence.{
  Read, missing, unreadable, content, Visit, Skipped, not_regular, too_large, walk_error, directory,
  visited, Entry, EvidenceError, not_created, not_refreshed, Workdir, Shelf, Pass, info_file,
  cast_file, evidence_files, candidate_file_limit, redacted_info, add_bytes, add_redacted, add_read,
  add_file, cast_segments, add_files, add_listed, add_visits, skipped_text, note_skipped, add_walk,
  add_candidate_work, fill, discard, swap_in, finish, bundle, note_failure, refresh_failed,
  uploaded, evidence,
}
use interviews.Session.Evidence.Whole.Filled.{fill-keeps, fill-avoids}

module _ {W : Type 0} (d : Workdir W) where
  add_bytes-archive :
      (name bytes : Str) (m : Shelf W) → (add_bytes d name bytes m).1.archive ≡ m.archive
  unfolding add_bytes
  add_bytes-archive name bytes m =
      if_rule (λ (r : Result EvidenceError Unit × Shelf W). r.1.archive ≡ m.archive)
        ((d.append m.world).0) _ _ (λ e. refl) (λ e. refl)

  add_file-archive : (name : Str) (m : Shelf W) → (add_file d name m).1.archive ≡ m.archive
  unfolding add_file
  add_file-archive name m = go (d.read name m.world)
    where
      redacted : (o : Option Str) → (add_redacted d name o m).1.archive ≡ m.archive
      redacted none = refl
      redacted (some bytes) = add_bytes-archive name bytes m

      go : (r : Read) → (add_read d name r m).1.archive ≡ m.archive
      go missing = refl
      go unreadable = refl
      go (content bytes) =
          if_rule (λ (f : Pass W Unit). (f m).1.archive ≡ m.archive) (name == info_file) _ _
            (λ e. redacted (redacted_info d bytes)) (λ e. add_bytes-archive name bytes m)

  fill-archive : (m : Shelf W) → (fill d m).1.archive ≡ m.archive
  fill-archive m =
      fill-keeps d (λ m'. m'.archive ≡ m.archive) (λ name m' k. add_file-archive name m' ∙ k)
        (λ text m' k. add_bytes-archive (codes "skipped.txt") text m' ∙ k) m refl

  swap_in-fails :
      (m : Shelf W) (e : EvidenceError)
      → (swap_in d m).0 ≡ err e
      → (swap_in d m).1.archive ≡ m.archive
  swap_in-fails m e =
      if_rule (λ (r : Result EvidenceError Unit × Shelf W). r.0 ≡ err e → r.1.archive ≡ m.archive)
        ((d.rename m.world).0) _ _ (λ _ h. cc) (λ _ h. refl)

  finish-fails :
      (r : Result EvidenceError Unit) (m : Shelf W) (e : EvidenceError)
      → (finish d r m).0 ≡ err e
      → (finish d r m).1.archive ≡ m.archive
  finish-fails (err f) m e = λ h. refl
  finish-fails (ok u) m e =
      let (good, w) = d.close m.world in
      if_rule (λ (r : Result EvidenceError Unit × Shelf W). r.0 ≡ err e → r.1.archive ≡ m.archive)
        good _ _ (λ _. swap_in-fails (record m { world = w }) e) (λ _ h. refl)

  -- A pass of `bundle` that fails, wherever it does, leaves the archive that was there before.
  pub bundle-fails :
      (m : Shelf W) (e : EvidenceError)
      → (bundle d m).0 ≡ err e
      → (bundle d m).1.archive ≡ m.archive
  unfolding bundle
  bundle-fails m e =
      let (good, w) = d.create m.world in
      let m' : Shelf W = record m { world = w; draft = some [] } in
      if_rule (λ (r : Result EvidenceError Unit × Shelf W). r.0 ≡ err e → r.1.archive ≡ m.archive)
        good _ _ (λ _ h. finish-fails ((fill d m').0) ((fill d m').1) e h ∙ fill-archive m')
        (λ _ h. refl)

  -- Nothing but the refresh of the score fails with its error.
  add_bytes-avoids :
      (name bytes : Str) (m : Shelf W) → (add_bytes d name bytes m).0 ≢ err not_refreshed
  unfolding add_bytes
  add_bytes-avoids name bytes m =
      if_rule (λ (r : Result EvidenceError Unit × Shelf W). r.0 ≢ err not_refreshed)
        ((d.append m.world).0) _ _ (λ e h. cc) (λ e h. cc)

  add_file-avoids : (name : Str) (m : Shelf W) → (add_file d name m).0 ≢ err not_refreshed
  unfolding add_file
  add_file-avoids name m = go (d.read name m.world)
    where
      redacted : (o : Option Str) → (add_redacted d name o m).0 ≢ err not_refreshed
      redacted none = λ h. cc
      redacted (some bytes) = add_bytes-avoids name bytes m

      go : (r : Read) → (add_read d name r m).0 ≢ err not_refreshed
      go missing = λ h. cc
      go unreadable = λ h. cc
      go (content bytes) =
          if_rule (λ (f : Pass W Unit). (f m).0 ≢ err not_refreshed) (name == info_file) _ _
            (λ e. redacted (redacted_info d bytes)) (λ e. add_bytes-avoids name bytes m)

  bundle-avoids : (m : Shelf W) → (bundle d m).0 ≢ err not_refreshed
  unfolding bundle
  bundle-avoids m =
      let P = λ (r : Result EvidenceError Unit × Shelf W). r.0 ≢ err not_refreshed in
      let (good, w) = d.create m.world in
      let m' : Shelf W = record m { world = w; draft = some [] } in
      if_rule P good _ _
        (λ _. finished ((fill d m').0) ((fill d m').1) (
          fill-avoids d not_refreshed (λ h. cc) add_file-avoids
            (add_bytes-avoids (codes "skipped.txt")) m'))
        (λ _ h. cc)
    where
      finished :
          (r : Result EvidenceError Unit) (m : Shelf W)
          → r ≢ err not_refreshed
          → (finish d r m).0 ≢ err not_refreshed
      finished (err e) m k = k
      finished (ok u) m k =
          let P = λ (r : Result EvidenceError Unit × Shelf W). r.0 ≢ err not_refreshed in
          let (good, w) = d.close m.world in
          let (swapped, w') = d.rename w in
          if_rule P good _ _ (λ _. if_rule P swapped _ _ (λ _ h. cc) (λ _ h. cc)) (λ _ h. cc)

  refresh_failed-avoids : (m : Shelf W) → (refresh_failed d m).0 ≢ err not_refreshed
  unfolding refresh_failed
  refresh_failed-avoids m =
      let P = λ (r : Result EvidenceError Bool × Shelf W). r.0 ≢ err not_refreshed in
      let (good, w) = d.refresh m.world in
      let (noted, w') = d.note_error w in
      if_rule P (not (d.has_faults m.world)) _ _ (λ _ h. cc)
        (λ _. if_rule P good _ _ (λ _ h. cc) (λ _. if_rule P noted _ _ (λ _ h. cc) (λ _ h. cc)))

  uploaded-avoids : (s3 : Str) (m : Shelf W) → (uploaded d s3 m).0 ≢ err not_refreshed
  uploaded-avoids s3 m =
      let P = λ (r : Result EvidenceError Unit × Shelf W). r.0 ≢ err not_refreshed in
      if_rule P (s3 == []) _ _ (λ _ h. cc)
        (λ _. if_rule P ((d.upload s3 m.world).0) _ _ (λ _ h. cc) (λ _ h. cc))

  uploaded-archive : (s3 : Str) (m : Shelf W) → (uploaded d s3 m).1.archive ≡ m.archive
  uploaded-archive s3 m =
      let P = λ (r : Result EvidenceError Unit × Shelf W). r.1.archive ≡ m.archive in
      if_rule P (s3 == []) _ _ (λ _. refl)
        (λ _. if_rule P ((d.upload s3 m.world).0) _ _ (λ _. refl) (λ _. refl))

  -- A pass that fails over the refresh of the score is not the final one, and it has put a new archive in place
  -- all the same: the one of a `bundle` that returned.
  pub evidence-ships :
      (final : Bool) (s3 : Str) (m : Shelf W)
      → (evidence d final s3 m).0 ≡ err not_refreshed
      → (final ≡ false)
        × ((s : Shelf W) × ((bundle d s).0 ≡ ok tt)
            × ((evidence d final s3 m).1.archive ≡ (bundle d s).1.archive))
  unfolding evidence
  evidence-ships final s3 m h = elim (>>=-raises (refresh_failed d) _ m h) [
    | inl raised ↦ absurd (refresh_failed-avoids m raised)
    | inr (failed, _, raised, e) ↦
        let m1 = (refresh_failed d m).1 in
        elim (>>=-raises (bundle d) _ m1 raised) [
          | inl q ↦ absurd (bundle-avoids m1 q)
          | inr (u, bundled, raised, e1) ↦
              let m2 = (bundle d m1).1 in
              elim (>>=-raises (uploaded d s3) _ m2 raised) [
                | inl q ↦ absurd (uploaded-avoids s3 m2 q)
                | inr (v, _, raised, e2) ↦
                    let m3 = (uploaded d s3 m2).1 in
                    let (kept, is_last) = last failed final m3 raised in
                    (
                      is_last,
                      (
                        m1,
                        bundled,
                        ap (λ (r : Result EvidenceError Unit × Shelf W). r.1.archive) (e ∙ e1 ∙ e2)
                            ∙ ap (λ (s : Shelf W). s.archive) kept
                            ∙ uploaded-archive s3 m2,
                      ),
                    )
              ]
        ]
  ]
    where
      last :
          (failed final : Bool) (s : Shelf W)
          → ((if failed && not final then raise {A = Unit {0}} not_refreshed else pure tt) s).0
            ≡ err not_refreshed
          → (((if failed && not final then raise {A = Unit {0}} not_refreshed else pure tt) s).1
              ≡ s)
            × (final ≡ false)
      last true true s h = cc
      last true false s h = (refl, refl)
      last false b s h = cc
