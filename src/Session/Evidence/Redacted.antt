-- ===== src/Session/Evidence/Redacted.antt =====
-- No credential leaves the machine in the archive.
use interviews.Base.{
  ◌≡◌, refl, sym, ap, ◌∙◌, subst, Bool, true, false, List, [], ◌∷◌, ◌++◌, All, All-append, Option,
  none, some, Str, codes, ◌==◌, ==_iff, Result, ok, err, if_rule,
}
use interviews.Session.Stack.{Info}
use interviews.Session.Evidence.{
  Read, missing, unreadable, content, Entry, EvidenceError, Workdir, Shelf, Pass, info_file,
  redacted, redacted_info, with_entry, add_bytes, add_redacted, add_read, add_file, fill, finish,
  bundle,
}
use interviews.Session.Evidence.Whole.Filled.{fill-keeps}

-- a session record that opens nothing
pub record HasNoCredentials (info : Info) : Type 0 where
  pub candidate_token : info.candidate_token ≡ []
  pub observer_token : info.observer_token ≡ []
  pub app_token : info.app_token ≡ []
  pub candidate_url : info.candidate_url ≡ []
  pub observer_url : info.observer_url ≡ []
  pub app_url : info.app_url ≡ []

-- an entry that, when it is the session's record, reads as one without credentials
abbrev pub IsClean : {W : Type 0} → Workdir W → Entry → Type 0
IsClean d e =
    (info : Info) → e.name ≡ info_file → d.decode e.bytes ≡ some info → HasNoCredentials info

-- an archive that is there, and clean
abbrev pub IsCleanArchive : {W : Type 0} → Workdir W → Option (List Entry) → Type 0
IsCleanArchive d o = (es : List Entry) × (o ≡ some es) × All (IsClean d) es

some-inj : (a b : Info) → some a ≡ some b → a ≡ b
some-inj a b h = cc

clash : (b : Bool) → b ≡ false → b ≡ true → ⊥
clash b e f = cc

redacted-HasNoCredentials : (info : Info) → HasNoCredentials (redacted info)
unfolding redacted
redacted-HasNoCredentials info = record {
  candidate_token = refl;
  observer_token = refl;
  app_token = refl;
  candidate_url = refl;
  observer_url = refl;
  app_url = refl;
}

module _ {W : Type 0} (d : Workdir W)
    (decodes : (info : Info) (bytes : Str)
      → d.encode info ≡ some bytes
      → d.decode bytes ≡ some info) where
  redacted_info-clean :
      (raw bytes : Str) (info : Info)
      → redacted_info d raw ≡ some bytes
      → d.decode bytes ≡ some info
      → HasNoCredentials info
  unfolding redacted_info
  redacted_info-clean raw bytes info = go (d.decode raw)
    where
      go :
          (o : Option Info)
          → (elim o [ none ↦ none | some i ↦ d.encode (redacted i) ]) ≡ some bytes
          → d.decode bytes ≡ some info
          → HasNoCredentials info
      go none h k = cc
      go (some i) h k =
          subst HasNoCredentials
            (some-inj (redacted i) info (sym (decodes (redacted i) bytes h) ∙ k))
            (redacted-HasNoCredentials i)

  add_bytes-clean :
      (name bytes : Str) (m : Shelf W)
      → IsClean d (record { name = name; bytes = bytes })
      → IsCleanArchive d m.draft
      → IsCleanArchive d (add_bytes d name bytes m).1.draft
  unfolding add_bytes
  add_bytes-clean name bytes m c (es, e, k) =
      let one : Entry = record { name = name; bytes = bytes } in
      if_rule (λ (r : Result EvidenceError Unit × Shelf W). IsCleanArchive d r.1.draft)
        ((d.append m.world).0) _ _
        (λ _.
          (es ++ one ∷ [], ap (with_entry d one) e, All-append (IsClean d) es (one ∷ []) k (c, tt)))
        (λ _. (es, e, k))

  add_file-clean :
      (name : Str) (m : Shelf W)
      → IsCleanArchive d m.draft
      → IsCleanArchive d (add_file d name m).1.draft
  unfolding add_file
  add_file-clean name m k = go (d.read name m.world)
    where
      encoded :
          (raw : Str) (o : Option Str)
          → redacted_info d raw ≡ o
          → IsCleanArchive d (add_redacted d name o m).1.draft
      encoded raw none h = k
      encoded raw (some bytes) h =
          add_bytes-clean name bytes m (λ info _ q. redacted_info-clean raw bytes info h q) k

      apart :
          (bytes : Str)
          → (name == info_file) ≡ false
          → IsClean d (record { name = name; bytes = bytes })
      apart bytes e info q = absurd (clash (name == info_file) e ((==_iff name info_file).1 q))

      go : (r : Read) → IsCleanArchive d (add_read d name r m).1.draft
      go missing = k
      go unreadable = k
      go (content bytes) =
          if_rule (λ (f : Pass W Unit). IsCleanArchive d (f m).1.draft) (name == info_file) _ _
            (λ e. encoded bytes (redacted_info d bytes) refl)
            (λ e. add_bytes-clean name bytes m (apart bytes e) k)

  skipped_apart : (text : Str) → IsClean d (record { name = codes "skipped.txt"; bytes = text })
  unfolding ◌==◌
  skipped_apart text info e =
      absurd (
        clash (codes "skipped.txt" == info_file) refl
          ((==_iff (codes "skipped.txt") info_file).1 e))

  fill-clean : (m : Shelf W) → IsCleanArchive d m.draft → IsCleanArchive d (fill d m).1.draft
  fill-clean =
      fill-keeps d (λ m. IsCleanArchive d m.draft) add_file-clean
        (λ text m k. add_bytes-clean (codes "skipped.txt") text m (skipped_apart text) k)

  finish-clean :
      (r : Result EvidenceError Unit) (m : Shelf W)
      → IsCleanArchive d m.draft
      → (finish d r m).0 ≡ ok tt
      → IsCleanArchive d (finish d r m).1.archive
  finish-clean (err e) m k = λ h. cc
  finish-clean (ok u) m k =
      let P =
        λ (r : Result EvidenceError Unit × Shelf W). r.0 ≡ ok tt → IsCleanArchive d r.1.archive in
      let (good, w) = d.close m.world in
      let (swapped, w') = d.rename w in
      if_rule P good _ _ (λ _. if_rule P swapped _ _ (λ _ h. k) (λ _ h. cc)) (λ _ h. cc)

  -- When `bundle` returns, the archive is there, and whoever reads the session's record in it finds no token and no
  -- URL. Decoding gives back what was encoded.
  pub bundle-IsCleanArchive :
      (m : Shelf W) → (bundle d m).0 ≡ ok tt → IsCleanArchive d (bundle d m).1.archive
  unfolding bundle
  bundle-IsCleanArchive m =
      let (good, w) = d.create m.world in
      let m' : Shelf W = record m { world = w; draft = some [] } in
      if_rule
        (λ (r : Result EvidenceError Unit × Shelf W). r.0 ≡ ok tt → IsCleanArchive d r.1.archive)
        good _ _ (λ _. finish-clean ((fill d m').0) ((fill d m').1) (fill-clean m' ([], refl, tt)))
        (λ _ h. cc)
