-- ===== src/Variant/Lint/Linted.antt =====
-- What `CheckTemplates` asks of the candidate's files.
use interviews.Base.{
  ◌≡◌, refl, ◌↔◌, inl, inr, true, not, List, [], ◌∷◌, Memᴰ, All, note_if, append-silent,
  note_if-silent_not, Option, none, some, Str, elem, Bool-cases, if◌then◌else◌,
}
use interviews.Variant.Lint.{
  Node, undeclared, Texts, check_refs, check_parsed, check_text, check_templates, is_templated,
  field_refs,
}
use interviews.Variant.Lint.Refs.{ReadsAny, field_refs_iff}

-- A file that can be read and parsed, whose templates read declared names only.
pub record IsLinted (t : Texts) (declared : List Str) (name : Str) : Type 0 where
  pub raw : Str
  pub trees : List Node
  pub readable : t.read name ≡ some raw
  pub parses : t.parse name raw ≡ some trees
  pub known : (x : Str) → ReadsAny trees x → elem x declared ≡ true

module _ (t : Texts) (declared : List Str) where
  check_refs-silent :
      (name : Str) (rs : List Str)
      → check_refs declared name rs ≡ []
      → (x : Str) → Memᴰ x rs
      → elem x declared ≡ true
  unfolding check_refs
  check_refs-silent name [] h x m = elim m [ ]
  check_refs-silent name (r ∷ rs) h x (Memᴰ.head e) =
      let (a, _) =
        append-silent (note_if (not (elem r declared)) (undeclared name r))
          (check_refs declared name rs) h in
      rw e (note_if-silent_not (elem r declared) (undeclared name r) a)
  check_refs-silent name (r ∷ rs) h x (Memᴰ.tail m) =
      let (_, b) =
        append-silent (note_if (not (elem r declared)) (undeclared name r))
          (check_refs declared name rs) h in
      check_refs-silent name rs b x m

  silent-check_refs :
      (name : Str) (rs : List Str)
      → ((x : Str) → Memᴰ x rs → elem x declared ≡ true)
      → check_refs declared name rs ≡ []
  unfolding check_refs
  silent-check_refs name [] k = refl
  silent-check_refs name (r ∷ rs) k =
      rw (k r (Memᴰ.head refl)) (silent-check_refs name rs (λ x m. k x (Memᴰ.tail m)))

  parsed-IsLinted :
      (name raw : Str) (o : Option (List Node))
      → t.read name ≡ some raw
      → t.parse name raw ≡ o
      → check_parsed declared name o ≡ []
      → IsLinted t declared name
  parsed-IsLinted name raw none r p h = cc
  parsed-IsLinted name raw (some ts) r p h = record {
    raw = raw;
    trees = ts;
    readable = r;
    parses = p;
    known = λ x k. check_refs-silent name (field_refs ts) h x ((field_refs_iff ts x).1 k);
  }

  text-IsLinted :
      (name : Str) (o : Option Str)
      → t.read name ≡ o
      → check_text t declared name o ≡ []
      → IsLinted t declared name
  text-IsLinted name none r h = cc
  text-IsLinted name (some raw) r h = parsed-IsLinted name raw (t.parse name raw) r refl h

  IsLinted-silent :
      (name : Str) → IsLinted t declared name → check_text t declared name (t.read name) ≡ []
  IsLinted-silent name l = rw (l.readable) (
      rw (l.parses) (
        silent-check_refs name (field_refs l.trees)
          (λ x m. l.known x ((field_refs_iff l.trees x).0 m))))

  check_templates-IsLinted :
      (names : List Str)
      → check_templates t declared names ≡ []
      → All (λ name. is_templated name ≡ true → IsLinted t declared name) names
  unfolding check_templates
  check_templates-IsLinted [] h = tt
  check_templates-IsLinted (name ∷ names) h =
      let (a, b) =
        append-silent (if is_templated name then check_text t declared name (t.read name) else [])
          (check_templates t declared names) h in
      ((λ e. text-IsLinted name (t.read name) refl (rw e at a)), check_templates-IsLinted names b)

  IsLinted-check_templates :
      (names : List Str)
      → All (λ name. is_templated name ≡ true → IsLinted t declared name) names
      → check_templates t declared names ≡ []
  unfolding check_templates
  IsLinted-check_templates [] k = refl
  IsLinted-check_templates (name ∷ names) k = elim (Bool-cases (is_templated name)) [
    | inl e ↦ rw (e, IsLinted-silent name (k.0 e)) (IsLinted-check_templates names k.1)
    | inr e ↦ rw e (IsLinted-check_templates names k.1)
  ]

  -- `CheckTemplates` has nothing to say exactly when each candidate file that renders as a template can be read and
  -- parsed, and every field in it, at any depth, begins with a declared parameter.
  pub check_templates_iff :
      (names : List Str)
      → (check_templates t declared names ≡ [])
        ↔ All (λ name. is_templated name ≡ true → IsLinted t declared name) names
  check_templates_iff names = (check_templates-IsLinted names, IsLinted-check_templates names)
