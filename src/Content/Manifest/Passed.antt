-- ===== src/Content/Manifest/Passed.antt =====
-- What a manifest without issues declares.
use interviews.Base.{
  note_if, append-silent, note_if-silent, note_if-silent_not, ◌≡◌, refl, sym, subst, inl, inr, ◌≢◌,
  Bool, true, false, not, List, [], ◌∷◌, ◌++◌, Str, codes, ◌==◌, ==→eq, ==_refl, ◌=?◌, =?_iff, elem,
  All, Bool-cases, arith,
}
use interviews.Content.Params.{ParamSpec, ParamIssue, validate_param}
use interviews.Content.Taxonomy.{
  debugging, take_home, valid_type, valid_flavor, valid_class, valid_discipline, valid_level,
  valid_id,
}
use interviews.Content.Manifest.Timed.{IsTimed, time_issues-nil}
use interviews.Content.Manifest.{
  Manifest, Issue, supported_schema, each_value, validate_set, id_issues, type_issues, word_issues,
  time_issues, tagged, param_issues, unknown_value, listed_twice, other_id, other_type,
  validate_manifest, bad_schema, no_title, no_summary, no_flavor, bad_flavor, only_debugging_flavor,
  no_class, bad_class, only_take_home_class,
}

-- No value stands twice.
abbrev pub IsDistinct : List Str → Type 0
IsDistinct [] = Unit
IsDistinct (v ∷ vs) = All (λ w. v ≢ w) vs × IsDistinct vs

-- A set of known values, at least one of them.
pub record IsSetOf (valid : Str → Bool) (l : List Str) : Type 0 where
  pub given : l ≢ []
  pub known : All (λ v. valid v ≡ true) l
  pub distinct : IsDistinct l

-- A word that a problem has exactly where it is wanted.
pub data IsWord (wanted : Bool) (valid : Str → Bool) (word : Str) : Type 0 where
  there : wanted ≡ true → word ≢ [] → valid word ≡ true → IsWord wanted valid word
  absent : wanted ≡ false → word ≡ [] → IsWord wanted valid word

pub record IsSound (m : Manifest) (want dir_name : Str) : Type 0 where
  pub schema : m.schema ≡ supported_schema
  pub kebab : valid_id m.id ≡ true
  pub own_dir : m.id ≡ dir_name
  pub known_type : valid_type m.kind ≡ true
  pub own_type : m.kind ≡ want
  pub titled : m.title ≢ []
  pub summarised : m.summary ≢ []
  pub disciplines : IsSetOf valid_discipline m.disciplines
  pub levels : IsSetOf valid_level m.levels
  pub flavored : IsWord (m.kind == debugging) valid_flavor m.flavor
  pub classed : IsWord (m.kind == take_home) valid_class m.class
  pub timed : IsTimed m.kind m.time
  pub params : All (λ ((name, p) : Str × ParamSpec). validate_param name p ≡ []) m.params

pub ==-nil : (s : Str) → (s == []) ≡ false → s ≢ []
==-nil s h e = ground (arith, h, subst (λ t. (s == t) ≡ true) e (==_refl s))

pub elem-cons :
    (w v : Str) (seen : List Str) → elem w (v ∷ seen) ≡ false → (v ≢ w) × (elem w seen ≡ false)
elem-cons w v seen h = elim (Bool-cases (w == v)) [
  | inl e ↦ ground (arith, e)
  | inr e ↦ (
    (λ q. ground (arith, e, subst (λ t. (w == t) ≡ true) (sym q) (==_refl w))),
    ground (arith, e),
  )
]

All-weaken : {P Q : Str → Type 0} → ((v : Str) → P v → Q v) → (l : List Str) → All P l → All Q l
All-weaken f [] h = tt
All-weaken f (v ∷ vs) h = (f v h.0, All-weaken f vs h.1)

each_value-nil :
    (valid : Str → Bool) (seen l : List Str)
    → each_value valid seen l ≡ []
    → All (λ v. valid v ≡ true) l × All (λ v. elem v seen ≡ false) l × IsDistinct l
unfolding each_value
each_value-nil valid seen [] h = (tt, tt, tt)
each_value-nil valid seen (v ∷ vs) h =
    let (a, h1) =
      append-silent (note_if (not (valid v)) (unknown_value v))
        (note_if (elem v seen) (listed_twice v) ++ each_value valid (v ∷ seen) vs) h in
    let (b, h2) =
      append-silent (note_if (elem v seen) (listed_twice v)) (each_value valid (v ∷ seen) vs) h1 in
    let (known, fresh, distinct) = each_value-nil valid (v ∷ seen) vs h2 in
    (
      (note_if-silent_not (valid v) (unknown_value v) a, known),
      (
        note_if-silent (elem v seen) (listed_twice v) b,
        All-weaken (λ w h. (elem-cons w v seen h).1) vs fresh,
      ),
      (All-weaken (λ w h. (elem-cons w v seen h).0) vs fresh, distinct),
    )

validate_set-nil :
    (field : Str) (valid : Str → Bool) (l : List Str)
    → validate_set field valid l ≡ []
    → IsSetOf valid l
unfolding validate_set
validate_set-nil field valid [] h = cc
validate_set-nil field valid (v ∷ vs) h =
    let (known, _, distinct) = each_value-nil valid [] (v ∷ vs) h in
    record { given = λ e. cc; known = known; distinct = distinct }

word_issues-nil :
    (wanted : Bool) (valid : Str → Bool) (word : Str) (missing bad extra : Issue)
    → word_issues wanted valid word missing bad extra ≡ []
    → IsWord wanted valid word
word_issues-nil true valid word missing bad extra = elim (Bool-cases (word == [])) [
  | inl e ↦ rw e (λ h. cc)
  | inr e ↦ rw e (λ h. there refl (==-nil word e) (note_if-silent_not (valid word) bad h))
]
word_issues-nil false valid word missing bad extra =
    λ h. absent refl (==→eq word [] (note_if-silent_not (word == []) extra h))

tagged-nil : (name : Str) (l : List ParamIssue) → tagged name l ≡ [] → l ≡ []
tagged-nil name [] h = refl
tagged-nil name (i ∷ issues) h = cc

param_issues-nil :
    (params : List (Str × ParamSpec))
    → param_issues params ≡ []
    → All (λ ((name, p) : Str × ParamSpec). validate_param name p ≡ []) params
param_issues-nil [] h = tt
param_issues-nil ((name, p) ∷ params) h =
    let (a, rest) = append-silent (tagged name (validate_param name p)) (param_issues params) h in
    (tagged-nil name (validate_param name p) a, param_issues-nil params rest)

id_issues-nil :
    (id dir_name : Str) → id_issues id dir_name ≡ [] → (valid_id id ≡ true) × (id ≡ dir_name)
id_issues-nil id dir_name = elim (Bool-cases (valid_id id)) [
  | inl e ↦ rw e (λ h. (refl, ==→eq id dir_name (note_if-silent_not (id == dir_name) other_id h)))
  | inr e ↦ rw e (λ h. cc)
]

type_issues-nil :
    (kind want : Str) → type_issues kind want ≡ [] → (valid_type kind ≡ true) × (kind ≡ want)
type_issues-nil kind want = elim (Bool-cases (valid_type kind)) [
  | inl e ↦ rw e (λ h. (refl, ==→eq kind want (note_if-silent_not (kind == want) other_type h)))
  | inr e ↦ rw e (λ h. cc)
]

-- A manifest without issues has the supported schema, its directory's kebab-case id and its tree's type, a title
-- and a summary, known disciplines and levels without repeats and at least one of each, a flavor exactly where
-- it is a debugging problem and a class exactly where it is a take-home, one of the two times (minutes above zero, or hours above
-- zero or NaN), and only parameters without issues.
pub validate_manifest_passes :
    (m : Manifest) (want dir_name : Str)
    → validate_manifest m want dir_name ≡ []
    → IsSound m want dir_name
unfolding validate_manifest
validate_manifest_passes m want dir_name h =
    let i11 = param_issues m.params in
    let i10 = time_issues m.kind m.time in
    let i9 =
      word_issues (m.kind == take_home) valid_class m.class no_class bad_class
        only_take_home_class in
    let i8 =
      word_issues (m.kind == debugging) valid_flavor m.flavor no_flavor bad_flavor
        only_debugging_flavor in
    let i7 = validate_set (codes "levels") valid_level m.levels in
    let i6 = validate_set (codes "disciplines") valid_discipline m.disciplines in
    let i5 = note_if (m.summary == []) no_summary in
    let i4 = note_if (m.title == []) no_title in
    let i3 = type_issues m.kind want in
    let i2 = id_issues m.id dir_name in
    let i1 = note_if (not (m.schema =? supported_schema)) bad_schema in
    let (h1, r1) =
      append-silent i1 (i2 ++ (i3 ++ (i4 ++ (i5 ++ (i6 ++ (i7 ++ (i8 ++ (i9 ++ (i10 ++ i11)))))))))
        h in
    let (h2, r2) =
      append-silent i2 (i3 ++ (i4 ++ (i5 ++ (i6 ++ (i7 ++ (i8 ++ (i9 ++ (i10 ++ i11)))))))) r1 in
    let (h3, r3) =
      append-silent i3 (i4 ++ (i5 ++ (i6 ++ (i7 ++ (i8 ++ (i9 ++ (i10 ++ i11))))))) r2 in
    let (h4, r4) = append-silent i4 (i5 ++ (i6 ++ (i7 ++ (i8 ++ (i9 ++ (i10 ++ i11)))))) r3 in
    let (h5, r5) = append-silent i5 (i6 ++ (i7 ++ (i8 ++ (i9 ++ (i10 ++ i11))))) r4 in
    let (h6, r6) = append-silent i6 (i7 ++ (i8 ++ (i9 ++ (i10 ++ i11)))) r5 in
    let (h7, r7) = append-silent i7 (i8 ++ (i9 ++ (i10 ++ i11))) r6 in
    let (h8, r8) = append-silent i8 (i9 ++ (i10 ++ i11)) r7 in
    let (h9, r9) = append-silent i9 (i10 ++ i11) r8 in
    let (h10, h11) = append-silent i10 i11 r9 in
    let (kebab, own_dir) = id_issues-nil m.id dir_name h2 in
    let (known, own) = type_issues-nil m.kind want h3 in
    record {
      schema =
          (=?_iff m.schema supported_schema).0
            (note_if-silent_not (m.schema =? supported_schema) bad_schema h1);
      kebab = kebab;
      own_dir = own_dir;
      known_type = known;
      own_type = own;
      titled = ==-nil m.title (note_if-silent (m.title == []) no_title h4);
      summarised = ==-nil m.summary (note_if-silent (m.summary == []) no_summary h5);
      disciplines = validate_set-nil (codes "disciplines") valid_discipline m.disciplines h6;
      levels = validate_set-nil (codes "levels") valid_level m.levels h7;
      flavored =
          word_issues-nil (m.kind == debugging) valid_flavor m.flavor no_flavor bad_flavor
            only_debugging_flavor h8;
      classed =
          word_issues-nil (m.kind == take_home) valid_class m.class no_class bad_class
            only_take_home_class h9;
      timed = time_issues-nil m.kind m.time known h10;
      params = param_issues-nil m.params h11;
    }
