-- ===== src/Leak/Classifier/Closed.antt =====
-- The classifier is closed by default: what it shows is what a glob names and nothing protects.
use interviews.Base.{
  ◌≡◌, refl, sym, subst, ◌↔◌, ◌⊎◌, inl, inr, Bool, true, false, ◌||◌, not, List, [], ◌∷◌, ◌++◌,
  Memᴰ, Str, arith, ◌==◌, ==→eq, any, any-mem, any_of_mem, All, All-append, Bool-cases, ok,
  >>=-eq-ok, map,
}
use mathlib.Core.List.{map-append, append_assoc, append-nil}
use interviews.Leak.Path.{split, clean, is_rooted}
use interviews.Leak.Path.Idem.{clean-clean}
use interviews.Leak.Pattern.{is_empty}
use interviews.Leak.Glob.{Glob, check_segs, compile_glob, match_segs}
use interviews.Leak.Glob.Covers.{Covers, match_segs_iff}
use interviews.Leak.Classifier.{
  interviewer_only, candidate_visible, Classifier, protected_dirs, protected_files,
  is_protected_name, protected_segs, is_single, protected, refuse_segs, add_globs, new_classifier,
  classify, globs,
}

-- A segment that spells a protected directory, or that is not plain ASCII.
abbrev pub NamesDir : Str → Type 0
NamesDir seg = is_protected_name seg protected_dirs ≡ true

abbrev pub NamesFile : Str → Type 0
NamesFile seg = is_protected_name seg protected_files ≡ true

-- What makes a list of segments protected: a directory name anywhere, or a spec file at the root.
abbrev pub IsProtected : List Str → Type 0
IsProtected segs =
    ((seg : Str) × Memᴰ seg segs × NamesDir seg) ⊎ ((seg : Str) × (segs ≡ seg ∷ []) × NamesFile seg)

dir→protected_segs :
    (alone : Bool) (segs : List Str) {seg : Str}
    → Memᴰ seg segs
    → NamesDir seg
    → protected_segs alone segs ≡ true
unfolding protected_segs
dir→protected_segs alone [] m h = elim m [ ]
dir→protected_segs alone (s ∷ []) (Memᴰ.head e) h = rw (subst NamesDir e h)
dir→protected_segs alone (s ∷ []) (Memᴰ.tail m) h = elim m [ ]
dir→protected_segs alone (s ∷ t ∷ segs) (Memᴰ.head e) h = rw (subst NamesDir e h)
dir→protected_segs alone (s ∷ t ∷ segs) (Memᴰ.tail m) h =
    elim (Bool-cases (is_protected_name s protected_dirs)) [
      | inl e ↦ rw e
      | inr e ↦ rw e (dir→protected_segs alone (t ∷ segs) m h)
    ]

protected_segs→dir :
    (segs : List Str)
    → protected_segs false segs ≡ true
    → (seg : Str) × Memᴰ seg segs × NamesDir seg
unfolding protected_segs
protected_segs→dir [] h = ground arith
protected_segs→dir (s ∷ []) h = elim (Bool-cases (is_protected_name s protected_dirs)) [
  | inl e ↦ (s, Memᴰ.head refl, e)
  | inr e ↦ absurd (ground arith)
]
protected_segs→dir (s ∷ t ∷ segs) h = elim (Bool-cases (is_protected_name s protected_dirs)) [
  | inl e ↦ (s, Memᴰ.head refl, e)
  | inr e ↦ let (seg, m, q) = protected_segs→dir (t ∷ segs) (rw e at h) in (seg, Memᴰ.tail m, q)
]

IsProtected-protected_segs :
    (segs : List Str) → protected_segs (is_single segs) segs ≡ true → IsProtected segs
IsProtected-protected_segs [] h = inl (protected_segs→dir [] h)
IsProtected-protected_segs (s ∷ []) h = elim (Bool-cases (is_protected_name s protected_dirs)) [
  | inl e ↦ inl (s, Memᴰ.head refl, e)
  | inr e ↦ inr (s, refl, unfold protected_segs in ground arith)
]
IsProtected-protected_segs (s ∷ t ∷ segs) h = inl (protected_segs→dir (s ∷ t ∷ segs) h)

IsProtected→protected_segs :
    (segs : List Str) → IsProtected segs → protected_segs (is_single segs) segs ≡ true
IsProtected→protected_segs segs (inl (seg, m, h)) = dir→protected_segs (is_single segs) segs m h
IsProtected→protected_segs segs (inr (seg, e, h)) = rw e (unfold protected_segs in ground arith)

-- `Protected` holds exactly of the paths of which some segment names a protected directory (in
-- any case of its letters, or by being no plain ASCII), and of the spec files at the root.
pub protected_iff : (name : Str) → (protected name ≡ true) ↔ IsProtected (split (clean name))
unfolding protected
protected_iff name = (
  IsProtected-protected_segs (split (clean name)),
  IsProtected→protected_segs (split (clean name)),
)

pub protected-clean : (name : Str) → protected (clean name) ≡ protected name
unfolding protected
protected-clean name = rw (clean-clean name)

-- A path with a protected segment is never shown, whatever the manifest's globs are.
pub classify_of_IsProtected :
    (c : Classifier) (name : Str)
    → IsProtected (split (clean name))
    → classify c name ≡ interviewer_only
unfolding classify
classify_of_IsProtected c name h = rw (protected-clean name) (rw ((protected_iff name).1 h))

abbrev pub IsNamed : Classifier → Str → Type 0
IsNamed c name = (g : Glob) × Memᴰ g c.candidate × Covers g.segs (split (clean name))

any_match→IsNamed :
    (c : Classifier) (name : Str)
    → any (λ g. match_segs g.segs (split (clean name))) c.candidate ≡ true
    → IsNamed c name
any_match→IsNamed c name h =
    let (g, m, q) = any-mem (λ g. match_segs g.segs (split (clean name))) c.candidate h in
    (g, m, (match_segs_iff g.segs (split (clean name))).0 q)

classify_visible :
    (c : Classifier) (name : Str)
    → classify c name ≡ candidate_visible
    → (protected name ≡ false)
      × (any (λ g. match_segs g.segs (split (clean name))) c.candidate ≡ true)
unfolding classify
classify_visible c name h = ground (arith, protected-clean name)

-- A path is candidate-visible exactly when it is not protected and one of the compiled globs
-- covers its segments: what no glob names stays with the interviewer.
pub classify_iff :
    (c : Classifier) (name : Str)
    → (classify c name ≡ candidate_visible) ↔ ((protected name ≡ false) × IsNamed c name)
classify_iff c name = (
  λ h. let (p, q) = classify_visible c name h in (p, any_match→IsNamed c name q),
  λ (p, (g, m, v)).
      unfold classify in
      rw (protected-clean name) (
        rw (
          p,
          any_of_mem (λ g. match_segs g.segs (split (clean name))) c.candidate m
              ((match_segs_iff g.segs (split (clean name))).1 v),
        )),
)

-- A glob that may stand in a classifier.
pub record IsSafeGlob (g : Glob) : Type 0 where
  pub split_src : g.segs ≡ split g.src
  pub clean_src : clean g.src ≡ g.src
  pub relative : is_rooted g.src ≡ false
  pub unprotected : All (λ s. is_protected_name s protected_dirs ≡ false) g.segs

refuse_segs-ok :
    (p : Str) (segs : List Str)
    → refuse_segs p segs ≡ ok tt
    → All (λ s. is_protected_name s protected_dirs ≡ false) segs
unfolding refuse_segs
refuse_segs-ok p [] h = tt
refuse_segs-ok p (s ∷ segs) h = elim (Bool-cases (is_protected_name s protected_dirs)) [
  | inl e ↦ absurd (ground arith)
  | inr e ↦ (e, refuse_segs-ok p segs (rw e at h))
]

compile_glob-ok :
    (p : Str) (g : Glob)
    → compile_glob p ≡ ok g
    → (g ≡ record { src = p; segs = split p }) × (clean p ≡ p) × (is_rooted p ≡ false)
unfolding compile_glob
compile_glob-ok p g h = elim (Bool-cases (is_empty p || not (p == clean p) || is_rooted p)) [
  | inl e ↦ absurd (ground arith)
  | inr e ↦
      let (u, _, q) =
        >>=-eq-ok {V = Unit {0}} (check_segs p (split p))
          (λ _. ok (record { src = p; segs = split p })) (rw e at h) in
      (ground arith, sym (==→eq p (clean p) (ground arith)), ground arith)
]

refused_or_safe :
    (p : Str) (g : Glob)
    → compile_glob p ≡ ok g
    → refuse_segs p g.segs ≡ ok tt
    → IsSafeGlob g × (g.src ≡ p)
refused_or_safe p g h r =
    let (e, k, q) = compile_glob-ok p g h in
    (
      record {
        split_src = cc e;
        clean_src = cc (e, k);
        relative = rw e q;
        unprotected = refuse_segs-ok p g.segs r;
      },
      cc e,
    )

add_globs-ok :
    (acc : List Glob) (ps : List Str) (c : Classifier)
    → All IsSafeGlob acc
    → add_globs acc ps ≡ ok c
    → All IsSafeGlob c.candidate × (globs c ≡ map (λ g. g.src) acc ++ ps)
unfolding add_globs globs
add_globs-ok acc [] c a h = rw append-nil (ground arith)
add_globs-ok acc (p ∷ ps) c a h =
    let (g, hg, h1) = >>=-eq-ok (compile_glob p) _ h in
    let (_, hr, h2) = >>=-eq-ok (refuse_segs p g.segs) _ h1 in
    let (s, e) = refused_or_safe p g hg hr in
    let (all, eq) =
      add_globs-ok (acc ++ g ∷ []) ps c (All-append IsSafeGlob acc (g ∷ []) a (s, tt)) h2 in
    (all, rw eq (rw map-append (rw append_assoc (rw e))))

-- A classifier that `NewClassifier` returns has the manifest's globs in their order, each a clean
-- relative path with no segment that names a protected directory or is not plain ASCII.
pub new_classifier_ok :
    (ps : List Str) (c : Classifier)
    → new_classifier ps ≡ ok c
    → All IsSafeGlob c.candidate × (globs c ≡ ps)
unfolding new_classifier
new_classifier_ok ps c h = add_globs-ok [] ps c tt h
