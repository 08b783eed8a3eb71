-- ===== src/Registry/Load/Indexed.antt =====
-- No problem is shadowed in silence.
use interviews.Base.{
  ◌≡◌, refl, sym, ap, ◌∙◌, subst, ◌⊎◌, inl, inr, Bool, true, false, Bool-cases, List, [], ◌∷◌, ◌++◌,
  Memᴰ, mem-append_left, mem-append_right, All, All-append, Option, none, some, Str, codes, ◌==◌,
  ==_refl, ==→eq, Result, ok, >>=-eq-ok, if◌then◌else◌, if_rule,
}
use interviews.Base.Sort.{sort, sort-All}
use interviews.Content.Taxonomy.{types, valid_type}
use interviews.Registry.Load.{
  Dir, absent, unreadable, listed, LoadError, Issue, stray_type, stray_file, checked, already_used,
  Finding, Entry, Registry, Checks, find_id, add_finding, add_checked, by_dir, stray, type_issues,
  index, enter, take_in, problem_dir, load_problem, load_each, load_dir, load_type, load_types,
  load_root, load,
}

all_imp : {A : Type 0} {P Q : A → Type 0} → ((a : A) → P a → Q a) → (l : List A) → All P l → All Q l
all_imp f [] h = tt
all_imp f (a ∷ l) h = (f a h.0, all_imp f l h.1)

module _ {P I : Type 0} (c : Checks P I) where
  -- Its id leads to it, or to another problem, and then a finding in its directory names that one.
  pub record IsFound (by_id : List (Str × Entry P)) (findings : List (Finding I)) (e : Entry P)
      : Type 0 where
    pub at :
        (p : P)
        → e.problem ≡ some p
        → (f : Entry P) × (find_id by_id (c.id p) ≡ some f)
          × ((f ≡ e) ⊎ Memᴰ (record { dir = e.dir; issue = already_used (c.id p) f.dir }) findings)

  abbrev pub IsIndexed : Registry P I → Type 0
  IsIndexed r = All (IsFound r.by_id r.findings) r.entries

  IsFound-more :
      (by_id : List (Str × Entry P)) (fs gs : List (Finding I)) (e : Entry P)
      → IsFound by_id fs e
      → IsFound by_id (fs ++ gs) e
  IsFound-more by_id fs gs e k = record {
    at = λ p q. let (f, found, why) = k.at p q in (f, found, more f p why);
  }
    where
      more :
          (f : Entry P) (p : P)
          → (f ≡ e) ⊎ Memᴰ (record { dir = e.dir; issue = already_used (c.id p) f.dir }) fs
          → (f ≡ e) ⊎ Memᴰ (record { dir = e.dir; issue = already_used (c.id p) f.dir }) (fs ++ gs)
      more f p (inl same) = inl same
      more f p (inr m) = inr (mem-append_left fs gs m)

  none-some : {A : Type 0} (o : Option A) (a : A) → o ≡ none → o ≡ some a → ⊥
  none-some o a h k = cc

  -- an id that was not there hides none
  IsFound-cons :
      (by_id : List (Str × Entry P)) (fs : List (Finding I)) (id : Str) (x e : Entry P)
      → find_id by_id id ≡ none
      → IsFound by_id fs e
      → IsFound ((id, x) ∷ by_id) fs e
  unfolding find_id
  IsFound-cons by_id fs id x e free k = record {
    at = λ p q.
        let (f, found, why) = k.at p q in
        (f, kept (c.id p) f found (Bool-cases (id == c.id p)), why);
  }
    where
      kept :
          (other : Str) (f : Entry P)
          → find_id by_id other ≡ some f
          → ((id == other) ≡ true) ⊎ ((id == other) ≡ false)
          → (if id == other then some x else find_id by_id other) ≡ some f
      kept other f found (inl same) = absurd (
          none-some (find_id by_id other) f (ap (find_id by_id) (sym (==→eq id other same)) ∙ free)
            found)
      kept other f found (inr apart) = rw apart found

  add_finding-IsIndexed :
      (dir : Str) (i : Issue I) (r : Registry P I) → IsIndexed r → IsIndexed (add_finding dir i r)
  add_finding-IsIndexed dir i r k =
      all_imp (λ e. IsFound-more r.by_id r.findings (record { dir = dir; issue = i } ∷ []) e)
        r.entries k

  add_checked-IsIndexed :
      (dir : Str) (is : List I) (r : Registry P I) → IsIndexed r → IsIndexed (add_checked dir is r)
  add_checked-IsIndexed dir [] r k = k
  add_checked-IsIndexed dir (i ∷ is) r k =
      add_checked-IsIndexed dir is (add_finding dir (checked i) r)
        (add_finding-IsIndexed dir (checked i) r k)

  stray-IsIndexed :
      (names : List (Str × Bool)) (r : Registry P I) → IsIndexed r → IsIndexed (stray names r)
  stray-IsIndexed [] r k = k
  stray-IsIndexed ((name, d) ∷ names) r k =
      if_rule IsIndexed (valid_type name) _ _ (λ e. stray-IsIndexed names r k)
        (λ e.
          stray-IsIndexed names (add_finding (codes ".") (stray_type name) r)
            (add_finding-IsIndexed (codes ".") (stray_type name) r k))

  some-inj : (p q : P) → some p ≡ some q → p ≡ q
  some-inj p q h = cc

  index-IsIndexed :
      (kind dir : Str) (p : P) (r : Registry P I) (o : Option (Entry P))
      → find_id r.by_id (c.id p) ≡ o
      → IsIndexed r
      → IsIndexed (
          index c
            (c.id p)
            (record { dir = dir; kind = kind; problem = some p })
            o
            (enter c (record { dir = dir; kind = kind; problem = some p }) r))
  unfolding find_id
  index-IsIndexed kind dir p r none free k =
      let e : Entry P = record { dir = dir; kind = kind; problem = some p } in
      All-append (IsFound ((c.id p, e) ∷ r.by_id) r.findings) r.entries (e ∷ [])
        (all_imp (λ x. IsFound-cons r.by_id r.findings (c.id p) e x free) r.entries k)
        (
          record {
            at = λ q same. (
              e,
              ap (λ x. find_id ((c.id p, e) ∷ r.by_id) (c.id x)) (sym (some-inj p q same))
                  ∙ (rw (==_refl (c.id p))),
              inl refl,
            );
          },
          tt,
        )
  index-IsIndexed kind dir p r (some prev) there k =
      let e : Entry P = record { dir = dir; kind = kind; problem = some p } in
      let note : Finding I = record { dir = dir; issue = already_used (c.id p) prev.dir } in
      All-append (IsFound r.by_id (r.findings ++ note ∷ [])) r.entries (e ∷ [])
        (all_imp (λ x. IsFound-more r.by_id r.findings (note ∷ []) x) r.entries k)
        (
          record {
            at = λ q same. (
              prev,
              ap (λ x. find_id r.by_id (c.id x)) (sym (some-inj p q same)) ∙ there,
              inr (
                  mem-append_right r.findings (
                    Memᴰ.head (
                      ap (λ x. record { dir = dir; issue = already_used (c.id x) prev.dir })
                        (sym (some-inj p q same))))),
            );
          },
          tt,
        )

  take_in-IsIndexed :
      (kind dir : Str) (o : Option P) (r : Registry P I)
      → IsIndexed r
      → IsIndexed (take_in c kind dir o r)
  take_in-IsIndexed kind dir none r k =
      let e : Entry P = record { dir = dir; kind = kind; problem = none } in
      All-append (IsFound r.by_id r.findings) r.entries (e ∷ []) k
        (record { at = λ p q. absurd (none-some none p refl q) }, tt)
  take_in-IsIndexed kind dir (some p) r k =
      let is = c.templates p ++ type_issues c kind p in
      let r' = add_checked dir is r in
      index-IsIndexed kind dir p r' (find_id r'.by_id (c.id p)) refl
        (add_checked-IsIndexed dir is r k)

  load_each-IsIndexed :
      (kind : Str) (names : List (Str × Bool)) (r : Registry P I)
      → IsIndexed r
      → IsIndexed (load_each c kind names r)
  unfolding load_each load_problem
  load_each-IsIndexed kind [] r k = k
  load_each-IsIndexed kind ((name, is_dir) ∷ names) r k =
      let (p, is) = c.load kind name in
      let dir = problem_dir c kind name in
      if_rule IsIndexed is_dir _ _
        (λ e.
          load_each-IsIndexed kind names (load_problem c kind name r) (
            take_in-IsIndexed kind dir p (add_checked dir is r) (add_checked-IsIndexed dir is r k)))
        (λ e.
          load_each-IsIndexed kind names (add_finding kind (stray_file name) r)
            (add_finding-IsIndexed kind (stray_file name) r k))

  registry-inj :
      (r s : Registry P I) → ◌≡◌ {A = Result LoadError (Registry P I)} (ok r) (ok s) → r ≡ s
  registry-inj r s h = cc

  load_type-IsIndexed :
      (kind : Str) (r s : Registry P I) → IsIndexed r → load_type c kind r ≡ ok s → IsIndexed s
  unfolding load_type
  load_type-IsIndexed kind r s k = go (c.type_dir kind)
    where
      go : (d : Dir) → load_dir c kind d r ≡ ok s → IsIndexed s
      go absent h = subst IsIndexed (registry-inj r s h) k
      go unreadable h = cc
      go (listed names) h =
          subst IsIndexed (registry-inj (load_each c kind names r) s h)
            (load_each-IsIndexed kind names r k)

  load_types-IsIndexed :
      (kinds : List Str) (r s : Registry P I)
      → IsIndexed r
      → load_types c kinds r ≡ ok s
      → IsIndexed s
  unfolding load_types
  load_types-IsIndexed [] r s k h = subst IsIndexed (registry-inj r s h) k
  load_types-IsIndexed (kind ∷ kinds) r s k h =
      let (r', a, b) = >>=-eq-ok (load_type c kind r) (load_types c kinds) h in
      load_types-IsIndexed kinds r' s (load_type-IsIndexed kind r r' k a) b

  -- In a registry that loads, each problem that decoded is found by its id, or the id leads to another one and a
  -- finding in the problem's directory says that this one already uses it.
  pub load-IsIndexed : (r : Registry P I) → load c ≡ ok r → IsIndexed r
  unfolding load
  load-IsIndexed r = go c.root
    where
      empty : Registry P I
      empty = record { entries = []; by_id = []; findings = [] }

      go : (d : Dir) → load_root c d ≡ ok r → IsIndexed r
      go absent h = cc
      go unreadable h = cc
      go (listed names) h =
          let (s, a, b) =
            >>=-eq-ok (load_types c types (stray names empty))
              (λ s. ok (record s { entries = sort by_dir s.entries })) h in
          let k =
            load_types-IsIndexed types (stray names empty) s (stray-IsIndexed names empty tt) a in
          subst IsIndexed (registry-inj (record s { entries = sort by_dir s.entries }) r b)
            (sort-All by_dir (IsFound s.by_id s.findings) s.entries k)
