-- ===== src/Registry/Load/Complete.antt =====
-- Every problem of the content root that decodes is in the registry.
use interviews.Base.{
  ◌≡◌, refl, sym, ap, ◌∙◌, subst, ◌⊎◌, Bool, true, List, [], ◌∷◌, ◌++◌, Memᴰ, mem-append_left,
  mem-append_right, All-mem, Option, none, some, Str, Result, ok, >>=-eq-ok, if_rule,
}
use interviews.Base.Sort.{sort, sort-mem}
use interviews.Content.Taxonomy.{types}
use interviews.Registry.Load.{
  Dir, absent, unreadable, listed, LoadError, stray_file, checked, already_used, Entry, Registry,
  Checks, find_id, get, add_finding, add_checked, by_dir, stray, type_issues, index, enter, take_in,
  problem_dir, load_problem, load_each, load_dir, load_type, load_types, load_root, load,
}
use interviews.Registry.Load.Indexed.{IsFound, load-IsIndexed}

module _ {P I : Type 0} (c : Checks P I) where
  -- the entry of a problem that decoded
  abbrev pub decoded : Str → Str → P → Entry P
  decoded kind name p = record { dir = problem_dir c kind name; kind = kind; problem = some p }

  module _ (e : Entry P) where
    abbrev Has : Registry P I → Type 0
    Has r = Memᴰ e r.entries

    add_checked-Has :
        (dir : Str) (is : List I) (r : Registry P I) → Has r → Has (add_checked dir is r)
    add_checked-Has dir [] r m = m
    add_checked-Has dir (i ∷ is) r m = add_checked-Has dir is (add_finding dir (checked i) r) m

    index-Has :
        (id : Str) (x : Entry P) (o : Option (Entry P)) (r : Registry P I)
        → Has r
        → Has (index c id x o r)
    index-Has id x none r m = m
    index-Has id x (some prev) r m = m

    take_in-Has :
        (kind dir : Str) (o : Option P) (r : Registry P I) → Has r → Has (take_in c kind dir o r)
    take_in-Has kind dir none r m = mem-append_left r.entries _ m
    take_in-Has kind dir (some p) r m =
        let is = c.templates p ++ type_issues c kind p in
        let r' = add_checked dir is r in
        let x : Entry P = record { dir = dir; kind = kind; problem = some p } in
        index-Has (c.id p) x (find_id r'.by_id (c.id p)) (enter c x r')
          (mem-append_left r'.entries (x ∷ []) (add_checked-Has dir is r m))

    load_each-Has :
        (kind : Str) (names : List (Str × Bool)) (r : Registry P I)
        → Has r
        → Has (load_each c kind names r)
    unfolding load_each load_problem
    load_each-Has kind [] r m = m
    load_each-Has kind ((name, is_dir) ∷ names) r m =
        let (p, is) = c.load kind name in
        let dir = problem_dir c kind name in
        if_rule Has is_dir _ _
          (λ _.
            load_each-Has kind names (load_problem c kind name r)
              (take_in-Has kind dir p (add_checked dir is r) (add_checked-Has dir is r m)))
          (λ _. load_each-Has kind names (add_finding kind (stray_file name) r) m)

    registry-inj :
        (r s : Registry P I) → ◌≡◌ {A = Result LoadError (Registry P I)} (ok r) (ok s) → r ≡ s
    registry-inj r s h = cc

    load_type-Has : (kind : Str) (r s : Registry P I) → Has r → load_type c kind r ≡ ok s → Has s
    unfolding load_type
    load_type-Has kind r s m = go (c.type_dir kind)
      where
        go : (d : Dir) → load_dir c kind d r ≡ ok s → Has s
        go absent h = subst Has (registry-inj r s h) m
        go unreadable h = cc
        go (listed names) h =
            subst Has (registry-inj (load_each c kind names r) s h) (load_each-Has kind names r m)

    load_types-Has :
        (kinds : List Str) (r s : Registry P I) → Has r → load_types c kinds r ≡ ok s → Has s
    unfolding load_types
    load_types-Has [] r s m h = subst Has (registry-inj r s h) m
    load_types-Has (kind ∷ kinds) r s m h =
        let (r', a, b) = >>=-eq-ok (load_type c kind r) (load_types c kinds) h in
        load_types-Has kinds r' s (load_type-Has kind r r' m a) b

  module _ (kind name : Str) (p : P) (decodes : (c.load kind name).0 ≡ some p) where
    index-enters :
        (id : Str) (o : Option (Entry P)) (r : Registry P I)
        → Memᴰ
            (decoded kind name p)
            (index c id (decoded kind name p) o (enter c (decoded kind name p) r)).entries
    index-enters id o r =
        index-Has (decoded kind name p) id (decoded kind name p) o (enter c (decoded kind name p) r)
          (mem-append_right r.entries (Memᴰ.head refl))

    load_problem-enters :
        (r : Registry P I) → Memᴰ (decoded kind name p) (load_problem c kind name r).entries
    unfolding load_problem
    load_problem-enters r =
        let dir = problem_dir c kind name in
        let r1 = add_checked dir ((c.load kind name).1) r in
        let r2 = add_checked dir (c.templates p ++ type_issues c kind p) r1 in
        subst (λ o. Memᴰ (decoded kind name p) (take_in c kind dir o r1).entries) (sym decodes)
          (index-enters (c.id p) (find_id r2.by_id (c.id p)) r2)

    load_each-enters :
        (names : List (Str × Bool)) (r : Registry P I)
        → Memᴰ (name, true) names
        → Memᴰ (decoded kind name p) (load_each c kind names r).entries
    unfolding load_each
    load_each-enters [] r m = elim m [ ]
    load_each-enters ((other, is_dir) ∷ names) r (Memᴰ.tail m) =
        if_rule (λ (x : Registry P I). Memᴰ (decoded kind name p) x.entries) is_dir _ _
          (λ _. load_each-enters names (load_problem c kind other r) m)
          (λ _. load_each-enters names (add_finding kind (stray_file other) r) m)
    load_each-enters (d ∷ names) r (Memᴰ.head q) =
        subst
          (λ (x : Str × Bool). Memᴰ (decoded kind name p) (load_each c kind (x ∷ names) r).entries)
          q
          (load_each-Has (decoded kind name p) kind names (load_problem c kind name r)
            (load_problem-enters r))

    load_types-enters :
        (kinds : List Str) (names : List (Str × Bool)) (r s : Registry P I)
        → Memᴰ kind kinds
        → c.type_dir kind ≡ listed names
        → Memᴰ (name, true) names
        → load_types c kinds r ≡ ok s
        → Memᴰ (decoded kind name p) s.entries
    unfolding load_types load_type
    load_types-enters [] names r s m dir there h = elim m [ ]
    load_types-enters (k ∷ kinds) names r s m dir there h =
        let (r', a, b) = >>=-eq-ok (load_type c k r) (load_types c kinds) h in
        elim m [
          | Memᴰ.head q ↦
              load_types-Has (decoded kind name p) kinds r' s
                (subst (λ (x : Registry P I). Memᴰ (decoded kind name p) x.entries)
                  (registry-inj (decoded kind name p) (load_each c kind names r) r'
                    (sym (ap (λ d. load_dir c kind d r) dir) ∙ ap (λ x. load_type c x r) q ∙ a))
                  (load_each-enters names r there))
                b
          | Memᴰ.tail n ↦ load_types-enters kinds names r' s n dir there b
        ]

    load-enters :
        (names : List (Str × Bool)) (r : Registry P I)
        → Memᴰ kind types
        → c.type_dir kind ≡ listed names
        → Memᴰ (name, true) names
        → load c ≡ ok r
        → Memᴰ (decoded kind name p) r.entries
    unfolding load
    load-enters names r k dir there = go c.root
      where
        go : (d : Dir) → load_root c d ≡ ok r → Memᴰ (decoded kind name p) r.entries
        go absent h = cc
        go unreadable h = cc
        go (listed roots) h =
            let start = stray roots (record { entries = []; by_id = []; findings = [] }) in
            let (s, a, b) =
              >>=-eq-ok (load_types c types start)
                (λ (s : Registry P I). ok (record s { entries = sort by_dir s.entries })) h in
            subst (λ (x : Registry P I). Memᴰ (decoded kind name p) x.entries)
              (registry-inj (decoded kind name p) (record s { entries = sort by_dir s.entries }) r
                b)
              (sort-mem by_dir s.entries (load_types-enters types names start s k dir there a))

    -- In a registry that loads, a problem that decoded, in a directory of one of the types, has an entry; its id leads
    -- to that entry, or to another problem's, and then a finding in the directory says that this one already uses it.
    pub load-get :
        (names : List (Str × Bool)) (r : Registry P I)
        → Memᴰ kind types
        → c.type_dir kind ≡ listed names
        → Memᴰ (name, true) names
        → load c ≡ ok r
        → Memᴰ (decoded kind name p) r.entries
          × ((f : Entry P) × (get r (c.id p) ≡ some f)
              × ((f ≡ decoded kind name p)
                  ⊎ Memᴰ
                      (record {
                        dir = problem_dir c kind name;
                        issue = already_used (c.id p) f.dir;
                      })
                      r.findings))
    unfolding get
    load-get names r k dir there h =
        let m = load-enters names r k dir there h in
        let found = All-mem (IsFound c r.by_id r.findings) r.entries (load-IsIndexed c r h) m in
        (m, found.at p refl)
