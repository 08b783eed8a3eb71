-- ===== src/Registry/Load.antt =====
-- internal/registry/registry.go: `Load`, `Get` and `FindingsFor`. What the checks of one problem say is a `Checks`,
-- a parameter, in the types of problems and of issues.
pub mod Indexed
pub mod Complete
use interviews.Base.{
  Bool, true, false, not, List, [], ◌∷◌, ◌++◌, keep, map, any, Option, none, some, Str, codes, ◌==◌,
  Result, ok, err, ◌>>=◌, if◌then◌else◌,
}
use interviews.Base.Sort.{sort, str_le}
use interviews.Content.Taxonomy.{types, debugging, take_home, valid_type}

-- what reading a directory comes to
pub data Dir : Type 0 where
  absent unreadable : Dir
  listed : List (Str × Bool) → Dir  -- the names, and which are directories

pub data LoadError : Type 0 where
  no_root : LoadError
  no_type : Str → LoadError

pub data Issue (I : Type 0) : Type 0 where
  stray_type stray_file : Str → Issue I
  checked : I → Issue I
  already_used : Str → Str → Issue I  -- an id, and the directory that has it

pub record Finding (I : Type 0) : Type 0 where
  pub dir : Str
  pub issue : Issue I

pub record Entry (P : Type 0) : Type 0 where
  pub dir : Str
  pub kind : Str
  pub problem : Option P

pub record Registry (P I : Type 0) : Type 0 where
  pub entries : List (Entry P)
  pub by_id : List (Str × Entry P)
  pub findings : List (Finding I)

-- The tree, and what each check says of a problem; `load` is `content.Load` of a type and a directory's name.
pub record Checks (P I : Type 0) : Type 0 where
  pub root : Dir
  pub type_dir : Str → Dir
  pub load : Str → Str → Option P × List I
  pub id : P → Str
  pub templates : P → List I
  pub scenario : P → List I
  pub spread : P → List I
  pub review : P → List I
  pub take_home_issues : P → List I

module _ {P : Type 0} where
  unfoldable pub find_id : List (Str × Entry P) → Str → Option (Entry P)
  find_id [] id = none
  find_id ((k, e) ∷ entries) id = let rest = find_id entries id in if k == id then some e else rest

  abbrev pub by_dir : Entry P → Entry P → Bool
  by_dir e f = str_le e.dir f.dir

module _ {P I : Type 0} where
  -- `Get`
  unfoldable pub get : Registry P I → Str → Option (Entry P)
  unfolding find_id
  get r id = find_id r.by_id id

  -- `FindingsFor`
  unfoldable pub findings_for : Registry P I → Str → List (Finding I)
  findings_for r dir = keep (λ (f : Finding I). f.dir == dir) r.findings

  abbrev pub add_finding : Str → Issue I → Registry P I → Registry P I
  add_finding dir i r = record r { findings = r.findings ++ record { dir = dir; issue = i } ∷ [] }

  abbrev pub add_checked : Str → List I → Registry P I → Registry P I
  add_checked dir [] r = r
  add_checked dir (i ∷ is) r = add_checked dir is (add_finding dir (checked i) r)

  -- the root's entries that are no type
  abbrev pub stray : List (Str × Bool) → Registry P I → Registry P I
  stray [] r = r
  stray ((name, is_dir) ∷ entries) r =
      let rest = stray entries r in
      let noted = stray entries (add_finding (codes ".") (stray_type name) r) in
      if valid_type name then rest else noted

  module _ (c : Checks P I) where
    -- the checks of a problem that decoded, by its type
    abbrev pub type_issues : Str → P → List I
    type_issues kind p =
        if kind == debugging
        then c.scenario p ++ c.spread p
        else if kind == codes "sysdesign"
        then c.review p
        else if kind == take_home
        then c.take_home_issues p
        else []

    abbrev pub index : Str → Entry P → Option (Entry P) → Registry P I → Registry P I
    index id e none r = record r { by_id = (id, e) ∷ r.by_id }
    index id e (some prev) r = add_finding e.dir (already_used id prev.dir) r

    abbrev pub enter : Entry P → Registry P I → Registry P I
    enter e r = record r { entries = r.entries ++ e ∷ [] }

    abbrev pub take_in : Str → Str → Option P → Registry P I → Registry P I
    take_in kind dir none r = enter (record { dir = dir; kind = kind; problem = none }) r
    take_in kind dir (some p) r =
        let e : Entry P = record { dir = dir; kind = kind; problem = some p } in
        let checked_over = add_checked dir (c.templates p ++ type_issues kind p) r in
        index (c.id p) e (find_id checked_over.by_id (c.id p)) (enter e checked_over)

    abbrev pub problem_dir : Str → Str → Str
    problem_dir kind name = kind ++ codes "/" ++ name

    -- one directory of a type
    unfoldable pub load_problem : Str → Str → Registry P I → Registry P I
    unfolding find_id
    load_problem kind name r =
        let (p, is) = c.load kind name in
        take_in kind (problem_dir kind name) p (add_checked (problem_dir kind name) is r)

    unfoldable pub load_each : Str → List (Str × Bool) → Registry P I → Registry P I
    unfolding load_problem
    load_each kind [] r = r
    load_each kind ((name, is_dir) ∷ names) r =
        let strayed = load_each kind names (add_finding kind (stray_file name) r) in
        let rest = load_each kind names (load_problem kind name r) in
        if is_dir then rest else strayed

    abbrev pub load_dir : Str → Dir → Registry P I → Result LoadError (Registry P I)
    load_dir kind absent r = ok r
    load_dir kind unreadable r = err (no_type kind)
    load_dir kind (listed names) r = ok (load_each kind names r)

    -- `loadType`
    unfoldable pub load_type : Str → Registry P I → Result LoadError (Registry P I)
    unfolding load_each
    load_type kind r = load_dir kind (c.type_dir kind) r

    unfoldable pub load_types : List Str → Registry P I → Result LoadError (Registry P I)
    unfolding load_type
    load_types [] r = ok r
    load_types (kind ∷ kinds) r = load_type kind r >>= load_types kinds

    abbrev pub load_root : Dir → Result LoadError (Registry P I)
    load_root absent = err no_root
    load_root unreadable = err no_root
    load_root (listed names) = do
      r ← load_types types (stray names (record { entries = []; by_id = []; findings = [] }))
      ok (record r { entries = sort by_dir r.entries })

    -- `Load`
    unfoldable pub load : Result LoadError (Registry P I)
    unfolding load_types sort
    load = load_root c.root
