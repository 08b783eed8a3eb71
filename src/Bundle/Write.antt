-- ===== src/Bundle/Write.antt =====
-- internal/bundle/bundle.go, and `writeTarball` of gate.go: how a drop is written. The file system, git and the
-- rendering of a template are a Host, a parameter; a call that can fail answers whether it went well, and leaves
-- its world as it is then. A directory's tree is what `fs.WalkDir` visits in it.
pub mod Handed
pub mod Removed
use interviews.Base.{
  Bool, true, false, ◌||◌, not, List, [], ◌∷◌, ◌++◌, Option, none, some, Str, codes, ◌==◌, any,
  contains, has_suffix, Result, ok, err, if◌then◌else◌,
}
use interviews.Base.Exec.{Exec, pure, raise, gets, ◌>>=◌, ◌>>◌}
use interviews.Content.Taxonomy.{take_home}
use interviews.Leak.Classifier.{Classifier}
use interviews.Leak.Pattern.{is_empty}
use interviews.Leak.Scan.{unreadable, directory, file}
use interviews.Variant.Lint.{is_templated}
use interviews.Bundle.Gate.{Written, GateError, about_name, check_gate}

-- The front pages `takeHomeAbout` and `sysDesignAbout`, which are templates.
pub data FrontPage : Type 0 where
  take_home_about sys_design_about : FrontPage

pub record Spec : Type 0 where
  pub about : FrontPage
  pub git_init : Bool

-- `specs`
unfoldable pub spec_of : Str → Option Spec
spec_of kind =
    if kind == take_home
    then some (record { about = take_home_about; git_init = true })
    else if kind == codes "sysdesign"
    then some (record { about = sys_design_about; git_init = false })
    else none

-- What `Write` uses of a problem and a variant. `render` is `variant.Render`, `front` the execution of a front
-- page with the problem's title and hours.
pub record Problem : Type 0 where
  pub id : Str
  pub kind : Str
  pub candidate : List Str
  pub classifier : Classifier
  pub read : Str → Option Str
  pub is_executable : Str → Option Bool
  pub render : Str → Option Str
  pub front : FrontPage → Bool → Option Str

-- What `os.ReadDir` says of an output directory.
pub data Listing : Type 0 where
  absent unlisted vacant occupied : Listing

-- An entry of the archive, as its header is set; times and ownership are those of `writeTarball`.
pub data TarEntry : Type 0 where
  folder : Str → TarEntry
  member : Str → Str → TarEntry

pub record Host (W : Type 0) : Type 0 where
  pub exists : Str → W → Bool
  pub list_dir : Str → W → Listing
  pub tree : Str → W → List Written
  pub make_temp : W → Option Str × W
  pub make_dirs : Str → W → Bool × W
  pub write_file : Str → Str → Bool → W → Bool × W
  pub git : Str → List Str → W → Bool × W
  pub create : Str → W → Bool × W
  pub append : Str → TarEntry → W → Bool × W
  pub close : Str → W → Bool × W
  pub remove : Str → W → W  -- `os.Remove`
  pub remove_all : Str → W → W  -- `os.RemoveAll`

pub data WriteError : Type 0 where
  not_deliverable already_exists no_temp not_listed not_empty no_front : WriteError
  unread not_rendered no_directory not_written git_failed tar_failed : Str → WriteError
  gate_failed : GateError → WriteError

abbrev pub Step : Type 0 → Type 0 → Type 0
Step W A = Exec W WriteError A

-- `filepath.Join` of a directory and a clean relative name
abbrev pub join : Str → Str → Str
join dir name = dir ++ (codes "/" ++ name)

-- `filepath.Dir` of a joined name: what stands before the last slash, if there is one
unfoldable pub parent : Str → Str
parent [] = []
parent (c ∷ cs) = let rest = parent cs in if contains cs (codes "/") then c ∷ rest else []

abbrev pub done_or : {W : Type 0} → WriteError → Bool × W → Result WriteError Unit × W
done_or e (good, w) = (if good then ok tt else err e, w)

module _ {W : Type 0} (h : Host W) where
  abbrev pub call : WriteError → (W → Bool × W) → Step W Unit
  call e f w = done_or e (f w)

  abbrev pub given : {A : Type 0} → WriteError → Option A → Step W A
  given e none = raise e
  given e (some a) = pure a

  -- one round of `writeFiles`
  unfoldable pub write_candidate : Problem → Str → Str → Step W Unit
  unfolding parent
  write_candidate p dir name = do
    let missing = unread name
    text ← given missing (p.read name)
    executable ← given missing (p.is_executable name)
    body ← given (not_rendered name) (if is_templated name then p.render text else some text)
    let dst = join dir name
    call (no_directory name) (h.make_dirs (parent dst))
    call (not_written name) (h.write_file dst body executable)

  -- `writeFiles`
  unfoldable pub write_files : Problem → Str → List Str → Step W Unit
  unfolding write_candidate
  write_files p dir [] = pure tt
  write_files p dir (name ∷ names) = write_candidate p dir name >> write_files p dir names

  abbrev pub has_harness : List Str → Bool
  has_harness = any (λ name. contains name (codes "harness/"))

  -- `writeAbout`
  unfoldable pub write_about : Problem → Str → Spec → Step W Unit
  write_about p dir sp = do
    text ← given no_front (p.front sp.about (has_harness p.candidate))
    call (not_written about_name) (h.write_file (join dir about_name) text false)

  abbrev pub git_steps : List (List Str)
  git_steps =
      (codes "init" ∷ codes "-q" ∷ codes "-b" ∷ codes "main" ∷ codes "--template=" ∷ [])
      ∷ (codes "add" ∷ codes "-A" ∷ [])
      ∷ (codes "-c"
          ∷ codes "user.name=candidate"
          ∷ codes "-c"
          ∷ codes "user.email=candidate@localhost"
          ∷ codes "-c"
          ∷ codes "commit.gpgsign=false"
          ∷ codes "-c"
          ∷ codes "core.hooksPath="
          ∷ codes "-c"
          ∷ codes "core.excludesFile="
          ∷ codes "commit"
          ∷ codes "-q"
          ∷ codes "-m"
          ∷ codes "initial drop"
          ∷ [])
      ∷ []

  abbrev pub run_git : Str → List (List Str) → Step W Unit
  run_git dir [] = pure tt
  run_git dir (args ∷ rest) = call (git_failed dir) (h.git dir args) >> run_git dir rest

  -- `gitInit`, where the spec wants it
  unfoldable pub init_repo : Bool → Str → Step W Unit
  init_repo true dir = run_git dir git_steps
  init_repo false dir = pure tt

  abbrev pub gated : Result GateError Unit → Step W Unit
  gated (ok done) = pure tt
  gated (err e) = raise (gate_failed e)

  -- `checkGate`, over what stands in the directory by then
  unfoldable pub gate : Problem → Str → Step W Unit
  gate p dir w = gated (check_gate p.classifier (h.tree dir w)) w

  -- `writeBundle`
  unfoldable pub write_bundle : Problem → Str → Spec → Step W Unit
  write_bundle p dir sp = do
    write_files p dir p.candidate
    write_about p dir sp
    init_repo sp.git_init dir
    gate p dir

  abbrev pub may_use : Str → Listing → Step W Unit
  may_use dir absent = call (no_directory dir) (h.make_dirs dir)
  may_use dir unlisted = raise not_listed
  may_use dir vacant = pure tt
  may_use dir occupied = raise not_empty

  -- `ensureEmptyDir`
  unfoldable pub ensure_empty_dir : Str → Step W Unit
  ensure_empty_dir dir w = may_use dir (h.list_dir dir w) w

  -- what the archive calls an entry: under `root`, which `.` is
  abbrev pub under : Str → Str → Str
  under root name = if name == codes "." then root else join root name

  -- one round of the walk of `writeTarball`
  unfoldable pub pack_entry : Str → Str → Written → Step W Unit
  pack_entry out root w = elim (w.entry) [
    | unreadable p ↦ raise (tar_failed p)
    | directory p ↦ call (tar_failed p) (h.append out (folder (under root p ++ codes "/")))
    | file f ↦ do
      text ← given (tar_failed f.path) w.content
      call (tar_failed f.path) (h.append out (member (under root f.path) text))
  ]

  unfoldable pub pack_entries : Str → Str → List Written → Step W Unit
  unfolding pack_entry
  pack_entries out root [] = call (tar_failed out) (h.close out)
  pack_entries out root (w ∷ ws) = pack_entry out root w >> pack_entries out root ws

  -- the deferred removal of an output that failed
  abbrev pub or_remove : (W → W) → Result WriteError Unit × W → Result WriteError Unit × W
  or_remove undo (ok done, w) = (ok done, w)
  or_remove undo (err e, w) = (err e, undo w)

  abbrev pub begun : Str → Str → Str → Bool × W → Result WriteError Unit × W
  begun dir root out (false, w) = (err (tar_failed out), w)
  begun dir root out (true, w) = or_remove (h.remove out) (pack_entries out root (h.tree dir w) w)

  -- `writeTarball`
  unfoldable pub write_tarball : Str → Str → Str → Step W Unit
  write_tarball dir root out w = begun dir root out (h.create out w)

  abbrev pub is_archive : Str → Bool
  is_archive out = has_suffix out (codes ".tar.gz") || has_suffix out (codes ".tgz")

  abbrev pub finally : {A : Type 0} → (W → W) → A × W → A × W
  finally last (r, w) = (r, last w)

  -- the body of the archive's branch, in its temporary directory
  unfoldable pub via_temp : Problem → Spec → Str → Option Str × W → Result WriteError Unit × W
  via_temp p sp out (none, w) = (err no_temp, w)
  via_temp p sp out (some tmp, w) =
      let dir = join tmp p.id in
      finally (h.remove_all tmp) ((do write_bundle p dir sp; write_tarball dir p.id out) w)

  unfoldable pub write_archive : Problem → Spec → Str → Step W Unit
  unfolding via_temp
  write_archive p sp out w =
      if h.exists out w then (err already_exists, w) else via_temp p sp out (h.make_temp w)

  unfoldable pub write_directory : Problem → Spec → Str → Step W Unit
  write_directory p sp out =
      ensure_empty_dir out >> λ w. or_remove (h.remove_all out) (write_bundle p out sp w)

  unfoldable pub write_as : Problem → Str → Option Spec → Step W Unit
  unfolding write_archive write_directory
  write_as p out none = raise not_deliverable
  write_as p out (some sp) =
      if is_archive out then write_archive p sp out else write_directory p sp out

  -- `Write`
  unfoldable pub write : Problem → Str → Step W Unit
  unfolding write_as spec_of
  write p out = write_as p out (spec_of p.kind)
