-- ===== src/Session/Tests/Bundles.antt =====
-- Runs of the evidence pass on a small workdir.
use interviews.Base.{
  All, ℕ, zero, suc, ◌≡◌, refl, sym, ap, ◌∙◌, Bool, true, false, List, [], ◌∷◌, ◌++◌, length,
  Option, none, some, Str, codes, ◌==◌, ok, err, if◌then◌else◌,
}
use interviews.Session.Stack.{Info}
use interviews.Session.Evidence.{
  Visit, Skipped, not_regular, too_large, add_visits, Read, missing, unreadable, content, visited,
  not_opened, not_refreshed, Workdir, Shelf, info_file, bundle, refresh_failed, evidence,
}
use interviews.Session.Evidence.Accounted.{IsAccounted, add_visits-IsAccounted}
use interviews.Session.Evidence.Whole.{bundle-fails, evidence-ships}
use interviews.Session.Evidence.Redacted.{IsCleanArchive, bundle-IsCleanArchive}

-- a text of texts, each behind its length
join : List Str → Str
join [] = []
join (s ∷ ss) = length s ∷ s ++ join ss

split : ℕ → Str → Str × Str
split zero t = ([], t)
split (suc n) [] = ([], [])
split (suc n) (c ∷ t) = let (s, r) = split n t in (c ∷ s, r)

part : ℕ → Str → List Str
part zero t = []
part (suc n) [] = []
part (suc n) (k ∷ t) = let (s, r) = split k t in s ∷ part n r

split-append : (s r : Str) → split (length s) (s ++ r) ≡ (s, r)
unfolding split
split-append [] r = refl
split-append (c ∷ s) r = rw (split-append s r)

part-join : (ss : List Str) → part (length ss) (join ss) ≡ ss
unfolding part join
part-join [] = refl
part-join (s ∷ ss) = rw (split-append s (join ss)) (rw (part-join ss))

abbrev fields : Info → List Str
fields i =
    i.problem
    ∷ i.seed
    ∷ i.tmux_session
    ∷ i.tmux_socket
    ∷ i.candidate_user
    ∷ i.candidate_token
    ∷ i.observer_token
    ∷ (i.candidate_port ∷ [])
    ∷ (i.observer_port ∷ [])
    ∷ i.candidate_url
    ∷ i.observer_url
    ∷ i.app_token
    ∷ i.app_url
    ∷ (i.app_port ∷ [])
    ∷ (i.started_at ∷ [])
    ∷ []

of_fields : List Str → Option Info
of_fields
      (a ∷ b ∷ c ∷ d ∷ e ∷ f ∷ g ∷ (h ∷ []) ∷ (i ∷ []) ∷ j ∷ k ∷ l ∷ m ∷ (n ∷ []) ∷ (o ∷ []) ∷ []) =
    some (record {
      problem = a;
      seed = b;
      tmux_session = c;
      tmux_socket = d;
      candidate_user = e;
      candidate_token = f;
      observer_token = g;
      candidate_port = h;
      observer_port = i;
      candidate_url = j;
      observer_url = k;
      app_token = l;
      app_url = m;
      app_port = n;
      started_at = o;
    })
of_fields _ = none

some-inj : (a b : Str) → some a ≡ some b → a ≡ b
some-inj a b h = cc

decodes :
    (info : Info) (bytes : Str)
    → some (join (fields info)) ≡ some bytes
    → of_fields (part 15 bytes) ≡ some info
unfolding of_fields
decodes info bytes h =
    ap (λ b. of_fields (part 15 b)) (sym (some-inj (join (fields info)) bytes h))
    ∙ ap of_fields (part-join (fields info))

abbrev sample : Info
sample = record {
  problem = codes "web";
  seed = codes "s";
  tmux_session = codes "t";
  tmux_socket = [];
  candidate_user = [];
  candidate_token = codes "secret";
  observer_token = codes "eye";
  candidate_port = 8001;
  observer_port = 8002;
  candidate_url = codes "u";
  observer_url = codes "v";
  app_token = [];
  app_url = [];
  app_port = 0;
  started_at = 1;
}

-- a workdir with the session's record, where reading another file comes to `rest` and the refresh to `refreshes`
abbrev workdir : Read → Bool → Workdir ℕ
workdir rest refreshes = record {
  read = λ name w. if name == info_file then content (join (fields sample)) else rest;
  exists = λ name w. false;
  walk = λ w.
      some
        (visited (codes "candidate/notes") true 3 ∷ visited (codes "candidate/link") false 3 ∷ []);
  create = λ w. (true, w);
  append = λ w. (true, suc w);
  close = λ w. (true, w);
  rename = λ w. (true, w);
  remove_draft = λ w. w;
  decode = λ bytes. of_fields (part 15 bytes);
  encode = λ info. some (join (fields info));
  itoa = λ n. codes "9";
  fuel = 3;
  has_faults = λ w. true;
  refresh = λ w. (refreshes, w);
  note_error = λ w. (true, w);
  upload = λ dest w. (true, w);
}

abbrev shelf : Shelf ℕ
shelf = record {
  world = 0;
  archive = some (record { name = codes "old"; bytes = [] } ∷ []);
  draft = none;
}

bundle-fails_example : (bundle (workdir unreadable true) shelf).1.archive ≡ shelf.archive
unfolding bundle ◌==◌
bundle-fails_example = bundle-fails (workdir unreadable true) shelf not_opened refl

bundle-IsCleanArchive_example :
    IsCleanArchive
      (workdir (content (codes "x")) true)
      (bundle (workdir (content (codes "x")) true) shelf).1.archive
unfolding bundle ◌==◌ of_fields part join split
bundle-IsCleanArchive_example =
    bundle-IsCleanArchive (workdir (content (codes "x")) true) decodes shelf refl

ships : (evidence (workdir missing false) false [] shelf).0 ≡ err not_refreshed
unfolding evidence refresh_failed bundle of_fields part split join ◌==◌
ships = refl

evidence-ships_example :
    (false ≡ false)
    × ((s : Shelf ℕ) × ((bundle (workdir missing false) s).0 ≡ ok tt)
        × ((evidence (workdir missing false) false [] shelf).1.archive
            ≡ (bundle (workdir missing false) s).1.archive))
evidence-ships_example = evidence-ships (workdir missing false) false [] shelf ships

abbrev visits : List Visit
visits =
    visited (codes "candidate/notes") true 3
    ∷ visited (codes "candidate/link") false 3
    ∷ visited (codes "candidate/log") true 5000000
    ∷ []

abbrev left_out : List Skipped
left_out = not_regular (codes "candidate/link") ∷ too_large (codes "candidate/log") 5000000 ∷ []

abbrev open_shelf : Shelf ℕ
open_shelf = record shelf { draft = some [] }

abbrev packed_shelf : Shelf ℕ
packed_shelf = record shelf {
  world = 1;
  draft = some (record { name = codes "candidate/notes"; bytes = codes "x" } ∷ []);
}

add_visits-IsAccounted_example :
    All (IsAccounted (workdir (content (codes "x")) true) left_out packed_shelf) visits
unfolding add_visits ◌==◌
add_visits-IsAccounted_example =
    add_visits-IsAccounted (workdir (content (codes "x")) true) left_out packed_shelf visits
      open_shelf refl tt
