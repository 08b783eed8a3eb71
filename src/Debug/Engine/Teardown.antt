-- ===== src/Debug/Engine/Teardown.antt =====
-- What `Down` leaves of a workdir.
use interviews.Base.{
  ◌≡◌, refl, sym, ap, ◌∙◌, subst, inl, inr, true, false, not, List, [], ◌∷◌, keep, some, Str, codes,
  ◌==◌, Bool-cases, Result, ok,
}
use interviews.Base.Exec.{◌>>=◌, ◌>>◌, >>=-returns}
use interviews.Interview.Store.{Time}
use interviews.Debug.Engine.{
  Entry, Substrate, State, StateDoc, recorded, Machine, Engine, EngineError, on_world, save_state,
  load_state, remove_each, engine_owned, stamp, kept_names, clear_away, Listing, not_there,
  unlistable, listable, report_of, report, sweep, tear_down, down,
}
use interviews.Debug.Engine.Records.{save_state-returns}
use interviews.Debug.Engine.Outcomes.{IsUp}

-- `os.RemoveAll` of a name in the workdir takes that entry away and no other, and a workdir that is not there has none.
pub record HasFiles {W : Type 0} (b : Substrate W) : Type 0 where
  pub removes :
      (name : Str) (w : W)
      → (b.remove name w).0 ≡ true
      → b.entries ((b.remove name w).1) ≡ keep (λ (e : Entry). not (e.name == name)) (b.entries w)
  pub none_there : (w : W) → b.listing w ≡ not_there → b.entries w ≡ []
  pub writes : (w : W) → b.entries ((b.write_state w).1) ≡ b.entries w

-- The session's own files: all but what `Up` puts there.
pub evidence : List Entry → List Entry
evidence entries =
    keep (λ (e : Entry). not (e.name == codes "kubeconfig"))
      (keep (λ (e : Entry). not (e.name == codes "rendered")) entries)

ok-inj : {x y : List Str} → Path (Result EngineError (List Str)) (ok x) (ok y) → x ≡ y
ok-inj h = cc

module _ {W : Type 0} (b : Substrate W) (files : HasFiles b) where
  clear_away-some :
      (m : Machine W) (d : StateDoc) (kept : List Str)
      → m.state ≡ some d
      → clear_away b kept m ≡ (ok kept, m)
  unfolding clear_away
  clear_away-some m d [] h = rw h refl
  clear_away-some m d (k ∷ ks) h = refl

  remove_each-owned :
      (w : W)
      → (remove_each b engine_owned w).0 ≡ ok tt
      → b.entries ((remove_each b engine_owned w).1) ≡ evidence (b.entries w)
  unfolding evidence
  remove_each-owned w = elim (Bool-cases ((b.remove (codes "rendered") w).0)) [
    | inl q ↦
        rw q
          (elim (Bool-cases
            ((b.remove (codes "kubeconfig") ((b.remove (codes "rendered") w).1)).0)) [
              | inl r ↦ rw r (λ h.
                  files.removes (codes "kubeconfig") ((b.remove (codes "rendered") w).1) r
                  ∙ ap (keep (λ (e : Entry). not (e.name == codes "kubeconfig")))
                      (files.removes (codes "rendered") w q))
              | inr r ↦ rw r (λ h. cc)
            ])
    | inr q ↦ rw q (λ h. cc)
  ]

  tear_down-world : (w : W) → (tear_down b w).1 ≡ (b.provider_down w).1
  tear_down-world w = elim (Bool-cases ((b.provider_down w).0)) [
    | inl q ↦ rw q refl
    | inr q ↦ rw q refl
  ]

  stamps :
      (m : Machine W) (st : State)
      → IsUp m st
      → (load_state b >>= stamp b) m ≡ save_state b (record st { torn_down_at = b.now m.world }) m
  stamps m st h = rw h.on_disk (rw h.live refl)

  save_state-entries :
      (st : State) (m : Machine W) → b.entries (((save_state b st m).1).world) ≡ b.entries m.world
  unfolding save_state
  save_state-entries st m = elim (Bool-cases ((b.write_state m.world).0)) [
    | inl q ↦ rw q (files.writes m.world)
    | inr q ↦ rw q (files.writes m.world)
  ]

  -- What a teardown leaves, from the world that the provider's teardown left.
  pub record Left (st : State) (w : W) (kept : List Str) (m : Machine W) : Type 0 where
    pub at : Time
    pub timed : at ≡ b.now ((remove_each b engine_owned w).1)
    pub stamped : m.state ≡ some (recorded (record st { torn_down_at = at }))
    pub spared : b.entries m.world ≡ evidence (b.entries w)
    pub named : kept ≡ kept_names (evidence (b.entries w))

  report-Left :
      (m : Machine W) (st : State) (w : W) (kept : List Str) (t : Time)
      → t ≡ b.now ((remove_each b engine_owned w).1)
      → m.state ≡ some (recorded (record st { torn_down_at = t }))
      → b.entries m.world ≡ evidence (b.entries w)
      → (report b m).0 ≡ ok kept
      → Left st w kept ((report b m).1)
  unfolding report report_of
  report-Left m st w kept t timed on_disk spared h = go (b.listing m.world) refl h
    where
      left : kept ≡ kept_names (b.entries m.world) → Left st w kept m
      left named = record {
        at = t;
        timed = timed;
        stamped = on_disk;
        spared = spared;
        named = named ∙ ap kept_names spared;
      }

      go :
          (l : Listing)
          → b.listing m.world ≡ l
          → (report_of b l m).0 ≡ ok kept
          → Left st w kept ((report_of b l m).1)
      go not_there q k = left (sym (ok-inj k) ∙ ap kept_names (sym (files.none_there m.world q)))
      go unlistable q k = cc
      go listable q k =
          let d = recorded (record st { torn_down_at = t }) in
          let s = clear_away-some m d (kept_names (b.entries m.world)) on_disk in
          subst (λ r. Left st w kept (r.1)) (sym s)
            (left (sym (ok-inj (sym (ap (λ r. r.0) s) ∙ k))))

  sweep-Left :
      (m : Machine W) (st : State) (kept : List Str)
      → IsUp m st
      → (sweep b m).0 ≡ ok kept
      → Left st m.world kept ((sweep b m).1)
  unfolding sweep
  sweep-Left m st kept up h =
      let (_, gone, h1, q1) =
        >>=-returns (on_world (remove_each b engine_owned))
          (λ _. (load_state b >>= stamp b) >> report b) m h in
      let m1 = (on_world (remove_each b engine_owned) m).1 in
      let (_, done, h2, q2) = >>=-returns (load_state b >>= stamp b) (λ _. report b) m1 h1 in
      let st' = record st { torn_down_at = b.now m1.world } in
      let q3 = stamps m1 st record { on_disk = up.on_disk; live = up.live } in
      let m2 = ((load_state b >>= stamp b) m1).1 in
      let on_disk =
        ap (λ r. (r.1).state) q3 ∙ save_state-returns b st' m1 (sym (ap (λ r. r.0) q3) ∙ done) in
      let spared =
        ap (λ r. b.entries ((r.1).world)) q3
        ∙ save_state-entries st' m1
        ∙ remove_each-owned m.world gone in
      subst (λ r. Left st m.world kept (r.1)) (sym (q1 ∙ q2))
        (report-Left m2 st m.world kept (b.now m1.world) refl on_disk spared h2)

  -- A `Down` without purge that returns, over the record of a live environment, keeps the record but for the
  -- time of the teardown, which is the clock's once the environment's files are removed, takes from the entries that the provider's teardown left only what `Up` put there,
  -- and returns the names of those that are not empty directories.
  pub down-keeps :
      (e : Engine) (m : Machine W) (st : State) (kept : List Str)
      → IsUp m st
      → (down b e false m).0 ≡ ok kept
      → Left st ((b.provider_down m.world).1) kept ((down b e false m).1)
  unfolding down
  down-keeps e m st kept up h =
      let (_, gone, h1, q1) = >>=-returns (on_world (tear_down b)) (λ _. sweep b) m h in
      let m1 = (on_world (tear_down b) m).1 in
      subst (λ r. Left st ((b.provider_down m.world).1) kept (r.1)) (sym q1)
        (subst (λ w. Left st w kept ((sweep b m1).1)) (tear_down-world m.world)
          (sweep-Left m1 st kept record { on_disk = up.on_disk; live = up.live } h1))
