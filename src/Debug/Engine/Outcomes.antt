-- ===== src/Debug/Engine/Outcomes.antt =====
-- The commands of an environment that is up, and of one that was torn down.
use interviews.Base.{
  ℕ, ◌≡◌, refl, sym, ap, ◌∙◌, subst, Bool, true, false, Memᴰ, none, some, Str, ==_refl, All, ok,
  err,
}
use interviews.Base.Exec.{>>=-returns}
use interviews.Debug.Scenario.{Fault, pack_faults}
use interviews.Debug.Engine.{
  Exit, Substrate, State, recorded, Machine, Engine, inject_failed, torn_down, is_live, on_world,
  live_state, bring_up, fresh, record_up, up, save_state, inject_all, break, status, fix,
}
use interviews.Debug.Engine.Records.{
  recorded_ids, IsOnRecord, save_state-returns, inject_all-keeps, inject_all-records, StoppedAt,
  inject_all-stops,
}

-- The state file records an environment that exists.
pub record IsUp {W : Type 0} (m : Machine W) (st : State) : Type 0 where
  pub on_disk : m.state ≡ some (recorded st)
  pub live : is_live st ≡ true

pub record IsTornDown {W : Type 0} (m : Machine W) (st : State) : Type 0 where
  pub on_disk : m.state ≡ some (recorded st)
  pub dead : is_live st ≡ false

module _ {W : Type 0} (b : Substrate W) where
  pub live_state-up : (m : Machine W) (st : State) → IsUp m st → live_state b m ≡ (ok st, m)
  live_state-up m st h = rw h.on_disk (rw h.live refl)

  live_state-torn_down :
      (m : Machine W) (st : State)
      → IsTornDown m st
      → live_state b m ≡ (err (torn_down st.torn_down_at), m)
  live_state-torn_down m st h = rw h.on_disk (rw h.dead refl)

  break-up :
      (e : Engine) (m : Machine W) (st : State)
      → IsUp m st
      → break b e m ≡ inject_all b (pack_faults e.faults st.pack) st m
  unfolding break
  break-up e m st h = rw (live_state-up m st h) refl

  -- A fault that is on record before a `Break` of a live environment is on record after it, whatever fails.
  pub break-keeps :
      (e : Engine) (m : Machine W) (st : State) (id : Str)
      → IsUp m st
      → IsOnRecord m id
      → IsOnRecord ((break b e m).1) id
  break-keeps e m st id h r =
      subst (λ r. IsOnRecord (r.1) id) (sym (break-up e m st h))
        (inject_all-keeps b id (pack_faults e.faults st.pack) st m
          (subst (λ d. Memᴰ id (recorded_ids d)) h.on_disk r) r)

  -- A `Break` of a live environment that returns leaves each fault of the pack on record.
  pub break-lands :
      (e : Engine) (m : Machine W) (st : State)
      → IsUp m st
      → (break b e m).0 ≡ ok tt
      → All (λ (f : Fault). IsOnRecord ((break b e m).1) f.spec.id) (pack_faults e.faults st.pack)
  break-lands e m st h done =
      let q = break-up e m st h in
      subst (λ r. All (λ (f : Fault). IsOnRecord (r.1) f.spec.id) (pack_faults e.faults st.pack))
        (sym q)
        (inject_all-records b (pack_faults e.faults st.pack) st m (sym (ap (λ r. r.0) q) ∙ done))

  -- A `Break` of a live environment that reports a failed inject names a fault of the pack and leaves those
  -- before it on record.
  pub break-stops :
      (e : Engine) (m : Machine W) (st : State) (id : Str) (exit : Exit) (lost : Bool)
      → IsUp m st
      → (break b e m).0 ≡ err (inject_failed id exit lost)
      → StoppedAt b (pack_faults e.faults st.pack) id ((break b e m).1)
  break-stops e m st id exit lost h failed =
      let q = break-up e m st h in
      subst (λ r. StoppedAt b (pack_faults e.faults st.pack) id (r.1)) (sym q)
        (inject_all-stops b (pack_faults e.faults st.pack) st m id exit lost
          (sym (ap (λ r. r.0) q) ∙ failed))

  -- Once an environment is torn down, `Break`, `Status` and `Fix` fail with the time of the teardown and
  -- leave the world and the record as they are.
  pub torn_down_lem :
      (e : Engine) (m : Machine W) (st : State) (id : Str)
      → IsTornDown m st
      → (break b e m ≡ (err (torn_down st.torn_down_at), m))
        × (status b e m ≡ (err (torn_down st.torn_down_at), m))
        × (fix b e id m ≡ (err (torn_down st.torn_down_at), m))
  unfolding break status fix
  torn_down_lem e m st id h =
      let q = live_state-torn_down m st h in (rw q refl, rw q refl, rw q refl)

  record_up-up :
      (e : Engine) (m : Machine W) (st : State)
      → IsUp m st
      → e.pack ≡ some st.pack
      → record_up b e m
        ≡ save_state b
            (record (fresh b e st.pack none (b.now m.world)) { injected = st.injected })
            m
  unfolding record_up
  record_up-up e m st h p = rw p (rw h.on_disk (rw h.live (rw (==_refl st.pack) refl)))

  -- An `Up` that returns, over the record of a live environment of the same pack, records the same injected
  -- faults and a live environment.
  pub up-carries :
      (e : Engine) (fuel : ℕ) (m : Machine W) (st : State)
      → IsUp m st
      → e.pack ≡ some st.pack
      → (up b e fuel m).0 ≡ ok tt
      → (st' : State) × IsUp ((up b e fuel m).1) st' × (st'.injected ≡ st.injected)
  unfolding up
  up-carries e fuel m st h p done =
      let (_, _, went, same) =
        >>=-returns (on_world (bring_up b e fuel)) (λ _. record_up b e) m done in
      let m1 = (on_world (bring_up b e fuel) m).1 in
      let st1 = record (fresh b e st.pack none (b.now m1.world)) { injected = st.injected } in
      let q = record_up-up e m1 st record { on_disk = h.on_disk; live = h.live } p in
      let saved = save_state-returns b st1 m1 (sym (ap (λ r. r.0) q) ∙ went) in
      (st1, record { on_disk = ap (λ r. (r.1).state) (same ∙ q) ∙ saved; live = refl }, refl)
