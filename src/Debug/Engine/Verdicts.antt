-- ===== src/Debug/Engine/Verdicts.antt =====
-- What `Status` answers.
use interviews.Base.{◌≡◌, refl, ap, false, List, [], ◌∷◌, map, some, Str, codes, All, ok}
use interviews.Debug.Scenario.{Fault, script_path, find_fault}
use interviews.Debug.Engine.{
  Substrate, State, Machine, Engine, FaultStatus, verdict, check, check_all, status,
}
use interviews.Debug.Engine.Outcomes.{IsUp, live_state-up}

-- The scenario has the fault.
pub record IsKnown (e : Engine) (id : Str) : Type 0 where
  pub fault : Fault
  pub found : find_fault e.faults id ≡ some fault

abbrev pub status_ids : List FaultStatus → List Str
status_ids = map (λ (s : FaultStatus). s.id)

module _ {W : Type 0} (b : Substrate W) where
  -- The rows that `Status` returned, each with the verdict of its fault's own check script, run in the
  -- world that the checks before it left.
  pub data Rows (e : Engine) : List Str → W → List FaultStatus → W → Type 0 where
    no_rows : (w : W) → Rows e [] w [] w
    row :
        (id : Str) (ids : List Str) (f : Fault) (w w' : W) (rest : List FaultStatus)
        → find_fault e.faults id ≡ some f
        → Rows e ids ((b.run (script_path f (codes "check.sh")) false w).1) rest w'
        → Rows e
            (id ∷ ids)
            w
            (record {
              id = id;
              title = f.spec.title;
              tier = f.spec.tier;
              state = verdict ((b.run (script_path f (codes "check.sh")) false w).0);
            }
              ∷ rest)
            w'

  check_all-Rows :
      (e : Engine) (ids : List Str) (w : W)
      → All (IsKnown e) ids
      → (rows : List FaultStatus) × (w' : W) × (check_all b e ids w ≡ (ok rows, w'))
        × Rows e ids w rows w'
  unfolding check_all check
  check_all-Rows e [] w h = ([], w, refl, no_rows w)
  check_all-Rows e (id ∷ ids) w (k, h) =
      let f = k.fault in
      let r = b.run (script_path f (codes "check.sh")) false w in
      let (rest, w', q, rows) = check_all-Rows e ids (r.1) h in
      (_, w', rw (k.found, check_all) (rw q refl), row id ids f w w' rest k.found rows)

  Rows-ids :
      (e : Engine) {ids : List Str} {w w' : W} {rows : List FaultStatus}
      → Rows e ids w rows w'
      → status_ids rows ≡ ids
  Rows-ids e (no_rows w) = refl
  Rows-ids e (row id ids f w w' rest found rows) = ap (λ l. id ∷ l) (Rows-ids e rows)

  -- Where the scenario has each fault on the record of a live environment, `Status` returns a row for each of
  -- them in the order of the record, each with the verdict of the fault's own check script run after the checks
  -- before it, and leaves the record as it is.
  pub status-Rows :
      (e : Engine) (m : Machine W) (st : State)
      → IsUp m st
      → All (IsKnown e) st.injected
      → (rows : List FaultStatus) × (w' : W) × (status b e m ≡ (ok rows, record m { world = w' }))
        × (status_ids rows ≡ st.injected)
        × Rows e st.injected m.world rows w'
  unfolding status
  status-Rows e m st h known =
      let (rows, w', q, all) = check_all-Rows e st.injected m.world known in
      (rows, w', rw (live_state-up b m st h) (rw q refl), Rows-ids e all, all)
