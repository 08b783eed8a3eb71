-- ===== src/Debug/Engine/Records.antt =====
-- What `Break` and `Up` leave on the record of injected faults.
use interviews.Base.{
  ◌≡◌, refl, sym, ap, ◌∙◌, subst, inl, inr, Bool, true, false, List, [], ◌∷◌, ◌++◌, Memᴰ, Option,
  none, some, Str, codes, elem, elem→mem, All, mem-append_left, mem-append_right, Bool-cases, ok,
  err, arith,
}
use interviews.Base.Exec.{◌>>◌, >>=-returns, >>=-raises, >>=-keeps}
use interviews.Debug.Scenario.{Fault, script_path}
use interviews.Debug.Engine.{
  Exit, Substrate, State, StateDoc, recorded, garbled, Machine, EngineError, inject_failed, is_pass,
  save_state, add_injected, give_up, is_err, write_failed, inject_all,
}

-- The faults that the state file names.
abbrev pub recorded_ids : Option StateDoc → List Str
recorded_ids none = []
recorded_ids (some garbled) = []
recorded_ids (some (recorded st)) = st.injected

abbrev pub IsOnRecord : {W : Type 0} → Machine W → Str → Type 0
IsOnRecord m id = Memᴰ id (recorded_ids m.state)

pub add_injected-keeps :
    (id new : Str) (st : State) → Memᴰ id st.injected → Memᴰ id (add_injected new st).injected
unfolding add_injected
add_injected-keeps id new st h = elim (Bool-cases (elem new st.injected)) [
  | inl e ↦ rw e h
  | inr e ↦ rw e (mem-append_left st.injected (new ∷ []) h)
]

pub add_injected-mem : (id : Str) (st : State) → Memᴰ id (add_injected id st).injected
unfolding add_injected
add_injected-mem id st = elim (Bool-cases (elem id st.injected)) [
  | inl e ↦ rw e (elem→mem id st.injected e)
  | inr e ↦ rw e (mem-append_right st.injected (Memᴰ.head refl))
]

module _ {W : Type 0} (b : Substrate W) where
  pub save_state-keeps :
      (id : Str) (st : State) (m : Machine W)
      → Memᴰ id st.injected
      → IsOnRecord m id
      → IsOnRecord ((save_state b st m).1) id
  unfolding save_state
  save_state-keeps id st m hs hm = elim (Bool-cases ((b.write_state m.world).0)) [
    | inl e ↦ rw e hs
    | inr e ↦ rw e hm
  ]

  pub save_state-returns :
      (st : State) (m : Machine W)
      → (save_state b st m).0 ≡ ok tt
      → (save_state b st m).1.state ≡ some (recorded st)
  unfolding save_state
  save_state-returns st m h = elim (Bool-cases ((b.write_state m.world).0)) [
    | inl e ↦ rw e refl
    | inr e ↦ ground (arith, e)
  ]

  give_up-keeps :
      (id name : Str) (exit : Exit) (st : State) (m : Machine W)
      → Memᴰ id st.injected
      → IsOnRecord m id
      → IsOnRecord ((give_up b name exit st m).1) id
  unfolding give_up
  give_up-keeps id name exit st m hs hm = save_state-keeps id st m hs hm

  abbrev inject : Fault → Machine W → Exit × W
  inject f m = b.run (script_path f (codes "inject.sh")) false m.world

  -- the machine that the inject script of `f` leaves
  abbrev injected : Fault → Machine W → Machine W
  injected f m = record m { world = (inject f m).1 }

  inject_all-passes :
      (f : Fault) (faults : List Fault) (st : State) (m : Machine W)
      → is_pass ((inject f m).0) ≡ true
      → inject_all b (f ∷ faults) st m
        ≡ (save_state b (add_injected f.spec.id st)
              >> inject_all b faults (add_injected f.spec.id st))
            (injected f m)
  unfolding inject_all
  inject_all-passes f faults st m e = rw e refl

  inject_all-fails :
      (f : Fault) (faults : List Fault) (st : State) (m : Machine W)
      → is_pass ((inject f m).0) ≡ false
      → inject_all b (f ∷ faults) st m ≡ give_up b f.spec.id ((inject f m).0) st (injected f m)
  unfolding inject_all
  inject_all-fails f faults st m e = rw e refl

  give_up-raises :
      (id : Str) (exit : Exit) (st : State) (m : Machine W)
      → (give_up b id exit st m).0 ≡ err (inject_failed id exit (is_err ((save_state b st m).0)))
  unfolding give_up
  give_up-raises id exit st m = refl

  save_state-raises :
      (st : State) (m : Machine W) {e : EngineError}
      → (save_state b st m).0 ≡ err e
      → e ≡ write_failed
  unfolding save_state
  save_state-raises st m h = elim (Bool-cases ((b.write_state m.world).0)) [
    | inl e ↦ ground (arith, e)
    | inr e ↦ ground (arith, e)
  ]

  pub inject_all-keeps :
      (id : Str) (faults : List Fault) (st : State) (m : Machine W)
      → Memᴰ id st.injected
      → IsOnRecord m id
      → IsOnRecord ((inject_all b faults st m).1) id
  unfolding inject_all
  inject_all-keeps id [] st m hs hm = hm
  inject_all-keeps id (f ∷ faults) st m hs hm =
      let st1 = add_injected f.spec.id st in
      let hs1 = add_injected-keeps id f.spec.id st hs in
      elim (Bool-cases (is_pass ((inject f m).0))) [
        | inl e ↦ rw (inject_all-passes f faults st m e) (
            >>=-keeps (λ m. IsOnRecord m id) (save_state b st1) (λ _. inject_all b faults st1)
              (injected f m) (save_state-keeps id st1 (injected f m) hs1 hm)
              (λ _ m2. inject_all-keeps id faults st1 m2 hs1))
        | inr e ↦
            rw (inject_all-fails f faults st m e)
              (give_up-keeps id f.spec.id ((inject f m).0) st (injected f m) hs hm)
      ]

  -- After a `Break` that returns, each fault of the pack is on the record.
  pub inject_all-records :
      (faults : List Fault) (st : State) (m : Machine W)
      → (inject_all b faults st m).0 ≡ ok tt
      → All (λ (f : Fault). IsOnRecord ((inject_all b faults st m).1) f.spec.id) faults
  inject_all-records [] st m h = tt
  inject_all-records (f ∷ faults) st m h =
      let st1 = add_injected f.spec.id st in
      elim (Bool-cases (is_pass ((inject f m).0))) [
        | inl e ↦
            let q = inject_all-passes f faults st m e in
            let (u, saved, went, same) =
              >>=-returns (save_state b st1) (λ _. inject_all b faults st1) (injected f m)
                (sym (ap (λ p. p.0) q) ∙ h) in
            let m2 = (save_state b st1 (injected f m)).1 in
            let here = add_injected-mem f.spec.id st in
            subst (λ r. All (λ (g : Fault). IsOnRecord (r.1) g.spec.id) (f ∷ faults))
              (sym (q ∙ same))
              (
                inject_all-keeps f.spec.id faults st1 m2 here (
                    subst (λ d. Memᴰ f.spec.id (recorded_ids d))
                      (sym (save_state-returns st1 (injected f m) saved)) here),
                inject_all-records faults st1 m2 went,
              )
        | inr e ↦ cc (
          h,
          inject_all-fails f faults st m e,
          give_up-raises f.spec.id ((inject f m).0) st (injected f m),
        )
      ]

  -- What a failed inject leaves: the faults before it, each on the record.
  pub record StoppedAt (faults : List Fault) (id : Str) (m : Machine W) : Type 0 where
    pub before : List Fault
    pub fault : Fault
    pub after : List Fault
    pub order : faults ≡ before ++ fault ∷ after
    pub named : fault.spec.id ≡ id
    pub landed : All (λ (f : Fault). IsOnRecord m f.spec.id) before

  pub inject_all-stops :
      (faults : List Fault) (st : State) (m : Machine W) (id : Str) (exit : Exit) (lost : Bool)
      → (inject_all b faults st m).0 ≡ err (inject_failed id exit lost)
      → StoppedAt faults id ((inject_all b faults st m).1)
  unfolding inject_all
  inject_all-stops [] st m id exit lost h = cc
  inject_all-stops (f ∷ faults) st m id exit lost h =
      let st1 = add_injected f.spec.id st in
      elim (Bool-cases (is_pass ((inject f m).0))) [
        | inl e ↦
            let q = inject_all-passes f faults st m e in
            elim (>>=-raises (save_state b st1) (λ _. inject_all b faults st1) (injected f m)
              (sym (ap (λ p. p.0) q) ∙ h)) [
                | inl unsaved ↦ cc (save_state-raises st1 (injected f m) unsaved)
                | inr (u, saved, went, same) ↦
                    let m2 = (save_state b st1 (injected f m)).1 in
                    let here = add_injected-mem f.spec.id st in
                    let rest = inject_all-stops faults st1 m2 id exit lost went in
                    subst (λ r. StoppedAt (f ∷ faults) id (r.1)) (sym (q ∙ same))
                      record {
                        before = f ∷ rest.before;
                        fault = rest.fault;
                        after = rest.after;
                        order = ap (λ fs. f ∷ fs) rest.order;
                        named = rest.named;
                        landed = (
                          inject_all-keeps f.spec.id faults st1 m2 here (
                              subst (λ d. Memᴰ f.spec.id (recorded_ids d))
                                (sym (save_state-returns st1 (injected f m) saved)) here),
                          rest.landed,
                        );
                      }
              ]
        | inr e ↦ record {
          before = [];
          fault = f;
          after = faults;
          order = refl;
          landed = tt;
          named = cc (
            h,
            inject_all-fails f faults st m e,
            give_up-raises f.spec.id ((inject f m).0) st (injected f m),
          );
        }
      ]
