-- ===== src/Content/Manifest/Timed.antt =====
-- What a manifest without issues says of its time.
use interviews.Base.{
  note_if, append-silent, note_if-silent, note_if-silent_not, ℕ, zero, ◌<◌, ◌≡◌, refl, subst, inl,
  inr, ◌≢◌, Bool, true, false, not, [], Str, ◌==◌, ==→eq, ==_refl, ◌=?◌, leb, ap, =?_iff,
  Bool-cases, arith,
}
use interviews.Content.Taxonomy.{debugging, valid_type}
use interviews.Content.Manifest.{
  Hours, units, minus_units, endless, bottomless, not_a_number, is_none_left, is_set, no_minutes,
  TimeSpec, time_issues, needs_minutes, needs_hours, uses_minutes, uses_hours,
}

-- Hours that are above zero, or no number.
pub data IsBudget : Hours → Type 0 where
  some_units : (n : ℕ) → zero < n → IsBudget (units n)
  no_end : IsBudget endless
  no_number : IsBudget not_a_number

-- One of the two times, as the type has it.
pub data IsTimed (kind : Str) (t : TimeSpec) : Type 0 where
  live :
      kind ≡ debugging
      → no_minutes < t.session_minutes
      → t.soft_budget_hours ≡ units 0
      → IsTimed kind t
  offline :
      kind ≢ debugging
      → IsBudget t.soft_budget_hours
      → t.session_minutes ≡ no_minutes
      → IsTimed kind t

not-zero : (n : ℕ) → (n =? 0) ≡ false → zero < n
not-zero n h = ground arith

not_set : (h : Hours) → is_set h ≡ false → h ≡ units 0
not_set (units n) e = ap units ((=?_iff n 0).0 (not_false (n =? 0) e))
  where
    not_false : (b : Bool) → not b ≡ false → b ≡ true
    not_false true e = refl
    not_false false e = cc
not_set (minus_units n) e = cc
not_set endless e = cc
not_set bottomless e = cc
not_set not_a_number e = cc

some_left : (h : Hours) → is_none_left h ≡ false → IsBudget h
some_left (units n) e = some_units n (not-zero n e)
some_left (minus_units n) e = cc
some_left endless e = no_end
some_left bottomless e = cc
some_left not_a_number e = no_number

above : (a b : ℕ) → leb a b ≡ false → b < a
above a b e = ground arith

pub time_issues-nil :
    (kind : Str) (t : TimeSpec) → valid_type kind ≡ true → time_issues kind t ≡ [] → IsTimed kind t
time_issues-nil kind t v = elim (Bool-cases (kind == debugging)) [
  | inl e ↦ rw e (λ h.
      let (a, b) =
        append-silent (note_if (leb t.session_minutes no_minutes) needs_minutes)
          (note_if (is_set t.soft_budget_hours) uses_minutes) h in
      live (==→eq kind debugging e)
        (above t.session_minutes no_minutes
          (note_if-silent (leb t.session_minutes no_minutes) needs_minutes a))
        (not_set t.soft_budget_hours (note_if-silent (is_set t.soft_budget_hours) uses_minutes b)))
  | inr e ↦ rw e (
      rw v (λ h.
        let (a, b) =
          append-silent (note_if (is_none_left t.soft_budget_hours) needs_hours)
            (note_if (not (t.session_minutes =? no_minutes)) uses_hours) h in
        offline (λ q. ground (arith, e, subst (λ s. (kind == s) ≡ true) q (==_refl kind)))
          (some_left t.soft_budget_hours
            (note_if-silent (is_none_left t.soft_budget_hours) needs_hours a))
          ((=?_iff t.session_minutes no_minutes).0
            (note_if-silent_not (t.session_minutes =? no_minutes) uses_hours b))))
]
