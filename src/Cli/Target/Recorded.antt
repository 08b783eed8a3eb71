-- ===== src/Cli/Target/Recorded.antt =====
-- The variant that a command acts on, when its environment recorded overrides of its own.
use interviews.Base.{
  ◌≡◌, refl, sym, ◌∙◌, ap, subst, ◌⊎◌, inl, inr, true, List, [], ◌∷◌, Option, none, some,
  Option-cases, Str, if_rule, Result, ok, err,
}
use interviews.Content.Params.{Value}
use interviews.Variant.{ResolveError, lookup, resolve}
use interviews.Cli.Target.{
  TargetError, Overrides, copy_into, same_entries, Variant, Site, as_variant, variant_of, or_kept,
  with_recorded,
}
use interviews.Cli.Target.Maps.{lookup-copy_into, same_entries-lookup, AreKeyed}

module _ {P I : Type 0} (c : Site P I) where
  -- What is given by flag wins; for the rest what the environment recorded holds, unless the problem no longer
  -- resolves with it.
  pub record Combines (id : Str) (p : P) (seed dir : Str) (o : Overrides) (u : Variant)
      : Type 0 where
    pub wins : (j v : Str) → lookup o j ≡ some v → lookup u.overrides j ≡ some v
    pub keeps :
        (r : Overrides)
        → c.recorded dir ≡ some r
        → ((j : Str) → lookup o j ≡ none → lookup u.overrides j ≡ lookup r j)
          ⊎ ((e : ResolveError) × (resolve c.sources id (c.specs p) seed (copy_into r o) ≡ err e))

  module _ (id : Str) (p : P) (seed : Str) (o : Overrides) (keyed : AreKeyed o) where
    abbrev pub IsVariant : Variant → Type 0
    IsVariant u = resolve c.sources id (c.specs p) seed u.overrides ≡ ok u.params

    variant_of-ok :
        (m : Overrides) (v : Variant)
        → variant_of c id p seed m ≡ ok v
        → IsVariant v × (v.overrides ≡ m)
    variant_of-ok m v = go (resolve c.sources id (c.specs p) seed m) refl
      where
        variant-inj : {a b : Variant} → ◌≡◌ {A = Result TargetError Variant} (ok a) (ok b) → a ≡ b
        variant-inj h = cc

        go :
            (r : Result ResolveError (List (Str × Value)))
            → resolve c.sources id (c.specs p) seed m ≡ r
            → as_variant c id seed m r ≡ ok v
            → (resolve c.sources id (c.specs p) seed v.overrides ≡ ok v.params) × (v.overrides ≡ m)
        go (err e) q h = cc
        go (ok params) q h =
            subst
              (λ (u : Variant).
                (resolve c.sources id (c.specs p) seed u.overrides ≡ ok u.params)
                × (u.overrides ≡ m))
              (variant-inj h) (q, refl)

    merged-wins :
        (r : Overrides) (j v : Str) → lookup o j ≡ some v → lookup (copy_into r o) j ≡ some v
    merged-wins r j v h = lookup-copy_into r o j keyed ∙ rw h refl

    merged-keeps :
        (r : Overrides) (j : Str) → lookup o j ≡ none → lookup (copy_into r o) j ≡ lookup r j
    merged-keeps r j h = lookup-copy_into r o j keyed ∙ rw h refl

    -- equal maps add nothing
    same-keeps :
        (r : Overrides) (j : Str)
        → same_entries (copy_into r o) o ≡ true
        → lookup o j ≡ none
        → lookup o j ≡ lookup r j
    same-keeps r j e h = elim (Option-cases (lookup r j)) [
      | inl n ↦ h ∙ sym n
      | inr (w, q) ↦ cc (same_entries-lookup (copy_into r o) o j w e (merged-keeps r j h ∙ q), h)
    ]

    variant_of-fails :
        (m : Overrides) (e : TargetError)
        → variant_of c id p seed m ≡ err e
        → (x : ResolveError) × (resolve c.sources id (c.specs p) seed m ≡ err x)
    variant_of-fails m e = go (resolve c.sources id (c.specs p) seed m) refl
      where
        go :
            (r : Result ResolveError (List (Str × Value)))
            → resolve c.sources id (c.specs p) seed m ≡ r
            → as_variant c id seed m r ≡ err e
            → (x : ResolveError) × (resolve c.sources id (c.specs p) seed m ≡ err x)
        go (err x) q h = (x, q)
        go (ok params) q h = cc

    Wins : Variant → Type 0
    Wins u = (j v : Str) → lookup o j ≡ some v → lookup u.overrides j ≡ some v

    Keeps : Variant → Overrides → Type 0
    Keeps u r =
        ((j : Str) → lookup o j ≡ none → lookup u.overrides j ≡ lookup r j)
        ⊎ ((e : ResolveError) × (resolve c.sources id (c.specs p) seed (copy_into r o) ≡ err e))

    Outcome : Overrides → Variant → Type 0
    Outcome r u = IsVariant u × Wins u × Keeps u r

    own-Wins : (v : Variant) → v.overrides ≡ o → Wins v
    unfolding Wins
    own-Wins v q j w h = ap (λ m. lookup m j) q ∙ h

    or_kept-Outcome :
        (v : Variant) (r : Overrides) (x : Result TargetError Variant)
        → variant_of c id p seed (copy_into r o) ≡ x
        → IsVariant v
        → v.overrides ≡ o
        → Outcome r (or_kept c v x)
    unfolding Outcome Wins Keeps
    or_kept-Outcome v r (ok u) h i q =
        let (made, same) = variant_of-ok (copy_into r o) u h in
        (
          made,
          (λ j w k. ap (λ m. lookup m j) same ∙ merged-wins r j w k),
          inl (λ j k. ap (λ m. lookup m j) same ∙ merged-keeps r j k),
        )
    or_kept-Outcome v r (err e) h i q =
        (i, own-Wins v q, inr (variant_of-fails (copy_into r o) e h))

    recorded-Outcome :
        (v : Variant) (r : Overrides)
        → IsVariant v
        → v.overrides ≡ o
        → Outcome r (with_recorded c id p seed o v (some r))
    unfolding with_recorded Outcome Wins Keeps lookup
    recorded-Outcome v [] i q = (i, own-Wins v q, inl (λ j k. ap (λ m. lookup m j) q ∙ k))
    recorded-Outcome v (e ∷ es) i q =
        if_rule (λ u. Outcome (e ∷ es) u) (same_entries (copy_into (e ∷ es) o) o) _ _
          (λ b. (i, own-Wins v q, inl (λ j k. ap (λ m. lookup m j) q ∙ same-keeps (e ∷ es) j b k)))
          (λ b. or_kept-Outcome v (e ∷ es) (variant_of c id p seed (copy_into (e ∷ es) o)) refl i q)

    pub with_recorded-lem :
        (dir : Str) (v : Variant) (x : Option Overrides)
        → variant_of c id p seed o ≡ ok v
        → c.recorded dir ≡ x
        → IsVariant (with_recorded c id p seed o v x)
          × Combines id p seed dir o (with_recorded c id p seed o v x)
    unfolding with_recorded Outcome Wins Keeps
    with_recorded-lem dir v none h q =
        let (i, same) = variant_of-ok o v h in
        (i, record { wins = own-Wins v same; keeps = λ r k. cc })
    with_recorded-lem dir v (some r) h q =
        let (i, same) = variant_of-ok o v h in
        let (made, wins, keeps) = recorded-Outcome v r i same in
        (
          made,
          record {
            wins = wins;
            keeps = λ r' k.
                subst (λ s. Keeps (with_recorded c id p seed o v (some r)) s) (some-inj (sym q ∙ k))
                  keeps;
          },
        )
      where
        some-inj : {a b : Overrides} → some a ≡ some b → a ≡ b
        some-inj h = cc
