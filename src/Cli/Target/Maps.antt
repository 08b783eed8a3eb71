-- ===== src/Cli/Target/Maps.antt =====
-- Overrides are looked up as in a map.
use interviews.Base.{
  ◌≡◌, refl, sym, ◌∙◌, ap, subst, inl, inr, arith, Bool, true, false, &&_true, List, [], ◌∷◌, all,
  Option, none, some, Str, ◌==◌, ==_iff, ==→eq, Bool-cases, Result, ok, err, if◌then◌else◌,
  >>=-eq-ok,
}
use interviews.Variant.{lookup}
use interviews.Cli.Target.{
  TargetError, bad_override, Overrides, cut, put, taken, parse_overrides, copy_into, is_value,
  same_entries,
}

pub lookup-put :
    (k v j : Str) (m : Overrides) → lookup (put k v m) j ≡ (if k == j then some v else lookup m j)
unfolding lookup put
lookup-put k v j [] = refl
lookup-put k v j ((i, w) ∷ m) =
    ground (arith, ==_iff k j, ==_iff k i, ==_iff i j, lookup-put k v j m)

-- No key stands twice.
abbrev pub AreKeyed : Overrides → Type 0
AreKeyed [] = Unit
AreKeyed ((k, v) ∷ m) = (lookup m k ≡ none) × AreKeyed m

put-AreKeyed : (k v : Str) (m : Overrides) → AreKeyed m → AreKeyed (put k v m)
unfolding put lookup
put-AreKeyed k v [] h = (refl, tt)
put-AreKeyed k v ((j, w) ∷ m) (n, h) = elim (Bool-cases (k == j)) [
  | inl e ↦ rw e (rw (==→eq k j e) n, h)
  | inr e ↦ rw e (lookup-put k v j m ∙ rw e n, put-AreKeyed k v m h)
]

abbrev pub or_else : Option Str → Option Str → Option Str
or_else none o = o
or_else (some v) o = some v

-- What is copied wins over what was there.
pub lookup-copy_into :
    (dst src : Overrides) (j : Str)
    → AreKeyed src
    → lookup (copy_into dst src) j ≡ or_else (lookup src j) (lookup dst j)
unfolding copy_into lookup
lookup-copy_into dst [] j h = refl
lookup-copy_into dst ((k, v) ∷ src) j (n, h) =
    lookup-copy_into (put k v dst) src j h
    ∙ rw (lookup-put k v j dst) (elim (Bool-cases (k == j)) [
      | inl e ↦ rw e (rw (← ==→eq k j e) (rw n refl))
      | inr e ↦ rw e refl
    ])

overrides-inj : (a b : Overrides) → ◌≡◌ {A = Result TargetError Overrides} (ok a) (ok b) → a ≡ b
overrides-inj a b e = cc

pub parse_overrides-AreKeyed :
    (ps : List Str) (out o : Overrides) → parse_overrides ps out ≡ ok o → AreKeyed out → AreKeyed o
unfolding parse_overrides
parse_overrides-AreKeyed [] out o e h = subst AreKeyed (overrides-inj out o e) h
parse_overrides-AreKeyed (p ∷ ps) out o e h =
    let (out', e1, e2) = >>=-eq-ok (taken p (cut p) out) (parse_overrides ps) e in
    parse_overrides-AreKeyed ps out' o e2 (step (cut p) out' e1)
  where
    step : (c : Option (Str × Str)) (out' : Overrides) → taken p c out ≡ ok out' → AreKeyed out'
    step none out' q = cc
    step (some (k, v)) out' q = put_or (k == []) q
      where
        put_or :
            (b : Bool)
            → (if b then err (bad_override p) else ok (put k v out)) ≡ ok out'
            → AreKeyed out'
        put_or true q = cc
        put_or false q =
            subst AreKeyed (overrides-inj (put k v out) out' q) (put-AreKeyed k v out h)

-- Equal maps give the same values.
all-lookup :
    (m o : Overrides) (j w : Str)
    → all (λ ((k, v) : Str × Str). is_value v (lookup o k)) m ≡ true
    → lookup m j ≡ some w
    → lookup o j ≡ some w
unfolding lookup
all-lookup [] o j w a h = cc
all-lookup ((k, v) ∷ m) o j w a h =
    let (first, rest) = &&_true (is_value v (lookup o k)) (all _ m) a in
    elim (Bool-cases (k == j)) [
      | inl e ↦ value (lookup o j) (rw (← ==→eq k j e) first) (rw e at h)
      | inr e ↦ all-lookup m o j w rest (rw e at h)
    ]
  where
    value : (x : Option Str) → is_value v x ≡ true → some v ≡ some w → x ≡ some w
    value none q r = cc
    value (some u) q r = ap (λ (t : Str). some t) (sym (==→eq v u q)) ∙ r

pub same_entries-lookup :
    (m o : Overrides) (j w : Str)
    → same_entries m o ≡ true
    → lookup m j ≡ some w
    → lookup o j ≡ some w
unfolding same_entries
same_entries-lookup m o j w e h = all-lookup m o j w ((&&_true _ _ e).1) h
