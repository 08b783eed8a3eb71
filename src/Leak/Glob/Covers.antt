-- ===== src/Leak/Glob/Covers.antt =====
-- What a glob means: `**` stands for any run of whole segments, every other segment for one.
use mathlib.Core.Logic.{◌↔◌}
use interviews.Base.{
  ◌≡◌, refl, ap, ◌≢◌, inl, inr, true, List, [], ◌∷◌, ◌++◌, Str, arith, ◌==◌, ==→eq, ==_refl,
  Bool-cases,
}
use interviews.Leak.Glob.{stars, seg_match, match_segs}

pub data Covers : List Str → List Str → Type 0 where
  done : Covers [] []
  run :
      {p : Str} {pat name whole : List Str} (skipped : List Str)
      → p ≡ stars
      → whole ≡ skipped ++ name
      → Covers pat name
      → Covers (p ∷ pat) whole
  one :
      {p n : Str} {pat name : List Str}
      → p ≢ stars
      → seg_match p n ≡ true
      → Covers pat name
      → Covers (p ∷ pat) (n ∷ name)

more :
    {p n : Str} {pat name : List Str}
    → p ≡ stars
    → Covers (p ∷ pat) name
    → Covers (p ∷ pat) (n ∷ name)
more {n} e (run skipped q w c) = run (n ∷ skipped) q (ap (λ (l : List Str). n ∷ l) w) c
more e (one ne h c) = absurd (ne e)

match_segs→Covers : (pat name : List Str) → match_segs pat name ≡ true → Covers pat name
unfolding match_segs
match_segs→Covers [] [] h = done
match_segs→Covers [] (n ∷ name) h = ground arith
match_segs→Covers (p ∷ pat) [] h = elim (Bool-cases (p == stars)) [
  | inl e ↦ run [] (==→eq p stars e) refl (match_segs→Covers pat [] (rw e at h))
  | inr e ↦ absurd (ground arith)
]
match_segs→Covers (p ∷ pat) (n ∷ name) h = elim (Bool-cases (p == stars)) [
  | inl e ↦ elim (Bool-cases (match_segs pat (n ∷ name))) [
    | inl here ↦ run [] (==→eq p stars e) refl (match_segs→Covers pat (n ∷ name) here)
    | inr gone ↦ more (==→eq p stars e) (match_segs→Covers (p ∷ pat) name (ground arith))
  ]
  | inr e ↦
      one (λ q. ground (arith, ap (λ (t : Str). t == stars) q, ==_refl stars)) (ground arith)
        (match_segs→Covers pat name (ground arith))
]

-- A run is found whatever its length.
match_segs-run :
    (p : Str) (pat name skipped : List Str)
    → (p == stars) ≡ true
    → match_segs pat name ≡ true
    → match_segs (p ∷ pat) (skipped ++ name) ≡ true
unfolding match_segs
match_segs-run p pat [] [] e h = rw e h
match_segs-run p pat (n ∷ name) [] e h = rw (e, h)
match_segs-run p pat name (s ∷ skipped) e h = ground (arith, match_segs-run p pat name skipped e h)

Covers→match_segs : {pat name : List Str} → Covers pat name → match_segs pat name ≡ true
unfolding match_segs
Covers→match_segs done = refl
Covers→match_segs (run {p} {pat} {name} skipped e w c) =
    rw w (match_segs-run p pat name skipped (rw e (==_refl stars)) (Covers→match_segs c))
Covers→match_segs (one {p} {n} {pat} {name} ne h c) = elim (Bool-cases (p == stars)) [
  | inl e ↦ absurd (ne (==→eq p stars e))
  | inr e ↦ rw (e, h) (Covers→match_segs c)
]

-- `matchSegs` answers true exactly when the segments of the pattern cover those of the name: a
-- `**` any run of whole segments, every other segment one segment that `path.Match` accepts.
pub match_segs_iff : (pat name : List Str) → (match_segs pat name ≡ true) ↔ Covers pat name
match_segs_iff pat name = (match_segs→Covers pat name, Covers→match_segs)
