-- ===== src/Leak/Path/Idem.antt =====
-- `path.Clean` changes nothing in a path that it has cleaned.
use mathlib.Core.List.{foldl, foldl-append, reverse, reverse-cons, reverse-reverse}
use interviews.Base.{
  ℕ, ◌≡◌, refl, sym, ap, ◌∙◌, inl, inr, Bool, true, false, List, [], ◌∷◌, ◌++◌, Str, arith, ◌==◌,
  ==→eq, ==_refl, ◌=?◌, All, All-append, Bool-cases,
}
use interviews.Leak.Path.{
  slash, push_byte, split, join, dot, dot_dot, back, clean_step, render, is_rooted, kept, clean,
}

abbrev NoSlash : Str → Type 0
NoSlash = All (λ a. (a =? slash) ≡ false)

-- A segment that `path.Clean` does not drop.
abbrev IsName : Str → Type 0
IsName w = NoSlash w × ((w == []) ≡ false) × ((w == dot) ≡ false)

split-NoSlash : (s : Str) → All NoSlash (split s)
unfolding split
split-NoSlash [] = (tt, tt)
split-NoSlash (a ∷ s) = elim (Bool-cases (a =? slash)) [
  | inl e ↦ rw e (tt, split-NoSlash s)
  | inr e ↦ rw e (push a (split s) e (split-NoSlash s))
]
  where
    push :
        (a : ℕ) (ws : List Str)
        → (a =? slash) ≡ false
        → All NoSlash ws
        → All NoSlash (push_byte a ws)
    push a [] e h = ((e, tt), tt)
    push a (w ∷ ws) e h = ((e, h.0), h.1)

split-name : (w : Str) → NoSlash w → split w ≡ w ∷ []
unfolding split
split-name [] h = refl
split-name (a ∷ w) h = rw (h.0) (rw (split-name w h.1))

split-append : (w s : Str) → NoSlash w → split (w ++ slash ∷ s) ≡ w ∷ split s
unfolding split
split-append [] s h = refl
split-append (a ∷ w) s h = rw (h.0) (rw (split-append w s h.1))

pub split-join : (w : Str) (ws : List Str) → All NoSlash (w ∷ ws) → split (join (w ∷ ws)) ≡ w ∷ ws
unfolding join
split-join w [] h = split-name w h.0
split-join w (v ∷ ws) h =
    split-append w (join (v ∷ ws)) h.0 ∙ ap (λ (u : List Str). w ∷ u) (split-join v ws h.1)

-- A stack of kept segments: a `..` stands only at the bottom, and not at a root.
abbrev Dots : Bool → List Str → Type 0
Dots rooted [] = Unit
Dots rooted (w ∷ out) =
    (w ≡ dot_dot → (rooted ≡ false) × All (λ v. v ≡ dot_dot) out) × Dots rooted out

record IsStack (rooted : Bool) (out : List Str) : Type 0 where
  names : All IsName out
  dots : Dots rooted out

back-IsStack :
    (rooted : Bool) (out : List Str) → IsStack rooted out → IsStack rooted (back rooted out)
unfolding back ◌==◌
back-IsStack true [] h = h
back-IsStack false [] h = record {
  names = (((refl, (refl, tt)), refl, refl), tt);
  dots = ((λ e. (refl, tt)), tt);
}
back-IsStack rooted (top ∷ out) h = elim (Bool-cases (top == dot_dot)) [
  | inl e ↦
      let q = ==→eq top dot_dot e in
      rw e (record {
        names = (((refl, (refl, tt)), refl, refl), h.names);
        dots = ((λ _. ((h.dots.0 q).0, (q, (h.dots.0 q).1))), h.dots);
      })
  | inr e ↦ rw e (record { names = h.names.1; dots = h.dots.1 })
]

clean_step-IsStack :
    (rooted : Bool) (out : List Str) (seg : Str)
    → NoSlash seg
    → IsStack rooted out
    → IsStack rooted (clean_step rooted out seg)
unfolding clean_step
clean_step-IsStack rooted out seg n h = elim (Bool-cases (seg == [])) [
  | inl e ↦ rw e h
  | inr e ↦ elim (Bool-cases (seg == dot)) [
    | inl d ↦ rw (e, d) h
    | inr d ↦ elim (Bool-cases (seg == dot_dot)) [
      | inl b ↦ rw (e, d, b) (back-IsStack rooted out h)
      | inr b ↦
          rw (e, d, b)
            (record {
              names = ((n, e, d), h.names);
              dots = (
                (λ q. absurd (ground (arith, ap (λ (t : Str). t == dot_dot) q, ==_refl dot_dot))),
                h.dots,
              );
            })
    ]
  ]
]

foldl-IsStack :
    (rooted : Bool) (out : List Str) (segs : List Str)
    → All NoSlash segs
    → IsStack rooted out
    → IsStack rooted (foldl (clean_step rooted) out segs)
foldl-IsStack rooted out [] n h = h
foldl-IsStack rooted out (w ∷ ws) n h =
    foldl-IsStack rooted (clean_step rooted out w) ws n.1 (clean_step-IsStack rooted out w n.0 h)

-- A segment that may stand on the stack goes onto it.
clean_step-push :
    (rooted : Bool) (out : List Str) (w : Str)
    → IsStack rooted (w ∷ out)
    → clean_step rooted out w ≡ w ∷ out
unfolding clean_step back
clean_step-push rooted out w h = elim (Bool-cases (w == dot_dot)) [
  | inr b ↦ rw (h.names.0.1, h.names.0.2, b)
  | inl b ↦
      rw (h.names.0.1, h.names.0.2, b)
        (rw (==→eq w dot_dot b) (stay out (h.dots.0 (==→eq w dot_dot b))))
]
  where
    stay :
        (out : List Str)
        → (rooted ≡ false) × All (λ v. v ≡ dot_dot) out
        → back rooted out ≡ dot_dot ∷ out
    stay [] (r, _) = rw (r, back)
    stay (top ∷ out) (r, q) = rw (q.0, back) (rw (==_refl dot_dot))

foldl-reverse :
    (rooted : Bool) (out : List Str)
    → IsStack rooted out
    → foldl (clean_step rooted) [] (reverse out) ≡ out
foldl-reverse rooted [] h = refl
foldl-reverse rooted (w ∷ out) h =
    rw (reverse-cons, foldl-append)
      (rw (foldl-reverse rooted out (record { names = h.names.1; dots = h.dots.1 }))
        (clean_step-push rooted out w h))

All-reverse : (P : Str → Type 0) (l : List Str) → All P l → All P (reverse l)
All-reverse P [] h = tt
All-reverse P (x ∷ l) h =
    rw reverse-cons (All-append P (reverse l) (x ∷ []) (All-reverse P l h.1) (h.0, tt))

All-NoSlash : (l : List Str) → All IsName l → All NoSlash l
All-NoSlash [] h = tt
All-NoSlash (w ∷ l) h = (h.0.0, All-NoSlash l h.1)

kept-reverse :
    (rooted : Bool) (segs : List Str) → IsStack rooted (reverse segs) → kept rooted segs ≡ segs
unfolding kept
kept-reverse rooted segs h =
    let e = foldl-reverse rooted (reverse segs) h in
    rw (ap (λ (u : List Str). foldl (clean_step rooted) [] u) (sym (reverse-reverse segs)) ∙ e)
      (reverse-reverse segs)

clean-render :
    (rooted : Bool) (segs : List Str)
    → All IsName segs
    → IsStack rooted (reverse segs)
    → clean (render rooted segs) ≡ render rooted segs
unfolding clean ◌==◌
clean-render true [] n h = refl
clean-render true (w ∷ ws) n h =
    rw (split-join w ws (All-NoSlash (w ∷ ws) n)) (ap (render true) (kept-reverse true (w ∷ ws) h))
clean-render false [] n h = refl
clean-render false (w ∷ ws) n h = rw (unrooted w ws n.0) (
    rw (split-join w ws (All-NoSlash (w ∷ ws) n))
      (ap (render false) (kept-reverse false (w ∷ ws) h)))
  where
    unrooted : (w : Str) (ws : List Str) → IsName w → is_rooted (join (w ∷ ws)) ≡ false
    unrooted [] ws h = cc h.1
    unrooted (a ∷ w) [] h = h.0.0
    unrooted (a ∷ w) (v ∷ ws) h = h.0.0

pub clean-clean : (s : Str) → clean (clean s) ≡ clean s
clean-clean s =
    unfold clean in
    clean-render (is_rooted s) (kept (is_rooted s) (split s))
      (unfold kept in All-reverse IsName st stack.names)
      (unfold kept in rw (reverse-reverse st) stack)
  where
    st : List Str
    st = foldl (clean_step (is_rooted s)) [] (split s)

    stack : IsStack (is_rooted s) st
    stack =
        foldl-IsStack (is_rooted s) [] (split s) (split-NoSlash s)
          (record { names = tt; dots = tt })
