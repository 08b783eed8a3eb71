-- ===== src/Grading/Hints/Merged.antt =====
-- What `MergeHints` keeps.
use interviews.Base.{
  ◌≡◌, refl, sym, subst, ◌↔◌, inl, inr, ◌≢◌, true, false, ◌&&◌, List, [], ◌∷◌, Memᴰ, ◌==◌, ==→eq,
  ==_refl, ◌=?◌, =?_iff, =?_refl, All, All-mem, All-of_mem, Bool-cases, &&_true, arith,
}
use interviews.Base.Sort.{insert, insert-All, sort, sort-All, sort-mem, IsSorted, sort-IsSorted}
use interviews.Grading.Hints.{Hint, same_hint, is_seen, collect, all_of, earlier, merge_hints}

same_hint→eq : (a b : Hint) → same_hint a b ≡ true → a ≡ b
unfolding same_hint
same_hint→eq a b h =
    let (l, z) =
      &&_true (a.minute =? b.minute && a.text == b.text && a.at =? b.at) (a.zone =? b.zone) h in
    let (l, r) = &&_true (a.minute =? b.minute && a.text == b.text) (a.at =? b.at) l in
    let e0 = (=?_iff a.zone b.zone).0 z in
    let (l, m) = &&_true (a.minute =? b.minute) (a.text == b.text) l in
    let e1 = (=?_iff a.minute b.minute).0 l in
    let e2 = ==→eq a.text b.text m in let e3 = (=?_iff a.at b.at).0 r in cc (e0, e1, e2, e3)

same_hint_refl : (a : Hint) → same_hint a a ≡ true
unfolding same_hint
same_hint_refl a =
    rw (=?_refl a.minute) (rw (==_refl a.text) (rw (=?_refl a.at) (rw (=?_refl a.zone) refl)))

not_same : (h x : Hint) → same_hint h x ≡ false → h ≢ x
not_same h x s q = ground (arith, s, subst (λ y. same_hint h y ≡ true) q (same_hint_refl h))

is_seen-cons :
    (h x : Hint) (kept : List Hint)
    → is_seen h (x ∷ kept) ≡ false
    → (h ≢ x) × (is_seen h kept ≡ false)
is_seen-cons h x kept e = elim (Bool-cases (same_hint h x)) [
  | inl s ↦ ground (arith, s)
  | inr s ↦ (
    (λ q. ground (arith, s, subst (λ y. same_hint h y ≡ true) q (same_hint_refl h))),
    ground (arith, s),
  )
]

cons-is_seen :
    (h x : Hint) (kept : List Hint) → h ≢ x → is_seen h kept ≡ false → is_seen h (x ∷ kept) ≡ false
cons-is_seen h x kept n e = elim (Bool-cases (same_hint h x)) [
  | inl s ↦ elim (n (same_hint→eq h x s)) [ ]
  | inr s ↦ ground (arith, s)
]

kept_head :
    (h x : Hint) (kept hints rest : List Hint)
    → is_seen x kept ≡ false
    → (Memᴰ h rest → Memᴰ h hints × (is_seen h (x ∷ kept) ≡ false))
    → Memᴰ h (x ∷ rest)
    → Memᴰ h (x ∷ hints) × (is_seen h kept ≡ false)
kept_head h x kept hints rest s ih (Memᴰ.head e) =
    (Memᴰ.head e, subst (λ y. is_seen y kept ≡ false) (sym e) s)
kept_head h x kept hints rest s ih (Memᴰ.tail m) =
    let (k, e) = ih m in (Memᴰ.tail k, (is_seen-cons h x kept e).1)

collect-mem :
    (h : Hint) (kept hints : List Hint)
    → Memᴰ h (collect kept hints)
    → Memᴰ h hints × (is_seen h kept ≡ false)
unfolding collect
collect-mem h kept [] = λ m. elim m [ ]
collect-mem h kept (x ∷ hints) = elim (Bool-cases (is_seen x kept)) [
  | inl s ↦ rw (s, collect) (λ m. let (k, e) = collect-mem h kept hints m in (Memᴰ.tail k, e))
  | inr s ↦
      rw (s, collect)
        (λ m.
          kept_head h x kept hints (collect (x ∷ kept) hints) s (collect-mem h (x ∷ kept) hints) m)
]

mem-collect :
    (h : Hint) (kept hints : List Hint)
    → Memᴰ h hints
    → is_seen h kept ≡ false
    → Memᴰ h (collect kept hints)
unfolding collect
mem-collect h kept [] m e = elim m [ ]
mem-collect h kept (x ∷ hints) (Memᴰ.head q) e =
    rw (subst (λ y. is_seen y kept ≡ false) q e, collect) (Memᴰ.head q)
mem-collect h kept (x ∷ hints) (Memᴰ.tail m) e = elim (Bool-cases (is_seen x kept)) [
  | inl s ↦ rw (s, collect) (mem-collect h kept hints m e)
  | inr s ↦
      rw (s, collect)
        (elim (Bool-cases (same_hint h x)) [
          | inl q ↦ Memᴰ.head (same_hint→eq h x q)
          | inr q ↦
              Memᴰ.tail
                (mem-collect h (x ∷ kept) hints m (cons-is_seen h x kept (not_same h x q) e))
        ])
]

-- No hint stands twice.
abbrev pub IsDistinct : List Hint → Type 0
IsDistinct [] = Unit
IsDistinct (h ∷ hints) = All (λ k. h ≢ k) hints × IsDistinct hints

collect-IsDistinct : (kept hints : List Hint) → IsDistinct (collect kept hints)
unfolding collect
collect-IsDistinct kept [] = tt
collect-IsDistinct kept (x ∷ hints) = elim (Bool-cases (is_seen x kept)) [
  | inl s ↦ rw (s, collect) (collect-IsDistinct kept hints)
  | inr s ↦
      rw (s, collect)
        (
          All-of_mem (λ k. x ≢ k) (collect (x ∷ kept) hints)
              (λ k m q.
                let (_, e) = collect-mem k (x ∷ kept) hints m in
                (is_seen-cons k x kept e).0 (sym q)),
          collect-IsDistinct (x ∷ kept) hints,
        )
]

insert-IsDistinct :
    (x : Hint) (hints : List Hint)
    → All (λ k. x ≢ k) hints
    → IsDistinct hints
    → IsDistinct (insert earlier x hints)
unfolding insert
insert-IsDistinct x [] a d = (tt, tt)
insert-IsDistinct x (h ∷ hints) a d = elim (Bool-cases (earlier x h)) [
  | inl e ↦ rw (e, insert) (a, d)
  | inr e ↦
      rw (e, insert)
        (
          insert-All earlier (λ k. h ≢ k) x hints (λ q. a.0 (sym q)) d.0,
          insert-IsDistinct x hints a.1 d.1,
        )
]

sort-IsDistinct : (hints : List Hint) → IsDistinct hints → IsDistinct (sort earlier hints)
unfolding sort
sort-IsDistinct [] d = tt
sort-IsDistinct (h ∷ hints) d =
    insert-IsDistinct h (sort earlier hints) (sort-All earlier (λ k. h ≢ k) hints d.0)
      (sort-IsDistinct hints d.1)

sort-mem-back : (h : Hint) (hints : List Hint) → Memᴰ h (sort earlier hints) → Memᴰ h hints
sort-mem-back h hints m =
    All-mem (λ k. Memᴰ k hints) (sort earlier hints)
      (sort-All earlier (λ k. Memᴰ k hints) hints (All-of_mem (λ k. Memᴰ k hints) hints (λ k n. n)))
      m

-- The merged ledgers are in the order of their minutes, hold each hint of each ledger and no other, and hold none
-- of them twice; two hints of one minute, text and instant, whose times point to different Locations, are two.
pub merge_hints_lem :
    (sets : List (List Hint))
    → IsSorted earlier (merge_hints sets)
      × ((h : Hint) → Memᴰ h (merge_hints sets) ↔ Memᴰ h (all_of sets))
      × IsDistinct (merge_hints sets)
unfolding merge_hints
merge_hints_lem sets =
    let kept = collect [] (all_of sets) in
    (
      sort-IsSorted earlier (λ x y. ground arith) (λ x y z p q. ground arith) kept,
      (λ h. (
        λ m. (collect-mem h [] (all_of sets) (sort-mem-back h kept m)).0,
        λ m. sort-mem earlier kept (mem-collect h [] (all_of sets) m refl),
      )),
      sort-IsDistinct kept (collect-IsDistinct [] (all_of sets)),
    )
