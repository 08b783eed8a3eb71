-- ===== src/Variant/Lint/Refs.antt =====
-- `fieldRefs` finds the fields that a template reads.
use interviews.Base.{
  ◌≡◌, refl, sym, subst, ◌⊎◌, inl, inr, ◌↔◌, List, [], ◌∷◌, ◌++◌, Memᴰ, mem-append_left,
  mem-append_right, Str, elem, elem→mem, Bool-cases,
}
use interviews.Variant.Lint.{
  Node, absent, field, variable, other, list, action, pipe, command, branch, template, chain, Nodes,
  nil, cons, visit, walk_node, walk_nodes, walk_all, field_refs,
}

-- A field stands somewhere in a template, and its first name is the one that it reads.
mutual
  pub data Reads : Node → Str → Type 0 where
    at_field : {x : Str} (y : Str) (ys : List Str) → x ≡ y → Reads (field (y ∷ ys)) x
    in_list : {ns : Nodes} {x : Str} → ReadsIn ns x → Reads (list ns) x
    in_action : {n : Node} {x : Str} → Reads n x → Reads (action n) x
    in_pipe : {ns : Nodes} {x : Str} → ReadsIn ns x → Reads (pipe ns) x
    in_command : {ns : Nodes} {x : Str} → ReadsIn ns x → Reads (command ns) x
    in_test : {p b o : Node} {x : Str} → Reads p x → Reads (branch p b o) x
    in_body : {p b o : Node} {x : Str} → Reads b x → Reads (branch p b o) x
    in_else : {p b o : Node} {x : Str} → Reads o x → Reads (branch p b o) x
    in_template : {n : Node} {x : Str} → Reads n x → Reads (template n) x
    in_chain : {n : Node} {x : Str} → Reads n x → Reads (chain n) x

  pub data ReadsIn : Nodes → Str → Type 0 where
    first : {n : Node} {ns : Nodes} {x : Str} → Reads n x → ReadsIn (cons n ns) x
    later : {n : Node} {ns : Nodes} {x : Str} → ReadsIn ns x → ReadsIn (cons n ns) x

visit-mem : {x : Str} (ys out : List Str) → Memᴰ x out → Memᴰ x (visit ys out)
unfolding visit
visit-mem [] out m = m
visit-mem (y ∷ ys) out m = elim (Bool-cases (elem y out)) [
  | inl e ↦ rw e m
  | inr e ↦ rw e (mem-append_left out (y ∷ []) m)
]

visit-self : (y : Str) (ys out : List Str) → Memᴰ y (visit (y ∷ ys) out)
unfolding visit
visit-self y ys out = elim (Bool-cases (elem y out)) [
  | inl e ↦ rw e (elem→mem y out e)
  | inr e ↦ rw e (mem-append_right out (Memᴰ.head refl))
]

append-mem : {x : Str} (out : List Str) (y : Str) → Memᴰ x (out ++ y ∷ []) → Memᴰ x out ⊎ (x ≡ y)
append-mem [] y (Memᴰ.head e) = inr e
append-mem [] y (Memᴰ.tail m) = elim m [ ]
append-mem (z ∷ out) y (Memᴰ.head e) = inl (Memᴰ.head e)
append-mem (z ∷ out) y (Memᴰ.tail m) = elim (append-mem out y m) [
  | inl k ↦ inl (Memᴰ.tail k)
  | inr e ↦ inr e
]

visit-Reads :
    {x : Str} (ys out : List Str) → Memᴰ x (visit ys out) → Memᴰ x out ⊎ Reads (field ys) x
unfolding visit
visit-Reads [] out m = inl m
visit-Reads (y ∷ ys) out m = elim (Bool-cases (elem y out)) [
  | inl e ↦ inl (rw e at m)
  | inr e ↦ elim (append-mem out y (rw e at m)) [ inl k ↦ inl k | inr q ↦ inr (at_field y ys q) ]
]

-- What was found stays found.
mutual
  unfolding walk_node walk_nodes

  walk_node-mem : {x : Str} (n : Node) (out : List Str) → Memᴰ x out → Memᴰ x (walk_node n out)
  walk_node-mem absent out m = m
  walk_node-mem (field ys) out m = visit-mem ys out m
  walk_node-mem (variable ys) out m = m
  walk_node-mem other out m = m
  walk_node-mem (list ns) out m = walk_nodes-mem ns out m
  walk_node-mem (action p) out m = walk_node-mem p out m
  walk_node-mem (pipe ns) out m = walk_nodes-mem ns out m
  walk_node-mem (command ns) out m = walk_nodes-mem ns out m
  walk_node-mem (branch p b o) out m =
      walk_node-mem o (walk_node b (walk_node p out))
        (walk_node-mem b (walk_node p out) (walk_node-mem p out m))
  walk_node-mem (template p) out m = walk_node-mem p out m
  walk_node-mem (chain n) out m = walk_node-mem n out m

  walk_nodes-mem : {x : Str} (ns : Nodes) (out : List Str) → Memᴰ x out → Memᴰ x (walk_nodes ns out)
  walk_nodes-mem nil out m = m
  walk_nodes-mem (cons n ns) out m = walk_nodes-mem ns (walk_node n out) (walk_node-mem n out m)

-- What is read is found.
mutual
  unfolding walk_node walk_nodes

  Reads-mem : {x : Str} {n : Node} (out : List Str) → Reads n x → Memᴰ x (walk_node n out)
  Reads-mem {x} out (at_field y ys e) =
      subst (λ z. Memᴰ z (visit (y ∷ ys) out)) (sym e) (visit-self y ys out)
  Reads-mem out (in_list r) = ReadsIn-mem out r
  Reads-mem out (in_action r) = Reads-mem out r
  Reads-mem out (in_pipe r) = ReadsIn-mem out r
  Reads-mem out (in_command r) = ReadsIn-mem out r
  Reads-mem out (in_test {p} {b} {o} r) =
      walk_node-mem o (walk_node b (walk_node p out))
        (walk_node-mem b (walk_node p out) (Reads-mem out r))
  Reads-mem out (in_body {p} {b} {o} r) =
      walk_node-mem o (walk_node b (walk_node p out)) (Reads-mem (walk_node p out) r)
  Reads-mem out (in_else {p} {b} {o} r) = Reads-mem (walk_node b (walk_node p out)) r
  Reads-mem out (in_template r) = Reads-mem out r
  Reads-mem out (in_chain r) = Reads-mem out r

  ReadsIn-mem : {x : Str} {ns : Nodes} (out : List Str) → ReadsIn ns x → Memᴰ x (walk_nodes ns out)
  ReadsIn-mem out (first {n} {ns} r) = walk_nodes-mem ns (walk_node n out) (Reads-mem out r)
  ReadsIn-mem out (later {n} {ns} r) = ReadsIn-mem (walk_node n out) r

abbrev or_in : {A B C : Type 0} → A ⊎ B → (B → C) → A ⊎ C
or_in (inl a) f = inl a
or_in (inr b) f = inr (f b)

-- What is found was there or is read.
mutual
  unfolding walk_node walk_nodes

  mem-Reads :
      {x : Str} (n : Node) (out : List Str) → Memᴰ x (walk_node n out) → Memᴰ x out ⊎ Reads n x
  mem-Reads absent out m = inl m
  mem-Reads (field ys) out m = visit-Reads ys out m
  mem-Reads (variable ys) out m = inl m
  mem-Reads other out m = inl m
  mem-Reads (list ns) out m = or_in (mem-ReadsIn ns out m) (λ r. in_list r)
  mem-Reads (action p) out m = or_in (mem-Reads p out m) (λ r. in_action r)
  mem-Reads (pipe ns) out m = or_in (mem-ReadsIn ns out m) (λ r. in_pipe r)
  mem-Reads (command ns) out m = or_in (mem-ReadsIn ns out m) (λ r. in_command r)
  mem-Reads (branch p b o) out m = elim (mem-Reads o (walk_node b (walk_node p out)) m) [
    | inr r ↦ inr (in_else r)
    | inl k ↦ elim (mem-Reads b (walk_node p out) k) [
      | inr r ↦ inr (in_body r)
      | inl l ↦ or_in (mem-Reads p out l) (λ r. in_test r)
    ]
  ]
  mem-Reads (template p) out m = or_in (mem-Reads p out m) (λ r. in_template r)
  mem-Reads (chain n) out m = or_in (mem-Reads n out m) (λ r. in_chain r)

  mem-ReadsIn :
      {x : Str} (ns : Nodes) (out : List Str)
      → Memᴰ x (walk_nodes ns out)
      → Memᴰ x out ⊎ ReadsIn ns x
  mem-ReadsIn nil out m = inl m
  mem-ReadsIn (cons n ns) out m = elim (mem-ReadsIn ns (walk_node n out) m) [
    | inr r ↦ inr (later r)
    | inl k ↦ or_in (mem-Reads n out k) (λ r. first r)
  ]

walk_all-mem : {x : Str} (ts : List Node) (out : List Str) → Memᴰ x out → Memᴰ x (walk_all ts out)
unfolding walk_all
walk_all-mem [] out m = m
walk_all-mem (t ∷ ts) out m = walk_all-mem ts (walk_node t out) (walk_node-mem t out m)

-- A template that is among those of the text reads the name.
abbrev pub ReadsAny : List Node → Str → Type 0
ReadsAny ts x = (t : Node) × Memᴰ t ts × Reads t x

mem-ReadsAny :
    {x : Str} (ts : List Node) (out : List Str)
    → Memᴰ x (walk_all ts out)
    → Memᴰ x out ⊎ ReadsAny ts x
unfolding walk_all
mem-ReadsAny [] out m = inl m
mem-ReadsAny (t ∷ ts) out m = elim (mem-ReadsAny ts (walk_node t out) m) [
  | inr (u, k, r) ↦ inr (u, Memᴰ.tail k, r)
  | inl k ↦ or_in (mem-Reads t out k) (λ r. (t, Memᴰ.head refl, r))
]

ReadsAny-mem :
    {x : Str} {t : Node} (ts : List Node) (out : List Str)
    → Memᴰ t ts
    → Reads t x
    → Memᴰ x (walk_all ts out)
unfolding walk_all
ReadsAny-mem [] out m r = elim m [ ]
ReadsAny-mem {x} (u ∷ ts) out (Memᴰ.head e) r =
    walk_all-mem ts (walk_node u out) (Reads-mem out (subst (λ v. Reads v x) e r))
ReadsAny-mem (u ∷ ts) out (Memᴰ.tail m) r = ReadsAny-mem ts (walk_node u out) m r

-- `fieldRefs` lists the names that the fields of the text's templates read, at any depth, and no other.
pub field_refs_iff : (ts : List Node) (x : Str) → Memᴰ x (field_refs ts) ↔ ReadsAny ts x
field_refs_iff ts x = (
  (λ m. elim (mem-ReadsAny ts [] m) [ inl k ↦ elim k [ ] | inr r ↦ r ]),
  (λ (t, m, r). ReadsAny-mem ts [] m r),
)
