-- ===== src/Tree/Inside.antt =====
-- The nodes inside a tree: to collect those that a test takes, and to change one of them in place. With
-- the indices of `compute_node_indices`, a start index stands for the node as an object.
use decomp_permuter_psyq.Prelude.{
  ℕ, suc, ◌≤◌, ◌<◌, ◌≡◌, refl, ap, Bool, true, Bool-cases, ◌==◌, List, [], ◌∷◌, ◌++◌, if◌then◌else◌,
  ◌⊎◌, inl, inr, arith,
}
use decomp_permuter_psyq.Tree.Nodes.{Kind, Attr, Node, node, Nodes, empty, more, mark}
use decomp_permuter_psyq.Tree.Index.{Span, Nested, NestedAll}
use decomp_permuter_psyq.Tree.Meaning.{meaning, meanings, meaning_same, meanings_same}

module _ {A : Type 0} where
  abbrev mutual
    pub Inside : Node A → Node A → Type 0
    Inside x (node a k attrs ns) = (x ≡ node a k attrs ns) ⊎ InsideAll x ns

    pub InsideAll : Node A → Nodes A → Type 0
    InsideAll x empty = ⊥
    InsideAll x (more n ns) = Inside x n ⊎ InsideAll x ns

  -- A visitor that collects the nodes which a test takes, and visits all children.
  unfoldable mutual
    pub collect : (Node A → Bool) → Node A → List (Node A)
    collect test (node a k attrs ns) =
        if test (node a k attrs ns)
        then node a k attrs ns ∷ collect_all test ns
        else collect_all test ns

    pub collect_all : (Node A → Bool) → Nodes A → List (Node A)
    collect_all test empty = []
    collect_all test (more n ns) = collect test n ++ collect_all test ns

  -- what holds of each node of a list
  abbrev pub Each : (Node A → Type 0) → List (Node A) → Type 0
  Each P [] = Unit {0}
  Each P (n ∷ ns) = P n × Each P ns

  Each-append :
      (P : Node A → Type 0) (ns ms : List (Node A)) → Each P ns → Each P ms → Each P (ns ++ ms)
  Each-append P [] ms h j = j
  Each-append P (n ∷ ns) ms (p, h) j = (p, Each-append P ns ms h j)

  pub Each-map :
      {P Q : Node A → Type 0} (f : (n : Node A) → P n → Q n) (ns : List (Node A))
      → Each P ns
      → Each Q ns
  Each-map f [] h = tt
  Each-map f (n ∷ ns) (p, h) = (f n p, Each-map f ns h)

  abbrev Taken : (Node A → Bool) → (Node A → Type 0) → Node A → Type 0
  Taken test P x = (test x ≡ true) × P x

  mutual
    unfolding collect

    pub collect-Inside :
        (test : Node A → Bool) (n : Node A) → Each (Taken test (λ x. Inside x n)) (collect test n)
    collect-Inside test (node a k attrs ns) =
        let below =
          Each-map (λ x p. (p.0, inr p.1)) (collect_all test ns) (collect_all-Inside test ns) in
        elim (Bool-cases (test (node a k attrs ns))) [
          | inl e ↦ rw e ((e, inl refl), below)
          | inr e ↦ rw e below
        ]

    collect_all-Inside :
        (test : Node A → Bool) (ns : Nodes A)
        → Each (Taken test (λ x. InsideAll x ns)) (collect_all test ns)
    collect_all-Inside test empty = tt
    collect_all-Inside test (more n ns) =
        Each-append _ (collect test n) (collect_all test ns)
          (Each-map (λ x p. (p.0, inl p.1)) (collect test n) (collect-Inside test n))
          (Each-map (λ x p. (p.0, inr p.1)) (collect_all test ns) (collect_all-Inside test ns))

Nested-ends :
    (low high : ℕ) (n : Node Span)
    → Nested low high n
    → (low ≤ (mark n).start) × ((mark n).start < (mark n).end) × ((mark n).end < high)
Nested-ends low high (node s k attrs ns) (l, m, h, inside) = (l, m, h)

mutual
  Inside-bounds :
      (n x : Node Span) (low high : ℕ)
      → Nested low high n
      → Inside x n
      → (low ≤ (mark x).start) × ((mark x).start < (mark n).end)
  Inside-bounds (node s k attrs ns) x low high (l, m, h, inside) i = elim i [
    | inl e ↦ rw e (l, m)
    | inr j ↦ omega (arith, l, InsideAll-bounds ns x (suc s.start) s.end inside j)
  ]

  InsideAll-bounds :
      (ns : Nodes Span) (x : Node Span) (low high : ℕ)
      → NestedAll low high ns
      → InsideAll x ns
      → (low ≤ (mark x).start) × ((mark x).start < high)
  InsideAll-bounds empty x low high h i = elim i [ ]
  InsideAll-bounds (more n ns) x low high (h, hs) i = elim i [
    | inl j ↦ omega (arith, Nested-ends low high n h, Inside-bounds n x low high h j)
    | inr j ↦ omega (arith, Nested-ends low high n h, InsideAll-bounds ns x (mark n).end high hs j)
  ]

-- No two nodes of a numbered tree have the same start.
mutual
  pub start-injective :
      (n x y : Node Span) (low high : ℕ)
      → Nested low high n
      → Inside x n
      → Inside y n
      → (mark x).start ≡ (mark y).start
      → x ≡ y
  start-injective (node s k attrs ns) x y low high (l, m, h, inside) i j same = elim i [
    | inl e ↦ elim j [
      | inl f ↦ cc (e, f)
      | inr q ↦ absurd (
          omega (
            arith,
            same,
            ap (λ (n : Node Span). (mark n).start) e,
            InsideAll-bounds ns y (suc s.start) s.end inside q,
          ))
    ]
    | inr p ↦ elim j [
      | inl f ↦ absurd (
          omega (
            arith,
            same,
            ap (λ (n : Node Span). (mark n).start) f,
            InsideAll-bounds ns x (suc s.start) s.end inside p,
          ))
      | inr q ↦ all_starts-injective ns x y (suc s.start) s.end inside p q same
    ]
  ]

  all_starts-injective :
      (ns : Nodes Span) (x y : Node Span) (low high : ℕ)
      → NestedAll low high ns
      → InsideAll x ns
      → InsideAll y ns
      → (mark x).start ≡ (mark y).start
      → x ≡ y
  all_starts-injective empty x y low high h i j same = elim i [ ]
  all_starts-injective (more n ns) x y low high (h, hs) i j same = elim i [
    | inl p ↦ elim j [
      | inl q ↦ start-injective n x y low high h p q same
      | inr q ↦ absurd (
          omega (
            arith,
            same,
            Inside-bounds n x low high h p,
            InsideAll-bounds ns y (mark n).end high hs q,
          ))
    ]
    | inr p ↦ elim j [
      | inl q ↦ absurd (
          omega (
            arith,
            same,
            Inside-bounds n y low high h q,
            InsideAll-bounds ns x (mark n).end high hs p,
          ))
      | inr q ↦ all_starts-injective ns x y (mark n).end high hs p q same
    ]
  ]

-- A change of the members of one node, the one with the given start.
unfoldable mutual
  pub change_at : ℕ → (Node Span → Node Span) → Node Span → Node Span
  change_at start f (node s k attrs ns) =
      if s.start == start then f (node s k attrs ns) else node s k attrs (change_all_at start f ns)

  pub change_all_at : ℕ → (Node Span → Node Span) → Nodes Span → Nodes Span
  change_all_at start f empty = empty
  change_all_at start f (more n ns) = more (change_at start f n) (change_all_at start f ns)

module _ {D : Type 0} (means : Kind → List Attr → List D → D) (start : ℕ)
    (f : Node Span → Node Span) where
  -- A change that keeps the meaning of the node keeps that of the tree.
  mutual
    unfolding change_at

    pub change_at_means :
        (n : Node Span)
        → ((x : Node Span)
            → Inside x n
            → (mark x).start ≡ start
            → meaning means (f x) ≡ meaning means x)
        → meaning means (change_at start f n) ≡ meaning means n
    change_at_means (node s k attrs ns) h = elim (Bool-cases (s.start == start)) [
      | inl e ↦ rw e (h (node s k attrs ns) (inl refl) (ground (arith, e)))
      | inr e ↦ rw e (
          meaning_same means s s k attrs (change_all_at start f ns) ns
            (change_all_at_means ns (λ x i. h x (inr i))))
    ]

    change_all_at_means :
        (ns : Nodes Span)
        → ((x : Node Span)
            → InsideAll x ns
            → (mark x).start ≡ start
            → meaning means (f x) ≡ meaning means x)
        → meanings means (change_all_at start f ns) ≡ meanings means ns
    change_all_at_means empty h = refl
    change_all_at_means (more n ns) h =
        meanings_same means (change_at start f n) n (change_all_at start f ns) ns
          (change_at_means n (λ x i. h x (inl i))) (change_all_at_means ns (λ x i. h x (inr i)))
