-- ===== src/Randomizer/Inequality.antt =====
-- randomizer.py: what `perm_inequalities` does to comparisons of integers.
use decomp_permuter_psyq.Prelude.{
  ℕ, ◌≡◌, refl, sym, ◌∙◌, Bool, true, false, Bool-cases, not, List, [], ◌∷◌, inl, inr,
  if◌then◌else◌, arith,
}
use decomp_permuter_psyq.Prelude.Int.{ℤ, pos, ◌+ℤ◌, ◌-ℤ◌, ltb_ℤ, +ℤ_parts, -ℤ_parts}
use decomp_permuter_psyq.Text.{Text, codes}
use decomp_permuter_psyq.Text.Equality.{same_text}
use decomp_permuter_psyq.Tree.Nodes.{
  Kind, binary_op, constant, Attr, word, Node, node, Nodes, empty, more, one_of, fold,
}
use decomp_permuter_psyq.Tree.Index.{Span, Nested}
use decomp_permuter_psyq.Tree.Meaning.{meaning, at_node}
use decomp_permuter_psyq.Tree.Inside.{collect}
use decomp_permuter_psyq.Randomizer.Region.{Region}
use decomp_permuter_psyq.Randomizer.Operators.{
  Draw, both, one_side, inequalities, compares, plus1, minus1, new_operator, relaxed, sides, adjust,
  perm_inequalities,
}
use decomp_permuter_psyq.Randomizer.Meaning.{
  Keeps, change_chosen_means, has_operator→Operation, one_of-cons, &&-left,
}

-- the four comparisons
abbrev pub compare_as : Text → ℤ → ℤ → Bool
compare_as op a b =
    if same_text op (codes "<")
    then ltb_ℤ a b
    else if same_text op (codes ">")
    then ltb_ℤ b a
    else if same_text op (codes "<=")
    then not (ltb_ℤ b a)
    else not (ltb_ℤ a b)

abbrev above : ℤ → ℤ
above a = a +ℤ pos 1

abbrev below : ℤ → ℤ
below a = a -ℤ pos 1

abbrev Same : Draw → Text → Type 0
Same draw op =
    (a b : ℤ)
    → let (a', b') = sides above below draw op a b in
      compare_as (new_operator draw op) a' b' ≡ compare_as op a b

less : (draw : Draw) → Same draw (codes "<")
unfolding same_text ◌+ℤ◌ ◌-ℤ◌
less (both true) a b = ground (arith, +ℤ_parts a (pos 1), +ℤ_parts b (pos 1))
less (both false) a b = ground (arith, -ℤ_parts a (pos 1), -ℤ_parts b (pos 1))
less (one_side true) a b = ground (arith, +ℤ_parts a (pos 1))
less (one_side false) a b = ground (arith, -ℤ_parts b (pos 1))

greater : (draw : Draw) → Same draw (codes ">")
unfolding same_text ◌+ℤ◌ ◌-ℤ◌
greater (both true) a b = ground (arith, +ℤ_parts a (pos 1), +ℤ_parts b (pos 1))
greater (both false) a b = ground (arith, -ℤ_parts a (pos 1), -ℤ_parts b (pos 1))
greater (one_side true) a b = ground (arith, -ℤ_parts a (pos 1))
greater (one_side false) a b = ground (arith, +ℤ_parts b (pos 1))

at_most : (draw : Draw) → Same draw (codes "<=")
unfolding same_text ◌+ℤ◌ ◌-ℤ◌
at_most (both true) a b = ground (arith, +ℤ_parts a (pos 1), +ℤ_parts b (pos 1))
at_most (both false) a b = ground (arith, -ℤ_parts a (pos 1), -ℤ_parts b (pos 1))
at_most (one_side true) a b = ground (arith, -ℤ_parts a (pos 1))
at_most (one_side false) a b = ground (arith, +ℤ_parts b (pos 1))

at_least : (draw : Draw) → Same draw (codes ">=")
unfolding same_text ◌+ℤ◌ ◌-ℤ◌
at_least (both true) a b = ground (arith, +ℤ_parts a (pos 1), +ℤ_parts b (pos 1))
at_least (both false) a b = ground (arith, -ℤ_parts a (pos 1), -ℤ_parts b (pos 1))
at_least (one_side true) a b = ground (arith, +ℤ_parts a (pos 1))
at_least (one_side false) a b = ground (arith, -ℤ_parts b (pos 1))

relaxed_taken : (op : Text) → one_of (relaxed op) inequalities ≡ true
unfolding same_text
relaxed_taken op = elim (Bool-cases (same_text op (codes "<"))) [
  | inl e ↦ rw e
  | inr e ↦ elim (Bool-cases (same_text op (codes ">="))) [
    | inl f ↦ rw (e, f)
    | inr f ↦ elim (Bool-cases (same_text op (codes ">"))) [
      | inl g ↦ rw (e, f, g)
      | inr g ↦ rw (e, f, g)
    ]
  ]
]

-- Each of the changes is right, of each inequality.
pub sides_right : (draw : Draw) (op : Text) → one_of op inequalities ≡ true → Same draw op
sides_right draw op h =
    elim (one_of-cons op (codes "<") (codes ">" ∷ codes "<=" ∷ codes ">=" ∷ []) h) [
      | inl e ↦ rw e (less draw)
      | inr h1 ↦ elim (one_of-cons op (codes ">") (codes "<=" ∷ codes ">=" ∷ []) h1) [
        | inl e ↦ rw e (greater draw)
        | inr h2 ↦ elim (one_of-cons op (codes "<=") (codes ">=" ∷ []) h2) [
          | inl e ↦ rw e (at_most draw)
          | inr h3 ↦ elim (one_of-cons op (codes ">=") [] h3) [
            | inl e ↦ rw e (at_least draw)
            | inr h4 ↦ cc h4
          ]
        ]
      ]
    ]

module _ {D : Type 0} (means : Kind → List Attr → List D → D) (value : D → ℤ)
    (truth : Bool → D) where
  -- exact integers: `op` with 1 at its right
  abbrev pub Steps : Text → (ℤ → ℤ) → Type 0
  Steps op step =
      (d : D)
      → value (
          means binary_op (word op ∷ [])
            (d ∷ means constant (word (codes "int") ∷ word (codes "1") ∷ []) [] ∷ []))
        ≡ step (value d)

  -- the inequalities compare them
  abbrev pub Compares : Type 0
  Compares =
      (op : Text) (attrs : List Attr) (x y : D)
      → one_of op inequalities ≡ true
      → means binary_op (word op ∷ attrs) (x ∷ y ∷ []) ≡ truth (compare_as op (value x) (value y))

  module _ (plus : Steps (codes "+") above) (minus : Steps (codes "-") below)
      (compared : Compares) where
    abbrev value_of : Node Span → ℤ
    value_of n = value (meaning means n)

    plus1_value : (n : Node Span) → value_of (plus1 n) ≡ above (value_of n)
    unfolding meaning fold
    plus1_value n = plus (fold (at_node means) n)

    minus1_value : (n : Node Span) → value_of (minus1 n) ≡ below (value_of n)
    unfolding meaning fold
    minus1_value n = minus (fold (at_node means) n)

    abbrev Valued : Draw → Text → Node Span → Node Span → Type 0
    Valued draw op x y =
        let (left, right) = sides plus1 minus1 draw op x y in
        let (a, b) = sides above below draw op (value_of x) (value_of y) in
        (value_of left ≡ a) × (value_of right ≡ b)

    sides_value : (draw : Draw) (op : Text) (x y : Node Span) → Valued draw op x y
    sides_value (both true) op x y = (plus1_value x, plus1_value y)
    sides_value (both false) op x y = (minus1_value x, minus1_value y)
    sides_value (one_side true) op x y =
        elim (Bool-cases (one_of op (codes "<" ∷ codes ">=" ∷ []))) [
          | inl e ↦ rw e (plus1_value x, refl)
          | inr e ↦ rw e (minus1_value x, refl)
        ]
    sides_value (one_side false) op x y =
        elim (Bool-cases (one_of op (codes "<" ∷ codes ">=" ∷ []))) [
          | inl e ↦ rw e (refl, minus1_value y)
          | inr e ↦ rw e (refl, plus1_value y)
        ]

    new_taken :
        (draw : Draw) (op : Text)
        → one_of op inequalities ≡ true
        → one_of (new_operator draw op) inequalities ≡ true
    new_taken (both up) op h = h
    new_taken (one_side on_left) op h = relaxed_taken op

    compared_nodes :
        (s : Span) (op : Text) (attrs : List Attr) (x y : Node Span)
        → one_of op inequalities ≡ true
        → meaning means (node s binary_op (word op ∷ attrs) (more x (more y empty)))
          ≡ truth (compare_as op (value_of x) (value_of y))
    unfolding meaning fold
    compared_nodes s op attrs x y h =
        compared op attrs (fold (at_node means) x) (fold (at_node means) y) h

    adjust_at :
        (draw : Draw) (op : Text)
        → one_of op inequalities ≡ true
        → (s : Span) (attrs : List Attr) (ns : Nodes Span)
        → meaning means (adjust draw (node s binary_op (word op ∷ attrs) ns))
          ≡ meaning means (node s binary_op (word op ∷ attrs) ns)
    adjust_at draw op h s attrs (more x (more y empty)) =
        let (left, right) = sides plus1 minus1 draw op x y in
        let (e, f) = sides_value draw op x y in
        compared_nodes s (new_operator draw op) attrs left right (new_taken draw op h)
        ∙ rw (e, f, sides_right draw op h (value_of x) (value_of y))
            (sym (compared_nodes s op attrs x y h))
    adjust_at draw op h s attrs empty = refl
    adjust_at draw op h s attrs (more x empty) = refl
    adjust_at draw op h s attrs (more x (more y (more z ns))) = refl

  -- Where `+ 1`, `- 1` and the inequalities are those of exact integers, and for a body whose indices nest
  -- as those of `compute_node_indices` do, `perm_inequalities` fails exactly if the body has no inequality
  -- inside the region, and else gives a body of the same meaning, for all its draws.
  pub perm_inequalities_means :
      Steps (codes "+") (λ a. a +ℤ pos 1)
      → Steps (codes "-") (λ a. a -ℤ pos 1)
      → Compares
      → (region : Region) (body : Node Span) (low high pick : ℕ) (draw : Draw)
      → Nested low high body
      → Keeps means (collect (compares region) body) body (perm_inequalities region body pick draw)
  unfolding perm_inequalities
  perm_inequalities_means plus minus compared region body low high pick draw nested =
      change_chosen_means means (compares region) (adjust draw) body low high pick nested λ n h.
        let (s, op, attrs, ns, e, taken) = has_operator→Operation inequalities n (&&-left _ _ h) in
        rw e (adjust_at plus minus compared draw op taken s attrs ns)
