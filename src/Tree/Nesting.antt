-- ===== src/Tree/Nesting.antt =====
-- ast_util.py: what holds of the indices of `compute_node_indices`.
use decomp_permuter_psyq.Prelude.{ℕ, suc, ◌+◌, ◌≤◌, ◌<◌, ◌≡◌, refl, arith}
use decomp_permuter_psyq.Tree.Nodes.{Node, node, Nodes, empty, more, mark}
use decomp_permuter_psyq.Tree.Index.{number, number_all, compute_node_indices, Nested, NestedAll}

mutual
  unfolding number

  number-grows : {A : Type 0} (n : Node A) (c : ℕ) → c < (number n c).1
  number-grows (node a k attrs ns) c = omega (arith, number_all-grows ns (c + 2))

  number_all-grows : {A : Type 0} (ns : Nodes A) (c : ℕ) → c ≤ (number_all ns c).1
  number_all-grows empty c = omega arith
  number_all-grows (more n ns) c =
      omega (arith, number-grows n c, number_all-grows ns (number n c).1)

-- The index that follows a node is two behind its end.
number-end : {A : Type 0} (n : Node A) (c : ℕ) → (mark (number n c).0).end + 2 ≡ (number n c).1
unfolding number
number-end (node a k attrs ns) c = refl

mutual
  unfolding number

  number-Nested :
      {A : Type 0} (n : Node A) (c low high : ℕ)
      → low ≤ c
      → (number n c).1 ≤ high
      → Nested low high (number n c).0
  number-Nested (node a k attrs ns) c low high h l =
      let inside =
        number_all-Nested ns (c + 2) (suc c) (number_all ns (c + 2)).1 (omega arith)
          (omega arith) in
      let grown = number_all-grows ns (c + 2) in (h, omega (arith, grown), omega (arith, l), inside)

  number_all-Nested :
      {A : Type 0} (ns : Nodes A) (c low high : ℕ)
      → low ≤ c
      → (number_all ns c).1 ≤ high
      → NestedAll low high (number_all ns c).0
  number_all-Nested empty c low high h l = omega arith
  number_all-Nested (more n ns) c low high h l =
      let grown = number_all-grows ns (number n c).1 in
      (
        number-Nested n c low high h (omega (arith, l, grown)),
        number_all-Nested ns (number n c).1 (mark (number n c).0).end high
            (omega (arith, number-end n c)) l,
      )

-- The spans of the nodes nest as the nodes do: for each node they lie within its parent's, and behind
-- those of the siblings before it.
pub compute_node_indices-Nested :
    {A : Type 0} (top_node : Node A)
    → Nested 1 (number top_node 1).1 (compute_node_indices top_node)
unfolding compute_node_indices
compute_node_indices-Nested top_node =
    number-Nested top_node 1 1 (number top_node 1).1 (omega arith) (omega arith)
