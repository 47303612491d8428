-- ===== src/Tree/Index.antt =====
-- ast_util.py: `compute_node_indices`. The indices of a node stand in the node.
use decomp_permuter_psyq.Prelude.{ℕ, suc, ◌+◌, ◌≤◌, ◌<◌}
use decomp_permuter_psyq.Tree.Nodes.{Node, node, Nodes, empty, more, mark}

pub record Span : Type 0 where
  pub start : ℕ
  pub end : ℕ

-- `Visitor.generic_visit`, with `cur_index` before and after
unfoldable mutual
  pub number : {A : Type 0} → Node A → ℕ → Node Span × ℕ
  number (node a k attrs ns) cur_index =
      let (visited, after) = number_all ns (cur_index + 2) in
      (node (record { start = cur_index; end = after }) k attrs visited, after + 2)

  pub number_all : {A : Type 0} → Nodes A → ℕ → Nodes Span × ℕ
  number_all empty cur_index = (empty, cur_index)
  number_all (more n ns) cur_index =
      let (visited, after) = number n cur_index in
      let (others, last) = number_all ns after in (more visited others, last)

unfoldable pub compute_node_indices : {A : Type 0} → Node A → Node Span
unfolding number
compute_node_indices top_node = (number top_node 1).0

-- Each node lies between two indices, its children lie within it, and each behind the one before.
abbrev mutual
  pub Nested : ℕ → ℕ → Node Span → Type 0
  Nested low high (node s k attrs ns) =
      (low ≤ s.start) × (s.start < s.end) × (s.end < high) × NestedAll (suc s.start) s.end ns

  pub NestedAll : ℕ → ℕ → Nodes Span → Type 0
  NestedAll low high empty = low ≤ high
  NestedAll low high (more n ns) = Nested low high n × NestedAll (mark n).end high ns
