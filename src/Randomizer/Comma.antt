-- ===== src/Randomizer/Comma.antt =====
-- randomizer.py: `perm_dummy_comma_expr`, on the function's body.
use decomp_permuter_psyq.Prelude.{ℕ, List, [], ◌∷◌, Result, raised, bind}
use decomp_permuter_psyq.Text.{codes}
use decomp_permuter_psyq.Tree.Nodes.{expr_list, constant, word, Node, node, empty, more, mark}
use decomp_permuter_psyq.Tree.Index.{Span}
use decomp_permuter_psyq.Randomizer.Region.{Region, choice, PassFailure, randomization_failure}
use decomp_permuter_psyq.Randomizer.Operators.{unindexed}
use decomp_permuter_psyq.Randomizer.Replace.{get_block_expressions, replace_node}

-- `(0, expr)`
abbrev pub dummy_comma : Node Span → Node Span
dummy_comma expr = node unindexed expr_list [] (
    more (node unindexed constant (word (codes "int") ∷ word (codes "0") ∷ []) empty)
      (more expr empty))

-- `ensure(cands)`, and the change of the expression that is chosen
abbrev pub comma_chosen : List (Node Span) → Node Span → ℕ → Result PassFailure (Node Span)
comma_chosen [] body pick = raised randomization_failure
comma_chosen (c ∷ cands) body pick =
    replace_node body (mark (choice c cands pick)).start dummy_comma

unfoldable pub perm_dummy_comma_expr : Region → Node Span → ℕ → Result PassFailure (Node Span)
unfolding get_block_expressions replace_node
perm_dummy_comma_expr region body pick =
    bind (get_block_expressions body region) λ w. comma_chosen w.1 w.0 pick
