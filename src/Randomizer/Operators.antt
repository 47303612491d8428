-- ===== src/Randomizer/Operators.antt =====
-- randomizer.py: `perm_commutative`, `perm_inequalities` and `perm_compound_assignment`, on the function's body.
use decomp_permuter_psyq.Prelude.{
  ℕ, Bool, true, false, ◌&&◌, List, [], ◌∷◌, Result, ok, raised, if◌then◌else◌, ◌==◌,
}
use decomp_permuter_psyq.Text.{Text, codes}
use decomp_permuter_psyq.Text.Equality.{same_text}
use decomp_permuter_psyq.Tree.Nodes.{
  binary_op, constant, word, Node, node, empty, more, mark, one_of,
}
use decomp_permuter_psyq.Tree.Index.{Span}
use decomp_permuter_psyq.Tree.Inside.{collect, change_at}
use decomp_permuter_psyq.Randomizer.Region.{
  Region, contains_node, choice, PassFailure, randomization_failure,
}

-- `ensure(cands)`, and a change of the members of the node that `random.choice(cands)` gives
abbrev pub change_chosen :
    List (Node Span) → (Node Span → Node Span) → Node Span → ℕ → Result PassFailure (Node Span)
change_chosen [] change body pick = raised randomization_failure
change_chosen (c ∷ cands) change body pick =
    ok (change_at (mark (choice c cands pick)).start change body)

abbrev pub commutative_ops : List Text
commutative_ops =
    codes "+"
    ∷ codes "*"
    ∷ codes "|"
    ∷ codes "&"
    ∷ codes "^"
    ∷ codes "<"
    ∷ codes ">"
    ∷ codes "<="
    ∷ codes ">="
    ∷ codes "=="
    ∷ codes "!="
    ∷ []

-- `isinstance(node, ca.BinaryOp) and node.op in ops`
abbrev pub has_operator : List Text → Node Span → Bool
has_operator ops (node s binary_op (word op ∷ attrs) ns) = one_of op ops
has_operator ops n = false

-- the changes of `node.op` in `perm_commutative`
abbrev pub mirrored : Text → Text
mirrored [] = []
mirrored (c ∷ op) = if c == b'<' then b'>' ∷ op else if c == b'>' then b'<' ∷ op else c ∷ op

abbrev pub swap_operands : Node Span → Node Span
swap_operands (node s k (word op ∷ attrs) (more left (more right empty))) =
    node s k (word (mirrored op) ∷ attrs) (more right (more left empty))
swap_operands n = n

-- the test of its visitor
abbrev pub commutes : Region → Node Span → Bool
commutes region n = has_operator commutative_ops n && contains_node region n

unfoldable pub perm_commutative : Region → Node Span → ℕ → Result PassFailure (Node Span)
unfolding collect change_at
perm_commutative region body pick =
    change_chosen (collect (commutes region) body) swap_operands body pick

abbrev pub inequalities : List Text
inequalities = codes "<" ∷ codes ">" ∷ codes "<=" ∷ codes ">=" ∷ []

-- The mark of a node that a pass makes: `compute_node_indices` has not seen it.
abbrev pub unindexed : Span
unindexed = record { start = 0; end = 0 }

abbrev pub one : Node Span
one = node unindexed constant (word (codes "int") ∷ word (codes "1") ∷ []) empty

abbrev pub plus1 : Node Span → Node Span
plus1 n = node unindexed binary_op (word (codes "+") ∷ []) (more n (more one empty))

abbrev pub minus1 : Node Span → Node Span
minus1 n = node unindexed binary_op (word (codes "-") ∷ []) (more n (more one empty))

-- the draws of `perm_inequalities`: `random.random() < 0.25` and `random.choice([plus1, minus1])`, or
-- `random_bool(random, 0.5)`
pub data Draw : Type 0 where
  both : Bool → Draw
  one_side : Bool → Draw

abbrev pub relaxed : Text → Text
relaxed op =
    if same_text op (codes "<")
    then codes "<="
    else if same_text op (codes ">=")
    then codes ">"
    else if same_text op (codes ">")
    then codes ">="
    else codes "<"

abbrev pub new_operator : Draw → Text → Text
new_operator (both plus) op = op
new_operator (one_side on_left) op = relaxed op

-- what becomes of `node.left` and `node.right`
abbrev pub sides : {X : Type 0} → (X → X) → (X → X) → Draw → Text → X → X → X × X
sides plus minus (both true) op left right = (plus left, plus right)
sides plus minus (both false) op left right = (minus left, minus right)
sides plus minus (one_side true) op left right =
    if one_of op (codes "<" ∷ codes ">=" ∷ []) then (plus left, right) else (minus left, right)
sides plus minus (one_side false) op left right =
    if one_of op (codes "<" ∷ codes ">=" ∷ []) then (left, minus right) else (left, plus right)

abbrev pub adjust : Draw → Node Span → Node Span
adjust draw (node s k (word op ∷ attrs) (more left (more right empty))) =
    let (left', right') = sides plus1 minus1 draw op left right in
    node s k (word (new_operator draw op) ∷ attrs) (more left' (more right' empty))
adjust draw n = n

-- the test of its visitor
abbrev pub compares : Region → Node Span → Bool
compares region n = has_operator inequalities n && contains_node region n

unfoldable pub perm_inequalities : Region → Node Span → ℕ → Draw → Result PassFailure (Node Span)
unfolding collect change_at
perm_inequalities region body pick draw =
    change_chosen (collect (compares region) body) (adjust draw) body pick
