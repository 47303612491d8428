-- ===== src/Examples/Trees.antt =====
-- ast_util.py and randomizer.py: runs on a small function, and the theorems at it.
use decomp_permuter_psyq.Prelude.{
  ℕ, ◌+◌, ◌-◌, ◌≡◌, refl, ◌↔◌, true, false, List, [], ◌∷◌, ok, arith,
}
use decomp_permuter_psyq.Text.{Text, codes}
use decomp_permuter_psyq.Text.Equality.{same_text}
use decomp_permuter_psyq.Tree.Nodes.{
  Kind, id, constant, binary_op, unary_op, assignment, expr_list, compound, if_stmt,
  empty_statement, func_def, decl, Attr, word, absent, present, Node, node, empty, more, fold,
  is_effectful,
}
use decomp_permuter_psyq.Tree.Index.{Span, number, compute_node_indices}
use decomp_permuter_psyq.Tree.Nesting.{compute_node_indices-Nested}
use decomp_permuter_psyq.Tree.Meaning.{meaning}
use decomp_permuter_psyq.Tree.Blocks.{insert_statement, normalize_ast}
use decomp_permuter_psyq.Tree.Braces.{Braced}
use decomp_permuter_psyq.Tree.Normal.{normalize_ast-Braced}
use decomp_permuter_psyq.Tree.Inside.{collect}
use decomp_permuter_psyq.Tree.Equal.{same_kind, equal_ast}
use decomp_permuter_psyq.Tree.Same.{equal_ast_iff, erase}
use decomp_permuter_psyq.Randomizer.Locations.{
  compute_read_locations, compute_write_locations, find_var_reads, writes_at,
}
use decomp_permuter_psyq.Randomizer.Monotone.{
  Lists, compute_read_locations_total, compute_write_locations_total,
}
use decomp_permuter_psyq.Randomizer.Region.{unbounded}
use decomp_permuter_psyq.Randomizer.Operators.{commutes, perm_commutative}
use decomp_permuter_psyq.Randomizer.Meaning.{Keeps, Laws, perm_commutative_means}

abbrev pub Tree : Type 0
Tree = Node (Unit {0})

abbrev pub leaf : Kind → Text → Tree
leaf k t = node tt k (word t ∷ []) empty

abbrev pub number_of : Text → Tree
number_of t = node tt constant (word (codes "int") ∷ word t ∷ []) empty

abbrev pub of_two : Kind → Text → Tree → Tree → Tree
of_two k op l r = node tt k (word op ∷ []) (more l (more r empty))

abbrev pub x_name : Tree
x_name = leaf id (codes "x")

abbrev pub y_name : Tree
y_name = leaf id (codes "y")

-- if (x < y) x = x + 2; y++;
abbrev pub statement : Tree
statement = node tt if_stmt (absent ∷ []) (
    more (of_two binary_op (codes "<") x_name y_name) (
      more
        (of_two assignment (codes "=") x_name
          (of_two binary_op (codes "+") x_name (number_of (codes "2"))))
        empty))

abbrev pub body : Tree
body =
    node tt compound (present ∷ [])
      (more statement (more (node tt unary_op (word (codes "p++") ∷ []) (more y_name empty)) empty))

abbrev fn : Tree
fn = node tt func_def [] (more (leaf decl (codes "f")) (more body empty))

abbrev pub indexed : Node Span
indexed = compute_node_indices body

compute_write_locations_total_example :
    Lists
      (compute_write_locations (compute_node_indices body))
      (fold writes_at (compute_node_indices body))
compute_write_locations_total_example = compute_write_locations_total body

compute_read_locations_total_example :
    Lists
      (compute_read_locations (compute_node_indices body))
      (find_var_reads (compute_node_indices body))
compute_read_locations_total_example = compute_read_locations_total body

-- The sum of the numbers in a tree, of which `(a, b)` counts `b`.
abbrev pub total : List ℕ → ℕ
total [] = 0
total (n ∷ ns) = n + total ns

abbrev pub weigh : Kind → List Attr → List ℕ → ℕ
weigh empty_statement attrs ds = 0
weigh constant (word type ∷ word (c ∷ cs) ∷ attrs) ds = c - 48
weigh expr_list attrs (a ∷ b ∷ []) = b
weigh _ attrs ds = total ds

normalize_ast-Braced_example :
    (b : Tree) × (normalize_ast tt fn
      ≡ ok (node tt func_def [] (more (leaf decl (codes "f")) (more b empty))))
    × Braced b
    × (meaning weigh (node tt func_def [] (more (leaf decl (codes "f")) (more b empty)))
        ≡ meaning weigh fn)
normalize_ast-Braced_example =
    normalize_ast-Braced tt weigh (λ d. omega arith) tt func_def [] (leaf decl (codes "f")) body
      empty refl

weigh_laws : Laws weigh
weigh_laws = record {
  exchanges = λ op taken attrs x y. omega arith;
  less = λ attrs x y. omega arith;
  at_most = λ attrs x y. omega arith;
}

perm_commutative_means_example :
    Keeps weigh
      (collect (commutes unbounded) indexed)
      indexed
      (perm_commutative unbounded indexed 1)
perm_commutative_means_example =
    perm_commutative_means weigh weigh_laws unbounded indexed 1 (number body 1).1 1
      (compute_node_indices-Nested body)

equal_ast_iff_example : (equal_ast body indexed ≡ true) ↔ (erase body ≡ erase indexed)
equal_ast_iff_example = equal_ast_iff body indexed

-- An absent list of statements is not an empty one.
no_list_differs :
    equal_ast (node tt compound (absent ∷ []) empty) (node tt compound (present ∷ []) empty) ≡ false
unfolding equal_ast same_kind
no_list_differs = refl

-- A statement is put where no list of statements was.
list_made :
    insert_statement (node tt compound (absent ∷ []) empty) 0 x_name
    ≡ node tt compound (present ∷ []) (more x_name empty)
unfolding insert_statement
list_made = refl

-- `*x++` changes `x`.
step_inside :
    is_effectful (
      node tt unary_op
        (word (codes "*") ∷ [])
        (more (node tt unary_op (word (codes "p++") ∷ []) (more x_name empty)) empty))
    ≡ false
unfolding is_effectful same_text
step_inside = refl

-- In `x = y` the variable `y` is read.
read_missed :
    find_var_reads (compute_node_indices (of_two assignment (codes "=") x_name y_name)) ≡ []
unfolding find_var_reads compute_node_indices
read_missed = refl
