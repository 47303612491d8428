-- ===== src/Examples/Passes.antt =====
-- randomizer.py: passes on the function of Examples/Trees.
use decomp_permuter_psyq.Prelude.{
  ℕ, ◌+◌, ◌*◌, ◌≡◌, refl, Bool, true, List, [], ◌∷◌, ok, if◌then◌else◌,
}
use decomp_permuter_psyq.Prelude.Int.{ℤ, pos, ◌+ℤ◌, ◌-ℤ◌}
use decomp_permuter_psyq.Text.{Text, codes}
use decomp_permuter_psyq.Text.Equality.{same_text}
use decomp_permuter_psyq.Tree.Nodes.{
  Kind, constant, binary_op, assignment, Attr, word, present, Node, node, empty, more, fold, one_of,
}
use decomp_permuter_psyq.Tree.Index.{Span, number, compute_node_indices}
use decomp_permuter_psyq.Tree.Nesting.{compute_node_indices-Nested}
use decomp_permuter_psyq.Tree.Inside.{collect}
use decomp_permuter_psyq.Randomizer.Region.{unbounded}
use decomp_permuter_psyq.Randomizer.Operators.{inequalities, compares, one_side, perm_inequalities}
use decomp_permuter_psyq.Randomizer.Meaning.{Keeps}
use decomp_permuter_psyq.Randomizer.Inequality.{
  compare_as, Steps, Compares, perm_inequalities_means,
}
use decomp_permuter_psyq.Randomizer.Compound.{
  compounds, drop_end, Joins, perm_compound_assignment, perm_compound_assignment_means,
}
use decomp_permuter_psyq.Examples.Trees.{leaf, statement, body, indexed}
use decomp_permuter_psyq.Randomizer.Pragmas.{
  marks_of, in_turns, region_of, get_randomization_region-eq-ok_iff,
}
use decomp_permuter_psyq.Randomizer.Region.{
  between, pragma_at, chosen_region, get_randomization_region,
}
use decomp_permuter_psyq.Tree.Nodes.{attributes, compound, pragma, present}
use decomp_permuter_psyq.Tree.Index.{compute_node_indices}
use decomp_permuter_psyq.Prelude.{map, ◌↔◌, bind}
use decomp_permuter_psyq.Randomizer.Replace.{get_block_expressions}

-- Expressions of exact integers, in which a comparison is 1 or 0.
abbrev truth : Bool → ℤ
truth b = if b then pos 1 else pos 0

abbrev calculate : Kind → List Attr → List ℤ → ℤ
calculate constant attrs ds = pos 1
calculate binary_op (word op ∷ attrs) (a ∷ b ∷ []) =
    if one_of op inequalities
    then truth (compare_as op a b)
    else if same_text op (codes "+")
    then a +ℤ b
    else a -ℤ b
calculate _ attrs ds = pos 0

plus-Steps : Steps calculate (λ a. a) truth (codes "+") (λ a. a +ℤ pos 1)
unfolding same_text
plus-Steps d = refl

minus-Steps : Steps calculate (λ a. a) truth (codes "-") (λ a. a -ℤ pos 1)
unfolding same_text
minus-Steps d = refl

calculate_compares : Compares calculate (λ a. a) truth
calculate_compares op attrs x y h = rw h

perm_inequalities_means_example :
    Keeps calculate
      (collect (compares unbounded) indexed)
      indexed
      (perm_inequalities unbounded indexed 0 (one_side true))
perm_inequalities_means_example =
    perm_inequalities_means calculate (λ a. a) truth plus-Steps minus-Steps calculate_compares
      unbounded indexed 1 (number body 1).1 0 (one_side true) (compute_node_indices-Nested body)

-- Assignments by their value, where `+` adds and each other operator multiplies.
abbrev operate : Text → ℕ → ℕ → ℕ
operate op a b = if same_text op (codes "+") then a + b else a * b

abbrev assigned : Kind → List Attr → List ℕ → ℕ
assigned constant attrs ds = 2
assigned binary_op (word op ∷ attrs) (a ∷ b ∷ []) = operate op a b
assigned assignment (word op ∷ attrs) (a ∷ b ∷ []) =
    if same_text op (codes "=") then b else operate (drop_end op) a b
assigned _ attrs ds = 3

assigned_joins : Joins assigned
unfolding same_text
assigned_joins op h x y = rw h

perm_compound_assignment_means_example :
    Keeps assigned
      (collect (compounds unbounded) indexed)
      indexed
      (perm_compound_assignment unbounded indexed 0)
perm_compound_assignment_means_example =
    perm_compound_assignment_means assigned assigned_joins unbounded indexed 1 (number body 1).1 0
      (compute_node_indices-Nested body)

-- a start, a statement and an end
abbrev bounded : Node Span
bounded = compute_node_indices (
    node tt compound (present ∷ []) (
      more (leaf pragma (codes "_permuter randomizer start"))
        (more statement (more (leaf pragma (codes "_permuter randomizer end")) empty))))

get_randomization_region-eq-ok_iff_example :
    (get_randomization_region bounded 0 ≡ ok (between 6 42)) ↔ (
      (pairs : List (Span × Span)) × (marks_of (fold pragma_at bounded) ≡ in_turns pairs)
      × (between 6 42 ≡ chosen_region (map region_of pairs) 0))
get_randomization_region-eq-ok_iff_example =
    get_randomization_region-eq-ok_iff bounded 0 (between 6 42)

bounded_region : get_randomization_region bounded 0 ≡ ok (between 6 42)
unfolding get_randomization_region compute_node_indices same_text
bounded_region = refl

-- The condition with its operands and what is assigned with its operands are found, but no statement, not `x` to the
-- left of `=`, and not the operand of `y++`.
expressions_found :
    (bind (get_block_expressions indexed unbounded) λ w. ok (map attributes w.1))
    ≡ ok (
        (word (codes "<") ∷ [])
        ∷ (word (codes "x") ∷ [])
        ∷ (word (codes "y") ∷ [])
        ∷ (word (codes "+") ∷ [])
        ∷ (word (codes "x") ∷ [])
        ∷ (word (codes "int") ∷ word (codes "2") ∷ [])
        ∷ [])
unfolding get_block_expressions compute_node_indices same_text
expressions_found = refl
