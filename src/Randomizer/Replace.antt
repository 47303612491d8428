-- ===== src/Randomizer/Replace.antt =====
-- randomizer.py: `visit_replace` and the functions that call it. A callback takes and gives a state, which
-- stands for what its closure changes.
use decomp_permuter_psyq.Prelude.{
  ℕ, Bool, true, false, ◌&&◌, ◌||◌, not, Option, none, some, List, [], ◌∷◌, ◌++◌, map,
  if◌then◌else◌, ◌==◌, Result, ok, raised, bind,
}
use decomp_permuter_psyq.Text.{codes}
use decomp_permuter_psyq.Text.Equality.{same_text}
use decomp_permuter_psyq.Tree.Nodes.{
  Kind, array_ref, assignment, binary_op, cast, expr_list, func_call, struct_ref, ternary_op,
  unary_op, return, empty_statement, decl, decl_list, compound, case, default, switch, while,
  do_while, for_loop, if_stmt, label, typename, init_list, Attr, word, absent, present, Node, node,
  Nodes, empty, more, kind, mark, to_list, one_of, steps, is_id,
}
use decomp_permuter_psyq.Tree.Index.{Span}
use decomp_permuter_psyq.Randomizer.Region.{Region, contains_node, PassFailure, unknown_node}

-- How `rec` treats a child: it leaves it, puts back what a call with `lvalue` gives, puts back what a call
-- with `toplevel` gives, or makes that call and puts nothing back.
pub data Slot : Type 0 where
  skip : Slot
  operand : Bool → Slot
  toplevel : Slot
  only_inside : Slot

abbrev pub is_typename : Kind → Bool
is_typename typename = true
is_typename _ = false

abbrev pub is_init_list : Kind → Bool
is_init_list init_list = true
is_init_list _ = false

-- `if node.init: …`, of an optional child
abbrev pub optional : Attr → Slot → List Slot
optional present slot = slot ∷ []
optional _ slot = []

abbrev pub first_kind : (Kind → Slot) → List Kind → List Slot
first_kind f [] = []
first_kind f (k ∷ ks) = f k ∷ []

abbrev pub rest_toplevel : List Kind → List Slot
rest_toplevel [] = []
rest_toplevel (k ∷ ks) = map (λ j. toplevel) ks

-- the `init` of a `Decl`, behind its type
abbrev pub init_slot : List Kind → List Slot
init_slot (type ∷ init ∷ ks) = skip ∷ (if is_init_list init then toplevel else operand false) ∷ []
init_slot ks = []

-- The branches of `rec` on the class of the node, for children of the given classes. Children without a
-- slot are left.
abbrev pub slots : Kind → List Attr → Bool → List Kind → List Slot
slots assignment attrs lvalue ks = operand true ∷ operand false ∷ []
slots struct_ref (word type ∷ attrs) lvalue ks = operand (lvalue && same_text type (codes ".")) ∷ []
slots cast attrs lvalue ks = skip ∷ operand false ∷ []
slots unary_op (word op ∷ attrs) lvalue ks =
    if one_of op steps || same_text op (codes "&")
    then operand true ∷ []
    else if same_text op (codes "sizeof")
    then []
    else operand false ∷ []
slots binary_op attrs lvalue ks = operand false ∷ operand false ∷ []
slots func_call attrs lvalue ks =
    first_kind (λ k. if is_id k then skip else operand false) ks ++ only_inside ∷ []
slots expr_list attrs lvalue ks = map (λ k. if is_typename k then skip else operand false) ks
slots array_ref attrs lvalue ks = operand lvalue ∷ operand false ∷ []
slots ternary_op attrs lvalue ks = operand false ∷ toplevel ∷ toplevel ∷ []
slots return attrs lvalue ks = operand false ∷ []
slots decl (name ∷ quals ∷ align ∷ storage ∷ funcspec ∷ present ∷ attrs) lvalue ks = init_slot ks
slots for_loop (init ∷ cond ∷ next ∷ attrs) lvalue ks =
    optional init toplevel
    ++ (optional cond (operand false) ++ (optional next toplevel ++ toplevel ∷ []))
slots compound attrs lvalue ks = map (λ k. toplevel) ks
slots case attrs lvalue ks = skip ∷ rest_toplevel ks
slots default attrs lvalue ks = map (λ k. toplevel) ks
slots while attrs lvalue ks = operand false ∷ toplevel ∷ []
slots do_while attrs lvalue ks = operand false ∷ toplevel ∷ []
slots switch attrs lvalue ks = operand false ∷ toplevel ∷ []
slots label attrs lvalue ks = toplevel ∷ []
slots if_stmt attrs lvalue ks = operand false ∷ rest_toplevel ks
slots _ attrs lvalue ks = []

-- The statement of a `DoWhile` is visited before its condition, which is the first child.
abbrev pub backwards : Kind → Bool
backwards do_while = true
backwards _ = false

-- `empty_statement_to_none` of the child that is there, with whether it still is
abbrev pub drop_empty : {A : Type 0} → Attr → Nodes A → Attr × Nodes A
drop_empty present (more (node a empty_statement attrs ns) others) = (absent, others)
drop_empty attr ns = (attr, ns)

-- What is done to the part of the children behind an optional one.
abbrev pub beyond : {A : Type 0} → Attr → (Nodes A → Attr × Nodes A) → Nodes A → Attr × Nodes A
beyond present f (more n ns) = let (attr, ns') = f ns in (attr, more n ns')
beyond attr f ns = f ns

-- `node.init` and `node.next` of a `For`
abbrev pub clear_empty : {A : Type 0} → Node A → Node A
clear_empty (node a for_loop (init ∷ cond ∷ next ∷ attrs) ns) =
    let (next', ns') = beyond init (beyond cond (drop_empty next)) ns in
    let (init', ns'') = drop_empty init ns' in node a for_loop (init' ∷ cond ∷ next' ∷ attrs) ns''
clear_empty n = n

-- The classes that `rec` knows: all but `DeclList`, the declarations in the head of a `for`.
abbrev pub is_known : Kind → Bool
is_known decl_list = false
is_known _ = true

-- what a call of `rec` returns, the node as it leaves it, and the state
pub record Visit (A S : Type 0) : Type 0 where
  pub returned : Node A
  pub in_place : Node A
  pub state : S

module _ {A S : Type 0} where
  abbrev pub at_slot :
      Slot
      → (Bool → Bool → S → Result PassFailure (Visit A S))
      → Node A
      → S
      → Result PassFailure (Node A × S)
  at_slot skip rec n s = ok (n, s)
  at_slot (operand lvalue) rec n s = bind (rec false lvalue s) λ v. ok (v.returned, v.state)
  at_slot toplevel rec n s = bind (rec true false s) λ v. ok (v.returned, v.state)
  at_slot only_inside rec n s = bind (rec true false s) λ v. ok (v.in_place, v.state)

  -- `if repl: return repl`, and else what the visit of the children gives
  abbrev pub replaced :
      Option (Node A) → Node A → S → Result PassFailure (Visit A S) → Result PassFailure (Visit A S)
  replaced (some repl) n s visited = ok (record { returned = repl; in_place = n; state = s })
  replaced none n s visited = visited

  abbrev pub same_node : Node A → S → Visit A S
  same_node n s = record { returned = n; in_place = n; state = s }

  module _ (callback : Node A → Bool → S → Option (Node A) × S) where
    unfoldable mutual
      pub replace_rec : Node A → Bool → Bool → S → Result PassFailure (Visit A S)
      replace_rec (node a k attrs ns) top lvalue s =
          let (repl, s') = callback (node a k attrs ns) (not top && not lvalue) s in
          let plan = slots k attrs lvalue (map kind (to_list ns)) in
          let forward = replace_all plan ns s' in
          let back = replace_back plan ns s' in
          let visited : Result PassFailure (Visit A S) =
            bind (if backwards k then back else forward)
              λ w. ok (same_node (clear_empty (node a k attrs w.0)) w.1) in
          replaced repl (node a k attrs ns) s' (if is_known k then visited else raised unknown_node)

      pub replace_all : List Slot → Nodes A → S → Result PassFailure (Nodes A × S)
      replace_all plan empty s = ok (empty, s)
      replace_all [] (more n ns) s = ok (more n ns, s)
      replace_all (slot ∷ plan) (more n ns) s =
          bind (at_slot slot (replace_rec n) n s)
            λ v. bind (replace_all plan ns v.1) λ w. ok (more v.0 w.0, w.1)

      pub replace_back : List Slot → Nodes A → S → Result PassFailure (Nodes A × S)
      replace_back plan empty s = ok (empty, s)
      replace_back [] (more n ns) s = ok (more n ns, s)
      replace_back (slot ∷ plan) (more n ns) s =
          bind (replace_back plan ns s)
            λ w. bind (at_slot slot (replace_rec n) n w.1) λ v. ok (more v.0 w.0, v.1)

    -- `visit_replace`: the tree as it is left, and the state
    unfoldable pub visit_replace : Node A → S → Result PassFailure (Node A × S)
    unfolding replace_rec
    visit_replace top_node s =
        bind (replace_rec top_node true false s) λ v. ok (v.in_place, v.state)

-- `replace_subexprs`
abbrev pub expr_filter :
    {A S : Type 0} → (Node A → S → Option (Node A) × S) → Node A → Bool → S → Option (Node A) × S
expr_filter callback n is_expr s = if is_expr then callback n s else (none, s)

unfoldable pub replace_subexprs :
    {A S : Type 0}
    → (Node A → S → Option (Node A) × S)
    → Node A
    → S
    → Result PassFailure (Node A × S)
unfolding visit_replace
replace_subexprs callback top_node s = visit_replace (expr_filter callback) top_node s

-- `replace_node`; the new node is made of the old one, which it holds as the object that it is.
abbrev pub at_old :
    ℕ → (Node Span → Node Span) → Node Span → Bool → Unit {0} → Option (Node Span) × Unit {0}
at_old old new n is_expr s = (if (mark n).start == old then some (new n) else none, s)

unfoldable pub replace_node :
    Node Span → ℕ → (Node Span → Node Span) → Result PassFailure (Node Span)
unfolding visit_replace
replace_node top_node old new = bind (visit_replace (at_old old new) top_node tt) λ w. ok w.0

-- the visitor of `get_block_expressions`
abbrev pub note_expr : Region → Node Span → List (Node Span) → Option (Node Span) × List (Node Span)
note_expr region expr exprs =
    (none, if contains_node region expr then exprs ++ expr ∷ [] else exprs)

-- the block, which the visit may have changed, and the expressions
unfoldable pub get_block_expressions :
    Node Span → Region → Result PassFailure (Node Span × List (Node Span))
unfolding replace_subexprs
get_block_expressions stmts region = replace_subexprs (note_expr region) stmts []
