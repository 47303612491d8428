-- ===== src/Tree/Nodes.antt =====
-- pycparser's trees, as the visitors of ast_util.py and randomizer.py see them.
use decomp_permuter_psyq.Prelude.{Bool, true, false, ◌||◌, List, [], ◌∷◌, ◌++◌}
use decomp_permuter_psyq.Text.{Text, codes}
use decomp_permuter_psyq.Text.Equality.{same_text}

-- The classes of c_ast, but `Alignas`: such nodes stand in the member `align`, which no visitor enters.
pub data Kind : Type 0 where
  array_ref assignment binary_op cast compound_literal constant expr_list func_call id struct_ref :
      Kind
  ternary_op unary_op : Kind
  break continue goto label return empty_statement pragma typedef decl decl_list : Kind
  compound case default switch while do_while for_loop if_stmt : Kind
  ptr_decl array_decl func_decl type_decl identifier_type struct union enum enumerator : Kind
  enumerator_list typename func_def ellipsis_param file_ast init_list : Kind
  named_initializer param_list : Kind

-- A member of a node that is no child: a string, a list of strings, or, where a child or a list of children may
-- be absent, whether it is there. A list that is there may be empty.
pub data Attr : Type 0 where
  word : Text → Attr
  words : List Text → Attr
  absent present : Attr

-- A node has its children in the order of `children()`, which visitors follow; `A` is what is known of
-- each node besides. The order of the members that are no children is that of `__slots__`.
mutual
  pub data Node (A : Type 0) : Type 0 where
    node : A → Kind → List Attr → Nodes A → Node A

  pub data Nodes (A : Type 0) : Type 0 where
    empty : Nodes A
    more : Node A → Nodes A → Nodes A

module _ {A : Type 0} where
  abbrev pub to_list : Nodes A → List (Node A)
  to_list empty = []
  to_list (more n ns) = n ∷ to_list ns

  abbrev pub mark : Node A → A
  mark (node a k attrs ns) = a

  abbrev pub kind : Node A → Kind
  kind (node a k attrs ns) = k

  abbrev pub attributes : Node A → List Attr
  attributes (node a k attrs ns) = attrs

  abbrev pub children : Node A → List (Node A)
  children (node a k attrs ns) = to_list ns

-- A visitor: what it makes of a node from its members, its children and what it has made of them.
module _ {A R : Type 0} (alg : A → Kind → List Attr → List (Node A) → List R → R) where
  unfoldable mutual
    pub fold : Node A → R
    fold (node a k attrs ns) = alg a k attrs (to_list ns) (fold_all ns)

    pub fold_all : Nodes A → List R
    fold_all empty = []
    fold_all (more n ns) = fold n ∷ fold_all ns

-- `generic_visit` of a visitor that collects
abbrev pub gathered {ℓ} : {A : Type ℓ} → List (List A) → List A
gathered [] = []
gathered (xs ∷ xss) = xs ++ gathered xss

-- `isinstance(node, ca.ID)`
abbrev pub is_id : Kind → Bool
is_id id = true
is_id _ = false

-- `as_expr(value) is not None`
abbrev pub is_expression : Kind → Bool
is_expression array_ref = true
is_expression assignment = true
is_expression binary_op = true
is_expression cast = true
is_expression compound_literal = true
is_expression constant = true
is_expression expr_list = true
is_expression func_call = true
is_expression id = true
is_expression struct_ref = true
is_expression ternary_op = true
is_expression unary_op = true
is_expression _ = false

abbrev pub one_of : Text → List Text → Bool
one_of t [] = false
one_of t (u ∷ us) = same_text t u || one_of t us

-- `is_lvalue`
abbrev pub is_lvalue : Kind → List Attr → Bool
is_lvalue id attrs = true
is_lvalue struct_ref attrs = true
is_lvalue array_ref attrs = true
is_lvalue unary_op (word op ∷ attrs) = same_text op (codes "*")
is_lvalue _ _ = false

-- the operators that change a variable
abbrev pub steps : List Text
steps = codes "p++" ∷ codes "p--" ∷ codes "++" ∷ codes "--" ∷ []

-- What the visitor of `is_effectful` finds at a node, and what its `generic_visit` finds there.
pub record Found : Type 0 where
  pub at_node : Bool
  pub inside : Bool

abbrev pub any_found : List Found → Bool
any_found [] = false
any_found (r ∷ rs) = r.at_node || any_found rs

-- `self.generic_visit(node.expr)`: what is inside the operand
abbrev pub inside_first : List Found → Bool
inside_first [] = false
inside_first (r ∷ rs) = r.inside

abbrev pub effect_at : Kind → List Attr → List Found → Bool
effect_at func_call attrs rs = true
effect_at assignment attrs rs = true
effect_at unary_op (word op ∷ attrs) rs = one_of op steps || inside_first rs
effect_at _ _ rs = any_found rs

module _ {A : Type 0} where
  abbrev pub effect : A → Kind → List Attr → List (Node A) → List Found → Found
  effect a k attrs ns rs = record { at_node = effect_at k attrs rs; inside = any_found rs }

  unfoldable pub is_effectful : Node A → Bool
  unfolding fold
  is_effectful expr = (fold effect expr).at_node
