-- ===== src/Tree/Blocks.antt =====
-- ast_util.py: blocks of statements. A new node carries the mark `new`.
use decomp_permuter_psyq.Prelude.{
  ℕ, zero, suc, ◌+◌, Bool, true, false, Result, ok, raised, bind, List, [], ◌∷◌, if◌then◌else◌,
}
use decomp_permuter_psyq.Tree.Nodes.{
  Kind, compound, case, default, for_loop, while, do_while, if_stmt, switch, label, present, Node,
  node, Nodes, empty, more, kind, to_list,
}

-- Where a statement has the statements that are made blocks or called with: at its last child, at each child but
-- the first, at itself, at what its labelled statement has, or nowhere.
pub data Part : Type 0 where
  its_last its_rest itself labelled no_part : Part

-- the branches of `brace_nested_blocks`
abbrev pub brace_part : Kind → Part
brace_part for_loop = its_last
brace_part while = its_last
brace_part do_while = its_last
brace_part if_stmt = its_rest
brace_part switch = its_last
brace_part label = labelled
brace_part _ = no_part

-- the branches of `for_nested_blocks`
abbrev pub callback_part : Kind → Part
callback_part compound = itself
callback_part for_loop = its_last
callback_part while = its_last
callback_part do_while = its_last
callback_part if_stmt = its_rest
callback_part switch = its_last
callback_part case = itself
callback_part default = itself
callback_part label = labelled
callback_part _ = no_part

-- `isinstance(stmt, (ca.Compound, ca.Case, ca.Default))` in `brace`
abbrev pub needs_no_braces : Kind → Bool
needs_no_braces compound = true
needs_no_braces case = true
needs_no_braces default = true
needs_no_braces _ = false

-- `isinstance(stmt, (ca.Compound, ca.Case, ca.Default))` in `invoke`
abbrev pub is_block : Kind → Bool
is_block compound = true
is_block case = true
is_block default = true
is_block _ = false

-- `has_nested_block`
abbrev pub has_nested_block : Kind → Bool
has_nested_block compound = true
has_nested_block for_loop = true
has_nested_block while = true
has_nested_block do_while = true
has_nested_block if_stmt = true
has_nested_block switch = true
has_nested_block case = true
has_nested_block default = true
has_nested_block _ = false

-- the list that `get_block_stmts` returns; a `Case` has its expression first
abbrev pub get_block_stmts : {A : Type 0} → Node A → List (Node A)
get_block_stmts (node a case attrs (more expr stmts)) = to_list stmts
get_block_stmts (node a k attrs ns) = to_list ns

-- a write to `stmts[index:index]`, where an index past the end is the end
abbrev pub insert_at : {A : Type 0} → ℕ → Node A → Nodes A → Nodes A
insert_at zero stmt ns = more stmt ns
insert_at (suc index) stmt empty = more stmt empty
insert_at (suc index) stmt (more n ns) = more n (insert_at index stmt ns)

-- `insert_statement`; with `force`, `get_block_stmts` puts a list where none is.
unfoldable pub insert_statement : {A : Type 0} → Node A → ℕ → Node A → Node A
insert_statement (node a case attrs (more expr stmts)) index stmt =
    node a case (present ∷ []) (more expr (insert_at index stmt stmts))
insert_statement (node a k attrs ns) index stmt = node a k (present ∷ []) (insert_at index stmt ns)

-- what stops `normalize_ast`: the assertion of `for_nested_blocks`, or the fuel of the model
pub data Failure : Type 0 where
  not_a_block out_of_fuel : Failure

module _ {A : Type 0} where
  -- what is done to the last child, to each but the first, or to all, where it may fail
  abbrev pub try_all : (Node A → Result Failure (Node A)) → Nodes A → Result Failure (Nodes A)
  try_all f empty = ok empty
  try_all f (more n ns) = bind (f n) λ n'. bind (try_all f ns) λ ns'. ok (more n' ns')

  abbrev pub try_last : (Node A → Result Failure (Node A)) → Nodes A → Result Failure (Nodes A)
  try_last f empty = ok empty
  try_last f (more n empty) = bind (f n) λ n'. ok (more n' empty)
  try_last f (more n (more m ns)) = bind (try_last f (more m ns)) λ ns'. ok (more n ns')

  abbrev pub try_rest : (Node A → Result Failure (Node A)) → Nodes A → Result Failure (Nodes A)
  try_rest f empty = ok empty
  try_rest f (more n ns) = bind (try_all f ns) λ ns'. ok (more n ns')

  abbrev pub change_all : (Node A → Node A) → Nodes A → Nodes A
  change_all f empty = empty
  change_all f (more n ns) = more (f n) (change_all f ns)

  abbrev pub change_end : (Node A → Node A) → Node A → Nodes A → Node A × Nodes A
  change_end f n empty = (f n, empty)
  change_end f n (more m ns) = let (m', ns') = change_end f m ns in (n, more m' ns')

  abbrev pub change_last : (Node A → Node A) → Nodes A → Nodes A
  change_last f empty = empty
  change_last f (more n ns) = let (n', ns') = change_end f n ns in more n' ns'

  abbrev pub change_rest : (Node A → Node A) → Nodes A → Nodes A
  change_rest f empty = empty
  change_rest f (more n ns) = more n (change_all f ns)

  -- `invoke`
  abbrev pub invoke : (Node A → Result Failure (Node A)) → Node A → Result Failure (Node A)
  invoke callback stmt = if is_block (kind stmt) then callback stmt else raised not_a_block

  -- `for_nested_blocks`, where the callback gives the block as it leaves it
  unfoldable mutual
    pub for_nested_blocks : (Node A → Result Failure (Node A)) → Node A → Result Failure (Node A)
    for_nested_blocks callback (node a k attrs ns) = elim (callback_part k) [
      | its_last ↦ bind (try_last (invoke callback) ns) λ ns'. ok (node a k attrs ns')
      | its_rest ↦ bind (try_rest (invoke callback) ns) λ ns'. ok (node a k attrs ns')
      | itself ↦ invoke callback (node a k attrs ns)
      | labelled ↦ bind (for_labelled callback ns) λ ns'. ok (node a k attrs ns')
      | no_part ↦ ok (node a k attrs ns)
    ]

    pub for_labelled : (Node A → Result Failure (Node A)) → Nodes A → Result Failure (Nodes A)
    for_labelled callback empty = ok empty
    for_labelled callback (more n ns) = bind (for_nested_blocks callback n) λ n'. ok (more n' ns)

module _ {A : Type 0} (new : A) where
  -- the function `brace` in `brace_nested_blocks`
  abbrev pub brace : Node A → Node A
  brace stmt =
      if needs_no_braces (kind stmt)
      then stmt
      else node new compound (present ∷ []) (more stmt empty)

  unfoldable mutual
    pub brace_nested_blocks : Node A → Node A
    brace_nested_blocks (node a k attrs ns) = elim (brace_part k) [
      | its_last ↦ node a k attrs (change_last brace ns)
      | its_rest ↦ node a k attrs (change_rest brace ns)
      | labelled ↦ node a k attrs (brace_labelled ns)
      | other ↦ node a k attrs ns
    ]

    pub brace_labelled : Nodes A → Nodes A
    brace_labelled empty = empty
    brace_labelled (more n ns) = more (brace_nested_blocks n) ns

  -- a change of the statements of a block, one after the other
  abbrev pub try_stmts : (Node A → Result Failure (Node A)) → Node A → Result Failure (Node A)
  try_stmts f (node a case attrs ns) = bind (try_rest f ns) λ ns'. ok (node a case attrs ns')
  try_stmts f (node a k attrs ns) = bind (try_all f ns) λ ns'. ok (node a k attrs ns')

  -- the function `rec` of `normalize_ast`
  unfoldable pub normalize_block : ℕ → Node A → Result Failure (Node A)
  unfolding brace_nested_blocks for_nested_blocks
  normalize_block zero stmts = raised out_of_fuel
  normalize_block (suc fuel) stmts =
      try_stmts (λ stmt. for_nested_blocks (normalize_block fuel) (brace_nested_blocks stmt)) stmts

-- the number of nodes, which is enough fuel
unfoldable mutual
  pub size : {A : Type 0} → Node A → ℕ
  size (node a k attrs ns) = suc (sizes ns)

  pub sizes : {A : Type 0} → Nodes A → ℕ
  sizes empty = 0
  sizes (more n ns) = size n + sizes ns

-- `normalize_ast`: the children of a `FuncDef` are its declaration, its body and the parameters' declarations.
unfoldable pub normalize_ast : {A : Type 0} → A → Node A → Result Failure (Node A)
unfolding normalize_block size
normalize_ast new (node a k attrs (more d (more b params))) =
    bind (normalize_block new (suc (size b)) b) λ b'. ok (node a k attrs (more d (more b' params)))
normalize_ast new fn = ok fn
