-- ===== src/Tree/Braces.antt =====
-- ast_util.py: trees whose nested statements are blocks, whatever makes them so.
use decomp_permuter_psyq.Prelude.{◌≡◌, Bool, true, false}
use decomp_permuter_psyq.Tree.Nodes.{
  Kind, compound, case, default, for_loop, while, do_while, if_stmt, switch, label, Node, node,
  Nodes, empty, more, kind,
}

-- Where C's grammar has statements in a statement: a loop and a `switch` end with one, an `if` has one or two
-- branches, a block has a list, which a `case` has behind its expression, and a label has one.
pub data Grammar : Type 0 where
  body branches statements case_statements after_label no_statement : Grammar

abbrev pub grammar : Kind → Grammar
grammar while = body
grammar do_while = body
grammar for_loop = body
grammar switch = body
grammar if_stmt = branches
grammar compound = statements
grammar default = statements
grammar case = case_statements
grammar label = after_label
grammar _ = no_statement

abbrev pub has_list : Grammar → Bool
has_list statements = true
has_list case_statements = true
has_list _ = false

-- A block: a statement that has a list of statements.
abbrev pub forms_block : {A : Type 0} → Node A → Bool
forms_block n = has_list (grammar (kind n))

-- A statement whose bodies and branches are blocks, and so on inside them.
abbrev mutual
  pub Braced : {A : Type 0} → Node A → Type 0
  Braced (node a k attrs ns) = elim (grammar k) [
    | body ↦ BracedLast ns
    | branches ↦ BracedRest ns
    | statements ↦ BracedAll ns
    | case_statements ↦ BracedStmts ns
    | after_label ↦ BracedFirst ns
    | no_statement ↦ Unit {0}
  ]

  pub BracedRest : {A : Type 0} → Nodes A → Type 0
  BracedRest empty = Unit {0}
  BracedRest (more n ns) = BracedBlocks ns

  pub BracedStmts : {A : Type 0} → Nodes A → Type 0
  BracedStmts empty = Unit {0}
  BracedStmts (more n ns) = BracedAll ns

  pub BracedFirst : {A : Type 0} → Nodes A → Type 0
  BracedFirst empty = Unit {0}
  BracedFirst (more n ns) = Braced n

  pub BracedLast : {A : Type 0} → Nodes A → Type 0
  BracedLast empty = Unit {0}
  BracedLast (more n empty) = (forms_block n ≡ true) × Braced n
  BracedLast (more n (more m ns)) = BracedLast (more m ns)

  pub BracedBlocks : {A : Type 0} → Nodes A → Type 0
  BracedBlocks empty = Unit {0}
  BracedBlocks (more n ns) = (forms_block n ≡ true) × Braced n × BracedBlocks ns

  pub BracedAll : {A : Type 0} → Nodes A → Type 0
  BracedAll empty = Unit {0}
  BracedAll (more n ns) = Braced n × BracedAll ns
