-- ===== src/Tree/Equal.antt =====
-- ast_util.py: `equal_ast` as it is called without `cmp`. An absent child or list of children differs in the
-- members of its node from one that is there; the numbers of children follow.
use decomp_permuter_psyq.Prelude.{
  ℕ, zero, suc, ◌==◌, ◌≡◌, refl, ap, ◌∙◌, sym, Bool, true, false, ◌&&◌, List, [], ◌∷◌, arith,
}
use decomp_permuter_psyq.Text.{Text}
use decomp_permuter_psyq.Text.Equality.{same_text}
use decomp_permuter_psyq.Tree.Nodes.{
  Kind, array_ref, assignment, binary_op, cast, compound_literal, constant, expr_list, func_call,
  id, struct_ref, ternary_op, unary_op, break, continue, goto, label, return, empty_statement,
  pragma, typedef, decl, decl_list, compound, case, default, switch, while, do_while, for_loop,
  if_stmt, ptr_decl, array_decl, func_decl, type_decl, identifier_type, struct, union, enum,
  enumerator, enumerator_list, typename, func_def, ellipsis_param, file_ast, init_list,
  named_initializer, param_list, Attr, word, words, absent, present, Node, node, Nodes, empty, more,
}

-- A number for each class, in the order of the declaration; `kinds` has them back.
abbrev tag : Kind → ℕ
tag array_ref = 0
tag assignment = 1
tag binary_op = 2
tag cast = 3
tag compound_literal = 4
tag constant = 5
tag expr_list = 6
tag func_call = 7
tag id = 8
tag struct_ref = 9
tag ternary_op = 10
tag unary_op = 11
tag break = 12
tag continue = 13
tag goto = 14
tag label = 15
tag return = 16
tag empty_statement = 17
tag pragma = 18
tag typedef = 19
tag decl = 20
tag decl_list = 21
tag compound = 22
tag case = 23
tag default = 24
tag switch = 25
tag while = 26
tag do_while = 27
tag for_loop = 28
tag if_stmt = 29
tag ptr_decl = 30
tag array_decl = 31
tag func_decl = 32
tag type_decl = 33
tag identifier_type = 34
tag struct = 35
tag union = 36
tag enum = 37
tag enumerator = 38
tag enumerator_list = 39
tag typename = 40
tag func_def = 41
tag ellipsis_param = 42
tag file_ast = 43
tag init_list = 44
tag named_initializer = 45
tag param_list = 46

-- `type(a) == type(b)`
unfoldable pub same_kind : Kind → Kind → Bool
same_kind k j = tag k == tag j

abbrev pub same_words : List Text → List Text → Bool
same_words [] [] = true
same_words (t ∷ ts) (u ∷ us) = same_text t u && same_words ts us
same_words _ _ = false

abbrev pub same_attr : Attr → Attr → Bool
same_attr (word t) (word u) = same_text t u
same_attr (words ts) (words us) = same_words ts us
same_attr absent absent = true
same_attr present present = true
same_attr _ _ = false

abbrev pub same_attrs : List Attr → List Attr → Bool
same_attrs [] [] = true
same_attrs (a ∷ attrs) (b ∷ others) = same_attr a b && same_attrs attrs others
same_attrs _ _ = false

unfoldable mutual
  unfolding same_kind

  pub equal_ast : {A B : Type 0} → Node A → Node B → Bool
  equal_ast (node a k attrs ns) (node b j others ms) =
      same_kind k j && (same_attrs attrs others && equal_lists ns ms)

  pub equal_lists : {A B : Type 0} → Nodes A → Nodes B → Bool
  equal_lists empty empty = true
  equal_lists empty (more m ms) = false
  equal_lists (more n ns) empty = false
  equal_lists (more n ns) (more m ms) = equal_ast n m && equal_lists ns ms

abbrev kinds : List Kind
kinds =
    array_ref ∷ assignment ∷ binary_op ∷ cast ∷ compound_literal ∷ constant ∷ expr_list ∷ func_call
    ∷ id ∷ struct_ref ∷ ternary_op ∷ unary_op ∷ break ∷ continue ∷ goto ∷ label ∷ return
    ∷ empty_statement ∷ pragma ∷ typedef ∷ decl ∷ decl_list ∷ compound ∷ case ∷ default ∷ switch
    ∷ while ∷ do_while ∷ for_loop ∷ if_stmt ∷ ptr_decl ∷ array_decl ∷ func_decl ∷ type_decl
    ∷ identifier_type ∷ struct ∷ union ∷ enum ∷ enumerator ∷ enumerator_list ∷ typename ∷ func_def
    ∷ ellipsis_param ∷ file_ast ∷ init_list ∷ named_initializer ∷ param_list ∷ []

abbrev kind_at : List Kind → ℕ → Kind
kind_at [] n = array_ref
kind_at (k ∷ ks) zero = k
kind_at (k ∷ ks) (suc n) = kind_at ks n

kind_at-tag : (k : Kind) → kind_at kinds (tag k) ≡ k
kind_at-tag array_ref = refl
kind_at-tag _ = refl

pub same_kind→eq : (k j : Kind) → same_kind k j ≡ true → k ≡ j
unfolding same_kind
same_kind→eq k j h = sym (kind_at-tag k) ∙ ap (kind_at kinds) (tags k j h) ∙ kind_at-tag j
  where
    tags : (k j : Kind) → (tag k == tag j) ≡ true → tag k ≡ tag j
    tags k j h = ground arith

pub same_kind_self : (k : Kind) → same_kind k k ≡ true
unfolding same_kind
same_kind_self k = ground arith
