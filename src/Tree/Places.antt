-- ===== src/Tree/Places.antt =====
-- ast_util.py: the branches of `brace_nested_blocks` and of `for_nested_blocks`, and the two tests of their inner
-- functions, find the statements that the grammar has.
use decomp_permuter_psyq.Prelude.{◌≡◌, refl}
use decomp_permuter_psyq.Tree.Nodes.{Kind, case}
use decomp_permuter_psyq.Tree.Blocks.{
  Part, its_last, its_rest, itself, labelled, no_part, brace_part, callback_part, needs_no_braces,
  is_block,
}
use decomp_permuter_psyq.Tree.Braces.{
  Grammar, body, branches, statements, case_statements, after_label, grammar, has_list,
}

-- Where the grammar has statements that `brace_nested_blocks` is to find, and `for_nested_blocks`.
abbrev pub to_brace : Grammar → Part
to_brace body = its_last
to_brace branches = its_rest
to_brace after_label = labelled
to_brace _ = no_part

abbrev pub to_call : Grammar → Part
to_call statements = itself
to_call case_statements = itself
to_call g = to_brace g

pub brace_part-grammar : (k : Kind) → brace_part k ≡ to_brace (grammar k)
brace_part-grammar case = refl
brace_part-grammar _ = refl

pub callback_part-grammar : (k : Kind) → callback_part k ≡ to_call (grammar k)
callback_part-grammar case = refl
callback_part-grammar _ = refl

pub needs_no_braces-grammar : (k : Kind) → needs_no_braces k ≡ has_list (grammar k)
needs_no_braces-grammar case = refl
needs_no_braces-grammar _ = refl

pub is_block-grammar : (k : Kind) → is_block k ≡ has_list (grammar k)
is_block-grammar case = refl
is_block-grammar _ = refl
