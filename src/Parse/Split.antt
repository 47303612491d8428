-- ===== src/Parse/Split.antt =====
-- perm/parse.py: `_split_by_comma` and `_consume_arg_parens`, loops over a text that count the open
-- parentheses; and `text.split("\n")`.
use decomp_permuter_psyq.Prelude.{
  ℕ, ◌+◌, ◌-◌, ◌&&◌, List, [], ◌∷◌, ◌++◌, Result, ok, raised, ◌==◌, if◌then◌else◌,
}
use decomp_permuter_psyq.Text.{Text, newline}
use decomp_permuter_psyq.Parse.Monad.{
  ParseError, bad_nesting, mismatched_parentheses, unclosed_macro,
}

-- The loop of `_split_by_comma` with its variables; a branch is computed only if it is taken.
unfoldable pub split_loop : Text → ℕ → Text → List Text → Result ParseError (List Text)
split_loop [] level current args =
    if level == 0 then ok (args ++ current ∷ []) else raised mismatched_parentheses
split_loop (c ∷ cs) level current args =
    let next_arg = split_loop cs level [] (args ++ current ∷ []) in
    let open_paren = split_loop cs (level + 1) (current ++ c ∷ []) args in
    let close_paren = split_loop cs (level - 1) (current ++ c ∷ []) args in
    let other = split_loop cs level (current ++ c ∷ []) args in
    if c == b',' && level == 0
    then next_arg
    else if c == b'('
    then open_paren
    else if c == b')'
    then if level == 0 then raised bad_nesting else close_paren
    else other

unfoldable pub split_by_comma : Text → Result ParseError (List Text)
unfolding split_loop
split_by_comma s = split_loop s 0 [] []

-- The loop of `_consume_arg_parens`: `level == -1` after a `)` is `level == 0` before it. `before` is
-- `text[:i]`.
unfoldable pub consume_loop : Text → ℕ → Text → Result ParseError (Text × Text)
consume_loop [] level before = raised unclosed_macro
consume_loop (c ∷ cs) level before =
    let open_paren = consume_loop cs (level + 1) (before ++ c ∷ []) in
    let close_paren = consume_loop cs (level - 1) (before ++ c ∷ []) in
    let other = consume_loop cs level (before ++ c ∷ []) in
    if c == b'('
    then open_paren
    else if c == b')'
    then if level == 0 then ok (before, cs) else close_paren
    else other

unfoldable pub consume_arg_parens : Text → Result ParseError (Text × Text)
unfolding consume_loop
consume_arg_parens s = consume_loop s 0 []

-- `text.split("\n")`, with the line that is being read
unfoldable pub split_lines : Text → Text → List Text
split_lines [] line = line ∷ []
split_lines (c ∷ cs) line =
    let next_line = line ∷ split_lines cs [] in
    let same_line = split_lines cs (line ++ c ∷ []) in if c == newline then next_line else same_line
