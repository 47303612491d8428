-- ===== src/Parse/Grammar.antt =====
-- perm/parse.py: `_rec_perm_parse` with the factories, and `perm_parse`.
use decomp_permuter_psyq.Prelude.{
  ℕ, zero, suc, ◌+◌, Bool, not, ◌&&◌, none, some, List, [], ◌∷◌, Result, ok, raised, bind, leb,
  if◌then◌else◌, length,
}
use decomp_permuter_psyq.Prelude.Int.{ℤ, ltb_ℤ}
use decomp_permuter_psyq.Text.{Text, strip, strip_left}
use decomp_permuter_psyq.Perm.Syntax.{
  Perm, text, ignore, pretend, combine, randomizer, force_sameline, general, once, var_read,
  var_set, line_swap, line_swap_ast, int_range, text_perm, from_list, is_random,
}
use decomp_permuter_psyq.Perm.Root.{RootPerm, root_perm}
use decomp_permuter_psyq.Parse.Monad.{
  ParseError, once_arity, var_arity, not_text, int_value, int_arity, int_order, unrecognized,
  single_once, out_of_fuel, Parse, pure, raise, lift, fresh, ◌>>=◌, for_each,
}
use decomp_permuter_psyq.Parse.Split.{split_by_comma, consume_arg_parens, split_lines}
use decomp_permuter_psyq.Parse.Macro.{
  search_macro, find_macro, Macro, perm_general, perm_once, perm_randomize, perm_force_sameline,
  perm_var, perm_lineswap_text, perm_lineswap, perm_int, perm_ignore, perm_pretend,
}
use decomp_permuter_psyq.Parse.Integer.{parse_int}

-- `line.strip()` as a test
unfoldable pub is_blank : Text → Bool
unfolding strip_left
is_blank line = elim (strip_left line) [ [] ↦ Bool.true | c ∷ cs ↦ Bool.false ]

-- `[line for line in text.split("\n") if line.strip()]`
unfoldable pub filled_lines : List Text → List Text
unfolding is_blank
filled_lines [] = []
filled_lines (line ∷ lines) =
    let rest = filled_lines lines in if is_blank line then rest else line ∷ rest

-- the texts of `_split_args_text`
unfoldable pub text_of : Perm → Parse Text
text_of (text t) = pure t
text_of p = raise not_text

unfoldable pub int_of : Text → Parse ℤ
unfolding parse_int
int_of s = elim (parse_int s) [ none ↦ raise int_value | some n ↦ pure n ]

-- `IntPerm(*bounds)`
unfoldable pub int_perm : List ℤ → Parse Perm
int_perm (low ∷ high ∷ []) = if ltb_ℤ high low then raise int_order else pure (int_range low high)
int_perm bounds = raise int_arity

-- The recursive call `_rec_perm_parse` is a parameter of what it calls.
module _ (rec_parse : Text → Parse Perm) where
  unfoldable pub split_args : Text → Parse (List Perm)
  unfolding split_by_comma for_each
  split_args s = do args ← lift (split_by_comma s); for_each rec_parse args

  unfoldable pub split_args_newline : Text → Parse (List Perm)
  unfolding split_lines filled_lines for_each
  split_args_newline s = for_each rec_parse (filled_lines (split_lines s []))

  unfoldable pub split_args_text : Text → Parse (List Text)
  unfolding split_args text_of
  split_args_text s = do perms ← split_args s; for_each text_of perms

  unfoldable pub once_of : List Text → Parse Perm
  unfolding strip
  once_of (code ∷ []) = do value ← rec_parse code; self ← fresh; pure (once self (strip code) value)
  once_of (key ∷ code ∷ []) = do
    value ← rec_parse code
    self ← fresh
    pure (once self (strip key) value)
  once_of args = raise once_arity

  unfoldable pub var_of : List Text → Parse Perm
  var_of (name ∷ []) = do var_name ← rec_parse name; pure (var_read var_name)
  var_of (name ∷ code ∷ []) = do
    var_name ← rec_parse name
    value ← rec_parse code
    pure (var_set var_name value)
  var_of args = raise var_arity

  unfoldable pub factory : Macro → Text → Parse Perm
  unfolding split_args split_args_newline split_args_text once_of var_of int_of int_perm from_list
  factory perm_general s = do perms ← split_args s; pure (general (from_list perms))
  factory perm_once s = do args ← lift (split_by_comma s); once_of args
  factory perm_randomize s = do p ← rec_parse s; pure (randomizer p)
  factory perm_force_sameline s = do p ← rec_parse s; pure (force_sameline p)
  factory perm_var s = do args ← lift (split_by_comma s); var_of args
  factory perm_lineswap_text s = do perms ← split_args_newline s; pure (line_swap (from_list perms))
  factory perm_lineswap s = do perms ← split_args_newline s; pure (line_swap_ast (from_list perms))
  factory perm_int s = do texts ← split_args_text s; bounds ← for_each int_of texts; int_perm bounds
  factory perm_ignore s = do p ← rec_parse s; pure (ignore p)
  factory perm_pretend s = do p ← rec_parse s; pure (pretend p)

  -- the factory of a name
  unfoldable pub make_perm : Text → Text → Parse (Perm × Text)
  unfolding find_macro factory consume_arg_parens
  make_perm name rest = elim (find_macro name) [
    | none ↦ raise (unrecognized name)
    | some macro ↦ do
      (args, remain) ← lift (consume_arg_parens rest)
      perm ← factory macro args
      pure (perm, remain)
  ]

-- `perms[0]` or `CombinePerm(perms)`
unfoldable pub combine_parts : List Perm → Perm
unfolding from_list
combine_parts (p ∷ []) = p
combine_parts ps = combine (from_list ps)

-- The loop of `_rec_perm_parse`. What remains is no part of the text by structure, so a round and a
-- nested call take a unit of fuel; `length text + 1` is enough.
unfoldable pub parse_pieces : ℕ → Text → Parse (List Perm)
unfolding search_macro make_perm combine_parts text_perm
parse_pieces zero remain = raise out_of_fuel
parse_pieces (suc fuel) [] = pure []
parse_pieces (suc fuel) (c ∷ cs) = elim (search_macro (c ∷ cs)) [
  | none ↦ pure (text_perm (c ∷ cs) ∷ [])
  | some (between, name, rest) ↦ do
    (perm, remain) ←
        make_perm (λ s. parse_pieces fuel s >>= λ ps. pure (combine_parts ps)) name rest
    perms ← parse_pieces fuel remain
    pure (text_perm between ∷ perm ∷ perms)
]

unfoldable pub rec_perm_parse : ℕ → Text → Parse Perm
unfolding parse_pieces
rec_perm_parse fuel s = do perms ← parse_pieces fuel s; pure (combine_parts perms)

-- `RootPerm(perm)`
unfoldable pub make_root : Perm → Parse RootPerm
unfolding root_perm
make_root p = elim (root_perm p) [ ok root ↦ pure root | raised key ↦ raise (single_once key) ]

unfoldable pub perm_parse : Text → Result ParseError RootPerm
unfolding rec_perm_parse make_root is_random
perm_parse s =
    let run : Parse RootPerm = do
      ret ← rec_perm_parse (length s + 1) s
      root ← make_root ret
      make_root (if leb root.root_count 1 && not (is_random ret) then randomizer ret else ret)
    in bind (run 0) λ (root, _). ok root
