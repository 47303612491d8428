-- ===== src/Perm/Evaluate.antt =====
-- perm/perm.py: the `evaluate` methods, `_eval_all` and `_eval_either`.
use decomp_permuter_psyq.Prelude.{
  ℕ, ◌-◌, ◌/◌, ◌%◌, Bool, none, some, List, [], ◌∷◌, ◌++◌, ok, raised, ltb, ◌==◌, if◌then◌else◌,
}
use decomp_permuter_psyq.Prelude.Int.{pos, ◌+ℤ◌}
use decomp_permuter_psyq.Text.{Text, codes, newline, strip, join, concat, show_ℤ}
use decomp_permuter_psyq.Text.Base64.{b64_text}
use decomp_permuter_psyq.Perm.Syntax.{
  Perm, Perms, text, ignore, pretend, combine, randomizer, force_sameline, general, once, var_read,
  var_set, line_swap, line_swap_ast, int_range, nil, cons, perms_length, factorial, perm_count,
}
use decomp_permuter_psyq.Perm.State.{
  Eval, bad_seed, zero_division, missing_key, undefined_var, pure, raise, ◌>>=◌, ◌>>◌, get, put,
  gen_ast_statement_perm,
}
use decomp_permuter_psyq.Perm.Shuffle.{shuffle}

-- `divmod(a, b)`
unfoldable pub divmod : ℕ → ℕ → Eval (ℕ × ℕ)
divmod a b = if b == 0 then raise zero_division else pure (a / b, a % b)

-- the text between a start and an end pragma, each on a line of its own
unfoldable pub between_pragmas : Text → Text → Text
unfolding join
between_pragmas kind t =
    let pragma = codes "#pragma _permuter " ++ kind in
    join (newline ∷ []) ([] ∷ (pragma ++ codes " start") ∷ t ∷ (pragma ++ codes " end") ∷ [] ∷ [])

-- the text that `IgnorePerm` hides from the C parser
unfoldable pub hidden : Text → Text
unfolding b64_text
hidden [] = []
hidden (c ∷ cs) =
    newline ∷ (codes "#pragma _permuter b64literal " ++ (b64_text (c ∷ cs) ++ newline ∷ []))

unfoldable pub set_var : Text → Text → Eval (Unit {0})
unfolding put
set_var name value st = ok (tt, record st { vars = put st.vars name value })

unfoldable pub read_var : Text → Eval Text
unfolding get
read_var name st = elim (get st.vars name) [
  | none ↦ raised (undefined_var name)
  | some value ↦ ok (value, st)
]

-- `state.once_choices[key] is self`
unfoldable pub is_chosen : Text → ℕ → Eval Bool
unfolding get
is_chosen key self st = elim (get st.once_choices key) [
  | none ↦ raised (missing_key key)
  | some choice ↦ ok (choice == self, st)
]

unfoldable mutual
  unfolding divmod between_pragmas hidden set_var read_var is_chosen gen_ast_statement_perm concat
      strip shuffle show_ℤ ◌+ℤ◌ join perm_count

  pub evaluate : Perm → ℕ → Eval Text
  evaluate (text t) seed = pure t
  evaluate (ignore p) seed = do t ← evaluate p seed; pure (hidden t)
  evaluate (pretend p) seed = do t ← evaluate p seed; pure (between_pragmas (codes "latedefine") t)
  evaluate (combine ps) seed = do texts ← eval_all ps seed; pure (concat texts)
  evaluate (randomizer p) seed = do
    t ← evaluate p seed
    pure (between_pragmas (codes "randomizer") t)
  evaluate (force_sameline p) seed = do
    t ← evaluate p seed
    pure (between_pragmas (codes "sameline") t)
  evaluate (general ps) seed = eval_either ps seed
  evaluate (once self key p) seed = do
    chosen ← is_chosen key self
    if chosen then evaluate p seed else pure []
  evaluate (var_read v) seed = do
    (seed', sub_seed) ← divmod seed (perm_count v)
    name ← evaluate v sub_seed
    read_var (strip name)
  evaluate (var_set v e) seed = do
    (seed', sub_seed) ← divmod seed (perm_count v)
    name ← evaluate v sub_seed
    value ← evaluate e seed'
    set_var (strip name) value
    pure []
  evaluate (line_swap ps) seed = do
    (sub_seed, variation) ← divmod seed (factorial (perms_length ps))
    texts ← eval_all ps sub_seed
    pure (join (newline ∷ []) (shuffle texts variation))
  evaluate (line_swap_ast ps) seed = do
    (sub_seed, variation) ← divmod seed (factorial (perms_length ps))
    texts ← eval_all ps sub_seed
    gen_ast_statement_perm (line_swap_ast ps) variation texts
  evaluate (int_range low high) seed = pure (show_ℤ (low +ℤ pos seed))

  pub eval_all : Perms → ℕ → Eval (List Text)
  eval_all nil seed = if seed == 0 then pure [] else raise bad_seed
  eval_all (cons p ps) seed = do
    (seed', sub_seed) ← divmod seed (perm_count p)
    t ← evaluate p sub_seed
    ts ← eval_all ps seed'
    pure (t ∷ ts)

  pub eval_either : Perms → ℕ → Eval Text
  eval_either nil seed = raise bad_seed
  eval_either (cons p ps) seed =
      let later = eval_either ps (seed - perm_count p) in
      if ltb seed (perm_count p) then evaluate p seed else later
