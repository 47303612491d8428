-- ===== src/Perm/Root.antt =====
-- perm/perm.py: `preprocess`, which collects the PERM_ONCE alternatives of each key, and `RootPerm`.
use decomp_permuter_psyq.Prelude.{
  ℕ, ◌*◌, List, [], ◌∷◌, ◌++◌, Result, ok, raised, bind, ◌==◌, if◌then◌else◌, length, get_or,
}
use decomp_permuter_psyq.Text.{Text}
use decomp_permuter_psyq.Text.Equality.{same_text}
use decomp_permuter_psyq.Perm.Syntax.{
  Perm, Perms, text, ignore, pretend, combine, randomizer, force_sameline, general, once, var_read,
  var_set, line_swap, line_swap_ast, int_range, nil, cons, perm_count,
}
use decomp_permuter_psyq.Perm.State.{Dict, Eval, ◌>>=◌, ◌>>◌, put}
use decomp_permuter_psyq.Perm.Evaluate.{divmod, evaluate}

abbrev pub OnceOptions : Type 0
OnceOptions = Dict (List ℕ)

-- `state.once_options[key].append(self)` on a `defaultdict(list)`
unfoldable pub add_option : OnceOptions → Text → ℕ → OnceOptions
add_option [] key self = (key, self ∷ []) ∷ []
add_option ((k, options) ∷ d) key self =
    if same_text k key then (k, options ++ self ∷ []) ∷ d else (k, options) ∷ add_option d key self

unfoldable mutual
  unfolding add_option

  pub preprocess : Perm → OnceOptions → OnceOptions
  preprocess (text t) st = st
  preprocess (ignore p) st = preprocess p st
  preprocess (pretend p) st = preprocess p st
  preprocess (combine ps) st = preprocess_all ps st
  preprocess (randomizer p) st = preprocess p st
  preprocess (force_sameline p) st = preprocess p st
  preprocess (general ps) st = preprocess_all ps st
  preprocess (once self key p) st = preprocess p (add_option st key self)
  preprocess (var_read v) st = preprocess v st
  preprocess (var_set v e) st = preprocess e (preprocess v st)
  preprocess (line_swap ps) st = preprocess_all ps st
  preprocess (line_swap_ast ps) st = preprocess_all ps st
  preprocess (int_range low high) st = st

  pub preprocess_all : Perms → OnceOptions → OnceOptions
  preprocess_all nil st = st
  preprocess_all (cons p ps) st = preprocess_all ps (preprocess p st)

pub record RootPerm : Type 0 where
  pub inner : Perm
  pub once_options : OnceOptions
  pub root_count : ℕ

-- The loop of `RootPerm.__init__`; the exception names the key of the lone PERM_ONCE.
unfoldable pub count_options : ℕ → OnceOptions → Result Text ℕ
count_options count [] = ok count
count_options count ((key, options) ∷ d) =
    let rest = count_options (count * length options) d in
    if length options == 1 then raised key else rest

unfoldable pub root_perm : Perm → Result Text RootPerm
unfolding preprocess count_options
root_perm inner =
    let once_options = preprocess inner [] in
    bind (count_options (perm_count inner) once_options)
      λ count. ok (record { inner = inner; once_options = once_options; root_count = count })

unfoldable pub set_choice : Text → ℕ → Eval (Unit {0})
unfolding put
set_choice key self st = ok (tt, record st { once_choices = put st.once_choices key self })

-- The loop of `RootPerm.evaluate`: the seed that is left. The index is in range.
unfoldable pub choose_options : OnceOptions → ℕ → Eval ℕ
unfolding divmod set_choice
choose_options [] seed = λ st. ok (seed, st)
choose_options ((key, options) ∷ d) seed = do
  (seed', choice) ← divmod seed (length options)
  set_choice key (get_or options choice 0)
  choose_options d seed'

unfoldable pub evaluate_root : RootPerm → ℕ → Eval Text
unfolding choose_options evaluate
evaluate_root root seed = do
  seed' ← choose_options root.once_options seed
  evaluate root.inner seed'
