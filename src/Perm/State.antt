-- ===== src/Perm/State.antt =====
-- perm/perm.py: `EvalState`, and evaluation as a state that is passed on, ended by an exception.
use decomp_permuter_psyq.Prelude.{
  ℕ, Option, none, some, List, [], ◌∷◌, ◌++◌, Result, ok, raised, bind, if◌then◌else◌, length,
}
use decomp_permuter_psyq.Text.{Text, codes, newline, join, show_ℕ}
use decomp_permuter_psyq.Text.Equality.{same_text}
use decomp_permuter_psyq.Perm.Syntax.{Perm}

-- A `dict` with `str` keys, in order of insertion.
abbrev pub Dict {ℓ} : Type ℓ → Type ℓ
Dict V = List (Text × V)

module _ {ℓ} {V : Type ℓ} where
  -- `d.get(key)`
  unfoldable pub get : Dict V → Text → Option V
  get [] key = none
  get ((k, v) ∷ d) key = if same_text k key then some v else get d key

  -- `d[key] = value`
  unfoldable pub put : Dict V → Text → V → Dict V
  put [] key value = (key, value) ∷ []
  put ((k, v) ∷ d) key value = if same_text k key then (k, value) ∷ d else (k, v) ∷ put d key value

pub record EvalState : Type 0 where
  pub vars : Dict Text
  pub once_choices : Dict ℕ
  pub ast_perms : List (Perm × ℕ)

abbrev pub init : EvalState
init = record { vars = []; once_choices = []; ast_perms = [] }

-- `bad_seed` is the failed assertion on the seed, `zero_division` that of `divmod`, `missing_key` the
-- `KeyError` of `once_choices` and `undefined_var` the exception of a PERM_VAR that is not set.
pub data EvalError : Type 0 where
  bad_seed zero_division : EvalError
  missing_key : Text → EvalError
  undefined_var : Text → EvalError

abbrev pub Eval {ℓ} : Type ℓ → Type ℓ
Eval A = EvalState → Result EvalError (A × EvalState)

module _ {ℓ} {A : Type ℓ} where
  abbrev pub pure : A → Eval A
  pure a st = ok (a, st)

  abbrev pub raise : EvalError → Eval A
  raise e st = raised e

module _ {ℓ κ} {A : Type ℓ} {B : Type κ} where
  infixl 10 ◌>>=◌ ◌>>◌
  abbrev pub ◌>>=◌ : Eval A → (A → Eval B) → Eval B
  ◌>>=◌ m f st = bind (m st) λ (a, st'). f a st'

  abbrev pub ◌>>◌ : Eval A → Eval B → Eval B
  m >> n = m >>= λ _. n

unfoldable pub braced : List Text → List Text
braced [] = []
braced (t ∷ ts) = (codes "{" ++ (t ++ codes "}")) ∷ braced ts

-- `register_ast_perm`: the number of the new entry
unfoldable pub register_ast_perm : Perm → ℕ → Eval ℕ
register_ast_perm p seed st =
    ok (length st.ast_perms, record st { ast_perms = st.ast_perms ++ (p, seed) ∷ [] })

-- `gen_ast_statement_perm`
unfoldable pub gen_ast_statement_perm : Perm → ℕ → List Text → Eval Text
unfolding register_ast_perm braced join show_ℕ
gen_ast_statement_perm p seed statements = do
  perm_id ← register_ast_perm p seed
  pure (
      join (newline ∷ []) (
        codes "{"
        ∷ (codes "#pragma _permuter ast_perm " ++ show_ℕ perm_id)
        ∷ (braced statements ++ codes "}" ∷ [])))
