-- ===== src/Parse/Monad.antt =====
-- The parser's exceptions, and parsing as a run that may raise. A run also counts the objects of class
-- `OncePerm` that it makes: the count is the identity of the next one.
use decomp_permuter_psyq.Prelude.{ℕ, ◌+◌, List, [], ◌∷◌, Result, ok, raised, bind}
use decomp_permuter_psyq.Text.{Text}

-- `out_of_fuel` has no counterpart in the program.
pub data ParseError : Type 0 where
  bad_nesting mismatched_parentheses unclosed_macro once_arity var_arity : ParseError
  not_text int_value int_arity int_order : ParseError
  unrecognized : Text → ParseError
  single_once : Text → ParseError
  out_of_fuel : ParseError

abbrev pub Parse {ℓ} : Type ℓ → Type ℓ
Parse A = ℕ → Result ParseError (A × ℕ)

module _ {ℓ} {A : Type ℓ} where
  abbrev pub pure : A → Parse A
  pure a n = ok (a, n)

  abbrev pub raise : ParseError → Parse A
  raise e n = raised e

  abbrev pub lift : Result ParseError A → Parse A
  lift r n = bind r λ a. ok (a, n)

abbrev pub fresh : Parse ℕ
fresh n = ok (n, n + 1)

module _ {ℓ κ} {A : Type ℓ} {B : Type κ} where
  infixl 10 ◌>>=◌ ◌>>◌
  abbrev pub ◌>>=◌ : Parse A → (A → Parse B) → Parse B
  ◌>>=◌ m f n = bind (m n) λ (a, n'). f a n'

  abbrev pub ◌>>◌ : Parse A → Parse B → Parse B
  m >> k = m >>= λ _. k

  -- `[f(x) for x in xs]`
  unfoldable pub for_each : (A → Parse B) → List A → Parse (List B)
  for_each f [] n = ok ([], n)
  for_each f (x ∷ xs) n =
      bind (f x n) λ (y, n'). bind (for_each f xs n') λ (ys, n''). ok (y ∷ ys, n'')
