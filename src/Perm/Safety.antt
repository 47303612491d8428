-- ===== src/Perm/Safety.antt =====
-- perm/perm.py: at a seed below its count a `Perm` does not fail an assertion, divide by zero or miss
-- a key of `once_choices`, if the choices of its PERM_ONCE keys are made.
use decomp_permuter_psyq.Prelude.{
  ℕ, ◌-◌, ◌/◌, ◌%◌, ◌<◌, ◌≡◌, refl, Bool, true, false, Option, none, some, [], Result, ok, raised,
  bind, arith, ltb, if◌then◌else◌, Bool-cases, inl, inr, ltb→lt, div-lt_of_lt-mul, mod-lt_of_lt-mul,
  ◌==◌,
}
use decomp_permuter_psyq.Text.{Text}
use decomp_permuter_psyq.Perm.Syntax.{
  Perm, Perms, text, ignore, pretend, combine, randomizer, force_sameline, general, once, var_read,
  var_set, line_swap, line_swap_ast, int_range, nil, cons, perms_length, factorial, perm_count,
  count_all, count_either,
}
use decomp_permuter_psyq.Perm.State.{
  Dict, Eval, EvalState, EvalError, undefined_var, pure, get, gen_ast_statement_perm,
}
use decomp_permuter_psyq.Perm.Evaluate.{
  set_var, read_var, is_chosen, evaluate, eval_all, eval_either,
}
use decomp_permuter_psyq.Perm.Radix.{divmod-pure}

-- The run returns what `Q` describes, or reads a PERM_VAR that is not set; it ends in no other way.
pub data Ends {A : Type 0} (Q : A → EvalState → Type 0)
    : Result EvalError (A × EvalState) → Type 0 where
  returns : {a : A} {st : EvalState} → Q a st → Ends Q (ok (a, st))
  undefined : {name : Text} → Ends Q (raised (undefined_var name))

-- the choices of the PERM_ONCE keys are as given
abbrev pub Chose : {A : Type 0} → Dict ℕ → A → EvalState → Type 0
Chose choices a st = st.once_choices ≡ choices

Ends-bind :
    {A B : Type 0} {P : A → EvalState → Type 0} {Q : B → EvalState → Type 0}
    {r : Result EvalError (A × EvalState)} (f : A → Eval B)
    → Ends P r
    → ((a : A) (st : EvalState) → P a st → Ends Q (f a st))
    → Ends Q (bind r λ (a, st'). f a st')
Ends-bind f (returns {a} {st} h) k = k a st h
Ends-bind f undefined k = undefined

pub Ends-weaken :
    {A : Type 0} {P Q : A → EvalState → Type 0} {r : Result EvalError (A × EvalState)}
    → Ends P r
    → ((a : A) (st : EvalState) → P a st → Q a st)
    → Ends Q r
Ends-weaken (returns {a} {st} h) k = returns (k a st h)
Ends-weaken undefined k = undefined

-- every key of a PERM_ONCE in the tree has a value
module _ {V : Type 0} where
  unfoldable mutual
    pub KeysIn : Dict V → Perm → Type 0
    KeysIn d (text t) = Unit
    KeysIn d (ignore p) = KeysIn d p
    KeysIn d (pretend p) = KeysIn d p
    KeysIn d (combine ps) = AllKeysIn d ps
    KeysIn d (randomizer p) = KeysIn d p
    KeysIn d (force_sameline p) = KeysIn d p
    KeysIn d (general ps) = AllKeysIn d ps
    KeysIn d (once self key p) = ((v : V) × (get d key ≡ some v)) × KeysIn d p
    KeysIn d (var_read v) = KeysIn d v
    KeysIn d (var_set v e) = KeysIn d v × KeysIn d e
    KeysIn d (line_swap ps) = AllKeysIn d ps
    KeysIn d (line_swap_ast ps) = AllKeysIn d ps
    KeysIn d (int_range low high) = Unit

    pub AllKeysIn : Dict V → Perms → Type 0
    AllKeysIn d nil = Unit
    AllKeysIn d (cons p ps) = KeysIn d p × AllKeysIn d ps

read_var-Ends :
    (d : Dict ℕ) (name : Text) (st : EvalState)
    → st.once_choices ≡ d
    → Ends (Chose d) (read_var name st)
unfolding read_var
read_var-Ends d name st h = go (get st.vars name)
  where
    go :
        (o : Option Text)
        → Ends
            (Chose d)
            (elim o [ none ↦ raised (undefined_var name) | some value ↦ ok (value, st) ])
    go none = undefined
    go (some value) = returns h

is_chosen-pure :
    (key : Text) (self c : ℕ) (st : EvalState)
    → get st.once_choices key ≡ some c
    → is_chosen key self st ≡ ok (c == self, st)
unfolding is_chosen
is_chosen-pure key self c st h = ground (arith, h)

Ends-if :
    {d : Dict ℕ} (b : Bool) (m : Eval Text) (st : EvalState)
    → Ends (Chose d) (m st)
    → st.once_choices ≡ d
    → Ends (Chose d) ((if b then m else pure []) st)
Ends-if true m st h e = h
Ends-if false m st h e = returns e

mutual
  unfolding evaluate eval_all eval_either perm_count KeysIn set_var gen_ast_statement_perm

  evaluate-Ends :
      (p : Perm) (d : Dict ℕ) (seed : ℕ) (st : EvalState)
      → seed < perm_count p
      → KeysIn d p
      → st.once_choices ≡ d
      → Ends (Chose d) (evaluate p seed st)
  evaluate-Ends (text t) d seed st h k e = returns e
  evaluate-Ends (ignore p) d seed st h k e =
      Ends-bind _ (evaluate-Ends p d seed st h k e) λ t st' e'. returns e'
  evaluate-Ends (pretend p) d seed st h k e =
      Ends-bind _ (evaluate-Ends p d seed st h k e) λ t st' e'. returns e'
  evaluate-Ends (combine ps) d seed st h k e =
      Ends-bind _ (eval_all-Ends ps d seed st h k e) λ t st' e'. returns e'
  evaluate-Ends (randomizer p) d seed st h k e =
      Ends-bind _ (evaluate-Ends p d seed st h k e) λ t st' e'. returns e'
  evaluate-Ends (force_sameline p) d seed st h k e =
      Ends-bind _ (evaluate-Ends p d seed st h k e) λ t st' e'. returns e'
  evaluate-Ends (general ps) d seed st h k e = eval_either-Ends ps d seed st h k e
  evaluate-Ends (once self key p) d seed st h ((c, found), k) e =
      rw (is_chosen-pure key self c st (rw e found))
        (Ends-if (c == self) (evaluate p seed) st (evaluate-Ends p d seed st h k e) e)
  evaluate-Ends (var_read v) d seed st h k e = rw (divmod-pure seed (perm_count v) (omega arith)) (
      Ends-bind _ (evaluate-Ends v d (seed % perm_count v) st (omega arith) k e)
        λ name st' e'. read_var-Ends d _ st' e')
  evaluate-Ends (var_set v w) d seed st h k e =
      rw (divmod-pure seed (perm_count v) (mod-lt_of_lt-mul seed (perm_count v) (perm_count w) h)) (
        Ends-bind _
          (evaluate-Ends v d (seed % perm_count v) st
            (mod-lt_of_lt-mul seed (perm_count v) (perm_count w) h) k.0 e)
          λ name st' e'.
            Ends-bind _
              (evaluate-Ends w d (seed / perm_count v) st'
                (div-lt_of_lt-mul seed (perm_count v) (perm_count w) h) k.1 e')
              λ value st'' e''. returns e'')
  evaluate-Ends (line_swap ps) d seed st h k e =
      rw
        (divmod-pure seed (factorial (perms_length ps))
          (mod-lt_of_lt-mul seed (factorial (perms_length ps)) (count_all ps) h))
        (Ends-bind _
          (eval_all-Ends ps d (seed / factorial (perms_length ps)) st
            (div-lt_of_lt-mul seed (factorial (perms_length ps)) (count_all ps) h) k e)
          λ texts st' e'. returns e')
  evaluate-Ends (line_swap_ast ps) d seed st h k e =
      rw
        (divmod-pure seed (factorial (perms_length ps))
          (mod-lt_of_lt-mul seed (factorial (perms_length ps)) (count_all ps) h))
        (Ends-bind _
          (eval_all-Ends ps d (seed / factorial (perms_length ps)) st
            (div-lt_of_lt-mul seed (factorial (perms_length ps)) (count_all ps) h) k e)
          λ texts st' e'. returns e')
  evaluate-Ends (int_range low high) d seed st h k e = returns e

  eval_all-Ends :
      (ps : Perms) (d : Dict ℕ) (seed : ℕ) (st : EvalState)
      → seed < count_all ps
      → AllKeysIn d ps
      → st.once_choices ≡ d
      → Ends (Chose d) (eval_all ps seed st)
  eval_all-Ends nil d seed st h k e =
      let none_left : (seed == 0) ≡ true = ground arith in rw none_left (returns e)
  eval_all-Ends (cons p ps) d seed st h k e =
      rw (divmod-pure seed (perm_count p) (mod-lt_of_lt-mul seed (perm_count p) (count_all ps) h)) (
        Ends-bind _
          (evaluate-Ends p d (seed % perm_count p) st
            (mod-lt_of_lt-mul seed (perm_count p) (count_all ps) h) k.0 e)
          λ t st' e'.
            Ends-bind _
              (eval_all-Ends ps d (seed / perm_count p) st'
                (div-lt_of_lt-mul seed (perm_count p) (count_all ps) h) k.1 e')
              λ ts st'' e''. returns e'')

  eval_either-Ends :
      (ps : Perms) (d : Dict ℕ) (seed : ℕ) (st : EvalState)
      → seed < count_either ps
      → AllKeysIn d ps
      → st.once_choices ≡ d
      → Ends (Chose d) (eval_either ps seed st)
  eval_either-Ends nil d seed st h k e = absurd (omega arith)
  eval_either-Ends (cons p ps) d seed st h k e = elim (Bool-cases (ltb seed (perm_count p))) [
    | inl here ↦ rw here (evaluate-Ends p d seed st (ltb→lt seed (perm_count p) here) k.0 e)
    | inr there ↦ rw there (eval_either-Ends ps d (seed - perm_count p) st (ground arith) k.1 e)
  ]

-- Where every PERM_ONCE key of the tree has a choice, evaluation at a seed below `perm_count` returns
-- a text and keeps the choices, or reads a PERM_VAR that is not set; no assertion fails.
pub evaluate_safe :
    (p : Perm) (seed : ℕ) (st : EvalState)
    → seed < perm_count p
    → KeysIn st.once_choices p
    → Ends (Chose st.once_choices) (evaluate p seed st)
evaluate_safe p seed st h k = evaluate-Ends p st.once_choices seed st h k refl
