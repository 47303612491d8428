-- ===== src/Perm/AstIds.antt =====
-- perm/perm.py and perm/ast.py: the numbers of the late macros. `apply_ast_perms` goes through
-- `ast_perms` from the front, since nested macros are registered before the macro around them.
use decomp_permuter_psyq.Prelude.{
  ℕ, ◌-◌, ◌/◌, ◌%◌, ◌≡◌, refl, sym, ap, ◌∙◌, Bool, true, false, Option, none, some, List, [], ◌∷◌,
  ◌++◌, append-nil, append_assoc, Result, ok, raised, bind, ltb, ◌==◌, if◌then◌else◌, length,
  Ok-cases, ok-injective, inl, inr,
}
use decomp_permuter_psyq.Text.{Text, codes, newline, join, show_ℕ}
use decomp_permuter_psyq.Perm.Syntax.{
  Perm, Perms, text, ignore, pretend, combine, randomizer, force_sameline, general, once, var_read,
  var_set, line_swap, line_swap_ast, int_range, nil, cons, perms_length, factorial, perm_count,
}
use decomp_permuter_psyq.Perm.State.{
  Eval, EvalState, EvalError, bad_seed, pure, raise, get, braced, gen_ast_statement_perm,
}
use decomp_permuter_psyq.Perm.Evaluate.{
  divmod, set_var, read_var, is_chosen, evaluate, eval_all, eval_either,
}

-- The entries of `before` come first in `after`.
abbrev pub Extends : List (Perm × ℕ) → List (Perm × ℕ) → Type 0
Extends before after = (new : List (Perm × ℕ)) × (after ≡ before ++ new)

Extends-refl : (l : List (Perm × ℕ)) → Extends l l
Extends-refl l = ([], sym (append-nil l))

Extends-trans : (a b c : List (Perm × ℕ)) → Extends a b → Extends b c → Extends a c
Extends-trans a b c (x, e) (y, f) = (x ++ y, rw (f, e) (append_assoc a x y))

-- The run raises, or ends with the late macros that it began with and more behind them.
data Grows {A : Type 0} (l : List (Perm × ℕ)) : Result EvalError (A × EvalState) → Type 0 where
  grown : {a : A} {st : EvalState} → Extends l st.ast_perms → Grows l (ok (a, st))
  stopped : {e : EvalError} → Grows l (raised e)

Grows-bind :
    {A B : Type 0} {l : List (Perm × ℕ)} {r : Result EvalError (A × EvalState)} (f : A → Eval B)
    → Grows l r
    → ((a : A) (st : EvalState) → Grows st.ast_perms (f a st))
    → Grows l (bind r λ (a, st'). f a st')
Grows-bind f stopped k = stopped
Grows-bind {B} {l} f (grown {a} {st} h) k = go (f a st) (k a st)
  where
    go : (r : Result EvalError (B × EvalState)) → Grows st.ast_perms r → Grows l r
    go (ok (b, st')) (grown g) = grown (Extends-trans l st.ast_perms st'.ast_perms h g)
    go (raised e) stopped = stopped

Grows-here : {A : Type 0} (a : A) (st : EvalState) → Grows st.ast_perms (ok (a, st))
Grows-here a st = grown (Extends-refl st.ast_perms)

Grows-if :
    {A : Type 0} (b : Bool) (m n : Eval A) (st : EvalState)
    → Grows st.ast_perms (m st)
    → Grows st.ast_perms (n st)
    → Grows st.ast_perms ((if b then m else n) st)
Grows-if true m n st h k = h
Grows-if false m n st h k = k

divmod-Grows : (a b : ℕ) (st : EvalState) → Grows st.ast_perms (divmod a b st)
unfolding divmod
divmod-Grows a b st =
    Grows-if (b == 0) (raise EvalError.zero_division) (pure (a / b, a % b)) st stopped
      (Grows-here (a / b, a % b) st)

read_var-Grows : (name : Text) (st : EvalState) → Grows st.ast_perms (read_var name st)
unfolding read_var
read_var-Grows name st = go (get st.vars name)
  where
    go :
        (o : Option Text)
        → Grows st.ast_perms
            (elim o [ none ↦ raised (EvalError.undefined_var name) | some v ↦ ok (v, st) ])
    go none = stopped
    go (some v) = Grows-here v st

is_chosen-Grows :
    (key : Text) (self : ℕ) (st : EvalState) → Grows st.ast_perms (is_chosen key self st)
unfolding is_chosen
is_chosen-Grows key self st = go (get st.once_choices key)
  where
    go :
        (o : Option ℕ)
        → Grows st.ast_perms
            (elim o [ none ↦ raised (EvalError.missing_key key) | some c ↦ ok (c == self, st) ])
    go none = stopped
    go (some c) = Grows-here (c == self) st

mutual
  unfolding evaluate eval_all eval_either set_var gen_ast_statement_perm

  evaluate-Grows : (p : Perm) (seed : ℕ) (st : EvalState) → Grows st.ast_perms (evaluate p seed st)
  evaluate-Grows (text t) seed st = Grows-here t st
  evaluate-Grows (ignore p) seed st =
      Grows-bind _ (evaluate-Grows p seed st) λ t st'. Grows-here _ st'
  evaluate-Grows (pretend p) seed st =
      Grows-bind _ (evaluate-Grows p seed st) λ t st'. Grows-here _ st'
  evaluate-Grows (combine ps) seed st =
      Grows-bind _ (eval_all-Grows ps seed st) λ t st'. Grows-here _ st'
  evaluate-Grows (randomizer p) seed st =
      Grows-bind _ (evaluate-Grows p seed st) λ t st'. Grows-here _ st'
  evaluate-Grows (force_sameline p) seed st =
      Grows-bind _ (evaluate-Grows p seed st) λ t st'. Grows-here _ st'
  evaluate-Grows (general ps) seed st = eval_either-Grows ps seed st
  evaluate-Grows (once self key p) seed st =
      Grows-bind _ (is_chosen-Grows key self st) λ chosen st'.
        Grows-if chosen (evaluate p seed) (pure []) st' (evaluate-Grows p seed st')
          (Grows-here [] st')
  evaluate-Grows (var_read v) seed st =
      Grows-bind _ (divmod-Grows seed (perm_count v) st)
        λ q st₁. Grows-bind _ (evaluate-Grows v q.1 st₁) λ name st₂. read_var-Grows _ st₂
  evaluate-Grows (var_set v e) seed st = Grows-bind _ (divmod-Grows seed (perm_count v) st) λ q st₁.
      Grows-bind _ (evaluate-Grows v q.1 st₁) λ name st₂.
        Grows-bind _ (evaluate-Grows e q.0 st₂) λ value st₃. grown (Extends-refl st₃.ast_perms)
  evaluate-Grows (line_swap ps) seed st =
      Grows-bind _ (divmod-Grows seed (factorial (perms_length ps)) st)
        λ q st₁. Grows-bind _ (eval_all-Grows ps q.0 st₁) λ texts st₂. Grows-here _ st₂
  evaluate-Grows (line_swap_ast ps) seed st =
      Grows-bind _ (divmod-Grows seed (factorial (perms_length ps)) st) λ q st₁.
        Grows-bind _ (eval_all-Grows ps q.0 st₁)
          λ texts st₂. grown ((line_swap_ast ps, q.1) ∷ [], refl)
  evaluate-Grows (int_range low high) seed st = Grows-here _ st

  eval_all-Grows :
      (ps : Perms) (seed : ℕ) (st : EvalState) → Grows st.ast_perms (eval_all ps seed st)
  eval_all-Grows nil seed st =
      Grows-if (seed == 0) (pure []) (raise bad_seed) st (Grows-here [] st) stopped
  eval_all-Grows (cons p ps) seed st = Grows-bind _ (divmod-Grows seed (perm_count p) st) λ q st₁.
      Grows-bind _ (evaluate-Grows p q.1 st₁)
        λ t st₂. Grows-bind _ (eval_all-Grows ps q.0 st₂) λ ts st₃. Grows-here _ st₃

  eval_either-Grows :
      (ps : Perms) (seed : ℕ) (st : EvalState) → Grows st.ast_perms (eval_either ps seed st)
  eval_either-Grows nil seed st = stopped
  eval_either-Grows (cons p ps) seed st =
      Grows-if (ltb seed (perm_count p)) (evaluate p seed) (eval_either ps (seed - perm_count p)) st
        (evaluate-Grows p seed st) (eval_either-Grows ps (seed - perm_count p) st)

Grows-Extends :
    {A : Type 0} {l : List (Perm × ℕ)} {a : A} {st : EvalState}
    → Grows l (ok (a, st))
    → Extends l st.ast_perms
Grows-Extends (grown h) = h

-- the block that stands for the lines, with the number of its entry
abbrev pub written : ℕ → List Text → Text
written perm_id texts = join (newline ∷ []) (
    codes "{"
    ∷ (codes "#pragma _permuter ast_perm " ++ show_ℕ perm_id)
    ∷ (braced texts ++ codes "}" ∷ []))

-- When a `PERM_LINESWAP` has been expanded, its entry is the last one of `ast_perms`, its pragma holds
-- the number of that entry, the entries made for its lines stand before it, and those that were there
-- before come first.
pub nested_ids :
    (ps : Perms) (seed : ℕ) (st st' : EvalState) (t : Text)
    → evaluate (line_swap_ast ps) seed st ≡ ok (t, st')
    → (nested : List (Perm × ℕ)) × (texts : List Text) × (variation : ℕ) × (st'.ast_perms
        ≡ (st.ast_perms ++ nested) ++ (line_swap_ast ps, variation) ∷ [])
      × (t ≡ written (length (st.ast_perms ++ nested)) texts)
unfolding evaluate gen_ast_statement_perm
nested_ids ps seed st st' t h = elim (Ok-cases (divmod seed (factorial (perms_length ps)) st)) [
  | inl ((q, st₁), e) ↦ elim (Ok-cases (eval_all ps q.0 st₁)) [
    | inl ((texts, st₂), f) ↦
        let grew = Grows-Extends (rw f at (eval_all-Grows ps q.0 st₁)) in
        let same = Grows-Extends (rw e at (divmod-Grows seed (factorial (perms_length ps)) st)) in
        let (nested, more) = Extends-trans st.ast_perms st₁.ast_perms st₂.ast_perms same grew in
        let made = ok-injective (rw (e, f) at h) in
        (
          nested,
          texts,
          q.1,
          sym (ap (λ (r : Text × EvalState). r.1.ast_perms) made)
              ∙ ap (λ (l : List (Perm × ℕ)). l ++ (line_swap_ast ps, q.1) ∷ []) more,
          sym (ap (λ (r : Text × EvalState). r.0) made)
              ∙ ap (λ (l : List (Perm × ℕ)). written (length l) texts) more,
        )
    | inr (x, f) ↦ cc (rw (e, f) at h)
  ]
  | inr (x, e) ↦ cc (rw e at h)
]
