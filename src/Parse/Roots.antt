-- ===== src/Parse/Roots.antt =====
-- perm/parse.py: `perm_parse`, whose trees are evaluated at seed 0 for the base source.
use decomp_permuter_psyq.Prelude.{
  ℕ, ◌+◌, ◌<◌, ◌≡◌, ◌≢◌, Bool, not, ◌&&◌, [], ◌∷◌, Result, ok, raised, bind, arith, leb,
  if◌then◌else◌, length, length-append, Bool-cases, Ok-cases, inl, inr, ok-injective,
  raised-injective, subst,
}
use decomp_permuter_psyq.Text.{Text}
use decomp_permuter_psyq.Text.Equality.{same_text}
use decomp_permuter_psyq.Perm.Syntax.{
  Perm, Perms, text, ignore, pretend, combine, randomizer, force_sameline, general, once, var_read,
  var_set, line_swap, line_swap_ast, int_range, nil, cons, is_random, perm_count,
}
use decomp_permuter_psyq.Perm.State.{init}
use decomp_permuter_psyq.Perm.Root.{
  OnceOptions, RootPerm, add_option, preprocess, preprocess_all, root_perm,
}
use decomp_permuter_psyq.Perm.Safety.{Ends, Ends-weaken}
use decomp_permuter_psyq.Perm.Choices.{ways, root_perm-fields, root_safe}
use decomp_permuter_psyq.Perm.Seeds.{perm_evaluate_one}
use decomp_permuter_psyq.Parse.Monad.{ParseError, out_of_fuel}
use decomp_permuter_psyq.Parse.Rules.{Parses, parsed, failed, HasSeed, Parses-bind, mul_pos}
use decomp_permuter_psyq.Parse.Total.{rec_perm_parse_total}
use decomp_permuter_psyq.Parse.Grammar.{make_root, perm_parse}

-- no key is without alternatives
abbrev Filled : OnceOptions → Type 0
Filled [] = Unit
Filled ((key, options) ∷ d) = (0 < length options) × Filled d

ways-pos : (d : OnceOptions) → Filled d → 0 < ways d
unfolding ways
ways-pos [] h = omega arith
ways-pos ((key, options) ∷ d) h = mul_pos (length options) (ways d) h.0 (ways-pos d h.1)

add_option-Filled :
    (d : OnceOptions) (key : Text) (self : ℕ) → Filled d → Filled (add_option d key self)
unfolding add_option
add_option-Filled [] key self h = (omega arith, tt)
add_option-Filled ((k, options) ∷ d) key self h = elim (Bool-cases (same_text k key)) [
  | inl same ↦ rw same (omega (arith, length-append options (self ∷ [])), h.1)
  | inr other ↦ rw other (h.0, add_option-Filled d key self h.1)
]

mutual
  unfolding preprocess

  preprocess-Filled : (p : Perm) (d : OnceOptions) → Filled d → Filled (preprocess p d)
  preprocess-Filled (once self key p) d h =
      preprocess-Filled p (add_option d key self) (add_option-Filled d key self h)
  preprocess-Filled (text t) d h = h
  preprocess-Filled (ignore p) d h = preprocess-Filled p d h
  preprocess-Filled (pretend p) d h = preprocess-Filled p d h
  preprocess-Filled (combine ps) d h = preprocess_all-Filled ps d h
  preprocess-Filled (randomizer p) d h = preprocess-Filled p d h
  preprocess-Filled (force_sameline p) d h = preprocess-Filled p d h
  preprocess-Filled (general ps) d h = preprocess_all-Filled ps d h
  preprocess-Filled (var_read v) d h = preprocess-Filled v d h
  preprocess-Filled (var_set v e) d h =
      preprocess-Filled e (preprocess v d) (preprocess-Filled v d h)
  preprocess-Filled (line_swap ps) d h = preprocess_all-Filled ps d h
  preprocess-Filled (line_swap_ast ps) d h = preprocess_all-Filled ps d h
  preprocess-Filled (int_range low high) d h = h

  preprocess_all-Filled : (ps : Perms) (d : OnceOptions) → Filled d → Filled (preprocess_all ps d)
  preprocess_all-Filled nil d h = h
  preprocess_all-Filled (cons p ps) d h =
      preprocess_all-Filled ps (preprocess p d) (preprocess-Filled p d h)

-- a root of some tree, with a seed
pub record IsRoot (root : RootPerm) : Type 0 where
  pub tree : Perm
  pub made : root_perm tree ≡ ok root
  pub seeds : 0 < root.root_count

make_root-Parses : (p : Perm) (n : ℕ) → HasSeed p → Parses IsRoot (make_root p n)
unfolding make_root
make_root-Parses p n h = elim (Ok-cases (root_perm p)) [
  | inl (root, e) ↦
      let (inner, options, count) = root_perm-fields p e in
      rw (e, make_root)
        (parsed (record {
          tree = p;
          made = e;
          seeds = rw count (
              mul_pos (perm_count p) (ways (preprocess p [])) h
                (ways-pos (preprocess p []) (preprocess-Filled p [] tt)));
        }))
  | inr (key, e) ↦ rw (e, make_root) (failed λ same. cc same)
]

randomized-HasSeed : (b : Bool) (p : Perm) → HasSeed p → HasSeed (if b then randomizer p else p)
unfolding perm_count
randomized-HasSeed Bool.true p h = h
randomized-HasSeed Bool.false p h = h

data Outcome : Result ParseError RootPerm → Type 0 where
  root : {r : RootPerm} → IsRoot r → Outcome (ok r)
  refused : {e : ParseError} → e ≢ out_of_fuel → Outcome (raised e)

perm_parse-Outcome : (s : Text) → Outcome (perm_parse s)
unfolding perm_parse
perm_parse-Outcome s = finish (
    Parses-bind _ (rec_perm_parse_total (length s + 1) s 0 (omega arith)) λ p n h.
      Parses-bind _ (make_root-Parses p n h) λ r n' is_root.
        make_root-Parses (if leb r.root_count 1 && not (is_random p) then randomizer p else p) n'
          (randomized-HasSeed (leb r.root_count 1 && not (is_random p)) p h))
  where
    finish :
        {r : Result ParseError (RootPerm × ℕ)} → Parses IsRoot r → Outcome (bind r λ (a, n). ok a)
    finish (parsed h) = root h
    finish (failed h) = refused h

Outcome-IsRoot : {r : Result ParseError RootPerm} {a : RootPerm} → Outcome r → r ≡ ok a → IsRoot a
Outcome-IsRoot (root h) e = subst IsRoot (ok-injective e) h
Outcome-IsRoot (refused h) e = cc e

Outcome-fuel : {r : Result ParseError RootPerm} → Outcome r → r ≢ raised out_of_fuel
Outcome-fuel (root h) e = cc e
Outcome-fuel (refused {e = x} h) e = h (raised-injective e)

-- The root of a parsed source has a seed 0, at which `perm_evaluate_one` returns the base source or
-- reads a PERM_VAR that is not set; it fails no assertion.
pub perm_evaluate_one_safe :
    (s : Text) (root : RootPerm)
    → perm_parse s ≡ ok root
    → (0 < root.root_count) × Ends (λ t st. Unit {0}) (perm_evaluate_one root)
unfolding perm_evaluate_one
perm_evaluate_one_safe s r e =
    let h = Outcome-IsRoot (perm_parse-Outcome s) e in
    (h.seeds, Ends-weaken (root_safe h.tree r 0 init h.made h.seeds) λ t st q. tt)
