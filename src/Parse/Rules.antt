-- ===== src/Parse/Rules.antt =====
-- perm/parse.py: rules for runs of the parser that end within the fuel, and trees that have a seed.
use decomp_permuter_psyq.Prelude.{
  ℕ, zero, suc, ◌*◌, ◌<◌, ◌≡◌, ◌≢◌, refl, ap, List, [], ◌∷◌, Result, ok, raised, bind, arith,
  length,
}
use decomp_permuter_psyq.Perm.Syntax.{
  Perm, from_list, factorial, perm_count, count_all, count_either,
}
use decomp_permuter_psyq.Parse.Monad.{ParseError, out_of_fuel, Parse, for_each}

-- The run returns what `Q` describes, or raises an exception of the program.
pub data Parses {A : Type 0} (Q : A → Type 0) : Result ParseError (A × ℕ) → Type 0 where
  parsed : {a : A} {n : ℕ} → Q a → Parses Q (ok (a, n))
  failed : {e : ParseError} → e ≢ out_of_fuel → Parses Q (raised e)

pub Parses-bind :
    {A B : Type 0} {P : A → Type 0} {Q : B → Type 0} {r : Result ParseError (A × ℕ)}
    (f : A → Parse B)
    → Parses P r
    → ((a : A) (n : ℕ) → P a → Parses Q (f a n))
    → Parses Q (bind r λ (a, n'). f a n')
Parses-bind f (parsed {a} {n} h) k = k a n h
Parses-bind f (failed e) k = failed e

abbrev pub All {ℓ κ} : {A : Type ℓ} → (A → Type κ) → List A → Type κ
All P [] = Unit
All P (x ∷ xs) = P x × All P xs

pub for_each-Parses :
    {A B : Type 0} {P : A → Type 0} {Q : B → Type 0} (f : A → Parse B) (xs : List A) (n : ℕ)
    → ((a : A) (n : ℕ) → P a → Parses Q (f a n))
    → All P xs
    → Parses (λ ys. All Q ys × (length ys ≡ length xs)) (for_each f xs n)
unfolding for_each
for_each-Parses f [] n k h = parsed (tt, refl)
for_each-Parses {Q} f (x ∷ xs) n k h =
    Parses-bind (λ y n'. bind (for_each f xs n') λ (ys, n''). ok (y ∷ ys, n'')) (k x n h.0)
      λ y n' q.
        Parses-bind (λ ys n''. ok (y ∷ ys, n'')) (for_each-Parses f xs n' k h.1)
          λ ys n'' (qs, e). parsed ((q, qs), ap suc e)

pub Parses-weaken :
    {A : Type 0} {P Q : A → Type 0} {r : Result ParseError (A × ℕ)}
    → Parses P r
    → ((a : A) → P a → Q a)
    → Parses Q r
Parses-weaken (parsed {a} h) k = parsed (k a h)
Parses-weaken (failed e) k = failed e

-- the tree has a seed
abbrev pub HasSeed : Perm → Type 0
HasSeed p = 0 < perm_count p

pub count_all-pos : (ps : List Perm) → All HasSeed ps → 0 < count_all (from_list ps)
unfolding count_all from_list
count_all-pos [] h = omega arith
count_all-pos (p ∷ ps) h = grind (arith, count_all-pos ps h.1, h.0)

pub count_either-pos :
    (ps : List Perm) → All HasSeed ps → 0 < length ps → 0 < count_either (from_list ps)
unfolding count_either from_list
count_either-pos [] h n = absurd (omega arith)
count_either-pos (p ∷ ps) h n = omega (arith, h.0)

pub factorial-pos : (n : ℕ) → 0 < factorial n
unfolding factorial
factorial-pos zero = omega arith
factorial-pos (suc n) = grind (arith, factorial-pos n)

pub mul_pos : (a b : ℕ) → 0 < a → 0 < b → 0 < a * b
mul_pos a b h k = grind arith
