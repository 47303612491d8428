-- ===== src/Prelude/Folds.antt =====
-- Sums over a list, and a predicate of all its items.
use Prim.Native.Nat.{ℕ, zero, suc, ◌+◌}
use mathlib.Core.Path.{◌≡◌, ap, subst}
use mathlib.Core.Option.{some, some-injective}
use mathlib.Core.List.{List, [], ◌∷◌, ◌++◌, map}
use native.Mathlib.Omega.{arith}
use decomp_permuter_psyq.Prelude.Lists.{get_elem?, set}

module _ {A : Type 0} where
  abbrev pub sum_of : (A → ℕ) → List A → ℕ
  sum_of f [] = 0
  sum_of f (x ∷ xs) = f x + sum_of f xs

  pub sum_of-set :
      (f : A → ℕ) (xs : List A) (i : ℕ) (old new : A)
      → get_elem? xs i ≡ some old
      → sum_of f (set xs i new) + f old ≡ sum_of f xs + f new
  sum_of-set f [] i old new e = absurd (cc e)
  sum_of-set f (x ∷ xs) zero old new e = omega (arith, ap f (some-injective x old e))
  sum_of-set f (x ∷ xs) (suc i) old new e = omega (arith, sum_of-set f xs i old new e)

  pub sum_of-append : (f : A → ℕ) (xs ys : List A) → sum_of f (xs ++ ys) ≡ sum_of f xs + sum_of f ys
  sum_of-append f [] ys = omega arith
  sum_of-append f (x ∷ xs) ys = omega (arith, sum_of-append f xs ys)

  pub sum_of-map :
      (f : A → ℕ) (g : A → A) (xs : List A)
      → ((x : A) → f (g x) ≡ f x)
      → sum_of f (map g xs) ≡ sum_of f xs
  sum_of-map f g [] h = omega arith
  sum_of-map f g (x ∷ xs) h = omega (arith, h x, sum_of-map f g xs h)

  abbrev pub All : (A → Type 0) → List A → Type 0
  All P [] = Unit
  All P (x ∷ xs) = P x × All P xs

  module _ (P : A → Type 0) where
    pub All-get_elem? : (xs : List A) (i : ℕ) (x : A) → get_elem? xs i ≡ some x → All P xs → P x
    All-get_elem? [] i x e all = absurd (cc e)
    All-get_elem? (y ∷ ys) zero x e (h, all) = subst P (some-injective y x e) h
    All-get_elem? (y ∷ ys) (suc i) x e (h, all) = All-get_elem? ys i x e all

    pub All-set : (xs : List A) (i : ℕ) (x : A) → All P xs → P x → All P (set xs i x)
    All-set [] i x all p = tt
    All-set (y ∷ ys) zero x (h, all) p = (p, all)
    All-set (y ∷ ys) (suc i) x (h, all) p = (h, All-set ys i x all p)

    pub All-append : (xs ys : List A) → All P xs → All P ys → All P (xs ++ ys)
    All-append [] ys all more = more
    All-append (x ∷ xs) ys (h, all) more = (h, All-append xs ys all more)

  pub All-map :
      (P Q : A → Type 0) (g : A → A) (xs : List A)
      → ((x : A) → P x → Q (g x))
      → All P xs
      → All Q (map g xs)
  All-map P Q g [] h all = tt
  All-map P Q g (x ∷ xs) h (p, all) = (h x p, All-map P Q g xs h all)

  pub All-implies : (P Q : A → Type 0) (xs : List A) → ((x : A) → P x → Q x) → All P xs → All Q xs
  All-implies P Q [] h all = tt
  All-implies P Q (x ∷ xs) h (p, all) = (h x p, All-implies P Q xs h all)
