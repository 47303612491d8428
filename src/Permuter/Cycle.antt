-- ===== src/Permuter/Cycle.antt =====
-- main.py: `cycle_seeds`, over permuters whose seeds come to an end.
use decomp_permuter_psyq.Prelude.{
  ℕ, zero, suc, ◌+◌, ◌-◌, ◌%◌, ◌≤◌, ◌<◌, ◌≡◌, refl, ap, ◌∙◌, none, some, List, [], ◌∷◌, arith, ◌==◌,
  ◌&&◌, length, set, get_elem?, sum_of, sum_of-set, some, if◌then◌else◌,
}
use mathlib.Core.Option.{some-injective}

-- the number of a permuter with the seeds that are left in its iterator
abbrev pub SeedIterator : Type 0
SeedIterator = ℕ × List ℕ

-- `del iterators[i]`
abbrev pub remove_at {ℓ} : {A : Type ℓ} → List A → ℕ → List A
remove_at [] i = []
remove_at (x ∷ xs) zero = xs
remove_at (x ∷ xs) (suc i) = x ∷ remove_at xs i

-- `i -= 1` and the remainder that follows, where `n` iterators are left
abbrev pub before : ℕ → ℕ → ℕ
before zero n = n - 1
before (suc i) n = i

-- A round of the loop takes a unit of fuel.
unfoldable pub cycle_loop : ℕ → List SeedIterator → ℕ → List (ℕ × ℕ)
cycle_loop zero iterators i = []
cycle_loop (suc fuel) [] i = []
cycle_loop (suc fuel) (it ∷ its) i = elim (get_elem? (it ∷ its) (i % length (it ∷ its))) [
  | none ↦ []
  | some (perm, []) ↦
      cycle_loop fuel (remove_at (it ∷ its) (i % length (it ∷ its)))
        (before (i % length (it ∷ its)) (length its))
  | some (perm, seed ∷ seeds) ↦
      (perm, seed)
      ∷ cycle_loop fuel (set (it ∷ its) (i % length (it ∷ its)) (perm, seeds))
          (i % length (it ∷ its) + 1)
]

-- the rounds that the loop takes: one for each seed, and one for the end of each iterator
abbrev pub rounds : List SeedIterator → ℕ
rounds iterators = sum_of (λ (it : SeedIterator). length it.1 + 1) iterators

unfoldable pub cycle_seeds : List SeedIterator → List (ℕ × ℕ)
unfolding cycle_loop
cycle_seeds iterators = cycle_loop (rounds iterators) iterators 0

-- how often a pair is handed out, and how often it is in the iterators
abbrev pub hit : ℕ → ℕ → ℕ → ℕ → ℕ
hit p s q t = if p == q && s == t then 1 else 0

abbrev pub times_given : ℕ → ℕ → List (ℕ × ℕ) → ℕ
times_given p s [] = 0
times_given p s ((q, t) ∷ given) = hit p s q t + times_given p s given

abbrev pub times_in : ℕ → ℕ → ℕ → List ℕ → ℕ
times_in p s q [] = 0
times_in p s q (t ∷ seeds) = hit p s q t + times_in p s q seeds

abbrev pub times_left : ℕ → ℕ → List SeedIterator → ℕ
times_left p s iterators = sum_of (λ (it : SeedIterator). times_in p s it.0 it.1) iterators

get_elem?-some :
    (its : List SeedIterator) (i : ℕ)
    → i < length its
    → (it : SeedIterator) × (get_elem? its i ≡ some it)
get_elem?-some [] i h = absurd (omega arith)
get_elem?-some (x ∷ xs) zero h = (x, refl)
get_elem?-some (x ∷ xs) (suc i) h = get_elem?-some xs i (omega arith)

module _ (f : SeedIterator → ℕ) where
  sum_of-remove_at :
      (its : List SeedIterator) (i : ℕ) (old : SeedIterator)
      → get_elem? its i ≡ some old
      → sum_of f (remove_at its i) + f old ≡ sum_of f its
  sum_of-remove_at [] i old e = absurd (cc e)
  sum_of-remove_at (x ∷ xs) zero old e = omega (arith, ap f (some-injective x old e))
  sum_of-remove_at (x ∷ xs) (suc i) old e = omega (arith, sum_of-remove_at xs i old e)

cycle_loop-turn :
    (p s fuel : ℕ) (it : SeedIterator) (its : List SeedIterator) (i q : ℕ) (seeds : List ℕ)
    → ((its' : List SeedIterator) (j : ℕ)
        → rounds its' ≤ fuel
        → times_given p s (cycle_loop fuel its' j) ≡ times_left p s its')
    → rounds (it ∷ its) ≤ suc fuel
    → get_elem? (it ∷ its) (i % length (it ∷ its)) ≡ some (q, seeds)
    → times_given p s (cycle_loop (suc fuel) (it ∷ its) i) ≡ times_left p s (it ∷ its)
unfolding cycle_loop
cycle_loop-turn p s fuel it its i q [] step h e =
    let k = i % length (it ∷ its) in
    let less = sum_of-remove_at (λ (it : SeedIterator). length it.1 + 1) (it ∷ its) k (q, []) e in
    let kept =
      sum_of-remove_at (λ (it : SeedIterator). times_in p s it.0 it.1) (it ∷ its) k (q, []) e in
    let rest = step (remove_at (it ∷ its) k) (before k (length its)) (omega (arith, less)) in
    rw (e, cycle_loop) (rest ∙ omega (arith, kept))
cycle_loop-turn p s fuel it its i q (t ∷ seeds) step h e =
    let k = i % length (it ∷ its) in
    let less =
      sum_of-set (λ (it : SeedIterator). length it.1 + 1) (it ∷ its) k (q, t ∷ seeds) (q, seeds)
        e in
    let kept =
      sum_of-set (λ (it : SeedIterator). times_in p s it.0 it.1) (it ∷ its) k (q, t ∷ seeds)
        (q, seeds) e in
    let rest = step (set (it ∷ its) k (q, seeds)) (k + 1) (omega (arith, less)) in
    rw (e, cycle_loop) (omega (arith, rest, kept))

cycle_loop-times :
    (p s fuel : ℕ) (its : List SeedIterator) (i : ℕ)
    → rounds its ≤ fuel
    → times_given p s (cycle_loop fuel its i) ≡ times_left p s its
unfolding cycle_loop
cycle_loop-times p s zero [] i h = refl
cycle_loop-times p s (suc fuel) [] i h = refl
cycle_loop-times p s zero (it ∷ its) i h = absurd (omega arith)
cycle_loop-times p s (suc fuel) (it ∷ its) i h =
    let ((q, seeds), e) = get_elem?-some (it ∷ its) (i % length (it ∷ its)) (grind arith) in
    cycle_loop-turn p s fuel it its i q seeds (cycle_loop-times p s fuel) h e

-- Permuters whose seeds come to an end: each pair of a permuter and a seed is handed out as often as the
-- seed is in the iterator of that permuter, so no seed is lost and none is repeated when an iterator
-- ends before the others.
pub cycle_seeds-times :
    (iterators : List SeedIterator) (perm seed : ℕ)
    → times_given perm seed (cycle_seeds iterators) ≡ times_left perm seed iterators
unfolding cycle_seeds
cycle_seeds-times iterators perm seed =
    cycle_loop-times perm seed (rounds iterators) iterators 0 (omega arith)
