-- ===== src/Perm/Seeds.antt =====
-- perm/eval.py: the order in which the seeds are tried.
use decomp_permuter_psyq.Prelude.{
  ℕ, zero, suc, ◌+◌, ◌/◌, Bool, false, ◌||◌, Option, none, some, List, [], ◌∷◌, ◌++◌, Result, ltb,
  ◌==◌, if◌then◌else◌, length,
}
use mathlib.Core.Option
use mathlib.Core.List.{reverse}
use decomp_permuter_psyq.Text.{Text}
use decomp_permuter_psyq.Perm.Syntax.{is_random}
use decomp_permuter_psyq.Perm.State.{EvalState, EvalError, init}
use decomp_permuter_psyq.Perm.Root.{RootPerm, evaluate_root}

-- `perm_evaluate_one`
unfoldable pub perm_evaluate_one : RootPerm → Result EvalError (Text × EvalState)
unfolding evaluate_root
perm_evaluate_one root = evaluate_root root 0 init

-- `seed in seen`
unfoldable pub seen_before : ℕ → List ℕ → Bool
seen_before seed [] = false
seen_before seed (x ∷ xs) = seed == x || seen_before seed xs

-- The first loop of `_gen_all_seeds`. `draws` are the results of `random.randrange(total_count)`, in
-- order; `seen` holds the seeds that were yielded, the latest first. `none` means that the draws have
-- come to an end while the loop goes on.
unfoldable pub draw_seeds : List ℕ → ℕ → List ℕ → Option (List ℕ)
unfolding seen_before
draw_seeds [] total_count seen = if ltb (length seen) (total_count / 2) then none else some seen
draw_seeds (seed ∷ draws) total_count seen =
    let again = draw_seeds draws total_count seen in
    let fresh = draw_seeds draws total_count (seed ∷ seen) in
    if ltb (length seen) (total_count / 2)
    then if seen_before seed seen then again else fresh
    else some seen

-- the seeds from `first` on, `n` of them, that were not seen
unfoldable pub unseen : ℕ → ℕ → List ℕ → List ℕ
unfolding seen_before
unseen first zero seen = []
unseen first (suc n) seen =
    let rest = unseen (first + 1) n seen in if seen_before first seen then rest else first ∷ rest

-- `_gen_all_seeds`: everything that it yields. `mix` is `random.shuffle`.
module _ (mix : List ℕ → List ℕ) where
  unfoldable pub gen_all_seeds : List ℕ → ℕ → Option (List ℕ)
  unfolding draw_seeds unseen
  gen_all_seeds draws total_count = elim (draw_seeds draws total_count []) [
    | none ↦ none
    | some seen ↦ some (reverse seen ++ mix (unseen 0 total_count seen))
  ]

  -- `perm_gen_all_seeds`: what it has yielded when its consumer stops after some rounds, each with its
  -- own draws.
  unfoldable pub perm_gen_all_seeds : RootPerm → List (List ℕ) → Option (List ℕ)
  unfolding gen_all_seeds is_random
  perm_gen_all_seeds root [] = some []
  perm_gen_all_seeds root (draws ∷ rounds) =
      let later : Option (List ℕ) = perm_gen_all_seeds root rounds in
      elim (gen_all_seeds draws root.root_count) [
        | none ↦ none
        | some seeds ↦
            if is_random root.inner then Option.map (λ rest. seeds ++ rest) later else some seeds
      ]
