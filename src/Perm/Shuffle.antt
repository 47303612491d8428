-- ===== src/Perm/Shuffle.antt =====
-- perm/perm.py: `_shuffle`, which reads the seed as a number in the factorial base.
use decomp_permuter_psyq.Prelude.{ℕ, zero, suc, ◌/◌, ◌%◌, List, [], ◌∷◌, length, get_or}

module _ {ℓ} {A : Type ℓ} where
  -- `del items[i]`
  unfoldable pub delete : List A → ℕ → List A
  delete [] i = []
  delete (x ∷ xs) zero = xs
  delete (x ∷ xs) (suc i) = x ∷ delete xs i

  -- The `while items` loop; each round takes one item. `x` is read only in range.
  unfoldable pub shuffle_loop : ℕ → List A → ℕ → List A
  unfolding delete
  shuffle_loop zero items seed = []
  shuffle_loop (suc rounds) [] seed = []
  shuffle_loop (suc rounds) (x ∷ xs) seed =
      let items = x ∷ xs in
      let ind = seed % length items in
      get_or items ind x ∷ shuffle_loop rounds (delete items ind) (seed / length items)

  unfoldable pub shuffle : List A → ℕ → List A
  unfolding shuffle_loop
  shuffle items seed = shuffle_loop (length items) items seed
