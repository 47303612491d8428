-- ===== src/Examples/Turns.antt =====
-- main.py: `cycle_seeds` over three permuters.
use decomp_permuter_psyq.Prelude.{◌≡◌, refl, List, [], ◌∷◌}
use decomp_permuter_psyq.Permuter.Cycle.{SeedIterator, cycle_seeds, times_given, cycle_seeds-times}

abbrev iterators : List SeedIterator
iterators = (0, 1 ∷ 2 ∷ []) ∷ (1, []) ∷ (2, 5 ∷ 6 ∷ []) ∷ []

-- The second iterator ends at once, and the first one has the next turn too.
two_turns : cycle_seeds iterators ≡ (0, 1) ∷ (0, 2) ∷ (2, 5) ∷ (2, 6) ∷ []
unfolding cycle_seeds
two_turns = refl

cycle_seeds-times_example : times_given 2 5 (cycle_seeds iterators) ≡ 1
cycle_seeds-times_example = cycle_seeds-times iterators 2 5
