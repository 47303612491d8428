-- ===== src/Examples/Sandbox.antt =====
-- net/evaluator.py: a schedule in which a permuter is removed while its work is under way.
use decomp_permuter_psyq.Prelude.{ℕ, ◌≡◌, refl, List, [], ◌∷◌, Result, ok, raised, All}
use decomp_permuter_psyq.Prelude.Int.{pos}
use decomp_permuter_psyq.Text.{Text, codes}
use decomp_permuter_psyq.Text.Equality.{same_text}
use decomp_permuter_psyq.Net.Permuters.{PermuterData}
use decomp_permuter_psyq.Net.Evaluator.Ports.{Task, Init, success}
use decomp_permuter_psyq.Net.Evaluator.Pool.{
  System, Choice, read, finish, take, drain, evaluate, run, start,
}
use decomp_permuter_psyq.Net.Evaluator.Invariant.{Proper}
use decomp_permuter_psyq.Net.Evaluator.Schedules.{run-start}
use decomp_permuter_psyq.Prelude.Int.{same_int, ◌+ℤ◌, ◌-ℤ◌}
use decomp_permuter_psyq.Net.Evaluator.Pool.{Fault}
use decomp_permuter_psyq.Net.Evaluator.Counts.{outstanding}
use decomp_permuter_psyq.Net.Evaluator.Schedules.{run-UpToDate, UpToDate}
use decomp_permuter_psyq.Prelude.Int.{◌-ℤ◌}
use decomp_permuter_psyq.Examples.Network.{perm, name}

-- The evaluator: the permuter is removed while its work is under way.
abbrev create : PermuterData ℕ → Init
create p = success (pos 120) (codes "ab")

abbrev tasks : List (Task ℕ)
tasks =
    Task.add_permuter name perm ∷ Task.work name (pos 0) (pos 5) ∷ Task.remove_permuter name ∷ []

tasks-Proper : Proper create [] [] tasks
unfolding same_text
tasks-Proper = (refl, (refl, tt))

abbrev choices : List Choice
choices =
    read
    ∷ read
    ∷ take 1
    ∷ read
    ∷ evaluate 1
    ∷ drain 1
    ∷ evaluate 1
    ∷ finish
    ∷ drain 0
    ∷ evaluate 0
    ∷ []

run-start_example : (s : System ℕ) × (run create (start 2 tasks) choices ≡ ok s)
run-start_example = run-start create 2 tasks choices tasks-Proper

abbrev state_of : Result Fault (System ℕ) → System ℕ
state_of (ok s) = s
state_of (raised fault) = start 2 tasks

abbrev last_state : System ℕ
unfolding run
last_state = state_of (run create (start 2 tasks) choices)

last_state_reached : run create (start 2 tasks) choices ≡ ok last_state
unfolding run same_text same_int ◌+ℤ◌ ◌-ℤ◌
last_state_reached = refl

run-UpToDate_example :
    ((p : Text) → last_state.main.remaining_work p ≡ pos (outstanding p last_state))
    × All (UpToDate last_state.main) last_state.workers
run-UpToDate_example =
    run-UpToDate create 2 tasks choices last_state tasks-Proper last_state_reached
