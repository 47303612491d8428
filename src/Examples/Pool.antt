-- ===== src/Examples/Pool.antt =====
-- permuter.py and main.py on a run with two workers.
use decomp_permuter_psyq.Prelude.{
  ℕ, ◌≡◌, ◌≢◌, refl, true, false, Option, none, some, List, [], ◌∷◌, ok, raised, if◌then◌else◌,
  arith,
}
use decomp_permuter_psyq.Text.{Text, codes}
use decomp_permuter_psyq.Text.Equality.{same_text}
use decomp_permuter_psyq.Permuter.Results.{
  Settings, Permuter, new_permuter, should_output, record_result,
}
use decomp_permuter_psyq.Permuter.Pool.{
  EvalResult, scored, failed, Options, EvalContext, Written, new_best, tied_best, run_pool,
  run_single, missing_source,
}
use decomp_permuter_psyq.Permuter.Runs.{run_pool-eq-run_single}
use decomp_permuter_psyq.Permuter.Sources.{run_pool-ne-missing_source}
use decomp_permuter_psyq.Permuter.Best.{recorded_once}

abbrev settings : Settings
settings = record {
  base_score = 100;
  base_hash = codes "base";
  need_all_sources = false;
  best_only = true;
  better_only = false;
  score_threshold = none;
}

abbrev options : Options
options = record { print_diffs = false; abort_exceptions = false }

abbrev context : EvalContext
context = record { iteration = 0; errors = 0 }

abbrev result : ℕ → Text → EvalResult
result score hash = scored (record { score = score; hash = some hash; source = some hash })

-- The second worker has not seen the first result, so it sends the source of one that is worse.
abbrev results : List (ℕ × EvalResult)
results =
    (0, result 50 (codes "a"))
    ∷ (1, result 70 (codes "b"))
    ∷ (1, failed (record { exc_str = none; seed = none }))
    ∷ (1, result 50 (codes "a"))
    ∷ (0, result 50 (codes "c"))
    ∷ (1, result 120 (codes "d"))
    ∷ []

abbrev score_of : Text → ℕ
score_of h =
    if same_text h (codes "base")
    then 100
    else if same_text h (codes "b")
    then 70
    else if same_text h (codes "d")
    then 120
    else 50

abbrev outputs : List (Option Written)
outputs =
    some (record { verdict = new_best; score = 50; source = codes "a" })
    ∷ none
    ∷ none
    ∷ none
    ∷ some (record { verdict = tied_best; score = 50; source = codes "c" })
    ∷ none
    ∷ []

abbrev last : Permuter
last = record {
  settings = settings;
  best_score = 50;
  hashes = codes "c" ∷ codes "a" ∷ codes "base" ∷ [];
}

pool_outputs :
    run_pool options context (new_permuter settings) (λ k. new_permuter settings) results
    ≡ ok (record { iteration = 5; errors = 0 }, last, outputs)
unfolding run_pool same_text
pool_outputs = refl

single_outputs :
    run_single options context (new_permuter settings) results
    ≡ ok (record { iteration = 5; errors = 0 }, last, outputs)
unfolding run_single same_text
single_outputs = refl

run_pool-eq-run_single_example :
    run_pool options context (new_permuter settings) (λ k. new_permuter settings) results
    ≡ run_single options context (new_permuter settings) results
unfolding same_text
run_pool-eq-run_single_example =
    run_pool-eq-run_single score_of options context settings results refl refl
      (refl, (refl, (refl, (refl, (refl, tt)))))

run_pool-ne-missing_source_example :
    run_pool options context (new_permuter settings) (λ k. new_permuter settings) results
    ≢ raised missing_source
unfolding same_text
run_pool-ne-missing_source_example =
    run_pool-ne-missing_source score_of options context settings results refl refl
      (refl, (refl, (refl, (refl, (refl, tt))))) (refl, (refl, (refl, (refl, (refl, tt)))))

abbrev later_results : List (ℕ × EvalResult)
later_results = (0, result 40 (codes "b")) ∷ []

abbrev later_permuter : Permuter
later_permuter = record {
  settings = settings;
  best_score = 40;
  hashes = codes "b" ∷ codes "a" ∷ codes "base" ∷ [];
}

later_outputs :
    run_single options context
      (record_result
        (new_permuter settings)
        (record { score = 50; hash = some (codes "a"); source = some (codes "a") }))
      later_results
    ≡ ok (
      record { iteration = 1; errors = 0 },
      later_permuter,
      some (record { verdict = new_best; score = 40; source = codes "b" }) ∷ [],
    )
unfolding run_single record_result same_text
later_outputs = refl

recorded_once_example :
    should_output later_permuter
      (record { score = 30; hash = some (codes "a"); source = some (codes "a") })
    ≡ false
recorded_once_example =
    recorded_once options context (new_permuter settings) 50 30 (codes "a") (some (codes "a"))
      (some (codes "a")) later_results (record { iteration = 1; errors = 0 }) later_permuter
      (some (record { verdict = new_best; score = 40; source = codes "b" }) ∷ [])
      (λ e. absurd (omega (arith, e))) later_outputs
