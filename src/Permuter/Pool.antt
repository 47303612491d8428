-- ===== src/Permuter/Pool.antt =====
-- main.py: a worker process, `post_score` in the parent process, and both together.
use decomp_permuter_psyq.Prelude.{
  ℕ, ◌+◌, Bool, false, not, ◌&&◌, Option, none, some, List, [], ◌∷◌, Result, ok, raised, bind, ltb,
  ◌==◌, if◌then◌else◌,
}
use decomp_permuter_psyq.Text.{Text}
use decomp_permuter_psyq.Scorer.Score.{penalty_inf}
use decomp_permuter_psyq.Permuter.Results.{
  CandidateResult, Permuter, is_present, should_output, record_result, drop_source,
}

pub record EvalError : Type 0 where
  pub exc_str : Option Text
  pub seed : Option (ℕ × ℕ)

pub data EvalResult : Type 0 where
  scored : CandidateResult → EvalResult
  failed : EvalError → EvalResult

-- A round of `multiprocess_worker` behind the evaluation: the state it leaves and the result it sends.
unfoldable pub worker_record : Permuter → CandidateResult → Permuter
unfolding should_output record_result
worker_record permuter result =
    if should_output permuter result then record_result permuter result else permuter

unfoldable pub worker_send : Permuter → EvalResult → Permuter × EvalResult
unfolding worker_record drop_source
worker_send permuter (failed error) = (permuter, failed error)
worker_send permuter (scored result) =
    let sent = drop_source permuter result in (worker_record permuter sent, scored sent)

pub record Options : Type 0 where
  pub print_diffs : Bool
  pub abort_exceptions : Bool

pub record EvalContext : Type 0 where
  pub iteration : ℕ
  pub errors : ℕ

-- the four messages of `post_score`
pub data Verdict : Type 0 where
  new_best tied_best better same_score : Verdict

-- `missing_source` is a failed assertion on a source, `aborted` the call of `sys.exit`.
pub data Failure : Type 0 where
  missing_source aborted : Failure

-- what `write_candidate` is given, with the message
pub record Written : Type 0 where
  pub verdict : Verdict
  pub score : ℕ
  pub source : Text

pub record Posted : Type 0 where
  pub context : EvalContext
  pub permuter : Permuter
  pub written : Option Written
  pub is_zero : Bool

abbrev pub verdict_of : Permuter → ℕ → Verdict
verdict_of permuter score =
    if ltb score permuter.best_score
    then new_best
    else if score == permuter.best_score
    then tied_best
    else if ltb score permuter.settings.base_score
    then better
    else same_score

abbrev pub count_result : EvalContext → ℕ → EvalContext
count_result context score = record {
  iteration = context.iteration + 1;
  errors = context.errors + (if score == penalty_inf then 1 else 0);
}

-- the output of `post_score`
unfoldable pub write_result : EvalContext → Permuter → CandidateResult → Result Failure Posted
unfolding record_result
write_result context permuter result = elim result.source [
  | none ↦ raised missing_source
  | some source ↦ ok (record {
    context = context;
    permuter = record_result permuter result;
    written = some (record {
      verdict = verdict_of permuter result.score;
      score = result.score;
      source = source;
    });
    is_zero = result.score == 0;
  })
]

unfoldable pub post_score : Options → EvalContext → Permuter → EvalResult → Result Failure Posted
unfolding write_result should_output
post_score options context permuter (failed error) =
    if options.abort_exceptions
    then raised aborted
    else ok (record { context = context; permuter = permuter; written = none; is_zero = false })
post_score options context permuter (scored result) =
    let context' = count_result context result.score in
    if options.print_diffs && not (is_present result.source)
    then raised missing_source
    else if should_output permuter result
    then write_result context' permuter result
    else ok (record {
      context = context';
      permuter = permuter;
      written = none;
      is_zero = result.score == 0;
    })

abbrev pub Outcome : Type 0
Outcome = Result Failure (EvalContext × Permuter × List (Option Written))

-- the state of worker `k` after a round, the others as they were
abbrev pub set_worker : (ℕ → Permuter) → ℕ → Permuter → ℕ → Permuter
set_worker workers k permuter i = if i == k then permuter else workers i

-- For one permuter: the parent takes the results of the workers' rounds in the order in which they come; the queue keeps
-- the order of each worker. A result is what the worker has evaluated, before the source is dropped.
unfoldable pub run_pool :
    Options → EvalContext → Permuter → (ℕ → Permuter) → List (ℕ × EvalResult) → Outcome
unfolding worker_send post_score
run_pool options context permuter workers [] = ok (context, permuter, [])
run_pool options context permuter workers ((k, result) ∷ results) =
    let (worker, sent) = worker_send (workers k) result in
    bind (post_score options context permuter sent) λ posted.
      bind (run_pool options posted.context posted.permuter (set_worker workers k worker) results)
        λ (context', permuter', outputs). ok (context', permuter', posted.written ∷ outputs)

-- A reference: `post_score` on the same results, none of them with its source dropped.
unfoldable pub run_single : Options → EvalContext → Permuter → List (ℕ × EvalResult) → Outcome
unfolding post_score
run_single options context permuter [] = ok (context, permuter, [])
run_single options context permuter ((k, result) ∷ results) =
    bind (post_score options context permuter result) λ posted.
      bind (run_single options posted.context posted.permuter results)
        λ (context', permuter', outputs). ok (context', permuter', posted.written ∷ outputs)
