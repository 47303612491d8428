-- ===== src/Permuter/Sources.antt =====
-- main.py: `assert result.source is not None` in `post_score` and `write_candidate`.
use decomp_permuter_psyq.Prelude.{
  ℕ, ◌≡◌, ◌≢◌, ap, inl, inr, true, not, ◌&&◌, Option, none, some, List, [], ◌∷◌, arith, Bool-cases,
  Result, ok, raised, bind, raised-injective,
}
use decomp_permuter_psyq.Text.{Text}
use decomp_permuter_psyq.Permuter.Results.{
  CandidateResult, Settings, Permuter, new_permuter, is_present, should_output,
}
use decomp_permuter_psyq.Permuter.Pool.{
  EvalResult, scored, failed, Options, EvalContext, write_result, post_score, run_pool, run_single,
  missing_source, EvalError,
}
use decomp_permuter_psyq.Permuter.Output.{AllFit}
use decomp_permuter_psyq.Permuter.Runs.{run_pool-eq-run_single}

-- each result has its source when the worker has evaluated it
abbrev pub AllSources : List (ℕ × EvalResult) → Type 0
AllSources [] = Unit
AllSources ((k, failed error) ∷ results) = AllSources results
AllSources ((k, scored result) ∷ results) = (is_present result.source ≡ true) × AllSources results

write_result-ne-missing_source :
    (context : EvalContext) (self : Permuter) (score : ℕ) (hash source : Option Text)
    → is_present source ≡ true
    → write_result context self (record { score = score; hash = hash; source = source })
      ≢ raised missing_source
unfolding write_result
write_result-ne-missing_source context self score hash none present e = absurd (cc present)
write_result-ne-missing_source context self score hash (some t) present e = absurd (cc e)

post_score-ne-missing_source :
    (options : Options) (context : EvalContext) (self : Permuter) (result : CandidateResult)
    → is_present result.source ≡ true
    → post_score options context self (scored result) ≢ raised missing_source
unfolding post_score
post_score-ne-missing_source options context self result present e =
    elim (Bool-cases (options.print_diffs && not (is_present result.source))) [
      | inl stop ↦ absurd (ground (arith, stop, present))
      | inr go ↦ elim (Bool-cases (should_output self result)) [
        | inl o ↦
            write_result-ne-missing_source _ self result.score result.hash result.source present
              (rw (go, o) at e)
        | inr o ↦ let e' = rw (go, o) at e in absurd (cc e')
      ]
    ]

bind-ne {ℓ κ μ} :
    {E : Type ℓ} {A : Type κ} {B : Type μ} (r : Result E A) (f : A → Result E B) (x : E)
    → r ≢ raised x
    → ((a : A) → f a ≢ raised x)
    → bind r f ≢ raised x
bind-ne (ok a) f x h k e = k a e
bind-ne (raised y) f x h k e = h (ap raised (raised-injective e))

post_score_failed-ne-missing_source :
    (options : Options) (context : EvalContext) (self : Permuter) (error : EvalError)
    → post_score options context self (failed error) ≢ raised missing_source
unfolding post_score
post_score_failed-ne-missing_source options context self error e =
    elim (Bool-cases options.abort_exceptions) [
      | inl stop ↦ let e' = rw stop at e in absurd (cc e')
      | inr go ↦ let e' = rw go at e in absurd (cc e')
    ]

run_single-ne-missing_source :
    (options : Options) (context : EvalContext) (self : Permuter) (results : List (ℕ × EvalResult))
    → AllSources results
    → run_single options context self results ≢ raised missing_source
unfolding run_single
run_single-ne-missing_source options context self [] sources = λ e. absurd (cc e)
run_single-ne-missing_source options context self ((k, failed error) ∷ results) sources =
    bind-ne (post_score options context self (failed error)) _ missing_source
      (post_score_failed-ne-missing_source options context self error)
      λ posted.
        bind-ne (run_single options posted.context posted.permuter results) _ missing_source
          (run_single-ne-missing_source options posted.context posted.permuter results sources)
          (λ out e. absurd (cc e))
run_single-ne-missing_source options context self ((k, scored result) ∷ results) (source, sources) =
    bind-ne (post_score options context self (scored result)) _ missing_source
      (post_score-ne-missing_source options context self result source)
      λ posted.
        bind-ne (run_single options posted.context posted.permuter results) _ missing_source
          (run_single-ne-missing_source options posted.context posted.permuter results sources)
          (λ out e. absurd (cc e))

-- In such a run no assertion on a source fails in the parent, if each candidate was evaluated with its
-- source.
pub run_pool-ne-missing_source :
    (score_of : Text → ℕ) (options : Options) (context : EvalContext) (settings : Settings)
    (results : List (ℕ × EvalResult))
    → settings.need_all_sources ≡ options.print_diffs
    → score_of settings.base_hash ≡ settings.base_score
    → AllFit score_of results
    → AllSources results
    → run_pool options context (new_permuter settings) (λ k. new_permuter settings) results
      ≢ raised missing_source
run_pool-ne-missing_source score_of options context settings results all base fit sources =
    rw (run_pool-eq-run_single score_of options context settings results all base fit)
      (run_single-ne-missing_source options context (new_permuter settings) results sources)
