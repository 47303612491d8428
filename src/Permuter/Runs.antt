-- ===== src/Permuter/Runs.antt =====
-- main.py and permuter.py: whole runs of the parent and its workers.
use decomp_permuter_psyq.Prelude.{
  ℕ, ◌≡◌, refl, ap, ◌∙◌, inl, inr, List, [], ◌∷◌, arith, Bool-cases, Result, ok, raised, bind,
}
use decomp_permuter_psyq.Text.{Text}
use decomp_permuter_psyq.Text.Equality.{same_text, same_text_iff}
use decomp_permuter_psyq.Permuter.Results.{
  CandidateResult, Settings, Permuter, new_permuter, drop_source,
}
use decomp_permuter_psyq.Permuter.Pool.{
  EvalResult, scored, failed, worker_record, worker_send, Options, EvalContext, Posted, post_score,
  set_worker, run_pool, run_single, Outcome,
}
use decomp_permuter_psyq.Permuter.Record.{Later-refl, worker_record-Later}
use decomp_permuter_psyq.Permuter.Liberal.{
  Fits, Sound, Liberal, Liberal-refl, worker_record-Liberal, worker_record-Sound,
}
use decomp_permuter_psyq.Permuter.Output.{
  AllFit, post_score-permuter, post_score-failed, post_score-drop_source, worker_record-drop_source,
  set_worker-Liberal,
}

bind-cong {ℓ κ μ} :
    {E : Type ℓ} {A : Type κ} {B : Type μ} (r r' : Result E A) {f g : A → Result E B}
    → r ≡ r'
    → ((a : A) → r' ≡ ok a → f a ≡ g a)
    → bind r f ≡ bind r' g
bind-cong r (ok a) e h = rw e (h a refl)
bind-cong r (raised x) e h = rw e refl

module _ (score_of : Text → ℕ) (options : Options) where
  -- what holds of the parent and the workers between two rounds
  abbrev InStep : Permuter → (ℕ → Permuter) → Type 0
  InStep parent workers =
      (parent.settings.need_all_sources ≡ options.print_diffs)
      × Sound score_of parent
      × ((k : ℕ) → Liberal score_of parent (workers k))

  scored-InStep :
      (context : EvalContext) (parent : Permuter) (workers : ℕ → Permuter) (k : ℕ)
      (result : CandidateResult) (posted : Posted)
      → Fits score_of result
      → InStep parent workers
      → post_score options context parent (scored result) ≡ ok posted
      → InStep posted.permuter
          (set_worker workers k (worker_record (workers k) (drop_source (workers k) result)))
  scored-InStep context parent workers k result posted fits (all, sound, liberal) e =
      let later = worker_record-Later parent result in
      rw
        (
          post_score-permuter options context parent result posted e,
          worker_record-drop_source (workers k) result,
        )
        (
          ap (λ (s : Settings). s.need_all_sources) later.0 ∙ all,
          worker_record-Sound score_of parent result fits sound,
          set_worker-Liberal score_of parent (worker_record parent result) workers k
              (worker_record (workers k) result) liberal later
              (worker_record-Liberal score_of parent (workers k) result fits sound (liberal k)),
        )

  failed-InStep :
      (parent : Permuter) (workers : ℕ → Permuter) (k : ℕ)
      → InStep parent workers
      → InStep parent (set_worker workers k (workers k))
  failed-InStep parent workers k (all, sound, liberal) = (
    all,
    sound,
    set_worker-Liberal score_of parent parent workers k (workers k) liberal (Later-refl parent)
        (liberal k),
  )

  run_pool-InStep :
      (context : EvalContext) (parent : Permuter) (workers : ℕ → Permuter)
      (results : List (ℕ × EvalResult))
      → AllFit score_of results
      → InStep parent workers
      → run_pool options context parent workers results ≡ run_single options context parent results
  unfolding run_pool run_single worker_send
  run_pool-InStep context parent workers [] fit inv = refl
  run_pool-InStep context parent workers ((k, failed error) ∷ results) fit inv =
      bind-cong (post_score options context parent (failed error))
        (post_score options context parent (failed error)) refl
        λ posted e.
          ap
            (λ (out : Outcome).
              bind out λ (context', permuter', outputs).
                ok (context', permuter', posted.written ∷ outputs))
            (run_pool-InStep posted.context posted.permuter (set_worker workers k (workers k))
              results fit
              (rw (post_score-failed options context parent error posted e)
                (failed-InStep parent workers k inv)))
  run_pool-InStep context parent workers ((k, scored result) ∷ results) (fits, fit) inv =
      bind-cong (post_score options context parent (scored (drop_source (workers k) result)))
        (post_score options context parent (scored result))
        (post_score-drop_source score_of options context parent (workers k) result fits (inv.2 k)
          (ap (λ (s : Settings). s.need_all_sources) (inv.2 k).0 ∙ inv.0))
        λ posted e.
          ap
            (λ (out : Outcome).
              bind out λ (context', permuter', outputs).
                ok (context', permuter', posted.written ∷ outputs))
            (run_pool-InStep posted.context posted.permuter
              (set_worker workers k (worker_record (workers k) (drop_source (workers k) result)))
              results fit (scored-InStep context parent workers k result posted fits inv e))

new_permuter-Sound :
    (score_of : Text → ℕ) (settings : Settings)
    → score_of settings.base_hash ≡ settings.base_score
    → Sound score_of (new_permuter settings)
new_permuter-Sound score_of settings base h e = elim (Bool-cases (same_text h settings.base_hash)) [
  | inl same ↦ rw ((same_text_iff h settings.base_hash).0 same, base) (omega arith)
  | inr other ↦ absurd (ground (arith, e, other))
]

-- Workers that start as copies of the parent and send a source only if they would write it, or if all
-- sources are asked for: the parent writes what it would write if it had evaluated the results itself,
-- and ends in the same state, in whatever order the workers' results come. It rests on the hash of a
-- result to determine its score, and on `need_all_sources` to be `print_diffs`.
pub run_pool-eq-run_single :
    (score_of : Text → ℕ) (options : Options) (context : EvalContext) (settings : Settings)
    (results : List (ℕ × EvalResult))
    → settings.need_all_sources ≡ options.print_diffs
    → score_of settings.base_hash ≡ settings.base_score
    → AllFit score_of results
    → run_pool options context (new_permuter settings) (λ k. new_permuter settings) results
      ≡ run_single options context (new_permuter settings) results
run_pool-eq-run_single score_of options context settings results all base fit =
    run_pool-InStep score_of options context (new_permuter settings) (λ k. new_permuter settings)
      results fit
      (
        all,
        new_permuter-Sound score_of settings base,
        λ k. Liberal-refl score_of (new_permuter settings),
      )
