-- ===== src/Permuter/Best.antt =====
-- permuter.py: `record_result` over a run: the best score, and the hashes that are not written again.
use decomp_permuter_psyq.Prelude.{
  ℕ, ◌≡◌, ◌≢◌, refl, sym, ap, subst, ◌∙◌, inl, inr, true, false, not, ◌&&◌, Option, none, some,
  List, [], ◌∷◌, arith, min, Bool-cases, Result, ok, raised, bind, ok-injective,
}
use decomp_permuter_psyq.Text.{Text}
use decomp_permuter_psyq.Text.Equality.{same_text_iff}
use decomp_permuter_psyq.Scorer.Score.{listed}
use decomp_permuter_psyq.Permuter.Results.{Permuter, is_present, should_output, record_result}
use decomp_permuter_psyq.Permuter.Pool.{
  EvalResult, scored, failed, Options, EvalContext, Posted, write_result, post_score, run_single,
  Written,
}
use decomp_permuter_psyq.Permuter.Record.{Later, Later-refl, worker_record-Later}
use decomp_permuter_psyq.Permuter.Output.{post_score-permuter, post_score-failed}

-- the least of a score and the scores that were written
abbrev pub lowest : ℕ → List (Option Written) → ℕ
lowest best [] = best
lowest best (none ∷ outputs) = lowest best outputs
lowest best (some written ∷ outputs) = lowest (min best written.score) outputs

abbrev lowest_one : ℕ → Option Written → ℕ
lowest_one best none = best
lowest_one best (some written) = min best written.score

lowest-cons :
    (best : ℕ) (written : Option Written) (outputs : List (Option Written))
    → lowest best (written ∷ outputs) ≡ lowest (lowest_one best written) outputs
lowest-cons best none outputs = refl
lowest-cons best (some written) outputs = refl

write_result-best :
    (context : EvalContext) (self : Permuter) (score : ℕ) (hash source : Option Text)
    (posted : Posted)
    → write_result context self (record { score = score; hash = hash; source = source }) ≡ ok posted
    → posted.permuter.best_score ≡ lowest_one self.best_score posted.written
unfolding write_result record_result
write_result-best context self score hash none posted e = absurd (cc e)
write_result-best context self score hash (some t) posted e =
    let same = ok-injective e in
    subst (λ (p : Posted). p.permuter.best_score ≡ lowest_one self.best_score p.written) same refl

post_score-best :
    (options : Options) (context : EvalContext) (self : Permuter) (result : EvalResult)
    (posted : Posted)
    → post_score options context self result ≡ ok posted
    → posted.permuter.best_score ≡ lowest_one self.best_score posted.written
unfolding post_score
post_score-best options context self (failed error) posted e =
    elim (Bool-cases options.abort_exceptions) [
      | inl stop ↦ let e' = rw stop at e in absurd (cc e')
      | inr go ↦
          subst (λ (p : Posted). p.permuter.best_score ≡ lowest_one self.best_score p.written)
            (ok-injective (rw go at e)) refl
    ]
post_score-best options context self (scored result) posted e =
    elim (Bool-cases (options.print_diffs && not (is_present result.source))) [
      | inl stop ↦ let e' = rw stop at e in absurd (cc e')
      | inr go ↦ elim (Bool-cases (should_output self result)) [
        | inl o ↦
            write_result-best _ self result.score result.hash result.source posted (rw (go, o) at e)
        | inr o ↦
            subst (λ (p : Posted). p.permuter.best_score ≡ lowest_one self.best_score p.written)
              (ok-injective (rw (go, o) at e)) refl
      ]
    ]

bind-ok {ℓ κ μ} :
    {E : Type ℓ} {A : Type κ} {B : Type μ} (r : Result E A) (f : A → Result E B) (b : B)
    → bind r f ≡ ok b
    → (a : A) × (r ≡ ok a) × (f a ≡ ok b)
bind-ok (ok a) f b e = (a, refl, e)
bind-ok (raised x) f b e = absurd (cc e)

-- What holds of the state before and after each `post_score` holds of a run.
run_single-steps :
    (R : Permuter → List (Option Written) → Permuter → Type 0)
    → ((self : Permuter) → R self [] self)
    → ((options : Options) (context : EvalContext) (self : Permuter) (result : EvalResult)
          (posted : Posted) (outputs : List (Option Written)) (last : Permuter)
        → post_score options context self result ≡ ok posted
        → R posted.permuter outputs last
        → R self (posted.written ∷ outputs) last)
    → (options : Options) (context : EvalContext) (self : Permuter)
      (results : List (ℕ × EvalResult)) (context' : EvalContext) (last : Permuter)
      (outputs : List (Option Written))
    → run_single options context self results ≡ ok (context', last, outputs)
    → R self outputs last
unfolding run_single
run_single-steps R done step options context self [] context' last outputs e =
    subst (λ (o : EvalContext × Permuter × List (Option Written)). R self o.2 o.1) (ok-injective e)
      (done self)
run_single-steps R done step options context self ((k, result) ∷ results) context' last outputs e =
    let (posted, run, rest) = bind-ok (post_score options context self result) _ _ e in
    let (out, run', e') =
      bind-ok (run_single options posted.context posted.permuter results) _ _ rest in
    subst (λ (o : EvalContext × Permuter × List (Option Written)). R self o.2 o.1) (ok-injective e')
      (step options context self result posted out.2 out.1 run (
        run_single-steps R done step options posted.context posted.permuter results out.0 out.1
          out.2 run'))

-- After a run the best score is the least of the score before it and of the scores that were written.
pub best_score_lowest :
    (options : Options) (context : EvalContext) (self : Permuter) (results : List (ℕ × EvalResult))
    (context' : EvalContext) (last : Permuter) (outputs : List (Option Written))
    → run_single options context self results ≡ ok (context', last, outputs)
    → last.best_score ≡ lowest self.best_score outputs
best_score_lowest =
    run_single-steps (λ self outputs last. last.best_score ≡ lowest self.best_score outputs)
      (λ self. refl)
      λ options context self result posted outputs last run rest.
        rest
        ∙ ap (λ (best : ℕ). lowest best outputs)
            (post_score-best options context self result posted run)
        ∙ sym (lowest-cons self.best_score posted.written outputs)

Later-trans : (a b c : Permuter) → Later a b → Later b c → Later a c
Later-trans a b c (same, best, seen) (same', best', seen') =
    (same' ∙ same, omega arith, λ h e. seen' h (seen h e))

post_score-Later :
    (options : Options) (context : EvalContext) (self : Permuter) (result : EvalResult)
    (posted : Posted)
    → post_score options context self result ≡ ok posted
    → Later self posted.permuter
post_score-Later options context self (failed error) posted e =
    rw (post_score-failed options context self error posted e) (Later-refl self)
post_score-Later options context self (scored result) posted e =
    rw (post_score-permuter options context self result posted e) (worker_record-Later self result)

seen_refused :
    (self : Permuter) (score : ℕ) (h : Text) (source : Option Text)
    → listed h self.hashes ≡ true
    → should_output self (record { score = score; hash = some h; source = source }) ≡ false
unfolding should_output
seen_refused self score h source e = ground (arith, e)

recorded :
    (self : Permuter) (score : ℕ) (h : Text) (source : Option Text)
    → score ≢ 0
    → listed h
        (record_result self (record { score = score; hash = some h; source = source })).hashes
      ≡ true
unfolding record_result
recorded self score h source e = let same = (same_text_iff h h).1 refl in ground (arith, e, same)

-- A listing that was recorded with a score other than 0 is not written again, whatever results come
-- in between.
pub recorded_once :
    (options : Options) (context : EvalContext) (self : Permuter) (score again : ℕ) (h : Text)
    (source source' : Option Text) (results : List (ℕ × EvalResult)) (context' : EvalContext)
    (last : Permuter) (outputs : List (Option Written))
    → score ≢ 0
    → run_single options context
        (record_result self (record { score = score; hash = some h; source = source }))
        results
      ≡ ok (context', last, outputs)
    → should_output last (record { score = again; hash = some h; source = source' }) ≡ false
recorded_once options context self score again h source source' results context' last outputs
      nonzero run =
    let later =
      run_single-steps (λ first outs end. Later first end) Later-refl
        (λ options context first result posted outs end step rest.
          Later-trans first posted.permuter end
            (post_score-Later options context first result posted step) rest)
        options context _ results context' last outputs run in
    seen_refused last again h source' (later.2 h (recorded self score h source nonzero))
