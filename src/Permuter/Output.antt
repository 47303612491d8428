-- ===== src/Permuter/Output.antt =====
-- main.py: the parent and its workers write what one process would write.
use decomp_permuter_psyq.Prelude.{
  ℕ, ◌≡◌, refl, sym, ap, ◌∙◌, ◌⊎◌, inl, inr, false, not, ◌&&◌, Option, none, some, List, [], ◌∷◌,
  arith, ◌==◌, Bool-cases, ok, ok-injective,
}
use decomp_permuter_psyq.Text.{Text}
use decomp_permuter_psyq.Permuter.Results.{
  CandidateResult, Permuter, is_present, should_output, record_result, need_to_send_source,
  drop_source,
}
use decomp_permuter_psyq.Permuter.Pool.{
  EvalResult, EvalError, scored, failed, worker_record, Options, EvalContext, Posted, count_result,
  write_result, post_score, set_worker,
}
use decomp_permuter_psyq.Permuter.Record.{Later, worker_record-true, worker_record-false}
use decomp_permuter_psyq.Permuter.Liberal.{Fits, Liberal, Liberal-Later, should_output-Liberal}

-- a result without its source
abbrev bare : CandidateResult → CandidateResult
bare result = record result { hash = none; source = none }

bare_refused :
    (self : Permuter) (result : CandidateResult) → should_output self (bare result) ≡ false
unfolding should_output
bare_refused self result = ground arith

drop_source-cases :
    (self : Permuter) (result : CandidateResult)
    → (drop_source self result ≡ result)
      ⊎ ((drop_source self result ≡ bare result)
          × (self.settings.need_all_sources ≡ false)
          × (should_output self result ≡ false))
unfolding drop_source need_to_send_source
drop_source-cases self result = elim (Bool-cases (self.settings.need_all_sources)) [
  | inl e ↦ inl (rw e refl)
  | inr e ↦ elim (Bool-cases (should_output self result)) [
    | inl o ↦ inl (rw (e, o) refl)
    | inr o ↦ inr (rw (e, o) refl, e, o)
  ]
]

pub worker_record-drop_source :
    (self : Permuter) (result : CandidateResult)
    → worker_record self (drop_source self result) ≡ worker_record self result
worker_record-drop_source self result = elim (drop_source-cases self result) [
  | inl same ↦ rw same refl
  | inr (dropped, e, o) ↦
      rw dropped (worker_record-false self (bare result) (bare_refused self result))
      ∙ sym (worker_record-false self result o)
]

pub post_score-refused :
    (options : Options) (context : EvalContext) (self : Permuter) (result : CandidateResult)
    → options.print_diffs ≡ false
    → should_output self result ≡ false
    → post_score options context self (scored result)
      ≡ ok (record {
        context = count_result context result.score;
        permuter = self;
        written = none;
        is_zero = result.score == 0;
      })
unfolding post_score
post_score-refused options context self result e o = rw (e, o) refl

write_result-permuter :
    (context : EvalContext) (self : Permuter) (score : ℕ) (hash source : Option Text)
    (posted : Posted)
    → write_result context self (record { score = score; hash = hash; source = source }) ≡ ok posted
    → posted.permuter ≡ record_result self (record { score = score; hash = hash; source = source })
unfolding write_result
write_result-permuter context self score hash none posted e = absurd (cc e)
write_result-permuter context self score hash (some t) posted e =
    sym (ap (λ (p : Posted). p.permuter) (ok-injective e))

pub post_score-permuter :
    (options : Options) (context : EvalContext) (self : Permuter) (result : CandidateResult)
    (posted : Posted)
    → post_score options context self (scored result) ≡ ok posted
    → posted.permuter ≡ worker_record self result
unfolding post_score
post_score-permuter options context self result posted e =
    elim (Bool-cases (options.print_diffs && not (is_present result.source))) [
      | inl stop ↦ let e' = rw stop at e in absurd (cc e')
      | inr go ↦ elim (Bool-cases (should_output self result)) [
        | inl o ↦
            write_result-permuter _ self result.score result.hash result.source posted
              (rw (go, o) at e)
            ∙ sym (worker_record-true self result o)
        | inr o ↦
            sym (ap (λ (p : Posted). p.permuter) (ok-injective (rw (go, o) at e)))
            ∙ sym (worker_record-false self result o)
      ]
    ]

pub post_score-failed :
    (options : Options) (context : EvalContext) (self : Permuter) (error : EvalError)
    (posted : Posted)
    → post_score options context self (failed error) ≡ ok posted
    → posted.permuter ≡ self
unfolding post_score
post_score-failed options context self error posted e = elim (Bool-cases options.abort_exceptions) [
  | inl stop ↦ let e' = rw stop at e in absurd (cc e')
  | inr go ↦ sym (ap (λ (p : Posted). p.permuter) (ok-injective (rw go at e)))
]

-- each result's hash fits its score
abbrev pub AllFit : (Text → ℕ) → List (ℕ × EvalResult) → Type 0
AllFit score_of [] = Unit
AllFit score_of ((k, failed error) ∷ results) = AllFit score_of results
AllFit score_of ((k, scored result) ∷ results) = Fits score_of result × AllFit score_of results

pub post_score-drop_source :
    (score_of : Text → ℕ) (options : Options) (context : EvalContext) (parent child : Permuter)
    (result : CandidateResult)
    → Fits score_of result
    → Liberal score_of parent child
    → child.settings.need_all_sources ≡ options.print_diffs
    → post_score options context parent (scored (drop_source child result))
      ≡ post_score options context parent (scored result)
post_score-drop_source score_of options context parent child result fits liberal all =
    elim (drop_source-cases child result) [
      | inl same ↦ rw same refl
      | inr (dropped, e, o) ↦ elim (Bool-cases (should_output parent result)) [
        | inl p ↦
            let c = should_output-Liberal score_of parent child result fits liberal p in
            absurd (cc (c, o))
        | inr p ↦
            rw dropped (
              post_score-refused options context parent (bare result) (sym all ∙ e)
                (bare_refused parent result))
            ∙ sym (post_score-refused options context parent result (sym all ∙ e) p)
      ]
    ]

pub set_worker-Liberal :
    (score_of : Text → ℕ) (parent parent' : Permuter) (workers : ℕ → Permuter) (k : ℕ)
    (child : Permuter)
    → ((i : ℕ) → Liberal score_of parent (workers i))
    → Later parent parent'
    → Liberal score_of parent' child
    → (i : ℕ) → Liberal score_of parent' (set_worker workers k child i)
set_worker-Liberal score_of parent parent' workers k child liberal later own i =
    elim (Bool-cases (i == k)) [
      | inl e ↦ rw e own
      | inr e ↦ rw e (Liberal-Later score_of parent parent' (workers i) (liberal i) later)
    ]
