-- ===== src/Net/Evaluator/Counts.antt =====
-- net/evaluator.py: `remaining_work` counts the work that was read and whose result was not handled.
use decomp_permuter_psyq.Prelude.{
  ℕ, ◌+◌, ◌≡◌, sym, ap, ◌∙◌, true, false, Option, none, some, List, [], ◌∷◌, ◌++◌, if◌then◌else◌,
  arith, Bool-cases, inl, inr, sum_of, All,
}
use decomp_permuter_psyq.Prelude.Int.{ℤ, pos, ◌+ℤ◌, ◌-ℤ◌}
use decomp_permuter_psyq.Text.{Text}
use decomp_permuter_psyq.Text.Equality.{same_text, same_text_iff}
use decomp_permuter_psyq.Scorer.Score.{listed}
use decomp_permuter_psyq.Net.Evaluator.Pool.{LocalTask, remove, Work, Worker, System, put_count}
use decomp_permuter_psyq.Net.Evaluator.Log.{
  apply, apply-append, listed-remove_text, Known, Known-remove,
}
use decomp_permuter_psyq.Net.Evaluator.Workers.{Runs}

abbrev pub hit : Text → Text → ℕ
hit p q = if same_text p q then 1 else 0

abbrev pub hit_item : Text → Work × ℕ → ℕ
hit_item p (w, required) = hit p w.perm_id

abbrev pub hit_running : Text → Option (Work × ℕ) → ℕ
hit_running p none = 0
hit_running p (some item) = hit_item p item

abbrev pub hit_worker : Text → Worker → ℕ
hit_worker p w = hit_running p w.running

abbrev pub hit_work : Text → Work → ℕ
hit_work p w = hit p w.perm_id

-- the work for `p` in the queue, in the workers and among the results that wait
abbrev pub outstanding : {F : Type 0} → Text → System F → ℕ
outstanding p s =
    sum_of (hit_item p) s.worker_queue
    + (sum_of (hit_worker p) s.workers + sum_of (hit_work p) s.done)

pos_more : (n : ℕ) → pos n +ℤ pos 1 ≡ pos (n + 1)
unfolding ◌+ℤ◌
pos_more n = ground arith

pos_less : (n : ℕ) → pos (n + 1) -ℤ pos 1 ≡ pos n
unfolding ◌-ℤ◌
pos_less n = ground arith

module _ (counter : Text → ℤ) (f : Text → ℕ) (p : Text) where
  pub put_count-more :
      ((q : Text) → counter q ≡ pos (f q))
      → (q : Text) → put_count counter p (counter p +ℤ pos 1) q ≡ pos (f q + hit q p)
  put_count-more h q = elim (Bool-cases (same_text p q)) [
    | inl same ↦
        let e = (same_text_iff p q).0 same in
        rw (same, (same_text_iff q p).1 (sym e)) (rw e (rw (h q) (pos_more (f q))))
    | inr differ ↦
        let other : hit q p ≡ 0 = ground (arith, differ, same_text_iff p q, same_text_iff q p) in
        rw (differ, other) (h q ∙ ap pos (omega arith))
  ]

  pub put_count-less :
      ((q : Text) → counter q ≡ pos (f q + hit q p))
      → (q : Text) → put_count counter p (counter p -ℤ pos 1) q ≡ pos (f q)
  put_count-less h q = elim (Bool-cases (same_text p q)) [
    | inl same ↦
        let e = (same_text_iff p q).0 same in
        let one : hit q p ≡ 1 = ground (arith, same, e, same_text_iff q p) in
        rw same (rw e (rw (h q, one) (pos_less (f q))))
    | inr differ ↦
        let other : hit q p ≡ 0 = ground (arith, differ, same_text_iff p q, same_text_iff q p) in
        rw differ (h q ∙ ap pos (omega (arith, other)))
  ]

  pub put_count-zero :
      f p ≡ 0
      → ((q : Text) → counter q ≡ pos (f q))
      → (q : Text) → put_count counter p (pos 0) q ≡ pos (f q)
  put_count-zero e h q = elim (Bool-cases (same_text p q)) [
    | inl same ↦ rw same (ap pos (sym e ∙ ap f ((same_text_iff p q).0 same)))
    | inr differ ↦ rw differ (h q)
  ]

hit-zero : (p q : Text) → hit p q ≡ 0 → same_text q p ≡ false
hit-zero p q h = ground (arith, h, same_text_iff p q, same_text_iff q p)

-- Where no work for `q` is under way, all other work goes on when `q` is removed.
module _ (log : List LocalTask) (q : Text) where
  pub All-remove_items :
      (queue : List (Work × ℕ))
      → sum_of (hit_item q) queue ≡ 0
      → All (λ (item : Work × ℕ). Known log item.1 item.0.perm_id) queue
      → All (λ (item : Work × ℕ). Known (log ++ remove q ∷ []) item.1 item.0.perm_id) queue
  All-remove_items [] e all = tt
  All-remove_items ((w, required) ∷ queue) e (known, all) = (
    Known-remove log q required w.perm_id (hit-zero q w.perm_id (omega arith)) known,
    All-remove_items queue (omega arith) all,
  )

  pub Runs-remove :
      (running : Option (Work × ℕ))
      → hit_running q running ≡ 0
      → Runs log running
      → Runs (log ++ remove q ∷ []) running
  Runs-remove none e runs = tt
  Runs-remove (some (w, required)) e known =
      Known-remove log q required w.perm_id (hit-zero q w.perm_id e) known

  pub All-remove_done :
      (done : List Work)
      → sum_of (hit_work q) done ≡ 0
      → All (λ (w : Work). listed w.perm_id (apply [] log) ≡ true) done
      → All (λ (w : Work). listed w.perm_id (apply [] (log ++ remove q ∷ [])) ≡ true) done
  All-remove_done [] e all = tt
  All-remove_done (w ∷ done) e (here, all) = (
    rw
        (
          apply-append [] log (remove q ∷ []),
          listed-remove_text w.perm_id q (apply [] log),
          hit-zero q w.perm_id (omega arith),
        )
        here,
    All-remove_done done (omega arith) all,
  )
