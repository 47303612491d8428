-- ===== src/Net/Evaluator/Invariant.antt =====
-- net/evaluator.py: what holds of the main process and its workers between two steps.
use decomp_permuter_psyq.Prelude.{
  ℕ, ◌+◌, ◌≡◌, refl, sym, ap, ◌∙◌, true, false, ◌&&◌, Option, none, some, List, [], ◌∷◌, ◌++◌, ok,
  map, arith, length, length-append, Bool-cases, inl, inr, sum_of, sum_of-map, All, All-map,
  All-implies,
}
use decomp_permuter_psyq.Prelude.Int.{pos, pos_part, same_int, same_int_iff}
use decomp_permuter_psyq.Text.{Text}
use decomp_permuter_psyq.Text.Equality.{same_text, same_text_iff}
use decomp_permuter_psyq.Scorer.Score.{listed}
use decomp_permuter_psyq.Net.Permuters.{PermuterData}
use decomp_permuter_psyq.Net.Evaluator.Ports.{
  Task, add_permuter, remove_permuter, work, Init, success, failure,
}
use decomp_permuter_psyq.Net.Evaluator.Pool.{
  LocalTask, add, remove, remove_text, Work, Worker, System, enqueue, removed, added, try_remove,
}
use decomp_permuter_psyq.Net.Evaluator.Log.{
  apply, apply-append, listed-remove_text, Known, Known-add, Removable, Removable-add,
  Removable-remove,
}
use decomp_permuter_psyq.Net.Evaluator.Workers.{Runs, Follows, enqueue-Follows}
use decomp_permuter_psyq.Net.Evaluator.Counts.{
  hit_worker, outstanding, put_count-zero, All-remove_items, Runs-remove, All-remove_done,
}

module _ {F : Type 0} (create : PermuterData F → Init) where
  abbrev pub opened_by : Text → List Text → Init → List Text
  opened_by p opened (success base_score base_hash) = p ∷ opened
  opened_by p opened (failure error) = opened

  -- The tasks that come: a name is added once, and there is work only for a permuter that was added
  -- without a failure and is not removed yet.
  abbrev pub Proper : List Text → List Text → List (Task F) → Type 0
  Proper opened ever [] = Unit
  Proper opened ever (add_permuter p perm ∷ tasks) =
      (listed p ever ≡ false) × Proper (opened_by p opened (create perm)) (p ∷ ever) tasks
  Proper opened ever (remove_permuter p ∷ tasks) = Proper (remove_text p opened) ever tasks
  Proper opened ever (work p id seed ∷ tasks) = (listed p opened ≡ true) × Proper opened ever tasks

  -- `log` is what was put into the local queues, `opened` and `ever` are the names of `Proper`.
  pub record Inv (s : System F) (log : List LocalTask) (opened ever : List Text) : Type 0 where
    pub stamp : s.main.timestamp ≡ length log
    pub names : s.main.permuters ≡ apply [] log
    pub removable : Removable log
    pub follow : All (Follows log) s.workers
    pub queue : All (λ (item : Work × ℕ). Known log item.1 item.0.perm_id) s.worker_queue
    pub results : All (λ (w : Work). listed w.perm_id (apply [] log) ≡ true) s.done
    pub counts : (p : Text) → s.main.remaining_work p ≡ pos (outstanding p s)
    pub closing : (p : Text) → listed p s.main.should_remove ≡ true → listed p opened ≡ false
    pub pending :
        (p : Text) → listed p s.main.should_remove ≡ true → listed p s.main.permuters ≡ true
    pub known : (p : Text) → listed p opened ≡ true → listed p s.main.permuters ≡ true
    pub before : (p : Text) → listed p s.main.permuters ≡ true → listed p ever ≡ true
    pub proper : Proper opened ever s.inbox

  Runs-add :
      (log : List LocalTask) (q : Text) (running : Option (Work × ℕ))
      → Runs log running
      → Runs (log ++ add q ∷ []) running
  Runs-add log q none runs = tt
  Runs-add log q (some (w, required)) known = Known-add log q required w.perm_id known

  follow-remove :
      (log : List LocalTask) (q : Text) (n : ℕ) (workers : List Worker)
      → n ≡ length log
      → sum_of (hit_worker q) workers ≡ 0
      → All (Follows log) workers
      → All (Follows (log ++ remove q ∷ [])) (map (enqueue (remove q) (n + 1)) workers)
  follow-remove log q n [] size e all = tt
  follow-remove log q n (w ∷ workers) size e (follows, all) =
      let (consumed, part, time, names, st, runs) = follows in
      (
        enqueue-Follows log (remove q) n w size (Runs-remove log q w.running (omega arith) runs)
            follows,
        follow-remove log q n workers size (omega arith) all,
      )

  -- a removal, where no work is under way
  removed-Inv :
      (s : System F) (q : Text) (log : List LocalTask) (opened ever : List Text)
      → listed q s.main.permuters ≡ true
      → listed q s.main.should_remove ≡ true
      → outstanding q s ≡ 0
      → Inv s log opened ever
      → Inv (removed s q) (log ++ remove q ∷ []) opened ever
  removed-Inv s q log opened ever here closing none_left inv = record {
    stamp = omega (arith, inv.stamp, length-append log (remove q ∷ []));
    names = ap (remove_text q) inv.names ∙ sym (apply-append [] log (remove q ∷ []));
    removable = Removable-remove log q (rw (← inv.names) here) inv.removable;
    follow =
        follow-remove log q s.main.timestamp s.workers inv.stamp (omega (arith, none_left))
          inv.follow;
    queue = All-remove_items log q s.worker_queue (omega (arith, none_left)) inv.queue;
    results = All-remove_done log q s.done (omega (arith, none_left)) inv.results;
    counts = λ p.
        put_count-zero s.main.remaining_work (λ (r : Text). outstanding r s) q none_left inv.counts
          p
        ∙ ap pos (
            let same =
              sum_of-map (hit_worker p) (enqueue (remove q) (s.main.timestamp + 1)) s.workers
                (λ w. refl) in
            omega (arith, same));
    closing = λ p e.
        inv.closing p
          (let h = rw (listed-remove_text p q s.main.should_remove) at e in ground (arith, h));
    pending = λ p e.
        let h = rw (listed-remove_text p q s.main.should_remove) at e in
        let there : listed p s.main.should_remove ≡ true = ground (arith, h) in
        let old = inv.pending p there in
        rw (listed-remove_text p q s.main.permuters) (ground (arith, h, old));
    known = λ p e.
        let old = inv.known p e in
        let shut = inv.closing q closing in
        rw (listed-remove_text p q s.main.permuters)
          (ground (arith, e, old, shut, same_text_iff p q));
    before = λ p e.
        inv.before p
          (let h = rw (listed-remove_text p q s.main.permuters) at e in ground (arith, h));
    proper = inv.proper;
  }

  zero_left :
      (s : System F) (p : Text) (log : List LocalTask) (opened ever : List Text)
      → same_int (s.main.remaining_work p) (pos 0) ≡ true
      → Inv s log opened ever
      → outstanding p s ≡ 0
  zero_left s p log opened ever e inv =
      let zero_count = (same_int_iff (s.main.remaining_work p) (pos 0)).0 e in
      ap pos_part (sym (inv.counts p) ∙ zero_count)

  pub try_remove-Inv :
      (s : System F) (p : Text) (log : List LocalTask) (opened ever : List Text)
      → listed p s.main.permuters ≡ true
      → Inv s log opened ever
      → (s' : System F) × (try_remove s p ≡ ok s')
        × (log' : List LocalTask) × Inv s' log' opened ever
  unfolding try_remove
  try_remove-Inv s p log opened ever here inv =
      elim (Bool-cases
        (listed p s.main.should_remove && same_int (s.main.remaining_work p) (pos 0))) [
          | inr stays ↦ (s, rw (here, stays) refl, log, inv)
          | inl goes ↦
              let closing : listed p s.main.should_remove ≡ true = ground (arith, goes) in
              let empty : same_int (s.main.remaining_work p) (pos 0) ≡ true =
                ground (arith, goes) in
              (
                removed s p,
                rw (here, goes) refl,
                log ++ remove p ∷ [],
                removed-Inv s p log opened ever here closing
                    (zero_left s p log opened ever empty inv) inv,
              )
        ]

  pub added-Inv :
      (s : System F) (p : Text) (outcome : Init) (log : List LocalTask) (opened ever : List Text)
      (perm : PermuterData F) (tasks : List (Task F))
      → listed p s.main.permuters ≡ false
      → Inv s log opened ever
      → Proper (opened_by p opened outcome) (p ∷ ever) tasks
      → (log' : List LocalTask) × Inv
          (added (record s { inbox = tasks }) p outcome)
          log'
          (opened_by p opened outcome)
          (p ∷ ever)
  added-Inv s p (failure error) log opened ever perm tasks absent inv proper = (
    log,
    record {
      stamp = inv.stamp;
      names = inv.names;
      removable = inv.removable;
      follow = inv.follow;
      queue = inv.queue;
      results = inv.results;
      counts = inv.counts;
      closing = inv.closing;
      pending = inv.pending;
      known = inv.known;
      before = λ q e. let old = inv.before q e in ground (arith, old);
      proper = proper;
    },
  )
  added-Inv s p (success base_score base_hash) log opened ever perm tasks absent inv proper = (
    log ++ add p ∷ [],
    record {
      stamp = omega (arith, inv.stamp, length-append log (add p ∷ []));
      names = ap (λ (ns : List Text). p ∷ ns) inv.names ∙ sym (apply-append [] log (add p ∷ []));
      removable = Removable-add log p inv.removable;
      follow =
          All-map (Follows log) (Follows (log ++ add p ∷ []))
            (enqueue (add p) (s.main.timestamp + 1)) s.workers
            (λ w follows.
              let (consumed, part, time, names, st, runs) = follows in
              enqueue-Follows log (add p) s.main.timestamp w inv.stamp
                (Runs-add log p w.running runs) follows)
            inv.follow;
      queue =
          All-implies (λ (item : Work × ℕ). Known log item.1 item.0.perm_id)
            (λ (item : Work × ℕ). Known (log ++ add p ∷ []) item.1 item.0.perm_id) s.worker_queue
            (λ item. Known-add log p item.1 item.0.perm_id) inv.queue;
      results =
          All-implies (λ (w : Work). listed w.perm_id (apply [] log) ≡ true)
            (λ (w : Work). listed w.perm_id (apply [] (log ++ add p ∷ [])) ≡ true) s.done
            (λ w h. rw (apply-append [] log (add p ∷ [])) (ground (arith, h))) inv.results;
      counts = λ q.
          inv.counts q
          ∙ ap pos (
              let same =
                sum_of-map (hit_worker q) (enqueue (add p) (s.main.timestamp + 1)) s.workers
                  (λ w. refl) in
              omega (arith, same));
      closing = λ q e.
          let old = inv.closing q e in
          let there = inv.pending q e in ground (arith, old, there, absent, same_text_iff q p);
      pending = λ q e. let old = inv.pending q e in ground (arith, old);
      known = λ q e. elim (Bool-cases (same_text q p)) [
        | inl same ↦ rw same refl
        | inr differ ↦ let old = inv.known q (rw differ at e) in rw differ old
      ];
      before = λ q e. elim (Bool-cases (same_text q p)) [
        | inl same ↦ rw same refl
        | inr differ ↦ let old = inv.before q (rw differ at e) in rw differ old
      ];
      proper = proper;
    },
  )
