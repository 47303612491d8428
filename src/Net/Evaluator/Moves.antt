-- ===== src/Net/Evaluator/Moves.antt =====
-- net/evaluator.py: the steps of a worker keep the invariant.
use decomp_permuter_psyq.Prelude.{
  ℕ, ◌+◌, ◌≡◌, ap, subst, ◌∙◌, true, Option, none, some, List, [], ◌∷◌, ◌++◌, Result, ok, bind,
  arith, leb, Bool-cases, Option-cases, inl, inr, sum_of, sum_of-append, sum_of-set, All,
  All-append, All-set, All-get_elem?, get_elem?, set,
}
use decomp_permuter_psyq.Prelude.Int.{pos}
use decomp_permuter_psyq.Text.{Text}
use decomp_permuter_psyq.Scorer.Score.{listed}
use decomp_permuter_psyq.Net.Permuters.{PermuterData}
use decomp_permuter_psyq.Net.Evaluator.Ports.{Init}
use decomp_permuter_psyq.Net.Evaluator.Pool.{
  LocalTask, Work, Worker, System, Fault, drain_queue, take_work, evaluate_work, with_worker,
  set_worker, run,
}
use decomp_permuter_psyq.Net.Evaluator.Log.{apply, Known, Known-last}
use decomp_permuter_psyq.Net.Evaluator.Workers.{
  Follows, drain_task-Follows, Follows-knows, Follows-running,
}
use decomp_permuter_psyq.Net.Evaluator.Counts.{
  hit_item, hit_worker, hit_running, hit_work, outstanding,
}
use decomp_permuter_psyq.Net.Evaluator.Invariant.{Inv}
use decomp_permuter_psyq.Net.Evaluator.Steps.{Kept, kept}

module _ {F : Type 0} (create : PermuterData F → Init) where
  -- A worker's step moves work between the queue, the worker and the results.
  moved-Inv :
      (s : System F) (k : ℕ) (w' : Worker) (queue : List (Work × ℕ)) (done : List Work)
      (log : List LocalTask) (opened ever : List Text)
      → Inv create s log opened ever
      → Follows log w'
      → All (λ (item : Work × ℕ). Known log item.1 item.0.perm_id) queue
      → All (λ (v : Work). listed v.perm_id (apply [] log) ≡ true) done
      → ((p : Text)
          → outstanding p s
            ≡ sum_of (hit_item p) queue
              + (sum_of (hit_worker p) (set s.workers k w') + sum_of (hit_work p) done))
      → Inv create
          (record s { worker_queue = queue; workers = set s.workers k w'; done = done })
          log
          opened
          ever
  moved-Inv s k w' queue done log opened ever inv follows all results same = record {
    stamp = inv.stamp;
    names = inv.names;
    removable = inv.removable;
    follow = All-set (Follows log) s.workers k w' inv.follow follows;
    queue = all;
    results = results;
    counts = λ p. inv.counts p ∙ ap pos (same p);
    closing = inv.closing;
    pending = inv.pending;
    known = inv.known;
    before = inv.before;
    proper = inv.proper;
  }

  pub take_work-Inv :
      (s : System F) (k : ℕ) (w : Worker) (running : Option (Work × ℕ)) (queue : List (Work × ℕ))
      (log : List LocalTask) (opened ever : List Text)
      → get_elem? s.workers k ≡ some w
      → w.running ≡ running
      → s.worker_queue ≡ queue
      → Inv create s log opened ever
      → Inv create (take_work s k w running queue) log opened ever
  unfolding take_work
  take_work-Inv s k w (some item) queue log opened ever e r q inv = inv
  take_work-Inv s k w none [] log opened ever e r q inv = inv
  take_work-Inv s k w none (item ∷ rest) log opened ever e r q inv =
      let follows = All-get_elem? (Follows log) s.workers k w e inv.follow in
      let (known, all) =
        subst (All (λ (item : Work × ℕ). Known log item.1 item.0.perm_id)) q inv.queue in
      moved-Inv s k (record w { running = some item }) rest s.done log opened ever inv
        (Follows-running log w (some item) known follows) all inv.results
        λ p.
          let sizes = ap (sum_of (hit_item p)) q in
          let idle = ap (hit_running p) r in
          let change =
            sum_of-set (hit_worker p) s.workers k w (record w { running = some item }) e in
          omega (arith, sizes, idle, change)

  pub drain_queue-Kept :
      (s : System F) (k : ℕ) (w : Worker) (running : Option (Work × ℕ))
      (queue : List (LocalTask × ℕ)) (log : List LocalTask) (opened ever : List Text)
      → get_elem? s.workers k ≡ some w
      → w.local_queue ≡ queue
      → Inv create s log opened ever
      → Kept create (drain_queue s k w running queue)
  unfolding drain_queue
  drain_queue-Kept s k w none queue log opened ever e q inv = kept create s log opened ever inv
  drain_queue-Kept s k w (some item) [] log opened ever e q inv = kept create s log opened ever inv
  drain_queue-Kept s k w (some item) ((task, timestamp) ∷ rest) log opened ever e q inv =
      let follows = All-get_elem? (Follows log) s.workers k w e inv.follow in
      let (w', run, follows', same) =
        drain_task-Follows log w task timestamp rest inv.removable q follows in
      (
        set_worker s k w',
        ap (λ (r : Result Fault Worker). bind r λ v. ok (set_worker s k v)) run,
        log,
        opened,
        ever,
        moved-Inv s k w' s.worker_queue s.done log opened ever inv follows' inv.queue inv.results
            λ p.
              let still = ap (hit_running p) same in
              let change = sum_of-set (hit_worker p) s.workers k w w' e in
              omega (arith, still, change),
      )

  pub evaluate_work-Kept :
      (s : System F) (k : ℕ) (w : Worker) (running : Option (Work × ℕ)) (log : List LocalTask)
      (opened ever : List Text)
      → get_elem? s.workers k ≡ some w
      → w.running ≡ running
      → Inv create s log opened ever
      → Kept create (evaluate_work s k w running)
  unfolding evaluate_work
  evaluate_work-Kept s k w none log opened ever e r inv = kept create s log opened ever inv
  evaluate_work-Kept s k w (some (item, required)) log opened ever e r inv =
      elim (Bool-cases (leb required w.timestamp)) [
        | inr waits ↦ rw waits (kept create s log opened ever inv)
        | inl ready ↦
            let follows = All-get_elem? (Follows log) s.workers k w e inv.follow in
            let (here, known) =
              Follows-knows log w item required r (ground (arith, ready)) follows in
            rw (ready, here)
              (kept create _ log opened ever (
                moved-Inv s k (record w { running = none }) s.worker_queue (s.done ++ item ∷ []) log
                  opened ever inv (Follows-running log w none tt follows) inv.queue
                  (All-append (λ (v : Work). listed v.perm_id (apply [] log) ≡ true) s.done
                    (item ∷ []) inv.results (Known-last log required item.perm_id known, tt))
                  λ p.
                    let busy = ap (hit_running p) r in
                    let change =
                      sum_of-set (hit_worker p) s.workers k w (record w { running = none }) e in
                    let more = sum_of-append (hit_work p) s.done (item ∷ []) in
                    omega (arith, busy, change, more)))
      ]

  pub with_worker-Kept :
      (s : System F) (k : ℕ) (f : Worker → Result Fault (System F)) (log : List LocalTask)
      (opened ever : List Text)
      → Inv create s log opened ever
      → ((w : Worker) → get_elem? s.workers k ≡ some w → Kept create (f w))
      → Kept create (with_worker s k f)
  unfolding with_worker
  with_worker-Kept s k f log opened ever inv each = elim (Option-cases (get_elem? s.workers k)) [
    | inl e ↦ rw (e, with_worker) (kept create s log opened ever inv)
    | inr (w, e) ↦ rw (e, with_worker) (each w e)
  ]
