-- ===== src/Net/Evaluator/Steps.antt =====
-- net/evaluator.py: each step of a schedule succeeds and keeps the invariant.
use decomp_permuter_psyq.Prelude.{
  ℕ, ◌≡◌, refl, ap, subst, ◌∙◌, Bool, true, List, [], ◌∷◌, ◌++◌, Result, ok, bind, if◌then◌else◌,
  arith, Bool-cases, inl, inr, sum_of, sum_of-append, All, All-append,
}
use decomp_permuter_psyq.Prelude.Int.{pos, ◌-ℤ◌}
use decomp_permuter_psyq.Text.{Text}
use decomp_permuter_psyq.Text.Equality.{same_text, same_text_iff}
use decomp_permuter_psyq.Scorer.Score.{listed}
use decomp_permuter_psyq.Net.Permuters.{PermuterData}
use decomp_permuter_psyq.Net.Evaluator.Ports.{Task, add_permuter, remove_permuter, work, Init}
use decomp_permuter_psyq.Net.Evaluator.Pool.{
  LocalTask, remove_text, Work, System, Sent, result, put_count, added, Fault, handle_task,
  handle_done,
}
use decomp_permuter_psyq.Net.Evaluator.Log.{apply, listed-remove_text, Known, Known-now}
use decomp_permuter_psyq.Net.Evaluator.Counts.{
  hit_item, hit_work, outstanding, put_count-more, put_count-less,
}
use decomp_permuter_psyq.Net.Evaluator.Invariant.{opened_by, Proper, Inv, try_remove-Inv, added-Inv}

if-true : {A : Type 0} (b : Bool) (x y : A) → b ≡ true → (if b then x else y) ≡ x
if-true b x y e = rw e refl

module _ {F : Type 0} (create : PermuterData F → Init) where
  -- a step has succeeded, and the invariant holds behind it
  abbrev pub Kept : Result Fault (System F) → Type 0
  Kept r =
      (s : System F) × (r ≡ ok s)
      × (log : List LocalTask) × (opened : List Text) × (ever : List Text) × Inv create s log opened
          ever

  pub kept :
      (s : System F) (log : List LocalTask) (opened ever : List Text)
      → Inv create s log opened ever
      → Kept (ok s)
  kept s log opened ever inv = (s, refl, log, opened, ever, inv)

  closed-Inv :
      (s : System F) (p : Text) (tasks : List (Task F)) (log : List LocalTask)
      (opened ever : List Text)
      → Inv create s log opened ever
      → Proper create (remove_text p opened) ever tasks
      → Inv create (record s { inbox = tasks }) log (remove_text p opened) ever
  closed-Inv s p tasks log opened ever inv proper = record {
    stamp = inv.stamp;
    names = inv.names;
    removable = inv.removable;
    follow = inv.follow;
    queue = inv.queue;
    results = inv.results;
    counts = inv.counts;
    closing = λ q e.
        let old = inv.closing q e in rw (listed-remove_text q p opened) (ground (arith, old));
    pending = inv.pending;
    known =
        λ q e. inv.known q (let h = rw (listed-remove_text q p opened) at e in ground (arith, h));
    before = inv.before;
    proper = proper;
  }

  closing-Inv :
      (s : System F) (p : Text) (log : List LocalTask) (opened ever : List Text)
      → listed p s.main.permuters ≡ true
      → Inv create s log (remove_text p opened) ever
      → Inv create
          (record s { main = record s.main { should_remove = p ∷ s.main.should_remove } })
          log
          (remove_text p opened)
          ever
  closing-Inv s p log opened ever here inv = record {
    stamp = inv.stamp;
    names = inv.names;
    removable = inv.removable;
    follow = inv.follow;
    queue = inv.queue;
    results = inv.results;
    counts = inv.counts;
    closing = λ q e. elim (Bool-cases (same_text q p)) [
      | inl same ↦ rw (listed-remove_text q p opened, same) refl
      | inr differ ↦ inv.closing q (rw differ at e)
    ];
    pending = λ q e. elim (Bool-cases (same_text q p)) [
      | inl same ↦ rw ((same_text_iff q p).0 same) here
      | inr differ ↦ inv.pending q (rw differ at e)
    ];
    known = inv.known;
    before = inv.before;
    proper = inv.proper;
  }

  pub handle_task-Kept :
      (s : System F) (task : Task F) (tasks : List (Task F)) (log : List LocalTask)
      (opened ever : List Text)
      → Inv create s log opened ever
      → Proper create opened ever (task ∷ tasks)
      → Kept (handle_task create (record s { inbox = tasks }) task)
  unfolding handle_task
  handle_task-Kept s (add_permuter p perm) tasks log opened ever inv (new, proper) =
      elim (Bool-cases (listed p s.main.permuters)) [
        | inl here ↦ let old = inv.before p here in absurd (cc (old, new))
        | inr absent ↦
            let (log', inv') =
              added-Inv create s p (create perm) log opened ever perm tasks absent inv proper in
            rw absent (
              kept (added (record s { inbox = tasks }) p (create perm)) log'
                (opened_by create p opened (create perm)) (p ∷ ever) inv')
      ]
  handle_task-Kept s (remove_permuter p) tasks log opened ever inv proper =
      elim (Bool-cases (listed p s.main.permuters)) [
        | inr absent ↦ rw absent (
            kept (record s { inbox = tasks }) log (remove_text p opened) ever
              (closed-Inv s p tasks log opened ever inv proper))
        | inl here ↦
            let inv' =
              closing-Inv (record s { inbox = tasks }) p log opened ever here
                (closed-Inv s p tasks log opened ever inv proper) in
            let (s', e, log', inv'') =
              try_remove-Inv create _ p log (remove_text p opened) ever here inv' in
            (s', if-true _ _ _ here ∙ e, log', remove_text p opened, ever, inv'')
      ]
  handle_task-Kept s (work p id seed) tasks log opened ever inv (is_open, proper) =
      let here = inv.known p is_open in
      kept _ log opened ever (record {
        stamp = inv.stamp;
        names = inv.names;
        removable = inv.removable;
        follow = inv.follow;
        queue =
            All-append (λ (item : Work × ℕ). Known log item.1 item.0.perm_id) s.worker_queue _
              inv.queue (rw inv.stamp (Known-now log p (rw (← inv.names) here)), tt);
        results = inv.results;
        counts = λ q.
            put_count-more s.main.remaining_work (λ (r : Text). outstanding r s) p inv.counts q
            ∙ ap pos (
                let more =
                  sum_of-append (hit_item q) s.worker_queue
                    ((record { perm_id = p; id = id; seed = seed }, s.main.timestamp) ∷ []) in
                omega (arith, more));
        closing = inv.closing;
        pending = inv.pending;
        known = inv.known;
        before = inv.before;
        proper = proper;
      })

  -- the state in which `try_remove` is called for a result
  abbrev less_work : System F → Work → List Work → System F
  less_work s w ws = record s {
    done = ws;
    main = record s.main {
      remaining_work =
          put_count s.main.remaining_work w.perm_id (s.main.remaining_work w.perm_id -ℤ pos 1);
    };
  }

  less_work-Inv :
      (s : System F) (w : Work) (ws : List Work) (log : List LocalTask) (opened ever : List Text)
      → s.done ≡ w ∷ ws
      → Inv create s log opened ever
      → Inv create (less_work s w ws) log opened ever
  less_work-Inv s w ws log opened ever e inv = record {
    stamp = inv.stamp;
    names = inv.names;
    removable = inv.removable;
    follow = inv.follow;
    queue = inv.queue;
    results = (subst (All (λ (v : Work). listed v.perm_id (apply [] log) ≡ true)) e inv.results).1;
    counts =
        put_count-less s.main.remaining_work (λ (q : Text). outstanding q (less_work s w ws))
          w.perm_id
          λ q.
            inv.counts q ∙ ap pos (let sizes = ap (sum_of (hit_work q)) e in omega (arith, sizes));
    closing = inv.closing;
    pending = inv.pending;
    known = inv.known;
    before = inv.before;
    proper = inv.proper;
  }

  sent-Inv :
      (s : System F) (sent : List Sent) (log : List LocalTask) (opened ever : List Text)
      → Inv create s log opened ever
      → Inv create (record s { sent = sent }) log opened ever
  sent-Inv s sent log opened ever inv = record {
    stamp = inv.stamp;
    names = inv.names;
    removable = inv.removable;
    follow = inv.follow;
    queue = inv.queue;
    results = inv.results;
    counts = inv.counts;
    closing = inv.closing;
    pending = inv.pending;
    known = inv.known;
    before = inv.before;
    proper = inv.proper;
  }

  pub handle_done-Kept :
      (s : System F) (w : Work) (ws : List Work) (log : List LocalTask) (opened ever : List Text)
      → s.done ≡ w ∷ ws
      → Inv create s log opened ever
      → Kept (handle_done (record s { done = ws }) w)
  unfolding handle_done
  handle_done-Kept s w ws log opened ever e inv =
      let (here, results) =
        subst (All (λ (v : Work). listed v.perm_id (apply [] log) ≡ true)) e inv.results in
      let there : listed w.perm_id s.main.permuters ≡ true = rw inv.names here in
      let (s', done, log', inv') =
        try_remove-Inv create (less_work s w ws) w.perm_id log opened ever there
          (less_work-Inv s w ws log opened ever e inv) in
      (
        record s' { sent = s'.sent ++ result w ∷ [] },
        ap
            (λ (r : Result Fault (System F)).
              bind r λ t. ok (record t { sent = t.sent ++ result w ∷ [] }))
            done,
        log',
        opened,
        ever,
        sent-Inv s' (s'.sent ++ result w ∷ []) log' opened ever inv',
      )
