-- ===== src/Net/Evaluator/Schedules.antt =====
-- net/evaluator.py: no schedule of the main process and its workers ends in a failure.
use decomp_permuter_psyq.Prelude.{
  ℕ, zero, suc, ◌≡◌, refl, ap, subst, ◌∙◌, List, [], ◌∷◌, ◌++◌, Result, ok, bind, arith, sum_of,
  All, All-implies, sym, length, append-nil, ok-injective, replicate,
}
use decomp_permuter_psyq.Prelude.Int.{pos}
use decomp_permuter_psyq.Text.{Text}
use decomp_permuter_psyq.Net.Permuters.{PermuterData}
use decomp_permuter_psyq.Net.Evaluator.Ports.{Task, Init}
use decomp_permuter_psyq.Net.Evaluator.Pool.{
  LocalTask, Work, Worker, Main, System, Fault, start, new_worker, read_inbox, read_done, take_work,
  Choice, read, finish, take, drain, evaluate, step, run,
}
use decomp_permuter_psyq.Net.Evaluator.Log.{Removable, apply}
use decomp_permuter_psyq.Net.Evaluator.Workers.{Follows}
use decomp_permuter_psyq.Net.Evaluator.Counts.{hit_worker, outstanding}
use decomp_permuter_psyq.Net.Evaluator.Invariant.{Proper, Inv}
use decomp_permuter_psyq.Net.Evaluator.Steps.{Kept, kept, handle_task-Kept, handle_done-Kept}
use decomp_permuter_psyq.Net.Evaluator.Moves.{
  take_work-Inv, drain_queue-Kept, evaluate_work-Kept, with_worker-Kept,
}

module _ {F : Type 0} (create : PermuterData F → Init) where
  read_inbox-Kept :
      (s : System F) (tasks : List (Task F)) (log : List LocalTask) (opened ever : List Text)
      → s.inbox ≡ tasks
      → Inv create s log opened ever
      → Kept create (read_inbox create s tasks)
  unfolding read_inbox
  read_inbox-Kept s [] log opened ever e inv = kept create s log opened ever inv
  read_inbox-Kept s (task ∷ tasks) log opened ever e inv =
      handle_task-Kept create s task tasks log opened ever inv
        (subst (Proper create opened ever) e inv.proper)

  read_done-Kept :
      (s : System F) (done : List Work) (log : List LocalTask) (opened ever : List Text)
      → s.done ≡ done
      → Inv create s log opened ever
      → Kept create (read_done s done)
  unfolding read_done
  read_done-Kept s [] log opened ever e inv = kept create s log opened ever inv
  read_done-Kept s (w ∷ ws) log opened ever e inv =
      handle_done-Kept create s w ws log opened ever e inv

  step-Kept :
      (s : System F) (choice : Choice) (log : List LocalTask) (opened ever : List Text)
      → Inv create s log opened ever
      → Kept create (step create s choice)
  unfolding step
  step-Kept s read log opened ever inv = read_inbox-Kept s s.inbox log opened ever refl inv
  step-Kept s finish log opened ever inv = read_done-Kept s s.done log opened ever refl inv
  step-Kept s (take k) log opened ever inv =
      with_worker-Kept create s k _ log opened ever inv λ w e.
        kept create (take_work s k w w.running s.worker_queue) log opened ever
          (take_work-Inv create s k w w.running s.worker_queue log opened ever e refl refl inv)
  step-Kept s (drain k) log opened ever inv =
      with_worker-Kept create s k _ log opened ever inv
        λ w e. drain_queue-Kept create s k w w.running w.local_queue log opened ever e refl inv
  step-Kept s (evaluate k) log opened ever inv =
      with_worker-Kept create s k _ log opened ever inv
        λ w e. evaluate_work-Kept create s k w w.running log opened ever e refl inv

  run-Kept :
      (s : System F) (choices : List Choice) (log : List LocalTask) (opened ever : List Text)
      → Inv create s log opened ever
      → Kept create (run create s choices)
  unfolding run
  run-Kept s [] log opened ever inv = kept create s log opened ever inv
  run-Kept s (choice ∷ choices) log opened ever inv =
      let (s', e, log', opened', ever', inv') = step-Kept s choice log opened ever inv in
      let (last, e', log'', opened'', ever'', inv'') =
        run-Kept s' choices log' opened' ever' inv' in
      (
        last,
        ap (λ (r : Result Fault (System F)). bind r λ t. run create t choices) e ∙ e',
        log'',
        opened'',
        ever'',
        inv'',
      )

  new_workers-Follows : (n : ℕ) → All (Follows []) (replicate n new_worker)
  new_workers-Follows zero = tt
  new_workers-Follows (suc n) = (([], refl, refl, refl, tt, tt), new_workers-Follows n)

  new_workers-idle : (p : Text) (n : ℕ) → sum_of (hit_worker p) (replicate n new_worker) ≡ 0
  new_workers-idle p zero = refl
  new_workers-idle p (suc n) = omega (arith, new_workers-idle p n)

  nothing_removed : Removable []
  nothing_removed [] back p e = absurd (cc e)
  nothing_removed (x ∷ xs) back p e = absurd (cc e)

  start-Inv :
      (threads : ℕ) (tasks : List (Task F))
      → Proper create [] [] tasks
      → Inv create (start threads tasks) [] [] []
  start-Inv threads tasks proper = record {
    stamp = refl;
    names = refl;
    removable = nothing_removed;
    follow = new_workers-Follows threads;
    queue = tt;
    results = tt;
    counts = λ p. ap pos (let idle = new_workers-idle p threads in omega (arith, idle));
    closing = λ p e. refl;
    pending = λ p e. e;
    known = λ p e. e;
    before = λ p e. e;
    proper = proper;
  }

-- No order of the steps of the main process and of its workers ends in a failure: the assertions of the
-- main process hold, and a worker finds the permuter of each work and of each removal, however late it
-- reads its queue. The tasks that come add a name once, and ask for work only between a permuter's
-- addition, if that has succeeded, and its removal.
pub run-start :
    {F : Type 0} (create : PermuterData F → Init) (threads : ℕ) (tasks : List (Task F))
    (choices : List Choice)
    → Proper create [] [] tasks
    → (s : System F) × (run create (start threads tasks) choices ≡ ok s)
run-start create threads tasks choices proper =
    let (s, e, log, opened, ever, inv) =
      run-Kept create (start threads tasks) choices [] [] []
        (start-Inv create threads tasks proper) in
    (s, e)

-- a worker that has read its queue has the permuters and the timestamp of the main process
abbrev pub UpToDate : Main → Worker → Type 0
UpToDate m w = w.local_queue ≡ [] → (w.permuters ≡ m.permuters) × (w.timestamp ≡ m.timestamp)

Follows-UpToDate :
    (m : Main) (log : List LocalTask) (w : Worker)
    → m.timestamp ≡ length log
    → m.permuters ≡ apply [] log
    → Follows log w
    → UpToDate m w
Follows-UpToDate m log w stamp names (consumed, e, time, own, st, runs) empty =
    let all : log ≡ consumed ++ [] = rw empty at e in
    let same = all ∙ append-nil consumed in
    (own ∙ sym (names ∙ ap (apply []) same), time ∙ sym (stamp ∙ ap length same))

-- In each state that an order of the steps leads to, the main process counts for each permuter exactly
-- the work that is in the queue, in a worker or in a result that waits, and a worker whose queue is empty
-- knows the same permuters as the main process. The tasks add a name once, and ask for work only between
-- a permuter's addition, if that has succeeded, and its removal.
pub run-UpToDate :
    {F : Type 0} (create : PermuterData F → Init) (threads : ℕ) (tasks : List (Task F))
    (choices : List Choice) (s : System F)
    → Proper create [] [] tasks
    → run create (start threads tasks) choices ≡ ok s
    → ((p : Text) → s.main.remaining_work p ≡ pos (outstanding p s))
      × All (UpToDate s.main) s.workers
run-UpToDate {F} create threads tasks choices s proper e =
    let (s', e', log, opened, ever, inv) =
      run-Kept create (start threads tasks) choices [] [] []
        (start-Inv create threads tasks proper) in
    let same = ok-injective (sym e' ∙ e) in
    rw (← same) (
      inv.counts,
      All-implies (Follows log) (UpToDate s'.main) s'.workers
          (λ w. Follows-UpToDate s'.main log w inv.stamp inv.names) inv.follow,
    )
