-- ===== src/Net/Evaluator/Pool.antt =====
-- net/evaluator.py: the main process with its worker processes. A schedule says which process makes the
-- next step; a step that has to wait leaves the state as it is.
use decomp_permuter_psyq.Prelude.{
  ℕ, ◌+◌, ◌&&◌, Option, none, some, List, [], ◌∷◌, ◌++◌, Result, ok, raised, bind, if◌then◌else◌,
  map, leb, get_elem?, set, replicate,
}
use decomp_permuter_psyq.Prelude.Int.{ℤ, pos, ◌+ℤ◌, ◌-ℤ◌, same_int}
use decomp_permuter_psyq.Text.{Text}
use decomp_permuter_psyq.Text.Equality.{same_text}
use decomp_permuter_psyq.Scorer.Score.{listed}
use decomp_permuter_psyq.Net.Permuters.{PermuterData}
use decomp_permuter_psyq.Net.Evaluator.Ports.{
  Task, add_permuter, remove_permuter, work, Init, success, failure,
}

pub record Work : Type 0 where
  pub perm_id : Text
  pub id : ℤ
  pub seed : ℤ

-- A `LocalWork`; the permuter that an `AddPermuterLocal` carries is left out, since only its name is
-- looked up.
pub data LocalTask : Type 0 where
  add remove : Text → LocalTask

-- The variables of `main`. Of the `dict` of permuters the keys are kept, as the list of a set.
pub record Main : Type 0 where
  pub permuters : List Text
  pub remaining_work : Text → ℤ
  pub should_remove : List Text
  pub timestamp : ℕ

-- A worker process with the queue that is its own, and the work that it has taken, with the timestamp
-- that this requires.
pub record Worker : Type 0 where
  pub permuters : List Text
  pub timestamp : ℕ
  pub local_queue : List (LocalTask × ℕ)
  pub running : Option (Work × ℕ)

-- what the main process sends: the outcome of an `AddPermuter`, or the result of a work
pub data Sent : Type 0 where
  init : Text → Init → Sent
  result : Work → Sent

-- `inbox` are the tasks of the reader thread and `done` those of the workers, each in their order; the
-- task queue mixes them.
pub record System (F : Type 0) : Type 0 where
  pub main : Main
  pub worker_queue : List (Work × ℕ)
  pub workers : List Worker
  pub inbox : List (Task F)
  pub done : List Work
  pub sent : List Sent

-- The failed assertions of `main`, and the `KeyError`s of a worker, at the work and at a removal.
pub data Fault : Type 0 where
  already_added not_added unknown_permuter unknown_removal : Fault

abbrev pub remove_text : Text → List Text → List Text
remove_text t [] = []
remove_text t (u ∷ us) = let rest = remove_text t us in if same_text t u then rest else u ∷ rest

-- `counter[p] = n`
abbrev pub put_count : (Text → ℤ) → Text → ℤ → Text → ℤ
put_count counter p n q = if same_text p q then n else counter q

-- `for q in local_queues: q.put((task, timestamp))`
abbrev pub enqueue : LocalTask → ℕ → Worker → Worker
enqueue task timestamp w = record w { local_queue = w.local_queue ++ (task, timestamp) ∷ [] }

module _ {F : Type 0} where
  -- `try_remove` where the permuter is removed
  abbrev pub removed : System F → Text → System F
  removed s p = record s {
    main = record {
      permuters = remove_text p s.main.permuters;
      remaining_work = put_count s.main.remaining_work p (pos 0);
      should_remove = remove_text p s.main.should_remove;
      timestamp = s.main.timestamp + 1;
    };
    workers = map (enqueue (remove p) (s.main.timestamp + 1)) s.workers;
  }

  unfoldable pub try_remove : System F → Text → Result Fault (System F)
  try_remove s p =
      if listed p s.main.permuters
      then (if listed p s.main.should_remove && same_int (s.main.remaining_work p) (pos 0)
          then ok (removed s p)
          else ok s)
      else raised not_added

  -- `AddPermuter` after `_create_permuter` and the comparison of the scores
  abbrev pub added : System F → Text → Init → System F
  added s p (failure error) = record s { sent = s.sent ++ init p (failure error) ∷ [] }
  added s p (success base_score base_hash) = record s {
    main = record s.main { permuters = p ∷ s.main.permuters; timestamp = s.main.timestamp + 1 };
    workers = map (enqueue (add p) (s.main.timestamp + 1)) s.workers;
    sent = s.sent ++ init p (success base_score base_hash) ∷ [];
  }

  -- a task of the reader thread; `create` is the outcome of an `AddPermuter`
  unfoldable pub handle_task : (PermuterData F → Init) → System F → Task F → Result Fault (System F)
  unfolding try_remove
  handle_task create s (add_permuter p perm) =
      if listed p s.main.permuters then raised already_added else ok (added s p (create perm))
  handle_task create s (remove_permuter p) =
      if listed p s.main.permuters
      then try_remove
          (record s { main = record s.main { should_remove = p ∷ s.main.should_remove } }) p
      else ok s
  handle_task create s (work p id seed) = ok (record s {
    main = record s.main {
      remaining_work = put_count s.main.remaining_work p (s.main.remaining_work p +ℤ pos 1);
    };
    worker_queue =
        s.worker_queue ++ (record { perm_id = p; id = id; seed = seed }, s.main.timestamp) ∷ [];
  })

  -- a `WorkDone`
  unfoldable pub handle_done : System F → Work → Result Fault (System F)
  unfolding try_remove
  handle_done s w =
      bind
        (try_remove
          (record s {
            main = record s.main {
              remaining_work =
                  put_count s.main.remaining_work w.perm_id
                    (s.main.remaining_work w.perm_id -ℤ pos 1);
            };
          })
          w.perm_id)
        λ s'. ok (record s' { sent = s'.sent ++ result w ∷ [] })

-- the steps of a schedule, those of a worker with its number
pub data Choice : Type 0 where
  read finish : Choice
  take drain evaluate : ℕ → Choice

abbrev pub set_worker : {F : Type 0} → System F → ℕ → Worker → System F
set_worker s k w = record s { workers = set s.workers k w }

-- A task of the local queue: the worker has a work, and takes the next one.
unfoldable pub drain_task : Worker → LocalTask → ℕ → List (LocalTask × ℕ) → Result Fault Worker
drain_task w (add p) timestamp rest =
    ok (record w { permuters = p ∷ w.permuters; timestamp = timestamp; local_queue = rest })
drain_task w (remove p) timestamp rest =
    if listed p w.permuters
    then ok (record w {
      permuters = remove_text p w.permuters;
      timestamp = timestamp;
      local_queue = rest;
    })
    else raised unknown_removal

module _ {F : Type 0} where
  unfoldable pub take_work : System F → ℕ → Worker → Option (Work × ℕ) → List (Work × ℕ) → System F
  take_work s k w none [] = s
  take_work s k w none (item ∷ rest) =
      set_worker (record s { worker_queue = rest }) k (record w { running = some item })
  take_work s k w (some item) queue = s

  unfoldable pub drain_queue :
      System F → ℕ → Worker → Option (Work × ℕ) → List (LocalTask × ℕ) → Result Fault (System F)
  unfolding drain_task
  drain_queue s k w none queue = ok s
  drain_queue s k w (some item) [] = ok s
  drain_queue s k w (some item) ((task, timestamp) ∷ rest) =
      bind (drain_task w task timestamp rest) λ w'. ok (set_worker s k w')

  -- No task of the local queue has arrived: the work is done, if the worker need not wait for more.
  unfoldable pub evaluate_work : System F → ℕ → Worker → Option (Work × ℕ) → Result Fault (System F)
  evaluate_work s k w none = ok s
  evaluate_work s k w (some (item, required)) =
      if leb required w.timestamp
      then (if listed item.perm_id w.permuters
          then ok
              (set_worker (record s { done = s.done ++ item ∷ [] }) k (record w { running = none }))
          else raised unknown_permuter)
      else ok s

  -- the next task of the reader thread, or the next result
  unfoldable pub read_inbox :
      (PermuterData F → Init) → System F → List (Task F) → Result Fault (System F)
  unfolding handle_task
  read_inbox create s [] = ok s
  read_inbox create s (task ∷ tasks) = handle_task create (record s { inbox = tasks }) task

  unfoldable pub read_done : System F → List Work → Result Fault (System F)
  unfolding handle_done
  read_done s [] = ok s
  read_done s (w ∷ ws) = handle_done (record s { done = ws }) w

  unfoldable pub with_worker :
      System F → ℕ → (Worker → Result Fault (System F)) → Result Fault (System F)
  with_worker s k f = elim (get_elem? s.workers k) [ none ↦ ok s | some w ↦ f w ]

  unfoldable pub step : (PermuterData F → Init) → System F → Choice → Result Fault (System F)
  unfolding read_inbox read_done with_worker take_work drain_queue evaluate_work
  step create s read = read_inbox create s s.inbox
  step create s finish = read_done s s.done
  step create s (take k) = with_worker s k λ w. ok (take_work s k w w.running s.worker_queue)
  step create s (drain k) = with_worker s k λ w. drain_queue s k w w.running w.local_queue
  step create s (evaluate k) = with_worker s k λ w. evaluate_work s k w w.running

  unfoldable pub run : (PermuterData F → Init) → System F → List Choice → Result Fault (System F)
  unfolding step
  run create s [] = ok s
  run create s (choice ∷ choices) = bind (step create s choice) λ s'. run create s' choices

-- `main` behind the start of `threads` workers
abbrev pub new_worker : Worker
new_worker = record { permuters = []; timestamp = 0; local_queue = []; running = none }

abbrev pub start : {F : Type 0} → ℕ → List (Task F) → System F
start threads tasks = record {
  main = record { permuters = []; remaining_work = λ p. pos 0; should_remove = []; timestamp = 0 };
  worker_queue = [];
  workers = replicate threads new_worker;
  inbox = tasks;
  done = [];
  sent = [];
}

-- `_create_permuter` gives a permuter's base score and hash or fails; a base score other than the
-- client's fails too. `mismatch` is the text of that failure.
unfoldable pub create_init :
    {F : Type 0}
    → (PermuterData F → Result Text (ℤ × Text))
    → (ℤ × Text → ℤ × Text → Text)
    → PermuterData F
    → Init
create_init create mismatch perm = elim (create perm) [
  | raised error ↦ failure error
  | ok (base_score, base_hash) ↦
      if same_int base_score perm.base_score
      then success base_score base_hash
      else failure (mismatch (base_score, base_hash) (perm.base_score, perm.base_hash))
]
