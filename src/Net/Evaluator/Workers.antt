-- ===== src/Net/Evaluator/Workers.antt =====
-- net/evaluator.py: a worker has read a part of the log, and the rest is in its queue.
use decomp_permuter_psyq.Prelude.{
  ℕ, suc, ◌+◌, ◌≤◌, ◌≡◌, refl, sym, ap, ◌∙◌, true, Option, none, some, List, [], ◌∷◌, ◌++◌, ok,
  arith, length, length-append, append_assoc, subst,
}
use decomp_permuter_psyq.Text.{Text}
use decomp_permuter_psyq.Scorer.Score.{listed}
use decomp_permuter_psyq.Net.Evaluator.Pool.{
  LocalTask, add, remove, remove_text, Work, Worker, enqueue, drain_task,
}
use decomp_permuter_psyq.Net.Evaluator.Log.{apply, apply-append, Known, Removable}

abbrev pub queued : List (LocalTask × ℕ) → List LocalTask
queued [] = []
queued ((task, timestamp) ∷ queue) = task ∷ queued queue

-- the timestamps in a queue count on from `n`
abbrev pub Stamped : ℕ → List (LocalTask × ℕ) → Type 0
Stamped n [] = Unit
Stamped n ((task, timestamp) ∷ queue) = (timestamp ≡ suc n) × Stamped (suc n) queue

abbrev pub Runs : List LocalTask → Option (Work × ℕ) → Type 0
Runs log none = Unit
Runs log (some (item, required)) = Known log required item.perm_id

abbrev pub Follows : List LocalTask → Worker → Type 0
Follows log w =
    (consumed : List LocalTask) × (log ≡ consumed ++ queued w.local_queue)
    × (w.timestamp ≡ length consumed)
    × (w.permuters ≡ apply [] consumed)
    × Stamped (length consumed) w.local_queue
    × Runs log w.running

queued-append :
    (front back : List (LocalTask × ℕ)) → queued (front ++ back) ≡ queued front ++ queued back
queued-append [] back = refl
queued-append ((task, timestamp) ∷ front) back =
    ap (λ (ts : List LocalTask). task ∷ ts) (queued-append front back)

Stamped-append :
    (m n : ℕ) (queue : List (LocalTask × ℕ)) (task : LocalTask)
    → n ≡ m + length (queued queue)
    → Stamped m queue
    → Stamped m (queue ++ (task, n + 1) ∷ [])
Stamped-append m n [] task e st = (omega arith, tt)
Stamped-append m n ((t, timestamp) ∷ queue) task e (h, st) =
    (h, Stamped-append (suc m) n queue task (omega arith) st)

pub enqueue-Follows :
    (log : List LocalTask) (task : LocalTask) (n : ℕ) (w : Worker)
    → n ≡ length log
    → Runs (log ++ task ∷ []) w.running
    → Follows log w
    → Follows (log ++ task ∷ []) (enqueue task (n + 1) w)
enqueue-Follows log task n w size running (consumed, e, time, names, st, old) =
    let sizes = ap length e in
    (
      consumed,
      ap (λ (l : List LocalTask). l ++ task ∷ []) e
          ∙ append_assoc consumed (queued w.local_queue) (task ∷ [])
          ∙ ap (λ (l : List LocalTask). consumed ++ l)
              (sym (queued-append w.local_queue ((task, n + 1) ∷ []))),
      time,
      names,
      Stamped-append (length consumed) n w.local_queue task
          (omega (arith, size, sizes, length-append consumed (queued w.local_queue))) st,
      running,
    )

-- a worker that reads a task fails at none, and follows on
pub drain_task-Follows :
    (log : List LocalTask) (w : Worker) (task : LocalTask) (timestamp : ℕ)
    (rest : List (LocalTask × ℕ))
    → Removable log
    → w.local_queue ≡ (task, timestamp) ∷ rest
    → Follows log w
    → (w' : Worker) × (drain_task w task timestamp rest ≡ ok w')
      × Follows log w'
      × (w'.running ≡ w.running)
unfolding drain_task
drain_task-Follows log w task timestamp rest removable queue
      (consumed, e, time, names, st, running) =
    let st' : Stamped (length consumed) ((task, timestamp) ∷ rest) =
      subst (Stamped (length consumed)) queue st in
    let e' : log ≡ consumed ++ task ∷ queued rest =
      e ∙ ap (λ (q : List (LocalTask × ℕ)). consumed ++ queued q) queue in
    let part : log ≡ (consumed ++ task ∷ []) ++ queued rest =
      e' ∙ sym (append_assoc consumed (task ∷ []) (queued rest)) in
    by_task task e' part st'
  where
    by_task :
        (task : LocalTask)
        → log ≡ consumed ++ task ∷ queued rest
        → log ≡ (consumed ++ task ∷ []) ++ queued rest
        → Stamped (length consumed) ((task, timestamp) ∷ rest)
        → (w' : Worker) × (drain_task w task timestamp rest ≡ ok w')
          × Follows log w'
          × (w'.running ≡ w.running)
    by_task (add p) e' part (stamp, st') =
        let size : length (consumed ++ add p ∷ []) ≡ suc (length consumed) =
          omega (arith, length-append consumed (add p ∷ [])) in
        (
          record w { permuters = p ∷ w.permuters; timestamp = timestamp; local_queue = rest },
          refl,
          (
            consumed ++ add p ∷ [],
            part,
            stamp ∙ sym size,
            ap (λ (ns : List Text). p ∷ ns) names ∙ sym (apply-append [] consumed (add p ∷ [])),
            subst (λ (n : ℕ). Stamped n rest) (sym size) st',
            running,
          ),
          refl,
        )
    by_task (remove p) e' part (stamp, st') =
        let size : length (consumed ++ remove p ∷ []) ≡ suc (length consumed) =
          omega (arith, length-append consumed (remove p ∷ [])) in
        let here : listed p w.permuters ≡ true = rw names (removable consumed (queued rest) p e') in
        (
          record w {
            permuters = remove_text p w.permuters;
            timestamp = timestamp;
            local_queue = rest;
          },
          rw here refl,
          (
            consumed ++ remove p ∷ [],
            part,
            stamp ∙ sym size,
            ap (remove_text p) names ∙ sym (apply-append [] consumed (remove p ∷ [])),
            subst (λ (n : ℕ). Stamped n rest) (sym size) st',
            running,
          ),
          refl,
        )

-- A worker that need not wait knows the permuter of its work.
pub Follows-knows :
    (log : List LocalTask) (w : Worker) (item : Work) (required : ℕ)
    → w.running ≡ some (item, required)
    → required ≤ w.timestamp
    → Follows log w
    → (listed item.perm_id w.permuters ≡ true) × Known log required item.perm_id
Follows-knows log w item required e ready (consumed, part, time, names, st, running) =
    let known : Known log required item.perm_id = subst (Runs log) e running in
    (rw names (known.1 consumed (queued w.local_queue) part (omega (arith, time))), known)

-- another work, or none
pub Follows-running :
    (log : List LocalTask) (w : Worker) (running : Option (Work × ℕ))
    → Runs log running
    → Follows log w
    → Follows log (record w { running = running })
Follows-running log w running runs (consumed, part, time, names, st, old) =
    (consumed, part, time, names, st, runs)
