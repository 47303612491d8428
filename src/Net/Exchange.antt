-- ===== src/Net/Exchange.antt =====
-- net/server.py and net/evaluator.py: each reads what the other has sent.
use decomp_permuter_psyq.Prelude.{
  ℕ, zero, suc, ◌≡◌, refl, Option, none, some, List, [], ◌∷◌, ◌++◌, ok, map, length, append_assoc,
}
use decomp_permuter_psyq.Prelude.Int.{ℤ, pos}
use decomp_permuter_psyq.Text.{Text, codes}
use decomp_permuter_psyq.Net.Json.{str, field}
use decomp_permuter_psyq.Net.Permuters.{permuter_data_from_json-to_json}
use decomp_permuter_psyq.Net.Wire.{Wire, Recv, pure, ◌>>=◌}
use decomp_permuter_psyq.Net.Server.Types.{
  Activity, Command, add, remove, work, perm_init_fail, perm_init_success, work_done,
}
use decomp_permuter_psyq.Net.Server.Ports.{command_messages, read_eval}
use decomp_permuter_psyq.Net.Evaluator.Ports.{
  Task, WorkResult, failed, scored, WorkDone, Init, success, failure, result_fields,
  result_messages, init_messages, read_task,
}

module _ {F : Type 0} where
  abbrev pub task_of : Command F → Task F
  task_of (add perm_id perm) = Task.add_permuter perm_id perm
  task_of (remove perm_id) = Task.remove_permuter perm_id
  task_of (work perm_id id seed) = Task.work perm_id (pos id) seed

  abbrev pub source_of : WorkResult F → Option Text
  source_of (failed exc_str) = none
  source_of (scored res) = res.compressed_source

  -- what the server keeps of a result
  abbrev pub activity_of : WorkDone F → Activity F
  activity_of item =
      work_done item.perm_id item.id
        (field (codes "type") (str (codes "result")) (result_fields item.result)) item.time_us
        (source_of item.result)

  abbrev pub init_activity : Text → Init → ℤ → Activity F
  init_activity perm_id (success base_score base_hash) time_us =
      perm_init_success perm_id base_score base_hash time_us
  init_activity perm_id (failure error) time_us = perm_init_fail perm_id error

-- `n` rounds of a loop that reads
abbrev pub rounds : {A : Type 0} → Recv A → ℕ → Recv (List A)
rounds read zero = pure []
rounds read (suc n) = read >>= λ a. rounds read n >>= λ items. pure (a ∷ items)

abbrev pub all_messages : {A : Type 0} → (A → List Text) → List A → List Text
all_messages messages [] = []
all_messages messages (a ∷ items) = messages a ++ all_messages messages items

-- A loop that reads each message back reads all of them, in order.
rounds-all_messages :
    {A B : Type 0} (messages : A → List Text) (read : Recv B) (meaning : A → B)
    → ((a : A) (rest : List Text) → read (messages a ++ rest) ≡ ok (meaning a, rest))
    → (items : List A) (rest : List Text)
    → rounds read (length items) (all_messages messages items ++ rest)
      ≡ ok (map meaning items, rest)
rounds-all_messages messages read meaning back [] rest = refl
rounds-all_messages messages read meaning back (a ∷ items) rest =
    rw
      (
        append_assoc (messages a) (all_messages messages items) rest,
        back a (all_messages messages items ++ rest),
        rounds-all_messages messages read meaning back items rest,
      )
      refl

module _ {F : Type 0} (wire : Wire F) (of_int : ℤ → F) where
  read_task-command_messages :
      (command : Command F) (rest : List Text)
      → read_task wire of_int (command_messages wire command ++ rest) ≡ ok (task_of command, rest)
  unfolding read_task command_messages
  read_task-command_messages (add perm_id perm) rest =
      rw
        (
          wire.loads-dumps,
          wire.decode-encode,
          permuter_data_from_json-to_json of_int perm (str (codes "add")) (str perm_id),
        )
        refl
  read_task-command_messages (remove perm_id) rest = rw wire.loads-dumps refl
  read_task-command_messages (work perm_id id seed) rest = rw wire.loads-dumps refl

module _ {F : Type 0} (wire : Wire F) where
  read_eval-init_messages :
      (perm_id : Text) (init : Init) (time_us : ℤ) (rest : List Text)
      → read_eval wire (init_messages wire perm_id init time_us ++ rest)
        ≡ ok (init_activity perm_id init time_us, rest)
  unfolding read_eval init_messages
  read_eval-init_messages perm_id (success base_score base_hash) time_us rest =
      rw wire.loads-dumps refl
  read_eval-init_messages perm_id (failure error) time_us rest = rw wire.loads-dumps refl

  result-back :
      (perm_id : Text) (id time_us : ℤ) (score : ℕ) (hash : Option Text)
      (profiler : Option (List (Text × F))) (compressed_source : Option Text) (rest : List Text)
      → let item : WorkDone F = record {
        perm_id = perm_id;
        id = id;
        time_us = time_us;
        result = scored (record {
          score = score;
          hash = hash;
          profiler = profiler;
          compressed_source = compressed_source;
        });
      } in
        read_eval wire (result_messages wire item ++ rest) ≡ ok (activity_of item, rest)
  unfolding read_eval result_messages
  result-back perm_id id time_us score hash profiler none rest = rw wire.loads-dumps refl
  result-back perm_id id time_us score hash profiler (some source) rest = rw wire.loads-dumps refl

  failure-back :
      (perm_id : Text) (id time_us : ℤ) (exc_str : Option Text) (rest : List Text)
      → let item : WorkDone F = record {
        perm_id = perm_id;
        id = id;
        time_us = time_us;
        result = failed exc_str;
      } in
        read_eval wire (result_messages wire item ++ rest) ≡ ok (activity_of item, rest)
  unfolding read_eval result_messages
  failure-back perm_id id time_us exc_str rest = rw wire.loads-dumps refl

  read_eval-result_messages :
      (item : WorkDone F) (rest : List Text)
      → read_eval wire (result_messages wire item ++ rest) ≡ ok (activity_of item, rest)
  read_eval-result_messages item rest = by_result item.result
    where
      by_result :
          (result : WorkResult F)
          → let item' : WorkDone F = record item { result = result } in
            read_eval wire (result_messages wire item' ++ rest) ≡ ok (activity_of item', rest)
      by_result (failed exc_str) = failure-back item.perm_id item.id item.time_us exc_str rest
      by_result (scored res) =
          result-back item.perm_id item.id item.time_us res.score res.hash res.profiler
            res.compressed_source rest

-- The evaluator reads the commands that the server has sent, each one whole and in their order, and
-- nothing of what is behind them, where the libraries decode what they have encoded.
pub rounds-read_task :
    {F : Type 0} (wire : Wire F) (of_int : ℤ → F) (commands : List (Command F)) (rest : List Text)
    → rounds
        (read_task wire of_int)
        (length commands)
        (all_messages (command_messages wire) commands ++ rest)
      ≡ ok (map task_of commands, rest)
rounds-read_task wire of_int =
    rounds-all_messages (command_messages wire) (read_task wire of_int) task_of
      (read_task-command_messages wire of_int)

-- what the evaluator answers: the outcome of an `AddPermuter` with its time, or a result
pub data Reply (F : Type 0) : Type 0 where
  init : Text → Init → ℤ → Reply F
  result : WorkDone F → Reply F

module _ {F : Type 0} where
  abbrev pub reply_messages : Wire F → Reply F → List Text
  reply_messages wire (init perm_id outcome time_us) = init_messages wire perm_id outcome time_us
  reply_messages wire (result item) = result_messages wire item

  abbrev pub reply_activity : Reply F → Activity F
  reply_activity (init perm_id outcome time_us) = init_activity perm_id outcome time_us
  reply_activity (result item) = activity_of item

-- The server reads the evaluator's answers as they were sent: the outcomes with their scores or errors,
-- and the results with their members and sources, each source with its own result, where the libraries
-- decode what they have encoded.
pub rounds-read_eval :
    {F : Type 0} (wire : Wire F) (replies : List (Reply F)) (rest : List Text)
    → rounds (read_eval wire) (length replies) (all_messages (reply_messages wire) replies ++ rest)
      ≡ ok (map reply_activity replies, rest)
rounds-read_eval {F} wire =
    rounds-all_messages (reply_messages wire) (read_eval wire) reply_activity back
  where
    back :
        (reply : Reply F) (rest : List Text)
        → read_eval wire (reply_messages wire reply ++ rest) ≡ ok (reply_activity reply, rest)
    back (init perm_id outcome time_us) rest =
        read_eval-init_messages wire perm_id outcome time_us rest
    back (result item) rest = read_eval-result_messages wire item rest
