-- ===== src/Examples/Network.antt =====
-- net: a permuter, the messages about it, and a server.
use decomp_permuter_psyq.Prelude.{
  ℕ, ◌-◌, ◌≡◌, refl, Bool, true, false, Option, none, some, List, [], ◌∷◌, ◌++◌, ok, raised, arith,
  map, All,
}
use decomp_permuter_psyq.Prelude.Int.{ℤ, pos, negsuc}
use decomp_permuter_psyq.Text.{Text, codes}
use decomp_permuter_psyq.Text.Equality.{same_text}
use decomp_permuter_psyq.Net.Json.{int, str, object, Fields, end, field}
use decomp_permuter_psyq.Net.Permuters.{PermuterData, permuter_data_to_json}
use decomp_permuter_psyq.Net.Evaluator.Ports.{success, WorkDone, scored, failed}
use decomp_permuter_psyq.Net.Server.Types.{Client, Activity, add_permuter, Command}
use decomp_permuter_psyq.Net.Exchange.{
  rounds, all_messages, task_of, rounds-read_task, Reply, init, result, reply_messages,
  reply_activity, rounds-read_eval,
}
use decomp_permuter_psyq.Net.Server.Ports.{command_messages, read_eval}
use decomp_permuter_psyq.Net.Evaluator.Ports.{read_task}
use decomp_permuter_psyq.Prelude.Int.{same_int}
use decomp_permuter_psyq.Net.Server.Types.{
  remove_permuter, perm_init_success, net_thread_disconnected,
}
use decomp_permuter_psyq.Net.Server.Handle.{ServerInner, Effect, Handled, main_loop, is_member}
use decomp_permuter_psyq.Net.Server.Controller.{NetThread, read_loop}
use decomp_permuter_psyq.Net.Server.Protocol.{stage_of, watch_all}
use decomp_permuter_psyq.Net.Server.Reader.{is_disconnection, read_loop-ends}
use decomp_permuter_psyq.Net.Server.Trace.{main_loop-watch_all}
use decomp_permuter_psyq.Examples.Codec.{plain_wire}

abbrev pub of_int : ℤ → ℕ
of_int (pos n) = n
of_int (negsuc n) = 0

abbrev pub perm : PermuterData ℕ
perm = record {
  base_score = pos 120;
  base_hash = codes "ab";
  fn_name = codes "func";
  filename = codes "base.c";
  keep_prob = 6;
  need_profiler = false;
  stack_differences = true;
  randomization_weights = (codes "perm_casts", 20) ∷ [];
  compile_script = codes "cc";
  source = codes "int f;";
  target_o_bin = 127 ∷ 69 ∷ [];
}

abbrev pub name : Text
name = codes "7"

abbrev pub commands : List (Command ℕ)
commands = Command.add name perm ∷ Command.work name 0 (pos 5) ∷ Command.remove name ∷ []

rounds-read_task_example :
    rounds
      (read_task plain_wire of_int)
      3
      (all_messages (command_messages plain_wire) commands ++ (1 ∷ []) ∷ [])
    ≡ ok (map task_of commands, (1 ∷ []) ∷ [])
rounds-read_task_example = rounds-read_task plain_wire of_int commands ((1 ∷ []) ∷ [])

abbrev pub item : WorkDone ℕ
item = record {
  perm_id = name;
  id = pos 0;
  time_us = pos 30;
  result = scored (record {
    score = 90;
    hash = some (codes "cd");
    profiler = none;
    compressed_source = some (codes "int g;");
  });
}

abbrev pub replies : List (Reply ℕ)
replies =
    init name (success (pos 120) (codes "ab")) (pos 10)
    ∷ result item
    ∷ result (record item { result = failed (some (codes "no")) })
    ∷ []

rounds-read_eval_example :
    rounds
      (read_eval plain_wire)
      3
      (all_messages (reply_messages plain_wire) replies ++ (1 ∷ []) ∷ [])
    ≡ ok (map reply_activity replies, (1 ∷ []) ∷ [])
rounds-read_eval_example = rounds-read_eval plain_wire replies ((1 ∷ []) ∷ [])

-- The controller gives a permuter and asks twice for work, the second time after the permuter's end.
abbrev pub client : Client
client = record { id = codes "c"; nickname = codes "me" }

abbrev pub head : Text → Fields ℕ → Fields ℕ
head kind rest = field (codes "type") (str kind) (field (codes "permuter") (int (pos 7)) rest)

abbrev pub add_message : Fields ℕ
add_message = head (codes "add") (
    field (codes "client_id") (str client.id) (
      field (codes "client_name") (str client.nickname)
        (field (codes "data") (object (permuter_data_to_json perm)) end)))

abbrev pub work_request : ℤ → Fields ℕ
work_request seed = head (codes "work") (field (codes "seed") (int seed) end)

abbrev pub from_controller : List Text
from_controller =
    plain_wire.dumps add_message
    ∷ perm.source
    ∷ perm.target_o_bin
    ∷ plain_wire.dumps (work_request (pos 5))
    ∷ plain_wire.dumps (head (codes "remove") end)
    ∷ plain_wire.dumps (work_request (pos 6))
    ∷ []

abbrev pub thread : NetThread ℕ
thread = record {
  wire = plain_wire;
  of_int = of_int;
  base_weights = (codes "perm_casts", 10) ∷ (codes "perm_pad", 1) ∷ [];
  exception_to_string = λ e. codes "error";
  elapsed_us = λ now time_start. pos (now - time_start);
}

abbrev pub times : List ℕ
times = 1 ∷ 2 ∷ 3 ∷ 4 ∷ 5 ∷ 6 ∷ 7 ∷ []

read_loop-ends_example :
    (front : List (Activity ℕ)) × (graceful : Bool) × (message : Option Text) × (read_loop thread
        times 0 from_controller
      ≡ front ++ net_thread_disconnected graceful message ∷ [])
    × All (λ (activity : Activity ℕ). is_disconnection activity ≡ false) front
read_loop-ends_example = read_loop-ends thread times 0 from_controller (omega arith)

abbrev pub server : ServerInner ℕ
server = record { active = []; time_starts = []; last_heartbeat = 0 }

-- the main queue, where the permuter's start and the first result come between the controller's messages
abbrev pub queue : List (ℕ × Activity ℕ)
queue =
    (1, add_permuter (pos 7) 1 client perm)
    ∷ (2, perm_init_success name (pos 120) (codes "ab") (pos 10))
    ∷ (3, Activity.work (pos 7) 0 2 (pos 5))
    ∷ (4, Activity.work_done name (pos 0) (field (codes "score") (int (pos 90)) end) (pos 30) none)
    ∷ (5, remove_permuter (pos 7))
    ∷ (6, Activity.work (pos 7) 1 4 (pos 6))
    ∷ []

abbrev pub outcome_of : Handled ℕ → ServerInner ℕ × List (Effect ℕ)
outcome_of (ok out) = out
outcome_of (raised fault) = (server, [])

abbrev pub outcome : ServerInner ℕ × List (Effect ℕ)
outcome = outcome_of (main_loop server queue)

queue_handled : main_loop server queue ≡ ok outcome
unfolding main_loop same_text same_int
queue_handled = refl

main_loop-watch_all_example :
    watch_all (pos 7) (stage_of (is_member (pos 7) [])) outcome.1
    ≡ some (stage_of (is_member (pos 7) outcome.0.active))
main_loop-watch_all_example =
    main_loop-watch_all (pos 7) server outcome.0 queue outcome.1 queue_handled
