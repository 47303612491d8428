-- ===== src/Net/Evaluator/Ports.antt =====
-- net/evaluator.py: `read_loop`, `_send_result` and the answer to an `AddPermuter`.
use decomp_permuter_psyq.Prelude.{ℕ, true, false, Option, none, some, List, [], ◌∷◌, if◌then◌else◌}
use decomp_permuter_psyq.Prelude.Int.{ℤ, pos}
use decomp_permuter_psyq.Text.{Text, codes}
use decomp_permuter_psyq.Text.Equality.{same_text}
use decomp_permuter_psyq.Permuter.Results.{is_present}
use decomp_permuter_psyq.Net.Json.{
  Json, null, bool, int, str, object, Fields, end, field, int_kind, str_kind, json_prop,
}
use decomp_permuter_psyq.Net.Permuters.{PermuterData, weight_fields, permuter_data_from_json}
use decomp_permuter_psyq.Net.Wire.{
  Wire, Recv, pure, raise, lift_json, lift_option, ◌>>=◌, receive, receive_json, prop, bad_value,
  bad_message,
}

-- the tasks that `read_loop` puts into the queue
pub data Task (F : Type 0) : Type 0 where
  add_permuter : Text → PermuterData F → Task F
  remove_permuter : Text → Task F
  work : Text → ℤ → ℤ → Task F

-- the result of a worker: what `_send_result` reads of it
pub record Scored (F : Type 0) : Type 0 where
  pub score : ℕ
  pub hash : Option Text
  pub profiler : Option (List (Text × F))
  pub compressed_source : Option Text

-- an `EvalError` has only its `exc_str` read
pub data WorkResult (F : Type 0) : Type 0 where
  failed : Option Text → WorkResult F
  scored : Scored F → WorkResult F

pub record WorkDone (F : Type 0) : Type 0 where
  pub perm_id : Text
  pub id : ℤ
  pub time_us : ℤ
  pub result : WorkResult F

-- the outcome of an `AddPermuter`
pub data Init : Type 0 where
  success : ℤ → Text → Init
  failure : Text → Init

module _ {F : Type 0} where
  abbrev pub option_str : Option Text → Json F
  option_str none = null
  option_str (some s) = str s

  -- `if value is not None: obj[name] = value`
  abbrev pub hash_fields : Option Text → Fields F → Fields F
  hash_fields none rest = rest
  hash_fields (some h) rest = field (codes "hash") (str h) rest

  abbrev pub profiler_fields : Option (List (Text × F)) → Fields F
  profiler_fields none = end
  profiler_fields (some stats) = field (codes "profiler") (object (weight_fields stats)) end

  -- the members behind `type`, `permuter`, `id` and `time_us`
  abbrev pub result_fields : WorkResult F → Fields F
  result_fields (failed exc_str) = field (codes "error") (option_str exc_str) end
  result_fields (scored res) = field (codes "score") (int (pos res.score)) (
      field (codes "has_source") (bool (is_present res.compressed_source))
        (hash_fields res.hash (profiler_fields res.profiler)))

  abbrev pub source_messages : WorkResult F → List Text
  source_messages (failed exc_str) = []
  source_messages (scored res) = elim res.compressed_source [ none ↦ [] | some s ↦ s ∷ [] ]

  -- the members of the answer to an `AddPermuter`, with `time_us` set last
  abbrev pub init_fields : Init → ℤ → Fields F
  init_fields (success base_score base_hash) time_us = field (codes "success") (bool true) (
      field (codes "base_score") (int base_score)
        (field (codes "base_hash") (str base_hash) (field (codes "time_us") (int time_us) end)))
  init_fields (failure error) time_us =
      field (codes "success") (bool false)
        (field (codes "error") (str error) (field (codes "time_us") (int time_us) end))

module _ {F : Type 0} (wire : Wire F) where
  unfoldable pub result_messages : WorkDone F → List Text
  result_messages item =
      wire.dumps (
        field (codes "type") (str (codes "result")) (
          field (codes "permuter") (str item.perm_id) (
            field (codes "id") (int item.id)
              (field (codes "time_us") (int item.time_us) (result_fields item.result)))))
      ∷ source_messages item.result

  unfoldable pub init_messages : Text → Init → ℤ → List Text
  init_messages perm_id init time_us =
      wire.dumps (
        field (codes "type") (str (codes "init"))
          (field (codes "permuter") (str perm_id) (init_fields init time_us)))
      ∷ []

module _ {F : Type 0} (wire : Wire F) (of_int : ℤ → F) where
  -- a round of `read_loop`
  unfoldable pub read_task : Recv (Task F)
  unfolding json_prop permuter_data_from_json same_text
  read_task = do
    item ← receive_json wire
    msg_type ← prop item (codes "type") str_kind
    if same_text msg_type (codes "add")
        then (do
          perm_id ← prop item (codes "permuter") str_kind
          bytes ← receive
          source ← lift_option bad_value (wire.decode bytes)
          target_o_bin ← receive
          perm ← lift_json (permuter_data_from_json of_int item source target_o_bin)
          pure (add_permuter perm_id perm))
        else if same_text msg_type (codes "remove")
        then (do perm_id ← prop item (codes "permuter") str_kind; pure (remove_permuter perm_id))
        else if same_text msg_type (codes "work")
        then (do
          perm_id ← prop item (codes "permuter") str_kind
          id ← prop item (codes "id") int_kind
          seed ← prop item (codes "seed") int_kind
          pure (work perm_id id seed))
        else raise (bad_message msg_type)
