-- ===== src/Net/Server/Ports.antt =====
-- net/server.py: what is sent to the evaluator, and `_do_read_eval_loop`, which reads its answers.
use decomp_permuter_psyq.Prelude.{
  Bool, true, false, Option, none, some, List, [], ◌∷◌, ◌==◌, if◌then◌else◌,
}
use decomp_permuter_psyq.Prelude.Int.{pos, negsuc}
use decomp_permuter_psyq.Text.{Text, codes}
use decomp_permuter_psyq.Text.Equality.{same_text}
use decomp_permuter_psyq.Net.Json.{
  Json, null, bool, int, float, str, array, object, Fields, end, field, get_field, int_kind,
  str_kind, bool_kind, json_prop,
}
use decomp_permuter_psyq.Net.Permuters.{permuter_data_to_json}
use decomp_permuter_psyq.Net.Wire.{
  Wire, Recv, pure, raise, ◌>>=◌, receive, receive_json, prop, bad_message,
}
use decomp_permuter_psyq.Net.Server.Types.{
  Activity, Command, add, remove, perm_init_fail, perm_init_success, work_done,
}

module _ {F : Type 0} (wire : Wire F) where
  -- the messages of `_send_permuter`, of `_remove` and of a `Work`
  unfoldable pub command_messages : Command F → List Text
  command_messages (add perm_id perm) =
      wire.dumps (
        field (codes "type") (str (codes "add"))
          (field (codes "permuter") (str perm_id) (permuter_data_to_json perm)))
      ∷ wire.encode perm.source
      ∷ perm.target_o_bin
      ∷ []
  command_messages (remove perm_id) =
      wire.dumps
        (field (codes "type") (str (codes "remove")) (field (codes "permuter") (str perm_id) end))
      ∷ []
  command_messages (Command.work perm_id id seed) =
      wire.dumps (
        field (codes "type") (str (codes "work")) (
          field (codes "permuter") (str perm_id)
            (field (codes "id") (int (pos id)) (field (codes "seed") (int seed) end))))
      ∷ []

  -- `value == True`
  unfoldable pub is_true : Option (Json F) → Bool
  is_true none = false
  is_true (some null) = false
  is_true (some (bool b)) = b
  is_true (some (int (pos n))) = n == 1
  is_true (some (int (negsuc n))) = false
  is_true (some (float x)) = wire.is_one x
  is_true (some (str s)) = false
  is_true (some (array xs)) = false
  is_true (some (object d)) = false

  -- `del msg[name]`
  abbrev pub remove_field : Fields F → Text → Fields F
  remove_field end name = end
  remove_field (field key value rest) name =
      if same_text key name then rest else field key value (remove_field rest name)

  unfoldable pub read_init : Fields F → Recv (Activity F)
  unfolding json_prop
  read_init msg = do
    perm_id ← prop msg (codes "permuter") str_kind
    time_us ← prop msg (codes "time_us") int_kind
    success ← prop msg (codes "success") bool_kind
    if success
        then (do
          base_score ← prop msg (codes "base_score") int_kind
          base_hash ← prop msg (codes "base_hash") str_kind
          pure (perm_init_success perm_id base_score base_hash time_us))
        else (do error ← prop msg (codes "error") str_kind; pure (perm_init_fail perm_id error))

  -- the bytes behind a result with a source
  unfoldable pub read_source : Bool → Recv (Option Text)
  read_source true = do source ← receive; pure (some source)
  read_source false = pure none

  unfoldable pub read_result : Fields F → Recv (Activity F)
  unfolding json_prop read_source is_true
  read_result msg = do
    compressed_source ← read_source (is_true (get_field msg (codes "has_source")))
    perm_id ← prop msg (codes "permuter") str_kind
    id ← prop msg (codes "id") int_kind
    time_us ← prop msg (codes "time_us") int_kind
    let obj =
        remove_field (remove_field (remove_field msg (codes "permuter")) (codes "id"))
          (codes "time_us")
    pure (work_done perm_id id obj time_us compressed_source)

  -- a round of `_do_read_eval_loop`
  unfoldable pub read_eval : Recv (Activity F)
  unfolding json_prop read_init read_result same_text
  read_eval = do
    msg ← receive_json wire
    msg_type ← prop msg (codes "type") str_kind
    if same_text msg_type (codes "init")
        then read_init msg
        else if same_text msg_type (codes "result")
        then read_result msg
        else raise (bad_message msg_type)
