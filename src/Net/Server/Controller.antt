-- ===== src/Net/Server/Controller.antt =====
-- net/server.py: `NetThread`, which reads the controller's messages and writes the answers.
use decomp_permuter_psyq.Prelude.{
  ℕ, suc, true, false, Option, none, some, List, [], ◌∷◌, ◌++◌, Result, ok, raised, bind,
  if◌then◌else◌,
}
use decomp_permuter_psyq.Prelude.Int.{ℤ, pos, ◌-ℤ◌}
use decomp_permuter_psyq.Text.{Text, codes}
use decomp_permuter_psyq.Text.Equality.{same_text}
use decomp_permuter_psyq.Net.Json.{
  int, str, object, Fields, end, field, int_kind, str_kind, dict_kind, json_prop,
}
use decomp_permuter_psyq.Net.Permuters.{PermuterData, permuter_data_from_json}
use decomp_permuter_psyq.Net.Wire.{
  Wire, NetError, eof, bad_value, server_error, json_error, bad_message, Recv, pure, raise, ◌>>=◌,
  receive, receive_json, prop,
}
use decomp_permuter_psyq.Net.Server.Types.{
  Client, Activity, add_permuter, remove_permuter, immediate_disconnect, net_thread_disconnected,
  heartbeat, Output, init_fail, init_success,
}
use decomp_permuter_psyq.Net.Server.Handle.{put_field}

module _ {F : Type 0} where
  -- `overrides.get(key, weight)`
  abbrev pub override : Text → F → List (Text × F) → F
  override key weight [] = weight
  override key weight ((k, v) ∷ rest) = if same_text k key then v else override key weight rest

  abbrev pub merge_randomization_weights : List (Text × F) → List (Text × F) → List (Text × F)
  merge_randomization_weights [] overrides = []
  merge_randomization_weights ((key, weight) ∷ base) overrides =
      (key, override key weight overrides) ∷ merge_randomization_weights base overrides

  -- `{**front, **back}`
  abbrev pub update_fields : Fields F → Fields F → Fields F
  update_fields front end = front
  update_fields front (field key value back) = update_fields (put_field front key value) back

  abbrev pub update : ℤ → ℤ → Fields F → Fields F
  update handle time_us change = field (codes "type") (str (codes "update")) (
      field (codes "permuter") (int handle)
        (field (codes "time_us") (int time_us) (field (codes "update") (object change) end)))

abbrev pub source_message : Option Text → List Text
source_message none = []
source_message (some source) = source ∷ []

-- What the thread takes from elsewhere: the conversions of the libraries, `float(n)`, the weights of
-- default_weights.toml, `exception_to_string`, and `int((now - time_start) * 10**6)`.
pub record NetThread (F : Type 0) : Type 0 where
  pub wire : Wire F
  pub of_int : ℤ → F
  pub base_weights : List (Text × F)
  pub exception_to_string : NetError → Text
  pub elapsed_us : F → F → ℤ

module _ {F : Type 0} (self : NetThread F) where
  -- `zlib.decompress(contents)`, `contents.decode("utf-8")`
  abbrev pub decompressed : Text → Result NetError Text
  decompressed contents = elim (self.wire.decompress contents) [
    | none ↦ raised bad_value
    | some t ↦ ok t
  ]

  abbrev pub decoded : Text → Result NetError Text
  decoded contents = elim (self.wire.decode contents) [ none ↦ raised bad_value | some t ↦ ok t ]

  -- The statements of the `try` block.
  unfoldable pub parse_permuter : Fields F → Text → Text → Result NetError (PermuterData F)
  unfolding permuter_data_from_json
  parse_permuter obj compressed_source compressed_target_o_bin =
      bind (decompressed compressed_source) λ bytes. bind (decoded bytes) λ source.
        bind (decompressed compressed_target_o_bin) λ target_o_bin.
          elim (permuter_data_from_json self.of_int obj source target_o_bin) [
            | raised e ↦ raised (json_error e)
            | ok permuter ↦ ok permuter
          ]

  -- the activity for an `add` message
  abbrev pub added_permuter : ℤ → F → Client → Result NetError (PermuterData F) → Activity F
  added_permuter handle time_start client (raised e) =
      immediate_disconnect handle client
        (codes "Failed to parse permuter: " ++ self.exception_to_string e)
  added_permuter handle time_start client (ok permuter) =
      add_permuter handle time_start client (record permuter {
        randomization_weights =
            merge_randomization_weights self.base_weights permuter.randomization_weights;
      })

  -- A message with a permuter; the result has the next number of a work too.
  unfoldable pub read_command : F → ℕ → ℤ → Text → Fields F → Recv (Activity F × ℕ)
  unfolding json_prop same_text parse_permuter
  read_command time_start next_work_id handle msg_type msg =
      if same_text msg_type (codes "work")
      then (do
        seed ← prop msg (codes "seed") int_kind
        pure (Activity.work handle next_work_id time_start seed, suc next_work_id))
      else if same_text msg_type (codes "add")
      then (do
        client_id ← prop msg (codes "client_id") str_kind
        client_name ← prop msg (codes "client_name") str_kind
        obj ← prop msg (codes "data") dict_kind
        compressed_source ← receive
        compressed_target_o_bin ← receive
        pure (
          added_permuter handle time_start (record { id = client_id; nickname = client_name })
              (parse_permuter obj compressed_source compressed_target_o_bin),
          next_work_id,
        ))
      else if same_text msg_type (codes "remove")
      then pure (remove_permuter handle, next_work_id)
      else raise (bad_message msg_type)

  -- `_read_one`
  unfoldable pub read_one : F → ℕ → Recv (Activity F × ℕ)
  unfolding json_prop same_text read_command
  read_one time_start next_work_id = do
    msg ← receive_json self.wire
    msg_type ← prop msg (codes "type") str_kind
    if same_text msg_type (codes "heartbeat") then pure (heartbeat, next_work_id) else (do
      handle ← prop msg (codes "permuter") int_kind
      read_command time_start next_work_id handle msg_type msg)

  -- the handlers of `read_loop`
  abbrev pub disconnected : NetError → Activity F
  disconnected eof = net_thread_disconnected true none
  disconnected (server_error message) = net_thread_disconnected false (some message)
  disconnected _ = net_thread_disconnected false none

  -- `read_loop`: what it puts into the main queue, where `times` are those of its rounds. Without a time
  -- a round is still to come.
  unfoldable pub read_loop : List F → ℕ → List Text → List (Activity F)
  unfolding read_one
  read_loop [] next_work_id input = []
  read_loop (now ∷ times) next_work_id input = elim (read_one now next_work_id input) [
    | raised e ↦ disconnected e ∷ []
    | ok ((activity, next), rest) ↦ activity ∷ read_loop times next rest
  ]

  -- `_write_one`; `now` is the time at which the item is written.
  unfoldable pub write_one : F → Output F → List Text
  write_one now Output.shutdown = []
  write_one now (init_fail handle error) =
      self.wire.dumps (
        update handle (pos 0) (
          field (codes "type") (str (codes "init_failed"))
            (field (codes "reason") (str error) end)))
      ∷ []
  write_one now (init_success handle time_us base_score base_hash) =
      self.wire.dumps (
        update handle time_us (
          field (codes "type") (str (codes "init_done"))
            (field (codes "hash") (str base_hash) end)))
      ∷ []
  write_one now (Output.disconnect handle) =
      self.wire.dumps (update handle (pos 0) (field (codes "type") (str (codes "disconnect")) end))
      ∷ []
  write_one now Output.need_more_work =
      self.wire.dumps (field (codes "type") (str (codes "need_work")) end) ∷ []
  write_one now (Output.work handle time_start time_us obj compressed_source) =
      self.wire.dumps (
        update handle time_us (
          update_fields
            (field (codes "type") (str (codes "work"))
              (field (codes "overhead_us") (int (self.elapsed_us now time_start -ℤ time_us)) end))
            obj))
      ∷ source_message compressed_source

  -- `write_loop`, while the port is open
  unfoldable pub write_loop : List (F × Output F) → List Text
  unfolding write_one
  write_loop [] = []
  write_loop ((now, Output.shutdown) ∷ items) = []
  write_loop ((now, item) ∷ items) = write_one now item ++ write_loop items
