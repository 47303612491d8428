-- ===== src/Net/Client.antt =====
-- net/client.py: a connection of the client, which sends a permuter and seeds and reads results.
use decomp_permuter_psyq.Prelude.{
  ℕ, zero, suc, length, Bool, true, false, ◌||◌, Option, none, some, List, [], ◌∷◌, ◌++◌, Result,
  ok, raised, bind, if◌then◌else◌, map,
}
use decomp_permuter_psyq.Prelude.Int.{ℤ}
use decomp_permuter_psyq.Text.{Text, codes}
use decomp_permuter_psyq.Text.Equality.{same_text}
use decomp_permuter_psyq.Net.Json.{
  Json, int, str, object, Fields, end, field, get_field, JsonError, int_kind, str_kind, float_kind,
  dict_kind, json_prop,
}
use decomp_permuter_psyq.Net.Permuters.{PermuterData, permuter_data_to_json}
use decomp_permuter_psyq.Net.Wire.{
  Wire, NetError, eof, bad_value, bad_message, Recv, pure, raise, ◌>>=◌, receive, receive_json,
  prop,
}
use decomp_permuter_psyq.Net.Server.Ports.{is_true, read_source}
pub mod Given
pub mod Turns
pub mod Endings

-- A `CandidateResult` or an `EvalError`. A profiler is the list of the stats that were added to it.
pub data EvalResult (F : Type 0) : Type 0 where
  eval_error : Text → EvalResult F
  candidate_result : ℤ → Option Text → Option Text → Option (List (Text × F)) → EvalResult F

pub data FeedbackItem (F : Type 0) : Type 0 where
  finished : Option Text → FeedbackItem F
  message : Text → FeedbackItem F
  need_more_work : FeedbackItem F
  work_done : EvalResult F → FeedbackItem F

-- what is put into the feedback queue, with the name of the server
abbrev pub Feedback : Type 0 → Type 0
Feedback F = FeedbackItem F × Option Text

-- a seed, or the end of the tasks
pub data Task : Type 0 where
  work : ℤ → Task
  finish : Task

-- what the `try` blocks of `_receive_one` catch; `no_stat` is the `KeyError` of `StatType[key]`
pub data ParseError : Type 0 where
  no_source : ParseError
  no_stat : Text → ParseError
  bad_json : JsonError → ParseError

-- `of_int` is `float(n)`, `describe` and `describe_net` are `exception_to_string`.
pub record Connection (F : Type 0) : Type 0 where
  pub wire : Wire F
  pub of_int : ℤ → F
  pub permuter_data : PermuterData F
  pub describe : ParseError → Text
  pub describe_net : NetError → Text

-- the names of `Profiler.StatType`
unfoldable pub is_stat : Text → Bool
unfolding same_text
is_stat key =
    same_text key (codes "perm")
    || same_text key (codes "stringify")
    || same_text key (codes "compile")
    || same_text key (codes "score")

abbrev pub json : {T : Type 0} → Result JsonError T → Result ParseError T
json (ok v) = ok v
json (raised e) = raised (bad_json e)

module _ {F : Type 0} where
  abbrev pub when_present :
      {T : Type 0} → Option (Json F) → Result ParseError T → Result ParseError (Option T)
  when_present none read = ok none
  when_present (some value) read = bind read λ v. ok (some v)

module _ {F : Type 0} (of_int : ℤ → F) where
  -- `_profiler_from_json`, over the members `rest` of `obj`
  unfoldable pub profiler_from_json : Fields F → Fields F → Result ParseError (List (Text × F))
  unfolding json_prop is_stat
  profiler_from_json obj end = ok []
  profiler_from_json obj (field key value rest) =
      bind
        (if is_stat key
          then json (json_prop obj key (float_kind of_int) none)
          else raised (no_stat key))
        λ time. bind (profiler_from_json obj rest) λ stats. ok ((key, time) ∷ stats)

  -- `_result_from_json`
  unfoldable pub result_from_json : Fields F → Option Text → Result ParseError (EvalResult F)
  unfolding json_prop profiler_from_json same_text
  result_from_json obj source = elim (get_field obj (codes "error")) [
    | some value ↦
        bind (json (json_prop obj (codes "error") str_kind none)) λ exc_str. ok (eval_error exc_str)
    | none ↦
        bind
          (when_present (get_field obj (codes "profiler")) (
            bind (json (json_prop obj (codes "profiler") dict_kind none))
              λ stats. profiler_from_json stats stats))
          λ profiler. bind (json (json_prop obj (codes "score") int_kind none)) λ score.
            bind
              (when_present (get_field obj (codes "hash"))
                (json (json_prop obj (codes "hash") str_kind none)))
              λ hash. ok (candidate_result score hash source profiler)
  ]

module _ {F : Type 0} (self : Connection F) where
  -- `_send_permuter`
  unfoldable pub send_permuter : List Text
  send_permuter =
      self.wire.dumps (permuter_data_to_json self.permuter_data)
      ∷ self.wire.compress (self.wire.encode self.permuter_data.source)
      ∷ self.wire.compress self.permuter_data.target_o_bin
      ∷ []

  -- `zlib.decompress(compressed_source).decode("utf-8")`
  abbrev pub read_text : Option Text → Result ParseError (Option Text)
  read_text none = ok none
  read_text (some compressed_source) = elim (self.wire.decompress compressed_source) [
    | none ↦ raised no_source
    | some bytes ↦ elim (self.wire.decode bytes) [
      | none ↦ raised no_source
      | some source ↦ ok (some source)
    ]
  ]

  abbrev pub result_item : Fields F → Result ParseError (Option Text) → FeedbackItem F
  result_item msg (raised e) = message (codes "failed to decompress: " ++ self.describe e)
  result_item msg (ok source) = elim (result_from_json self.of_int msg source) [
    | raised e ↦ message (codes "failed to parse result message: " ++ self.describe e)
    | ok result ↦ work_done result
  ]

  abbrev pub connected : Text → Text
  connected base_hash =
      if same_text base_hash self.permuter_data.base_hash
      then codes "connected"
      else codes "connected (note: mismatching hash)"

  -- A message of the server `nick`.
  unfoldable pub receive_update : Fields F → Text → Text → Recv (Bool × List (Feedback F))
  unfolding json_prop same_text is_true read_source result_from_json
  receive_update msg msg_type nick =
      if same_text msg_type (codes "init_done")
      then (do
        base_hash ← prop msg (codes "hash") str_kind
        pure (true, (message (connected base_hash), some nick) ∷ []))
      else if same_text msg_type (codes "init_failed")
      then (do
        reason ← prop msg (codes "reason") str_kind
        pure (false, (message (codes "failed to initialize: " ++ reason), some nick) ∷ []))
      else if same_text msg_type (codes "disconnect")
      then pure (false, (message (codes "disconnected"), some nick) ∷ [])
      else if same_text msg_type (codes "result")
      then (do
        compressed_source ←
            read_source self.wire (is_true self.wire (get_field msg (codes "has_source")))
        pure (true, (result_item msg (read_text compressed_source), some nick) ∷ []))
      else raise (bad_message msg_type)

  -- `_receive_one`, with the feedback that it gives
  unfoldable pub receive_one : Recv (Bool × List (Feedback F))
  unfolding json_prop same_text receive_update
  receive_one = do
    msg ← receive_json self.wire
    msg_type ← prop msg (codes "type") str_kind
    if same_text msg_type (codes "need_work") then pure (true, []) else (do
      server_nick ← prop msg (codes "server") str_kind
      receive_update msg msg_type server_nick)

-- What a run has given so far: it waits for a task, may go on, or is over.
pub data Status : Type 0 where
  waiting running over : Status

pub record Ran (F : Type 0) : Type 0 where
  pub feedback : List (Feedback F)
  pub sent : List Text
  pub status : Status

module _ {F : Type 0} where
  abbrev pub ran : List (Feedback F) → List Text → Ran F → Ran F
  ran feedback sent r = record {
    feedback = feedback ++ r.feedback;
    sent = sent ++ r.sent;
    status = r.status;
  }

module _ {F : Type 0} (self : Connection F) where
  abbrev pub work_message : ℤ → Text
  work_message seed = self.wire.dumps (
      field (codes "type") (str (codes "work"))
        (field (codes "work") (object (field (codes "seed") (int seed) end)) end))

  -- the handlers of `run` and its `finally`
  abbrev pub finish_reason : NetError → Text
  finish_reason eof = codes "disconnected from permuter@home"
  finish_reason e = codes "permuter@home error: " ++ self.describe_net e

  abbrev pub ended : NetError → Ran F
  ended e = record {
    feedback = (finished (some (finish_reason e)), none) ∷ [];
    sent = [];
    status = over;
  }

  -- The main loop of `run`: the rounds left, whether the tasks have come to their end, the tasks, and the
  -- messages that are still to come.
  unfoldable pub client_loop : ℕ → Bool → List Task → List Text → Ran F
  unfolding receive_one
  client_loop zero no_tasks tasks input = record { feedback = []; sent = []; status = running }
  client_loop (suc n) no_tasks tasks input = elim (receive_one self input) [
    | raised e ↦ ended e
    | ok ((wanted, items), rest) ↦ elim wanted [
      | false ↦ ran items [] (client_loop n no_tasks tasks rest)
      | true ↦ ran (items ++ (need_more_work, none) ∷ []) [] (elim no_tasks [
        | true ↦ client_loop n true tasks rest
        | false ↦ elim tasks [
          | [] ↦ record { feedback = []; sent = []; status = waiting }
          | task ∷ later ↦ elim task [
            | finish ↦ client_loop n true later rest
            | work seed ↦ ran [] (work_message seed ∷ []) (client_loop n false later rest)
          ]
        ]
      ])
    ]
  ]

  -- `run`; the loop has a round for each message, and one that meets the end.
  unfoldable pub run : List Task → List Text → Ran F
  unfolding client_loop send_permuter
  run tasks input = ran [] (send_permuter self) (elim (receive_json self.wire input) [
    | raised e ↦ ended e
    | ok (msg, rest) ↦ client_loop (suc (length rest)) false tasks rest
  ])
