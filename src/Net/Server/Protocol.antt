-- ===== src/Net/Server/Protocol.antt =====
-- net/server.py: the order in which messages about one permuter may be sent.
use decomp_permuter_psyq.Prelude.{
  Bool, true, false, Option, none, some, List, [], ◌∷◌, if◌then◌else◌,
}
use decomp_permuter_psyq.Prelude.Int.{ℤ, same_int}
use decomp_permuter_psyq.Text.{Text, codes, show_ℤ}
use decomp_permuter_psyq.Text.Equality.{same_text}
use decomp_permuter_psyq.Net.Server.Types.{
  Output, IoMessage, Command, init_fail, init_success, connect,
}
use decomp_permuter_psyq.Net.Server.Handle.{Effect, evaluator, controller, io, io_global}

-- Where a permuter stands: the evaluator does not have it, or is told of it; it is open, or a result has
-- been shown and is due to the controller; the evaluator is told to remove it; or the user interface is
-- told of its end and the controller is still to be.
pub data Stage : Type 0 where
  closed told opened reported removed kicked failed refused : Stage

-- The stage between two messages that are handled.
abbrev pub stage_of : Bool → Stage
stage_of true = opened
stage_of false = closed

-- `none` refuses what is sent at the wrong time.
abbrev pub io_step : Stage → IoMessage → Option Stage
io_step told (connect fn_name client) = some opened
io_step removed (IoMessage.disconnect reason) =
    if same_text reason (codes "kicked") then some kicked else some closed
io_step opened (IoMessage.disconnect reason) = some failed
io_step closed (IoMessage.immediate_disconnect reason client) = some refused
io_step opened (IoMessage.work_done score is_improvement) = some reported
io_step stage message = none

-- what is sent to the evaluator about the permuter
abbrev pub command_step : {F : Type 0} → Stage → Command F → Option Stage
command_step closed (Command.add perm_id perm) = some told
command_step opened (Command.remove perm_id) = some removed
command_step opened (Command.work perm_id id seed) = some opened
command_step stage command = none

-- what is sent to the controller about it
abbrev pub output_step : {F : Type 0} → Stage → Output F → Option Stage
output_step opened (init_success handle time_us base_score base_hash) = some opened
output_step reported (Output.work handle time_start time_us obj source) = some opened
output_step kicked (Output.disconnect handle) = some closed
output_step failed (init_fail handle error) = some closed
output_step refused (init_fail handle error) = some closed
output_step stage output = none

abbrev pub command_about : {F : Type 0} → Command F → Text
command_about (Command.add perm_id perm) = perm_id
command_about (Command.remove perm_id) = perm_id
command_about (Command.work perm_id id seed) = perm_id

abbrev pub output_about : {F : Type 0} → ℤ → Output F → Bool
output_about h (init_fail handle error) = same_int h handle
output_about h (init_success handle time_us base_score base_hash) = same_int h handle
output_about h (Output.disconnect handle) = same_int h handle
output_about h Output.need_more_work = false
output_about h (Output.work handle time_start time_us obj source) = same_int h handle
output_about h Output.shutdown = false

module _ {F : Type 0} (h : ℤ) where
  abbrev pub watch : Stage → Effect F → Option Stage
  watch stage (evaluator command) =
      if same_text (show_ℤ h) (command_about command)
      then command_step stage command
      else some stage
  watch stage (controller output) =
      if output_about h output then output_step stage output else some stage
  watch stage (io handle message) = if same_int h handle then io_step stage message else some stage
  watch stage (io_global message) = some stage

  abbrev pub watch_all : Stage → List (Effect F) → Option Stage
  watch_all stage [] = some stage
  watch_all stage (effect ∷ effects) = elim (watch stage effect) [
    | none ↦ none
    | some stage' ↦ watch_all stage' effects
  ]
