-- ===== src/Net/Server/Handle.antt =====
-- net/server.py: `ServerInner._handle_message`.
use decomp_permuter_psyq.Prelude.{
  Bool, true, false, Option, none, some, List, [], ◌∷◌, ◌++◌, Result, ok, raised, bind,
  if◌then◌else◌,
}
use decomp_permuter_psyq.Prelude.Int.{ℤ, pos, same_int}
use decomp_permuter_psyq.Text.{Text, codes, show_ℤ}
use decomp_permuter_psyq.Text.Equality.{same_text}
use decomp_permuter_psyq.Parse.Integer.{parse_int}
use decomp_permuter_psyq.Permuter.Results.{is_present}
use decomp_permuter_psyq.Net.Json.{
  Json, int, Fields, end, field, get_field, JsonError, int_kind, json_as_type,
}
use decomp_permuter_psyq.Net.Server.Types.{
  Activity, Output, IoMessage, IoGlobalMessage, server_failed, Command, add_permuter,
  remove_permuter, immediate_disconnect, perm_init_fail, perm_init_success, net_thread_disconnected,
  heartbeat, init_fail, init_success, connect,
}

-- The fields that the main loop changes: a set of handles, and a `dict` by the number of the work.
pub record ServerInner (F : Type 0) : Type 0 where
  pub active : List ℤ
  pub time_starts : List (ℤ × F)
  pub last_heartbeat : F

-- what the main loop sends: to the evaluator, to the controller, to the user interface
pub data Effect (F : Type 0) : Type 0 where
  evaluator : Command F → Effect F
  controller : Output F → Effect F
  io : ℤ → IoMessage → Effect F
  io_global : IoGlobalMessage → Effect F

-- The exceptions that end the main loop: `int` of a text that is no number, the `KeyError` of `pop`, a
-- score that is no integer, and the two that it raises itself.
pub data Fault : Type 0 where
  bad_perm_id unknown_work repeated_add not_immediate : Fault
  bad_score : JsonError → Fault

-- `handle in self._active`
abbrev pub is_member : ℤ → List ℤ → Bool
is_member h [] = false
is_member h (x ∷ xs) = if same_int h x then true else is_member h xs

-- `self._active.remove(handle)`
abbrev pub remove_member : ℤ → List ℤ → List ℤ
remove_member h [] = []
remove_member h (x ∷ xs) = let rest = remove_member h xs in if same_int h x then rest else x ∷ rest

module _ {V : Type 0} where
  -- `d[id] = value`
  abbrev pub put_id : List (ℤ × V) → ℤ → V → List (ℤ × V)
  put_id [] id value = (id, value) ∷ []
  put_id ((k, v) ∷ d) id value =
      if same_int id k then (k, value) ∷ d else (k, v) ∷ put_id d id value

  -- `d.pop(id)`: the value and what is left
  abbrev pub pop_id : List (ℤ × V) → ℤ → Option (V × List (ℤ × V))
  pop_id [] id = none
  pop_id ((k, v) ∷ d) id =
      if same_int id k
      then some (v, d)
      else elim (pop_id d id) [ none ↦ none | some (w, rest) ↦ some (w, (k, v) ∷ rest) ]

abbrev pub Handled : Type 0 → Type 0
Handled F = Result Fault (ServerInner F × List (Effect F))

module _ {F : Type 0} where
  -- `obj[name] = value`
  abbrev pub put_field : Fields F → Text → Json F → Fields F
  put_field end name value = field name value end
  put_field (field key old rest) name value =
      if same_text key name then field key value rest else field key old (put_field rest name value)

  -- `_need_work` and nothing else
  abbrev pub need_work : ServerInner F → Handled F
  need_work self = ok (self, controller Output.need_more_work ∷ [])

  -- a message of the evaluator about a permuter that is not active, or one that goes on
  abbrev pub if_active : ServerInner F → ℤ → Handled F → Handled F
  if_active self handle next = if is_member handle self.active then next else need_work self

  -- `_remove`, with what is sent behind it
  abbrev pub remove_handle : ServerInner F → ℤ → List (Effect F) → ServerInner F × List (Effect F)
  remove_handle self handle effects = (
    record self { active = remove_member handle self.active },
    evaluator (Command.remove (show_ℤ handle)) ∷ effects,
  )

  -- `json_prop(obj, "score", int) if "score" in obj else None`
  unfoldable pub score_of : Fields F → Result JsonError (Option ℤ)
  unfolding json_as_type
  score_of obj = elim (get_field obj (codes "score")) [
    | none ↦ ok none
    | some value ↦ bind (json_as_type (codes "Member score") value int_kind) λ n. ok (some n)
  ]

  unfoldable pub handle_work_done : ServerInner F → ℤ → F → Fields F → ℤ → Option Text → Handled F
  unfolding score_of
  handle_work_done self handle time_start obj time_us compressed_source =
      if_active self handle (elim (score_of (put_field obj (codes "permuter") (int handle))) [
        | raised e ↦ raised (bad_score e)
        | ok score ↦ ok (
          self,
          io handle (IoMessage.work_done score (is_present compressed_source))
              ∷ controller (
                  Output.work handle time_start time_us
                    (put_field obj (codes "permuter") (int handle)) compressed_source)
              ∷ [],
        )
      ])

  -- `_handle_message`; `now` is `time.time()`.
  unfoldable pub handle_message : F → ServerInner F → Activity F → Handled F
  unfolding handle_work_done parse_int show_ℤ
  handle_message now self Activity.shutdown = ok (self, [])
  handle_message now self heartbeat = ok (record self { last_heartbeat = now }, [])
  handle_message now self (Activity.work handle id time_start seed) = if_active self handle (
      ok (
        record self { time_starts = put_id self.time_starts (pos id) time_start },
        evaluator (Command.work (show_ℤ handle) id seed) ∷ [],
      ))
  handle_message now self (add_permuter handle time_start client perm) =
      if is_member handle self.active
      then raised repeated_add
      else ok (
        record self { active = handle ∷ self.active },
        evaluator (Command.add (show_ℤ handle) perm) ∷ io handle (connect perm.fn_name client) ∷ [],
      )
  handle_message now self (remove_permuter handle) =
      if is_member handle self.active
      then ok
          (remove_handle self handle (io handle (IoMessage.disconnect (codes "disconnected")) ∷ []))
      else ok (self, [])
  handle_message now self (Activity.disconnect handle) =
      if is_member handle self.active
      then ok (
          remove_handle self handle (
            io handle (IoMessage.disconnect (codes "kicked"))
            ∷ controller (Output.disconnect handle)
            ∷ []))
      else ok (self, [])
  handle_message now self (immediate_disconnect handle client reason) =
      if is_member handle self.active
      then raised not_immediate
      else ok (
        self,
        io handle (IoMessage.immediate_disconnect reason client)
            ∷ controller (init_fail handle reason)
            ∷ [],
      )
  handle_message now self (perm_init_fail perm_id error) = elim (parse_int perm_id) [
    | none ↦ raised bad_perm_id
    | some handle ↦ if_active self handle (
        ok (
          record self { active = remove_member handle self.active },
          io handle (IoMessage.disconnect (codes "failed to compile"))
              ∷ controller (init_fail handle error)
              ∷ [],
        ))
  ]
  handle_message now self (perm_init_success perm_id base_score base_hash time_us) =
      elim (parse_int perm_id) [
        | none ↦ raised bad_perm_id
        | some handle ↦
            if_active self handle
              (ok (self, controller (init_success handle time_us base_score base_hash) ∷ []))
      ]
  handle_message now self (Activity.work_done perm_id id obj time_us compressed_source) =
      elim (parse_int perm_id) [
        | none ↦ raised bad_perm_id
        | some handle ↦ elim (pop_id self.time_starts id) [
          | none ↦ raised unknown_work
          | some (time_start, rest) ↦
              handle_work_done (record self { time_starts = rest }) handle time_start obj time_us
                compressed_source
        ]
      ]
  handle_message now self Activity.need_more_work = need_work self
  handle_message now self (net_thread_disconnected graceful message) =
      ok (self, io_global (server_failed graceful message) ∷ [])

  abbrev pub is_shutdown : Activity F → Bool
  is_shutdown Activity.shutdown = true
  is_shutdown _ = false

  -- The main loop: the messages with the times at which they are handled; a `Shutdown` ends it.
  unfoldable pub main_loop : ServerInner F → List (F × Activity F) → Handled F
  unfolding handle_message
  main_loop self [] = ok (self, [])
  main_loop self ((now, msg) ∷ msgs) =
      let next : Handled F = bind (handle_message now self msg) λ (self', effects).
        bind (main_loop self' msgs) λ (last, more). ok (last, effects ++ more) in
      if is_shutdown msg then ok (self, []) else next
