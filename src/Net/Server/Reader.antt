-- ===== src/Net/Server/Reader.antt =====
-- net/server.py: what `read_loop` puts into the main queue.
use decomp_permuter_psyq.Prelude.{
  ℕ, suc, ◌≤◌, ◌<◌, ◌≡◌, refl, ap, Bool, true, false, Option, none, some, List, [], ◌∷◌, ◌++◌,
  Result, ok, raised, arith, length, Bool-cases, Ok-cases, inl, inr, All,
}
use decomp_permuter_psyq.Prelude.Int.{ℤ}
use decomp_permuter_psyq.Text.{Text, codes}
use decomp_permuter_psyq.Text.Equality.{same_text}
use decomp_permuter_psyq.Net.Json.{Fields, int_kind, str_kind, dict_kind, json_prop}
use decomp_permuter_psyq.Net.Permuters.{PermuterData}
use decomp_permuter_psyq.Net.Wire.{
  NetError, eof, bad_value, bad_number, json_error, bad_message, server_error,
}
use decomp_permuter_psyq.Net.Posts.{Post, lift_json-Post, receive-Post, message_fields-Post}
use decomp_permuter_psyq.Net.Server.Types.{Client, Activity, net_thread_disconnected}
use decomp_permuter_psyq.Net.Server.Answers.{behind}
use decomp_permuter_psyq.Net.Server.Controller.{
  NetThread, added_permuter, parse_permuter, read_command, read_one, read_loop, disconnected,
}

abbrev Counting : ℕ → List ℕ → Type 0
Counting n [] = Unit
Counting n (k ∷ ks) = (k ≡ n) × Counting (suc n) ks

module _ {F : Type 0} where
  abbrev pub is_disconnection : Activity F → Bool
  is_disconnection (net_thread_disconnected graceful message) = true
  is_disconnection _ = false

  -- the numbers of the requests, in their order
  abbrev pub work_ids : List (Activity F) → List ℕ
  work_ids [] = []
  work_ids (Activity.work handle id time_start seed ∷ msgs) = id ∷ work_ids msgs
  work_ids (_ ∷ msgs) = work_ids msgs

  -- A message that was read leaves at most `limit` of them, is numbered if it is a request, and is no
  -- disconnection.
  abbrev Read : ℕ → ℕ → Activity F × ℕ → List Text → Type 0
  Read next limit (activity, next') rest =
      (next' ≡ behind next activity)
      × Counting next (work_ids (activity ∷ []))
      × (is_disconnection activity ≡ false)
      × (length rest ≤ limit)

module _ {F : Type 0} (self : NetThread F) where
  added_permuter-Read :
      (next limit : ℕ) (time_start : F) (handle : ℤ) (client : Client)
      (r : Result NetError (PermuterData F)) (input : List Text)
      → length input ≤ limit
      → Post (Read next limit) (ok ((added_permuter self handle time_start client r, next), input))
  added_permuter-Read next limit time_start handle client (ok permuter) input h =
      (refl, tt, refl, h)
  added_permuter-Read next limit time_start handle client (raised e) input h = (refl, tt, refl, h)

  read_command-Read :
      (time_start : F) (next limit : ℕ) (handle : ℤ) (msg_type : Text) (msg : Fields F)
      (input : List Text)
      → length input ≤ limit
      → Post (Read next limit) (read_command self time_start next handle msg_type msg input)
  unfolding read_command
  read_command-Read time_start next limit handle msg_type msg input h =
      elim (Bool-cases (same_text msg_type (codes "work"))) [
        | inl e ↦ rw e (
            lift_json-Post (Read next limit) (json_prop msg (codes "seed") int_kind none) _ input
              λ seed. (refl, (refl, tt), refl, h))
        | inr e ↦ elim (Bool-cases (same_text msg_type (codes "add"))) [
          | inl e' ↦
              rw (e, e')
                (lift_json-Post (Read next limit) (json_prop msg (codes "client_id") str_kind none)
                  _ input
                  λ client_id.
                    lift_json-Post (Read next limit)
                      (json_prop msg (codes "client_name") str_kind none) _ input
                      λ client_name.
                        lift_json-Post (Read next limit)
                          (json_prop msg (codes "data") dict_kind none) _ input
                          λ obj.
                            receive-Post (Read next limit) limit _ input (omega (arith, h))
                              λ compressed_source rest h'.
                                receive-Post (Read next limit) limit _ rest (omega (arith, h'))
                                  λ compressed_target_o_bin rest' h''.
                                    added_permuter-Read next limit time_start handle
                                      (record { id = client_id; nickname = client_name })
                                      (parse_permuter self obj compressed_source
                                        compressed_target_o_bin)
                                      rest' h'')
          | inr e' ↦ elim (Bool-cases (same_text msg_type (codes "remove"))) [
            | inl e'' ↦ rw (e, e', e'') (refl, tt, refl, h)
            | inr e'' ↦ rw (e, e', e'') tt
          ]
        ]
      ]

  read_one-Read :
      (time_start : F) (next limit : ℕ) (input : List Text)
      → length input ≤ suc limit
      → Post (Read next limit) (read_one self time_start next input)
  unfolding read_one
  read_one-Read time_start next limit [] h = tt
  read_one-Read time_start next limit (message ∷ input) h =
      message_fields-Post (Read next limit) (self.wire.loads message) _ input λ msg.
        lift_json-Post (Read next limit) (json_prop msg (codes "type") str_kind none) _ input
          λ msg_type. elim (Bool-cases (same_text msg_type (codes "heartbeat"))) [
            | inl e ↦ rw e (refl, tt, refl, omega (arith, h))
            | inr e ↦ rw e (
                lift_json-Post (Read next limit) (json_prop msg (codes "permuter") int_kind none) _
                  input
                  λ handle.
                    read_command-Read time_start next limit handle msg_type msg input
                      (omega (arith, h)))
          ]

  read_one-shorter :
      (time_start : F) (next : ℕ) (input : List Text) (out : (Activity F × ℕ) × List Text)
      → read_one self time_start next input ≡ ok out
      → (is_disconnection out.0.0 ≡ false) × (length out.1 < length input)
  unfolding read_one
  read_one-shorter time_start next [] out r = absurd (cc r)
  read_one-shorter time_start next (message ∷ input) ((activity, next'), rest) r =
      let (same, counted, stays, size) =
        rw r at (read_one-Read time_start next (length input) (message ∷ input) (omega arith)) in
      (stays, omega (arith, size))

  disconnected_message :
      (e : NetError)
      → (graceful : Bool) × (message : Option Text) × (disconnected self e
          ≡ net_thread_disconnected graceful message)
  disconnected_message eof = (true, none, refl)
  disconnected_message (server_error reason) = (false, some reason, refl)
  disconnected_message bad_value = (false, none, refl)
  disconnected_message bad_number = (false, none, refl)
  disconnected_message (json_error e) = (false, none, refl)
  disconnected_message (bad_message text) = (false, none, refl)

-- Whatever the controller sends, the reader reports the end of the connection to the main loop, after all
-- that it has read and only once, when it may go for more rounds than there are messages.
pub read_loop-ends :
    {F : Type 0} (self : NetThread F) (times : List F) (next : ℕ) (input : List Text)
    → length input < length times
    → (front : List (Activity F)) × (graceful : Bool) × (message : Option Text) × (read_loop self
          times next input
        ≡ front ++ net_thread_disconnected graceful message ∷ [])
      × All (λ (activity : Activity F). is_disconnection activity ≡ false) front
unfolding read_loop
read_loop-ends {F} self [] next input h = absurd (omega (arith, h))
read_loop-ends {F} self (time ∷ times) next input h =
    elim (Ok-cases (read_one self time next input)) [
      | inr (e, r) ↦
          let (graceful, message, same) = disconnected_message self e in
          ([], graceful, message, rw (r, read_loop) (ap (λ (a : Activity F). a ∷ []) same), tt)
      | inl (((activity, next'), rest), r) ↦
          let (stays, size) = read_one-shorter self time next input ((activity, next'), rest) r in
          let (front, graceful, message, e, all) =
            read_loop-ends self times next' rest (omega (arith, h, size)) in
          (
            activity ∷ front,
            graceful,
            message,
            rw (r, read_loop) (ap (λ (items : List (Activity F)). activity ∷ items) e),
            (stays, all),
          )
    ]
