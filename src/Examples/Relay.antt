-- ===== src/Examples/Relay.antt =====
-- net/client.py: a client, and what comes to it and from it.
use decomp_permuter_psyq.Prelude.{
  ℕ, ◌≡◌, refl, ◌∙◌, true, false, Bool-cases, inl, inr, some, List, [], ◌∷◌, ◌++◌, ok, arith, map,
}
use decomp_permuter_psyq.Prelude.Int.{pos}
use decomp_permuter_psyq.Text.{Text, codes}
use decomp_permuter_psyq.Text.Equality.{same_text, same_text→eq}
use decomp_permuter_psyq.Net.Json.{bool, int, float, str, object, Fields, end, field, get_field}
use decomp_permuter_psyq.Net.Permuters.{permuter_data_to_json, weight_fields}
use decomp_permuter_psyq.Net.Evaluator.Ports.{Scored}
use decomp_permuter_psyq.Net.Server.Types.{add_permuter}
use decomp_permuter_psyq.Prelude.Int.{◌-ℤ◌}
use decomp_permuter_psyq.Net.Server.Controller.{read_one, merge_randomization_weights}
use decomp_permuter_psyq.Net.Client
use decomp_permuter_psyq.Net.Client.{Connection, send_permuter, work_message}
use decomp_permuter_psyq.Net.Client.Given.{turns}
use decomp_permuter_psyq.Net.Client.Turns.{seeds_of, run-seeds}
use decomp_permuter_psyq.Net.Client.Endings.{Ends, run-Ends}
use decomp_permuter_psyq.Prelude.{drop}
use decomp_permuter_psyq.Net.Port.{Bytes, Box, new_port, zeros, send_all, receive_all}
use decomp_permuter_psyq.Net.Port.Frames.{after_sending, after_receiving, receive_all-send_all}
use decomp_permuter_psyq.Prelude.Int.{◌-ℤ◌}
use decomp_permuter_psyq.Text.Equality.{same_text_iff}
use decomp_permuter_psyq.Net.Server.Types.{Output}
use decomp_permuter_psyq.Net.Server.Controller.{update, write_one}
use decomp_permuter_psyq.Net.Client.{FeedbackItem, candidate_result, receive_one}
use decomp_permuter_psyq.Net.Results.{
  Times, stats, change, result_obj, evaluated, IsUpdate, receive_one-write_one,
}
use decomp_permuter_psyq.Net.Relay.{IsAdd, read_one-send_permuter}
use decomp_permuter_psyq.Examples.Codec.{plain_wire}
use decomp_permuter_psyq.Examples.Network.{of_int, perm, client, thread}

-- The client: two tasks, and a result of the first one.
abbrev connection : Connection ℕ
connection = record {
  wire = plain_wire;
  of_int = of_int;
  permuter_data = perm;
  describe = λ e. codes "error";
  describe_net = λ e. codes "error";
}

abbrev seeds : List Client.Task
seeds = Client.Task.work (pos 5) ∷ Client.Task.work (pos 6) ∷ Client.Task.finish ∷ []

abbrev from_server : List Text
from_server =
    plain_wire.dumps (field (codes "success") (int (pos 1)) end)
    ∷ plain_wire.dumps (
        field (codes "type") (str (codes "init_done"))
          (field (codes "server") (str (codes "s")) (field (codes "hash") (str (codes "ab")) end)))
    ∷ plain_wire.dumps (
        field (codes "type") (str (codes "result"))
          (field (codes "server") (str (codes "s")) (field (codes "score") (int (pos 90)) end)))
    ∷ plain_wire.dumps (field (codes "type") (str (codes "need_work")) end)
    ∷ []

run-seeds_example :
    let r = Client.run connection seeds from_server in
    r.sent
    ≡ send_permuter connection ++ map (work_message connection) (seeds_of (turns r.feedback) seeds)
run-seeds_example = run-seeds connection seeds from_server

run-Ends_example : Ends connection (Client.run connection seeds from_server)
run-Ends_example = run-Ends connection seeds from_server

-- The controller writes `fn_name` first, and the other members in an order of its own.
abbrev relayed_data : Fields ℕ
relayed_data = field (codes "fn_name") (str (codes "func")) (
    field (codes "randomization_weights") (object (weight_fields perm.randomization_weights)) (
      field (codes "stack_differences") (bool true) (
        field (codes "need_profiler") (bool false) (
          field (codes "keep_prob") (float 6) (
            field (codes "filename") (str (codes "base.c")) (
              field (codes "compile_script") (str (codes "cc")) (
                field (codes "base_hash") (str (codes "ab"))
                  (field (codes "base_score") (int (pos 120)) end))))))))

abbrev relayed_add : Fields ℕ
relayed_add = field (codes "permuter") (int (pos 7)) (
    field (codes "type") (str (codes "add")) (
      field (codes "client_id") (str client.id) (
        field (codes "client_name") (str client.nickname)
          (field (codes "data") (object relayed_data) end))))

-- `same_text`, whichever way round
turned : (s t : Text) → same_text s t ≡ same_text t s
turned s t = ground (arith, same_text_iff s t, same_text_iff t s)

relayed_members :
    (key : Text)
    → same_text key (codes "randomization_weights") ≡ false
    → get_field relayed_data key ≡ get_field (permuter_data_to_json perm) key
unfolding same_text
relayed_members key other = elim (Bool-cases (same_text (codes "base_score") key)) [
  | inl e0 ↦ rw (← same_text→eq (codes "base_score") key e0)
  | inr e0 ↦ elim (Bool-cases (same_text (codes "base_hash") key)) [
    | inl e1 ↦ rw (← same_text→eq (codes "base_hash") key e1)
    | inr e1 ↦ elim (Bool-cases (same_text (codes "fn_name") key)) [
      | inl e2 ↦ rw (← same_text→eq (codes "fn_name") key e2)
      | inr e2 ↦ elim (Bool-cases (same_text (codes "filename") key)) [
        | inl e3 ↦ rw (← same_text→eq (codes "filename") key e3)
        | inr e3 ↦ elim (Bool-cases (same_text (codes "keep_prob") key)) [
          | inl e4 ↦ rw (← same_text→eq (codes "keep_prob") key e4)
          | inr e4 ↦ elim (Bool-cases (same_text (codes "need_profiler") key)) [
            | inl e5 ↦ rw (← same_text→eq (codes "need_profiler") key e5)
            | inr e5 ↦ elim (Bool-cases (same_text (codes "stack_differences") key)) [
              | inl e6 ↦ rw (← same_text→eq (codes "stack_differences") key e6)
              | inr e6 ↦ elim (Bool-cases (same_text (codes "compile_script") key)) [
                | inl e7 ↦ rw (← same_text→eq (codes "compile_script") key e7)
                | inr e7 ↦ rw (
                  e0,
                  e1,
                  e2,
                  e3,
                  e4,
                  e5,
                  e6,
                  e7,
                  turned (codes "randomization_weights") key ∙ other,
                )
              ]
            ]
          ]
        ]
      ]
    ]
  ]
]

relayed_add-IsAdd : IsAdd relayed_add relayed_data (pos 7) client perm perm.randomization_weights
unfolding same_text
relayed_add-IsAdd = record {
  type_member = refl;
  permuter_member = refl;
  id_member = refl;
  name_member = refl;
  data_member = refl;
  members = relayed_members;
  weights_member = refl;
  same_weights = λ key. refl;
}

perm_sent :
    send_permuter connection
    ≡ plain_wire.dumps (permuter_data_to_json perm) ∷ perm.source ∷ perm.target_o_bin ∷ []
unfolding send_permuter
perm_sent = refl

read_one-send_permuter_example :
    read_one thread 1 0 (plain_wire.dumps relayed_add ∷ perm.source ∷ perm.target_o_bin ∷ [])
    ≡ ok (
      (
        add_permuter (pos 7) 1 client (record perm {
          randomization_weights =
              merge_randomization_weights thread.base_weights perm.randomization_weights;
        }),
        0,
      ),
      [],
    )
read_one-send_permuter_example =
    read_one-send_permuter connection thread 1 0 (pos 7) client relayed_add relayed_data
      perm.randomization_weights (plain_wire.dumps (permuter_data_to_json perm))
      (perm.source ∷ perm.target_o_bin ∷ []) [] refl relayed_add-IsAdd perm_sent

-- a box in the place of the library's, which only puts 16 bytes in front
abbrev plain_box : Box
plain_box = record {
  encrypt = λ msg nonce. zeros 16 ++ msg;
  decrypt = λ contents nonce. some (drop 16 contents);
  length-encrypt = λ msg nonce. omega arith;
  decrypt-encrypt = λ msg nonce. refl;
}

abbrev messages : List Text
messages = codes "one" ∷ [] ∷ codes "three" ∷ []

receive_all-send_all_example :
    (bytes : Bytes) × (send_all plain_box (new_port true) messages
      ≡ ok (after_sending plain_box 3 (new_port true), bytes))
    × (receive_all plain_box 3 (new_port false) (bytes ++ 9 ∷ [])
        ≡ ok ((after_receiving plain_box 3 (new_port false), messages), 9 ∷ []))
    × ((after_receiving plain_box 3 (new_port false)).receive_nonce
        ≡ (after_sending plain_box 3 (new_port true)).send_nonce)
receive_all-send_all_example =
    receive_all-send_all plain_box (new_port true) (new_port false) messages (9 ∷ []) refl
      (omega arith) (omega arith, (omega arith, (omega arith, tt)))

abbrev some_times : Times ℕ
some_times = record { perm = 1; stringify = 2; compile = 30; score = 4 }

-- a result with a hash, times and a source
abbrev found : Scored ℕ
found = evaluated connection 90 (some (codes "cd")) (some (codes "int g;")) (some some_times)

abbrev found_change : Fields ℕ
found_change = change (pos 7) (thread.elapsed_us 9 2 -ℤ pos 3) found

-- The controller leaves the overhead out, and sorts the times.
abbrev sorted_times : List (Text × ℕ)
sorted_times =
    (codes "compile", 30) ∷ (codes "perm", 1) ∷ (codes "score", 4) ∷ (codes "stringify", 2) ∷ []

abbrev relayed : Fields ℕ
relayed = field (codes "server") (str (codes "s")) (
    field (codes "type") (str (codes "result")) (
      field (codes "has_source") (bool true) (
        field (codes "permuter") (int (pos 7)) (
          field (codes "score") (int (pos 90)) (
            field (codes "profiler") (object (weight_fields sorted_times))
              (field (codes "hash") (str (codes "cd")) end))))))

relayed_update :
    (key : Text)
    → same_text key (codes "server") ≡ false
    → same_text key (codes "overhead_us") ≡ false
    → same_text key (codes "profiler") ≡ false
    → get_field relayed key ≡ get_field found_change key
unfolding same_text
relayed_update key no_server no_overhead no_profiler =
    elim (Bool-cases (same_text (codes "type") key)) [
      | inl e0 ↦ rw (← same_text→eq (codes "type") key e0)
      | inr e0 ↦ elim (Bool-cases (same_text (codes "score") key)) [
        | inl e1 ↦ rw (← same_text→eq (codes "score") key e1)
        | inr e1 ↦ elim (Bool-cases (same_text (codes "has_source") key)) [
          | inl e2 ↦ rw (← same_text→eq (codes "has_source") key e2)
          | inr e2 ↦ elim (Bool-cases (same_text (codes "hash") key)) [
            | inl e3 ↦ rw (← same_text→eq (codes "hash") key e3)
            | inr e3 ↦ elim (Bool-cases (same_text (codes "permuter") key)) [
              | inl e4 ↦ rw (← same_text→eq (codes "permuter") key e4)
              | inr e4 ↦ rw (
                e0,
                e1,
                e2,
                e3,
                e4,
                turned (codes "server") key ∙ no_server,
                turned (codes "overhead_us") key ∙ no_overhead,
                turned (codes "profiler") key ∙ no_profiler,
              )
            ]
          ]
        ]
      ]
    ]

sorted_same :
    (key : Text)
    → get_field (weight_fields sorted_times) key ≡ get_field (weight_fields (stats some_times)) key
unfolding same_text
sorted_same key = elim (Bool-cases (same_text (codes "perm") key)) [
  | inl e0 ↦ rw (← same_text→eq (codes "perm") key e0)
  | inr e0 ↦ elim (Bool-cases (same_text (codes "stringify") key)) [
    | inl e1 ↦ rw (← same_text→eq (codes "stringify") key e1)
    | inr e1 ↦ elim (Bool-cases (same_text (codes "compile") key)) [
      | inl e2 ↦ rw (← same_text→eq (codes "compile") key e2)
      | inr e2 ↦ elim (Bool-cases (same_text (codes "score") key)) [
        | inl e3 ↦ rw (← same_text→eq (codes "score") key e3)
        | inr e3 ↦ rw (e0, e1, e2, e3)
      ]
    ]
  ]
]

relayed-IsUpdate : IsUpdate relayed found_change (codes "s") (some some_times) (some sorted_times)
unfolding same_text
relayed-IsUpdate = record {
  members = relayed_update;
  profiler = refl;
  reordered = ((refl, (refl, (refl, (refl, tt)))), sorted_same);
  server = refl;
}

receive_one-write_one_example :
    (write_one thread 9
        (Output.work (pos 7) 2 (pos 3) (result_obj (pos 7) found) (some (codes "int g;")))
      ≡ plain_wire.dumps (update (pos 7) (pos 3) found_change) ∷ codes "int g;" ∷ [])
    × (receive_one connection (plain_wire.dumps relayed ∷ codes "int g;" ∷ (8 ∷ []) ∷ [])
        ≡ ok (
          (
            true,
            (
              FeedbackItem.work_done (
                  candidate_result
                    (pos 90)
                    (some (codes "cd"))
                    (some (codes "int g;"))
                    (some sorted_times)),
              some (codes "s"),
            )
                ∷ [],
          ),
          (8 ∷ []) ∷ [],
        ))
receive_one-write_one_example =
    receive_one-write_one connection thread 9 2 (pos 7) (pos 3) 90 (some (codes "cd"))
      (some (codes "int g;")) (some some_times) (some sorted_times) (codes "s") relayed
      ((8 ∷ []) ∷ []) relayed-IsUpdate
