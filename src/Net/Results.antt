-- ===== src/Net/Results.antt =====
-- net/evaluator.py, net/server.py and net/client.py: a result on its way to the client.
use decomp_permuter_psyq.Prelude.{
  bind, ℕ, ◌≡◌, refl, Bool, false, true, Option, none, some, List, [], ◌∷◌, ◌++◌, ok, ◌∙◌, sym,
  Bool-cases, inl, inr,
}
use decomp_permuter_psyq.Prelude.Int.{ℤ, pos}
use decomp_permuter_psyq.Text.{Text, codes}
use decomp_permuter_psyq.Text.Equality.{same_text, same_text→eq}
use decomp_permuter_psyq.Permuter.Results.{is_present}
use decomp_permuter_psyq.Net.Json.{
  Json, bool, int, float, str, object, Fields, field, end, str_kind, float_kind, get_field,
}
use decomp_permuter_psyq.Net.Permuters.{weight_fields}
use decomp_permuter_psyq.Net.Evaluator.Ports.{Scored, scored, result_fields}
use decomp_permuter_psyq.Net.Server.Handle.{put_field}
use decomp_permuter_psyq.Net.Server.Controller.{
  NetThread, update, write_one, update_fields, source_message,
}
use decomp_permuter_psyq.Net.Server.Types.{Output}
use decomp_permuter_psyq.Prelude.Int.{◌-ℤ◌}
use decomp_permuter_psyq.Net.Client.{
  Connection, candidate_result, work_done, result_from_json, when_present, json, receive_one,
  receive_update, result_item, is_stat, profiler_from_json,
}
use decomp_permuter_psyq.Net.Server.Ports.{is_true, read_source}
use decomp_permuter_psyq.Net.Relay.{json_prop-present}

-- the times of a `Profiler`
pub record Times (F : Type 0) : Type 0 where
  pub perm : F
  pub stringify : F
  pub compile : F
  pub score : F

module _ {F : Type 0} where
  abbrev pub stats : Times F → List (Text × F)
  stats t =
      (codes "perm", t.perm)
      ∷ (codes "stringify", t.stringify)
      ∷ (codes "compile", t.compile)
      ∷ (codes "score", t.score)
      ∷ []

  abbrev pub stats_of : Option (Times F) → Option (List (Text × F))
  stats_of none = none
  stats_of (some t) = some (stats t)

  abbrev hash_json : Option Text → Option (Json F)
  hash_json none = none
  hash_json (some h) = some (str h)

  abbrev pub profiler_json : Option (List (Text × F)) → Option (Json F)
  profiler_json none = none
  profiler_json (some ts) = some (object (weight_fields ts))

  -- an object in which each name stands once: a member is what is found under its name
  abbrev pub StatOf : Fields F → List (Text × F) → Type 0
  StatOf d [] = Unit {0}
  StatOf d ((key, time) ∷ ts) = (get_field d key ≡ some (float time)) × StatOf d ts

  -- the same times in some order
  abbrev pub Reordered : Option (Times F) → Option (List (Text × F)) → Type 0
  Reordered none none = Unit {0}
  Reordered none (some ts) = ⊥
  Reordered (some t) none = ⊥
  Reordered (some t) (some ts) =
      StatOf (weight_fields ts) ts
      × ((key : Text) → get_field (weight_fields ts) key ≡ get_field (weight_fields (stats t)) key)

  -- the members that the client reads
  abbrev IsResult : Fields F → ℕ → Bool → Option Text → Option (List (Text × F)) → Type 0
  IsResult d score has_source hash times =
      (get_field d (codes "type") ≡ some (str (codes "result")))
      × (get_field d (codes "error") ≡ none)
      × (get_field d (codes "score") ≡ some (int (pos score)))
      × (get_field d (codes "has_source") ≡ some (bool has_source))
      × (get_field d (codes "hash") ≡ hash_json hash)
      × (get_field d (codes "profiler") ≡ profiler_json times)

  -- what the main loop hands to `NetThread` of a result that it has read from the evaluator
  abbrev pub result_obj : ℤ → Scored F → Fields F
  result_obj handle res =
      put_field (field (codes "type") (str (codes "result")) (result_fields (scored res)))
        (codes "permuter") (int handle)

  -- the members of the update that is made of it
  abbrev pub change : ℤ → ℤ → Scored F → Fields F
  change handle overhead_us res =
      update_fields
        (field (codes "type") (str (codes "work"))
          (field (codes "overhead_us") (int overhead_us) end))
        (result_obj handle res)

  change-IsResult :
      (handle overhead_us : ℤ) (score : ℕ) (source hash : Option Text) (times : Option (Times F))
      → IsResult
          (change handle overhead_us (record {
            score = score;
            hash = hash;
            profiler = stats_of times;
            compressed_source = source;
          }))
          score
          (is_present source)
          hash
          (stats_of times)
  unfolding same_text
  change-IsResult handle overhead_us score source none none = (refl, refl, refl, refl, refl, refl)
  change-IsResult handle overhead_us score source none (some t) =
      (refl, refl, refl, refl, refl, refl)
  change-IsResult handle overhead_us score source (some h) none =
      (refl, refl, refl, refl, refl, refl)
  change-IsResult handle overhead_us score source (some h) (some t) =
      (refl, refl, refl, refl, refl, refl)

-- The message of the controller for an update: its members, in some order, but for the overhead, with
-- the times in some order too; and the server's name.
pub record IsUpdate {F : Type 0} (msg d : Fields F) (nick : Text) (times : Option (Times F))
    (relayed : Option (List (Text × F))) : Type 0 where
  pub members :
      (key : Text)
      → same_text key (codes "server") ≡ false
      → same_text key (codes "overhead_us") ≡ false
      → same_text key (codes "profiler") ≡ false
      → get_field msg key ≡ get_field d key
  pub profiler : get_field msg (codes "profiler") ≡ profiler_json relayed
  pub reordered : Reordered times relayed
  pub server : get_field msg (codes "server") ≡ some (str nick)

IsUpdate-IsResult :
    {F : Type 0} (msg d : Fields F) (nick : Text) (score : ℕ) (has_source : Bool)
    (hash : Option Text) (times : Option (Times F)) (relayed : Option (List (Text × F)))
    → IsUpdate msg d nick times relayed
    → IsResult d score has_source hash (stats_of times)
    → IsResult msg score has_source hash relayed
unfolding same_text
IsUpdate-IsResult msg d nick score has_source hash times relayed update (kind, e, n, has, hs, ps) =
    (
      update.members (codes "type") refl refl refl ∙ kind,
      update.members (codes "error") refl refl refl ∙ e,
      update.members (codes "score") refl refl refl ∙ n,
      update.members (codes "has_source") refl refl refl ∙ has,
      update.members (codes "hash") refl refl refl ∙ hs,
      update.profiler,
    )

-- A name under which there is a time is one of the profiler's.
stat_of :
    {F : Type 0} (t : Times F) (key : Text) (time : F)
    → get_field (weight_fields (stats t)) key ≡ some (float time)
    → is_stat key ≡ true
unfolding is_stat same_text
stat_of t key time here = elim (Bool-cases (same_text (codes "perm") key)) [
  | inl e ↦ rw (← same_text→eq (codes "perm") key e)
  | inr e ↦ elim (Bool-cases (same_text (codes "stringify") key)) [
    | inl f ↦ rw (← same_text→eq (codes "stringify") key f)
    | inr f ↦ elim (Bool-cases (same_text (codes "compile") key)) [
      | inl g ↦ rw (← same_text→eq (codes "compile") key g)
      | inr g ↦ elim (Bool-cases (same_text (codes "score") key)) [
        | inl k ↦ rw (← same_text→eq (codes "score") key k)
        | inr k ↦ cc (rw (e, f, g, k) at here)
      ]
    ]
  ]
]

profiler_from_json-StatOf :
    {F : Type 0} (of_int : ℤ → F) (obj : Fields F) (ts : List (Text × F))
    → ((key : Text) (time : F) → get_field obj key ≡ some (float time) → is_stat key ≡ true)
    → StatOf obj ts
    → profiler_from_json of_int obj (weight_fields ts) ≡ ok ts
unfolding profiler_from_json
profiler_from_json-StatOf of_int obj [] stat h = refl
profiler_from_json-StatOf of_int obj ((key, time) ∷ ts) stat (here, h) =
    rw
      (
        stat key time here,
        json_prop-present obj key _ (float_kind of_int) time none here refl,
        json,
        bind,
        profiler_from_json-StatOf of_int obj ts stat h,
      )
      refl

module _ {F : Type 0} (self : Connection F) where
  result_from_json-IsResult :
      (d : Fields F) (score : ℕ) (has_source : Bool) (hash : Option Text) (times : Option (Times F))
      (relayed : Option (List (Text × F))) (source : Option Text)
      → Reordered times relayed
      → IsResult d score has_source hash relayed
      → result_from_json self.of_int d source
        ≡ ok (candidate_result (pos score) hash source relayed)
  unfolding result_from_json
  result_from_json-IsResult d score has_source none none none source same
        (kind, e, n, has, hs, ps) =
      rw (result_from_json, e, ps, when_present, json, bind, n, hs) refl
  result_from_json-IsResult d score has_source (some k) none none source same
        (kind, e, n, has, hs, ps) =
      rw (result_from_json, e, ps, when_present, json, bind, n, hs) refl
  result_from_json-IsResult d score has_source none (some t) (some ts) source (once, same)
        (kind, e, n, has, hs, ps) =
      let read =
        profiler_from_json-StatOf self.of_int (weight_fields ts) ts
          (λ key time here. stat_of t key time (sym (same key) ∙ here)) once in
      rw (result_from_json, e, ps, when_present, json, read, bind, n, hs) refl
  result_from_json-IsResult d score has_source (some k) (some t) (some ts) source (once, same)
        (kind, e, n, has, hs, ps) =
      let read =
        profiler_from_json-StatOf self.of_int (weight_fields ts) ts
          (λ key time here. stat_of t key time (sym (same key) ∙ here)) once in
      rw (result_from_json, e, ps, when_present, json, read, bind, n, hs) refl
  result_from_json-IsResult d score has_source hash none (some ts) source same r = elim same [ ]
  result_from_json-IsResult d score has_source hash (some t) none source same r = elim same [ ]

  abbrev pub compressed : Option Text → Option Text
  compressed none = none
  compressed (some source) = some (self.wire.compress (self.wire.encode source))

  -- what the evaluator has of a result
  abbrev pub evaluated : ℕ → Option Text → Option Text → Option (Times F) → Scored F
  evaluated score hash source times = record {
    score = score;
    hash = hash;
    profiler = stats_of times;
    compressed_source = compressed source;
  }

  receive_one-IsResult :
      (d : Fields F) (score : ℕ) (hash source : Option Text) (times : Option (Times F))
      (relayed : Option (List (Text × F))) (nick : Text) (rest : List Text)
      → Reordered times relayed
      → IsResult d score (is_present (compressed source)) hash relayed
      → get_field d (codes "server") ≡ some (str nick)
      → receive_one self (self.wire.dumps d ∷ source_message (compressed source) ++ rest)
        ≡ ok (
          (true, (work_done (candidate_result (pos score) hash source relayed), some nick) ∷ []),
          rest,
        )
  unfolding receive_one receive_update is_true read_source same_text
  receive_one-IsResult d score hash none times relayed nick rest same result server =
      let kind =
        json_prop-present d (codes "type") _ str_kind (codes "result") none result.0 refl in
      let from = json_prop-present d (codes "server") _ str_kind nick none server refl in
      let parsed = result_from_json-IsResult d score false hash times relayed none same result in
      rw (self.wire.loads-dumps d, kind, from, result.3, result_item, parsed) refl
  receive_one-IsResult d score hash (some source) times relayed nick rest same result server =
      let kind =
        json_prop-present d (codes "type") _ str_kind (codes "result") none result.0 refl in
      let from = json_prop-present d (codes "server") _ str_kind nick none server refl in
      let parsed =
        result_from_json-IsResult d score true hash times relayed (some source) same result in
      rw
        (
          self.wire.loads-dumps d,
          kind,
          from,
          result.3,
          self.wire.decompress-compress (self.wire.encode source),
          self.wire.decode-encode source,
          result_item,
          parsed,
        )
        refl

-- A result of the evaluator comes to the client as it was: the server writes an update and the source
-- behind it, and from the message that the controller makes of the update, without the overhead and with
-- the members and the times in some order, the client reads the same score, hash and source, and the same
-- times in the order of the message.
pub receive_one-write_one :
    {F : Type 0} (self : Connection F) (thread : NetThread F) (now time_start : F)
    (handle time_us : ℤ) (score : ℕ) (hash source : Option Text) (times : Option (Times F))
    (relayed : Option (List (Text × F))) (nick : Text) (msg : Fields F) (rest : List Text)
    → IsUpdate msg
        (change handle
          (thread.elapsed_us now time_start -ℤ time_us)
          (evaluated self score hash source times))
        nick
        times
        relayed
    → let res = evaluated self score hash source times in
      (write_one thread now
          (Output.work handle time_start time_us (result_obj handle res) (compressed self source))
        ≡ thread.wire.dumps (
            update handle time_us (change handle (thread.elapsed_us now time_start -ℤ time_us) res))
          ∷ source_message (compressed self source))
      × (receive_one self (self.wire.dumps msg ∷ source_message (compressed self source) ++ rest)
          ≡ ok (
            (true, (work_done (candidate_result (pos score) hash source relayed), some nick) ∷ []),
            rest,
          ))
unfolding write_one
receive_one-write_one self thread now time_start handle time_us score hash source times relayed nick
      msg rest is_update =
    (
      refl,
      receive_one-IsResult self msg score hash source times relayed nick rest is_update.reordered
          (IsUpdate-IsResult msg _ nick score (is_present (compressed self source)) hash times
            relayed is_update
            (change-IsResult handle (thread.elapsed_us now time_start -ℤ time_us) score
              (compressed self source) hash times))
          is_update.server,
    )
