-- ===== src/Net/Relay.antt =====
-- net/client.py and net/server.py: a permuter on its way from the client to the server.
use decomp_permuter_psyq.Prelude.{
  bind, ℕ, ◌≡◌, refl, false, Bool-cases, inl, inr, Option, none, some, List, [], ◌∷◌, ◌++◌, ok,
  drop, ap,
}
use decomp_permuter_psyq.Prelude.Int.{ℤ}
use decomp_permuter_psyq.Text.{Text, codes}
use decomp_permuter_psyq.Text.Equality.{same_text}
use decomp_permuter_psyq.Net.Json.{
  Json, int, float, str, object, Fields, Kind, json_as_type, str_kind, int_kind, dict_kind,
  float_kind, bool_kind, end, get_field, json_prop,
}
use decomp_permuter_psyq.Net.Permuters.{
  PermuterData, permuter_data_to_json, weight_fields, permuter_data_from_json,
  json_dict-weight_fields,
}
use decomp_permuter_psyq.Net.Server.Types.{Client, add_permuter}
use decomp_permuter_psyq.Net.Server.Controller.{
  NetThread, override, merge_randomization_weights, read_one, read_command, parse_permuter,
  decompressed, decoded,
}
use decomp_permuter_psyq.Net.Client.{Connection, send_permuter}

-- The message of the controller that adds a permuter, and the object `data` in it. The members of `data`
-- are those of the client's object in some order, and so are those of its weights.
pub record IsAdd {F : Type 0} (msg data' : Fields F) (handle : ℤ) (client : Client)
    (perm : PermuterData F) (weights : List (Text × F)) : Type 0 where
  pub type_member : get_field msg (codes "type") ≡ some (str (codes "add"))
  pub permuter_member : get_field msg (codes "permuter") ≡ some (int handle)
  pub id_member : get_field msg (codes "client_id") ≡ some (str client.id)
  pub name_member : get_field msg (codes "client_name") ≡ some (str client.nickname)
  pub data_member : get_field msg (codes "data") ≡ some (object data')
  pub members :
      (key : Text)
      → same_text key (codes "randomization_weights") ≡ false
      → get_field data' key ≡ get_field (permuter_data_to_json perm) key
  pub weights_member :
      get_field data' (codes "randomization_weights") ≡ some (object (weight_fields weights))
  pub same_weights :
      (key : Text)
      → get_field (weight_fields weights) key
        ≡ get_field (weight_fields perm.randomization_weights) key

pub json_prop-present :
    {F T : Type 0} (msg : Fields F) (name : Text) (value : Json F) (t : Kind F T) (v : T)
    (default : Option T)
    → get_field msg name ≡ some value
    → t.instance_of value ≡ some v
    → json_prop msg name t default ≡ ok v
unfolding json_prop json_as_type
json_prop-present msg name value t v default here kind =
    rw (json_prop, here, json_as_type, kind) refl

-- `overrides.get(key, weight)` by the member that is found
abbrev from_field : {F : Type 0} → F → Option (Json F) → F
from_field weight (some (float v)) = v
from_field weight other = weight

override_lem :
    {F : Type 0} (key : Text) (weight : F) (ws : List (Text × F))
    → override key weight ws ≡ from_field weight (get_field (weight_fields ws) key)
override_lem key weight [] = refl
override_lem key weight ((k, v) ∷ ws) = elim (Bool-cases (same_text k key)) [
  | inl e ↦ rw e
  | inr e ↦ rw e (override_lem key weight ws)
]

-- The order of the overrides does not matter.
merge_same :
    {F : Type 0} (base ws vs : List (Text × F))
    → ((key : Text) → get_field (weight_fields ws) key ≡ get_field (weight_fields vs) key)
    → merge_randomization_weights base ws ≡ merge_randomization_weights base vs
merge_same [] ws vs same = refl
merge_same ((key, weight) ∷ base) ws vs same =
    rw
      (override_lem key weight ws, override_lem key weight vs, same key, merge_same base ws vs same)
      refl

module _ {F : Type 0} (thread : NetThread F) where
  parse_permuter-members :
      (msg data' : Fields F) (handle : ℤ) (client : Client) (perm : PermuterData F)
      (weights : List (Text × F))
      → IsAdd msg data' handle client perm weights
      → parse_permuter thread data'
          (thread.wire.compress (thread.wire.encode perm.source))
          (thread.wire.compress perm.target_o_bin)
        ≡ ok (record perm { randomization_weights = weights })
  unfolding parse_permuter permuter_data_from_json same_text
  parse_permuter-members msg data' handle client perm weights add =
      let base_score =
        json_prop-present data' (codes "base_score") _ int_kind perm.base_score none
          (add.members (codes "base_score") refl) refl in
      let base_hash =
        json_prop-present data' (codes "base_hash") _ str_kind perm.base_hash none
          (add.members (codes "base_hash") refl) refl in
      let fn_name =
        json_prop-present data' (codes "fn_name") _ str_kind perm.fn_name none
          (add.members (codes "fn_name") refl) refl in
      let filename =
        json_prop-present data' (codes "filename") _ str_kind perm.filename none
          (add.members (codes "filename") refl) refl in
      let keep_prob =
        json_prop-present data' (codes "keep_prob") _ (float_kind thread.of_int) perm.keep_prob none
          (add.members (codes "keep_prob") refl) refl in
      let need_profiler =
        json_prop-present data' (codes "need_profiler") _ bool_kind perm.need_profiler none
          (add.members (codes "need_profiler") refl) refl in
      let differences =
        json_prop-present data' (codes "stack_differences") _ bool_kind perm.stack_differences none
          (add.members (codes "stack_differences") refl) refl in
      let compile_script =
        json_prop-present data' (codes "compile_script") _ str_kind perm.compile_script none
          (add.members (codes "compile_script") refl) refl in
      let some_weights =
        json_prop-present data' (codes "randomization_weights") _ dict_kind (weight_fields weights)
          (some end) add.weights_member refl in
      rw
        (
          decompressed,
          decoded,
          thread.wire.decompress-compress (thread.wire.encode perm.source),
          thread.wire.decode-encode perm.source,
          thread.wire.decompress-compress perm.target_o_bin,
          bind,
          base_score,
          base_hash,
          fn_name,
          filename,
          keep_prob,
          need_profiler,
          differences,
          compile_script,
          some_weights,
          json_dict-weight_fields thread.of_int weights,
        )
        refl

-- The server reads a permuter as the client has it, but for the weights, which are completed by the server's
-- own. The two blobs come behind a message in which the controller keeps the members of the client's object
-- and of its weights, each in some order.
pub read_one-send_permuter :
    {F : Type 0} (self : Connection F) (thread : NetThread F) (now : F) (next : ℕ) (handle : ℤ)
    (client : Client) (msg data' : Fields F) (weights : List (Text × F)) (first : Text)
    (blobs rest : List Text)
    → self.wire ≡ thread.wire
    → IsAdd msg data' handle client self.permuter_data weights
    → send_permuter self ≡ first ∷ blobs
    → read_one thread now next (thread.wire.dumps msg ∷ blobs ++ rest)
      ≡ ok (
        (
          add_permuter handle now client (record self.permuter_data {
            randomization_weights =
                merge_randomization_weights thread.base_weights
                  self.permuter_data.randomization_weights;
          }),
          next,
        ),
        rest,
      )
unfolding read_one read_command same_text send_permuter
read_one-send_permuter self thread now next handle client msg data' weights first blobs rest same
      add sent =
    let type_read =
      json_prop-present msg (codes "type") _ str_kind (codes "add") none add.type_member refl in
    let handle_read =
      json_prop-present msg (codes "permuter") _ int_kind handle none add.permuter_member refl in
    let id_read =
      json_prop-present msg (codes "client_id") _ str_kind client.id none add.id_member refl in
    let name_read =
      json_prop-present msg (codes "client_name") _ str_kind client.nickname none add.name_member
        refl in
    let data_read =
      json_prop-present msg (codes "data") _ dict_kind data' none add.data_member refl in
    rw
      (
        ← ap (drop 1) sent,
        same,
        thread.wire.loads-dumps msg,
        type_read,
        handle_read,
        id_read,
        name_read,
        data_read,
        parse_permuter-members thread msg data' handle client self.permuter_data weights add,
        merge_same thread.base_weights weights self.permuter_data.randomization_weights
            add.same_weights,
      )
      refl
