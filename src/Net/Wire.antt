-- ===== src/Net/Wire.antt =====
-- net/core.py: what a port gives to the code above it: messages as bytes, read in order.
use decomp_permuter_psyq.Prelude.{
  ◌≡◌, Bool, Option, none, some, List, [], ◌∷◌, Result, ok, raised, bind,
}
use decomp_permuter_psyq.Text.{Text}
use decomp_permuter_psyq.Net.Json.{
  Json, null, bool, int, float, str, array, object, Fields, JsonError, Kind, json_prop,
}

-- The libraries' conversions, with what is documented of them: `json`, `str.encode` and `zlib`.
-- `Fields` stands for a `dict`, so that no key is in it twice; `is_one` is the test `x == True` for a
-- floating-point number.
pub record Wire (F : Type 0) : Type 0 where
  pub dumps : Fields F → Text
  pub loads : Text → Option (Json F)
  pub loads-dumps : (d : Fields F) → loads (dumps d) ≡ some (object d)
  pub encode : Text → Text
  pub decode : Text → Option Text
  pub decode-encode : (t : Text) → decode (encode t) ≡ some t
  pub compress : Text → Text
  pub decompress : Text → Option Text
  pub is_one : F → Bool
  pub decompress-compress : (t : Text) → decompress (compress t) ≡ some t

-- `eof` is the `EOFError` of a port that is closed, `server_error` that of a message which is a
-- string; `bad_value` the `ValueError` of `receive_json` and of the libraries' conversions.
pub data NetError : Type 0 where
  eof bad_value bad_number : NetError
  server_error : Text → NetError
  json_error : JsonError → NetError
  bad_message : Text → NetError

-- the messages that are still to be read, as bytes
abbrev pub Recv : Type 0 → Type 0
Recv A = List Text → Result NetError (A × List Text)

module _ {A : Type 0} where
  abbrev pub pure : A → Recv A
  pure a input = ok (a, input)

  abbrev pub raise : NetError → Recv A
  raise e input = raised e

  abbrev pub lift_json : Result JsonError A → Recv A
  lift_json (ok a) input = ok (a, input)
  lift_json (raised e) input = raised (json_error e)

  abbrev pub lift_option : NetError → Option A → Recv A
  lift_option e none input = raised e
  lift_option e (some a) input = ok (a, input)

module _ {A B : Type 0} where
  infixl 10 ◌>>=◌ ◌>>◌
  abbrev pub ◌>>=◌ : Recv A → (A → Recv B) → Recv B
  ◌>>=◌ m f input = bind (m input) λ (a, rest). f a rest

  abbrev pub ◌>>◌ : Recv A → Recv B → Recv B
  m >> k = m >>= λ _. k

-- `Port.receive`
abbrev pub receive : Recv Text
receive [] = raised eof
receive (message ∷ input) = ok (message, input)

module _ {F : Type 0} where
  -- the top-level value of a message
  abbrev pub message_fields : Option (Json F) → Recv (Fields F)
  message_fields none = raise bad_value
  message_fields (some (str reason)) = raise (server_error reason)
  message_fields (some (object d)) = pure d
  message_fields (some null) = raise bad_value
  message_fields (some (bool b)) = raise bad_value
  message_fields (some (int n)) = raise bad_value
  message_fields (some (float x)) = raise bad_value
  message_fields (some (array xs)) = raise bad_value

  -- `Port.receive_json`
  abbrev pub receive_json : Wire F → Recv (Fields F)
  receive_json wire = receive >>= λ message. message_fields (wire.loads message)

  abbrev pub prop : {T : Type 0} → Fields F → Text → Kind F T → Recv T
  prop d name t = lift_json (json_prop d name t none)
