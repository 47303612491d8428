-- ===== src/Net/Posts.antt =====
-- net/core.py: postconditions of a reader, by its steps. One that raises an error meets each of them.
use decomp_permuter_psyq.Prelude.{
  ℕ, suc, ◌≤◌, Option, none, some, List, [], ◌∷◌, Result, ok, raised, arith, length,
}
use decomp_permuter_psyq.Text.{Text}
use decomp_permuter_psyq.Net.Json.{
  Json, Fields, null, bool, int, float, str, array, object, JsonError,
}
use decomp_permuter_psyq.Net.Wire.{NetError, Recv, ◌>>=◌, lift_json, receive, message_fields}

module _ {B : Type 0} (P : B → List Text → Type 0) where
  abbrev pub Post : Result NetError (B × List Text) → Type 0
  Post (raised e) = Unit
  Post (ok (out, rest)) = P out rest

  pub lift_json-Post :
      {A : Type 0} (r : Result JsonError A) (f : A → Recv B) (input : List Text)
      → ((a : A) → Post (f a input))
      → Post ((lift_json r >>= f) input)
  lift_json-Post (ok a) f input each = each a
  lift_json-Post (raised e) f input each = tt

  pub receive-Post :
      (limit : ℕ) (f : Text → Recv B) (input : List Text)
      → length input ≤ suc limit
      → ((message : Text) (rest : List Text) → length rest ≤ limit → Post (f message rest))
      → Post ((receive >>= f) input)
  receive-Post limit f [] h each = tt
  receive-Post limit f (message ∷ rest) h each = each message rest (omega (arith, h))

  pub message_fields-Post :
      {F : Type 0} (value : Option (Json F)) (f : Fields F → Recv B) (input : List Text)
      → ((d : Fields F) → Post (f d input))
      → Post ((message_fields value >>= f) input)
  message_fields-Post none f input each = tt
  message_fields-Post (some (object d)) f input each = each d
  message_fields-Post (some null) f input each = tt
  message_fields-Post (some (bool b)) f input each = tt
  message_fields-Post (some (int n)) f input each = tt
  message_fields-Post (some (float x)) f input each = tt
  message_fields-Post (some (str s)) f input each = tt
  message_fields-Post (some (array xs)) f input each = tt
