-- ===== src/Net/Client/Given.antt =====
-- net/client.py: what one message of the server gives.
use decomp_permuter_psyq.Prelude.{
  ℕ, suc, ◌≤◌, ◌<◌, ◌≡◌, refl, Bool, true, false, Option, none, some, List, [], ◌∷◌, ◌++◌, Result,
  ok, raised, arith, length, Bool-cases, Ok-cases, inl, inr, All, sum_of, sum_of-append,
}
use decomp_permuter_psyq.Text.{Text}
use decomp_permuter_psyq.Text.{codes}
use decomp_permuter_psyq.Text.Equality.{same_text}
use decomp_permuter_psyq.Net.Json.{Fields, get_field, str_kind, json_prop}
use decomp_permuter_psyq.Net.Wire.{Recv, pure, ◌>>=◌}
use decomp_permuter_psyq.Net.Posts.{Post, lift_json-Post, message_fields-Post}
use decomp_permuter_psyq.Net.Server.Ports.{read_source, is_true}
use decomp_permuter_psyq.Net.Client.{
  Connection, Feedback, finished, need_more_work, ParseError, result_item, result_from_json,
  receive_update, read_text, receive_one,
}

module _ {F : Type 0} where
  abbrev pub turn : Feedback F → ℕ
  turn (need_more_work, nick) = 1
  turn _ = 0

  -- how often the connection has asked for work
  abbrev pub turns : List (Feedback F) → ℕ
  turns items = sum_of turn items

  abbrev pub is_finished : Feedback F → Bool
  is_finished (finished reason, nick) = true
  is_finished _ = false

  -- what one message gives: no end, and no request for work
  abbrev pub Plain : Feedback F → Type 0
  Plain item = (turn item ≡ 0) × (is_finished item ≡ false)

  -- a message that was read gives such items, and leaves at most `limit` messages
  abbrev pub Given : ℕ → Bool × List (Feedback F) → List Text → Type 0
  Given limit (wanted, items) rest = All Plain items × (length rest ≤ limit)

  pub turns-Plain : (items : List (Feedback F)) → All Plain items → turns items ≡ 0
  turns-Plain [] all = refl
  turns-Plain (item ∷ items) ((e, stays), all) = omega (arith, e, turns-Plain items all)

  pub turns-need :
      (items more : List (Feedback F))
      → All Plain items
      → turns ((items ++ (need_more_work, none) ∷ []) ++ more) ≡ suc (turns more)
  turns-need items more all =
      let front = sum_of-append turn items ((need_more_work, none) ∷ []) in
      let whole = sum_of-append turn (items ++ (need_more_work, none) ∷ []) more in
      omega (arith, turns-Plain items all, front, whole)

module _ {F : Type 0} (self : Connection F) where
  result_item-Plain :
      (msg : Fields F) (r : Result ParseError (Option Text)) (nick : Option Text)
      → Plain (result_item self msg r, nick)
  result_item-Plain msg (raised e) nick = (refl, refl)
  result_item-Plain msg (ok source) nick =
      elim (Ok-cases (result_from_json self.of_int msg source)) [
        | inl (result, r) ↦ rw (r, result_item) (refl, refl)
        | inr (e, r) ↦ rw (r, result_item) (refl, refl)
      ]

  read_source-Post :
      (limit : ℕ) (has_source : Bool) (f : Option Text → Recv (Bool × List (Feedback F)))
      (input : List Text)
      → length input ≤ limit
      → ((source : Option Text) (rest : List Text)
          → length rest ≤ limit
          → Post (Given limit) (f source rest))
      → Post (Given limit) ((read_source self.wire has_source >>= f) input)
  unfolding read_source
  read_source-Post limit false f input h each = each none input h
  read_source-Post limit true f [] h each = tt
  read_source-Post limit true f (source ∷ rest) h each = each (some source) rest (omega (arith, h))

  receive_update-Given :
      (limit : ℕ) (msg : Fields F) (msg_type nick : Text) (input : List Text)
      → length input ≤ limit
      → Post (Given limit) (receive_update self msg msg_type nick input)
  unfolding receive_update
  receive_update-Given limit msg msg_type nick input h =
      elim (Bool-cases (same_text msg_type (codes "init_done"))) [
        | inl e ↦ rw e (
            lift_json-Post (Given limit) (json_prop msg (codes "hash") str_kind none) _ input
              λ base_hash. (((refl, refl), tt), h))
        | inr e ↦ elim (Bool-cases (same_text msg_type (codes "init_failed"))) [
          | inl e' ↦
              rw (e, e')
                (lift_json-Post (Given limit) (json_prop msg (codes "reason") str_kind none) _ input
                  λ reason. (((refl, refl), tt), h))
          | inr e' ↦ elim (Bool-cases (same_text msg_type (codes "disconnect"))) [
            | inl e'' ↦ rw (e, e', e'') (((refl, refl), tt), h)
            | inr e'' ↦ elim (Bool-cases (same_text msg_type (codes "result"))) [
              | inl e3 ↦
                  rw (e, e', e'', e3)
                    (read_source-Post limit (is_true self.wire (get_field msg (codes "has_source")))
                      (λ source.
                        pure (true, (result_item self msg (read_text self source), some nick) ∷ []))
                      input h
                      λ source rest left.
                        ((result_item-Plain msg (read_text self source) (some nick), tt), left))
              | inr e3 ↦ rw (e, e', e'', e3) tt
            ]
          ]
        ]
      ]

  pub receive_one-Given :
      (limit : ℕ) (input : List Text)
      → length input ≤ suc limit
      → Post (Given limit) (receive_one self input)
  unfolding receive_one
  receive_one-Given limit [] h = tt
  receive_one-Given limit (contents ∷ input) h =
      message_fields-Post (Given limit) (self.wire.loads contents) _ input λ msg.
        lift_json-Post (Given limit) (json_prop msg (codes "type") str_kind none) _ input
          λ msg_type.
            let left : length input ≤ limit = omega (arith, h) in
            elim (Bool-cases (same_text msg_type (codes "need_work"))) [
              | inl e ↦ rw e (tt, left)
              | inr e ↦ rw e (
                  lift_json-Post (Given limit) (json_prop msg (codes "server") str_kind none) _
                    input λ nick. receive_update-Given limit msg msg_type nick input left)
            ]

  pub receive_one-shorter :
      (input : List Text) (out : (Bool × List (Feedback F)) × List Text)
      → receive_one self input ≡ ok out
      → All Plain out.0.1 × (length out.1 < length input)
  unfolding receive_one
  receive_one-shorter [] out r = absurd (cc r)
  receive_one-shorter (contents ∷ input) ((wanted, items), rest) r =
      let (plain, size) =
        rw r at (receive_one-Given (length input) (contents ∷ input) (omega arith)) in
      (plain, omega (arith, size))
