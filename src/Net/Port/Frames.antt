-- ===== src/Net/Port/Frames.antt =====
-- net/core.py: `Port.receive` reads what `Port.send` has written.
use decomp_permuter_psyq.Prelude.{
  ℕ, zero, suc, ◌+◌, ◌*◌, ◌/◌, ◌%◌, ◌^◌, ◌<◌, ◌≡◌, refl, ap, ◌∙◌, true, List, [], ◌∷◌, ◌++◌, ok,
  bind, ltb, length, append_assoc, arith, All,
}
use decomp_permuter_psyq.Net.Port.{
  Bytes, Box, Port, big_endian, value, pack, pack_nonce, zeros, read_fixed, first_byte, send,
  receive, send_all, receive_all,
}

value-append : (n : ℕ) (bytes : Bytes) (b : ℕ) → value n (bytes ++ b ∷ []) ≡ 256 * value n bytes + b
value-append n [] b = refl
value-append n (c ∷ bytes) b = value-append (256 * n + c) bytes b

-- nothing is left of a number behind so many bytes
abbrev Fits : ℕ → ℕ → Type 0
Fits zero n = n ≡ 0
Fits (suc width) n = Fits width (n / 256)

value-big_endian : (width n : ℕ) → Fits width n → value 0 (big_endian width n) ≡ n
value-big_endian zero n h = omega (arith, h)
value-big_endian (suc width) n h =
    let higher = value-big_endian width (n / 256) h in
    let last_byte = value-append 0 (big_endian width (n / 256)) (n % 256) in
    omega (arith, higher, last_byte)

length_value : (n : ℕ) → n < 2 ^ 56 → value 0 (big_endian 8 n) ≡ n
length_value n h = value-big_endian 8 n (omega (arith, h))

first_byte-length : (n : ℕ) → n < 2 ^ 56 → first_byte (big_endian 8 n) ≡ 0
first_byte-length n h = omega (arith, h)

read_fixed-append :
    (bytes rest : Bytes) → read_fixed (length bytes) (bytes ++ rest) ≡ ok (bytes, rest)
unfolding read_fixed
read_fixed-append [] rest = refl
read_fixed-append (b ∷ bytes) rest = rw (read_fixed-append bytes rest) refl

pack-fits : (n : ℕ) → n < 2 ^ 64 → pack n ≡ ok (big_endian 8 n)
unfolding pack
pack-fits n h = let test : ltb n (2 ^ 64) ≡ true = ground (arith, h) in rw test refl

-- the nonce of a message, where its number fits into 8 bytes
abbrev nonce_of : ℕ → Bytes
nonce_of n = zeros 16 ++ big_endian 8 n

pack_nonce-fits : (n : ℕ) → n < 2 ^ 64 → pack_nonce n ≡ ok (nonce_of n)
unfolding pack_nonce
pack_nonce-fits n h = rw (pack-fits n h) refl

module _ (box : Box) where
  abbrev frame : ℕ → Bytes → Bytes
  frame n msg = big_endian 8 (length (box.encrypt msg (nonce_of n))) ++ box.encrypt msg (nonce_of n)

  send-frame :
      (self : Port) (msg : Bytes)
      → self.send_nonce < 2 ^ 64
      → length msg + 16 < 2 ^ 56
      → send box self msg
        ≡ ok (record self { send_nonce = self.send_nonce + 2 }, frame self.send_nonce msg)
  unfolding send
  send-frame self msg nonce_fits h =
      let size = box.length-encrypt msg (nonce_of self.send_nonce) in
      rw
        (
          pack_nonce-fits self.send_nonce nonce_fits,
          bind,
          pack-fits (length (box.encrypt msg (nonce_of self.send_nonce))) (omega (arith, size, h)),
        )
        refl

  receive-frame :
      (self : Port) (msg rest : Bytes)
      → self.receive_nonce < 2 ^ 64
      → length msg + 16 < 2 ^ 56
      → receive box self (frame self.receive_nonce msg ++ rest)
        ≡ ok ((record self { receive_nonce = self.receive_nonce + 2 }, msg), rest)
  unfolding receive
  receive-frame self msg rest nonce_fits h =
      let contents = box.encrypt msg (nonce_of self.receive_nonce) in
      let size = box.length-encrypt msg (nonce_of self.receive_nonce) in
      let small : length contents < 2 ^ 56 = omega (arith, size, h) in
      rw
        (
          length_value (length contents) small,
          first_byte-length (length contents) small,
          read_fixed-append contents rest,
          pack_nonce-fits self.receive_nonce nonce_fits,
          box.decrypt-encrypt msg (nonce_of self.receive_nonce),
        )
        refl

  -- a port that has sent, or received, `n` messages more
  abbrev pub after_sending : ℕ → Port → Port
  after_sending n self = record self { send_nonce = self.send_nonce + 2 * n }

  abbrev pub after_receiving : ℕ → Port → Port
  after_receiving n self = record self { receive_nonce = self.receive_nonce + 2 * n }

  abbrev frames : ℕ → List Bytes → Bytes
  frames n [] = []
  frames n (msg ∷ msgs) = frame n msg ++ frames (n + 2) msgs

  abbrev pub Short : Bytes → Type 0
  Short msg = length msg + 16 < 2 ^ 56

  send_all-frames :
      (self : Port) (msgs : List Bytes)
      → self.send_nonce + 2 * length msgs < 2 ^ 64
      → All Short msgs
      → send_all box self msgs ≡ ok (after_sending (length msgs) self, frames self.send_nonce msgs)
  unfolding send_all
  send_all-frames self [] h short =
      ap (λ (n : ℕ). ok (record self { send_nonce = n }, [])) (omega arith)
  send_all-frames self (msg ∷ msgs) h (fits, short) =
      let next : Port = record self { send_nonce = self.send_nonce + 2 } in
      rw
        (
          send-frame self msg (omega (arith, h)) fits,
          bind,
          send_all-frames next msgs (omega (arith, h)) short,
        )
        (ap (λ (n : ℕ). ok (record self { send_nonce = n }, frames self.send_nonce (msg ∷ msgs)))
          (omega arith))

  receive_all-cons :
      (n : ℕ) (self next last : Port) (msg : Bytes) (msgs : List Bytes)
      (input rest end_part : Bytes)
      → receive box self input ≡ ok ((next, msg), rest)
      → receive_all box n next rest ≡ ok ((last, msgs), end_part)
      → receive_all box (suc n) self input ≡ ok ((last, msg ∷ msgs), end_part)
  unfolding receive_all
  receive_all-cons n self next last msg msgs input rest end_part e e' = rw (e, bind, e') refl

  receive_all-frames :
      (self : Port) (msgs : List Bytes) (rest : Bytes)
      → self.receive_nonce + 2 * length msgs < 2 ^ 64
      → All Short msgs
      → receive_all box (length msgs) self (frames self.receive_nonce msgs ++ rest)
        ≡ ok ((after_receiving (length msgs) self, msgs), rest)
  unfolding receive_all
  receive_all-frames self [] rest h short =
      ap (λ (n : ℕ). ok ((record self { receive_nonce = n }, []), rest)) (omega arith)
  receive_all-frames self (msg ∷ msgs) rest h (fits, short) =
      let next : Port = record self { receive_nonce = self.receive_nonce + 2 } in
      let more = frames (self.receive_nonce + 2) msgs in
      ap (receive_all box (suc (length msgs)) self)
        (append_assoc (frame self.receive_nonce msg) more rest)
      ∙ receive_all-cons (length msgs) self next
          (record self { receive_nonce = self.receive_nonce + 2 + 2 * length msgs }) msg msgs
          (frame self.receive_nonce msg ++ (more ++ rest)) (more ++ rest) rest
          (receive-frame self msg (more ++ rest) (omega (arith, h)) fits)
          (receive_all-frames next msgs rest (omega (arith, h)) short)
      ∙ ap (λ (n : ℕ). ok ((record self { receive_nonce = n }, msg ∷ msgs), rest)) (omega arith)

-- Two ports whose nonces go together: the messages that one sends are received as they are and in their
-- order, nothing of what is behind them is read, and the nonces go together again. The messages are
-- shorter than 2 ^ 56 bytes with the 16 bytes of the box, and their numbers fit into 8 bytes.
pub receive_all-send_all :
    (box : Box) (sender receiver : Port) (msgs : List Bytes) (rest : Bytes)
    → receiver.receive_nonce ≡ sender.send_nonce
    → sender.send_nonce + 2 * length msgs < 2 ^ 64
    → All (Short box) msgs
    → (bytes : Bytes) × (send_all box sender msgs
        ≡ ok (after_sending box (length msgs) sender, bytes))
      × (receive_all box (length msgs) receiver (bytes ++ rest)
          ≡ ok ((after_receiving box (length msgs) receiver, msgs), rest))
      × ((after_receiving box (length msgs) receiver).receive_nonce
          ≡ (after_sending box (length msgs) sender).send_nonce)
receive_all-send_all box sender receiver msgs rest same fits short = (
  frames box sender.send_nonce msgs,
  send_all-frames box sender msgs fits short,
  rw (← same) (receive_all-frames box receiver msgs rest (omega (arith, same, fits)) short),
  omega (arith, same),
)
