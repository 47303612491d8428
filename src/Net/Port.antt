-- ===== src/Net/Port.antt =====
-- net/core.py: `Port`, which sends messages as encrypted frames, and the reads of a fixed length.
use decomp_permuter_psyq.Prelude.{
  ℕ, zero, suc, ◌+◌, ◌-◌, ◌*◌, ◌/◌, ◌%◌, ◌^◌, ◌≡◌, ◌==◌, Bool, true, false, Option, none, some,
  List, [], ◌∷◌, ◌++◌, Result, ok, raised, bind, if◌then◌else◌, ltb, length,
}
pub mod Frames

-- bytes as numbers below 256
abbrev pub Bytes : Type 0
Bytes = List ℕ

-- The exceptions: `EOFError`, `struct.error`, a length that is not reasonable, `CryptoError`.
pub data PortError : Type 0 where
  eof too_large unexpected bad_message : PortError

-- A box of the library `nacl`: what is encrypted with a nonce is decrypted with it, and has 16 bytes more.
pub record Box : Type 0 where
  pub encrypt : Bytes → Bytes → Bytes
  pub decrypt : Bytes → Bytes → Option Bytes
  pub length-encrypt : (msg nonce : Bytes) → length (encrypt msg nonce) ≡ length msg + 16
  pub decrypt-encrypt : (msg nonce : Bytes) → decrypt (encrypt msg nonce) nonce ≡ some msg

pub record Port : Type 0 where
  pub send_nonce : ℕ
  pub receive_nonce : ℕ

-- `Port.__init__`
abbrev pub new_port : Bool → Port
new_port is_client = record {
  send_nonce = if is_client then 0 else 1;
  receive_nonce = if is_client then 1 else 0;
}

-- the last `width` bytes of a number, the highest first
abbrev pub big_endian : ℕ → ℕ → Bytes
big_endian zero n = []
big_endian (suc width) n = big_endian width (n / 256) ++ n % 256 ∷ []

abbrev pub value : ℕ → Bytes → ℕ
value n [] = n
value n (b ∷ bytes) = value (256 * n + b) bytes

abbrev pub zeros : ℕ → Bytes
zeros zero = []
zeros (suc n) = 0 ∷ zeros n

-- `struct.pack(">Q", n)`
unfoldable pub pack : ℕ → Result PortError Bytes
pack n = if ltb n (2 ^ 64) then ok (big_endian 8 n) else raised too_large

-- `struct.pack(">16xQ", n)`
unfoldable pub pack_nonce : ℕ → Result PortError Bytes
unfolding pack
pack_nonce n = bind (pack n) λ bytes. ok (zeros 16 ++ bytes)

-- `file_read_fixed` and `socket_read_fixed`, over all that is still to come: the bytes and the rest
unfoldable pub read_fixed : ℕ → Bytes → Result PortError (Bytes × Bytes)
read_fixed zero input = ok ([], input)
read_fixed (suc n) [] = raised eof
read_fixed (suc n) (b ∷ input) = bind (read_fixed n input) λ (bytes, rest). ok (b ∷ bytes, rest)

-- `length_data[0]`
abbrev pub first_byte : Bytes → ℕ
first_byte [] = 0
first_byte (b ∷ bytes) = b

module _ (box : Box) where
  -- `Port.send`, with the bytes that are sent
  unfoldable pub send : Port → Bytes → Result PortError (Port × Bytes)
  unfolding pack_nonce pack
  send self msg = bind (pack_nonce self.send_nonce) λ nonce.
      let contents = box.encrypt msg nonce in
      bind (pack (length contents)) λ length_data.
        ok (record self { send_nonce = self.send_nonce + 2 }, length_data ++ contents)

  -- `Port.receive`, with the bytes that are left
  unfoldable pub receive : Port → Bytes → Result PortError ((Port × Bytes) × Bytes)
  unfolding pack_nonce read_fixed
  receive self input = bind (read_fixed 8 input) λ (length_data, after_length).
      if first_byte length_data == 0
      then (bind (read_fixed (value 0 length_data) after_length) λ (contents, rest).
          bind (pack_nonce self.receive_nonce) λ nonce. elim (box.decrypt contents nonce) [
            | none ↦ raised bad_message
            | some msg ↦ ok ((record self { receive_nonce = self.receive_nonce + 2 }, msg), rest)
          ])
      else raised unexpected

  unfoldable pub send_all : Port → List Bytes → Result PortError (Port × Bytes)
  unfolding send
  send_all self [] = ok (self, [])
  send_all self (msg ∷ msgs) =
      bind (send self msg)
        λ (self', bytes). bind (send_all self' msgs) λ (last, more). ok (last, bytes ++ more)

  -- `receive`, as often as the number says
  unfoldable pub receive_all : ℕ → Port → Bytes → Result PortError ((Port × List Bytes) × Bytes)
  unfolding receive
  receive_all zero self input = ok ((self, []), input)
  receive_all (suc n) self input = bind (receive self input) λ ((self', msg), rest).
      bind (receive_all n self' rest) λ ((last, msgs), end_part). ok ((last, msg ∷ msgs), end_part)
