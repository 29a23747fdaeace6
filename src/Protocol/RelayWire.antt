-- ===== src/Protocol/RelayWire.antt =====
-- internal/protocol/relay_wire.go: the 8-byte header of a relay packet, and the packet.
-- A buffer that the code fills from left to right is the concatenation of what it holds.
pub mod RoundTrip
use fafsturmudprelay.Prelude.{
  ℕ, ◌+◌, ◌-◌, ◌^◌, ◌<◌, Option, none, some, List, [], ◌∷◌, ◌++◌, Bytes, length, take, drop, ltb,
  if◌then◌else◌, ◌≡◌, refl,
}
use fafsturmudprelay.Outcome.{Outcome, ok, err, panic, ◌>>=◌}
use fafsturmudprelay.Protocol.Binary.{put_uint32_be, uint32_be}

abbrev pub relay_header_size : ℕ
relay_header_size = 8

abbrev pub max_relay_packet : ℕ
max_relay_packet = 1400

abbrev pub max_relay_payload : ℕ
max_relay_payload = max_relay_packet - relay_header_size

abbrev pub broadcast_dest : ℕ
broadcast_dest = 0xFFFFFFFF

pub data WireError : Type 0 where
  packet_too_small packet_too_large : WireError

pub record RelayPacket : Type 0 where
  pub sender_id : ℕ
  pub dest_id : ℕ
  pub payload : Bytes

unfoldable pub encode_relay_packet : ℕ → ℕ → Bytes → Outcome WireError Bytes
encode_relay_packet sender_id dest_id payload =
    let total = relay_header_size + length payload in
    if ltb max_relay_packet total
    then err packet_too_large
    else ok (put_uint32_be sender_id ++ (put_uint32_be dest_id ++ payload))

-- Writes the header over the first 8 bytes of `dst`; a shorter `dst` is out of range.
unfoldable pub encode_relay_header : Bytes → ℕ → ℕ → Outcome WireError Bytes
encode_relay_header dst sender_id dest_id =
    if ltb (length dst) relay_header_size
    then panic
    else ok (put_uint32_be sender_id ++ (put_uint32_be dest_id ++ drop relay_header_size dst))

-- A value that is read by index: out of range is a panic.
abbrev pub at_index {ℓ} : {A : Type ℓ} → Option A → Outcome WireError A
at_index none = panic
at_index (some a) = ok a

unfoldable pub decode_relay_packet : Bytes → Outcome WireError RelayPacket
decode_relay_packet bytes =
    if ltb (length bytes) relay_header_size then err packet_too_small else do
      sender ← at_index (uint32_be bytes)
      dest ← at_index (uint32_be (drop 4 bytes))
      ok (record { sender_id = sender; dest_id = dest; payload = drop relay_header_size bytes })

unfoldable pub decode_relay_header : Bytes → Outcome WireError (ℕ × ℕ)
decode_relay_header bytes =
    if ltb (length bytes) relay_header_size then err packet_too_small else do
      sender ← at_index (uint32_be bytes)
      dest ← at_index (uint32_be (drop 4 bytes))
      ok (sender, dest)
