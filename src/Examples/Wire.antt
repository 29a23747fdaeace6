-- ===== src/Examples/Wire.antt =====
-- Concrete packets and frames (internal/protocol/relay_wire.go, internal/relay/router.go).
use fafsturmudprelay.Prelude.{◌+◌, ◌≡◌, refl, [], ◌∷◌, Bytes, length, arith}
use fafsturmudprelay.Outcome.{ok}
use fafsturmudprelay.Protocol.RelayWire.{
  RelayPacket, relay_header_size, encode_relay_packet, decode_relay_packet,
}
use fafsturmudprelay.Protocol.RelayWire.RoundTrip.{decode-encode}
use fafsturmudprelay.Protocol.Binary.{put_uint32_be, uint32_be, uint16_be}
use fafsturmudprelay.Relay.TcpFrame.{read_tcp_frame}

abbrev payload : Bytes
payload = 1 ∷ 2 ∷ 3 ∷ []

abbrev packet : RelayPacket
packet = record { sender_id = 258; dest_id = 7; payload = payload }

abbrev packet_bytes : Bytes
packet_bytes = 0 ∷ 0 ∷ 1 ∷ 2 ∷ 0 ∷ 0 ∷ 0 ∷ 7 ∷ 1 ∷ 2 ∷ 3 ∷ []

encodes : encode_relay_packet 258 7 payload ≡ ok packet_bytes
unfolding encode_relay_packet put_uint32_be
encodes = refl

decodes : decode_relay_packet packet_bytes ≡ ok packet
unfolding decode_relay_packet uint32_be
decodes = refl

decode-encode_example :
    (bytes : Bytes) × (encode_relay_packet 258 7 payload ≡ ok bytes)
    × (length bytes ≡ relay_header_size + length payload)
    × (decode_relay_packet bytes ≡ ok packet)
decode-encode_example = decode-encode 258 7 payload (omega arith) (omega arith) (omega arith)

abbrev stream : Bytes
stream = 0 ∷ 3 ∷ 1 ∷ 2 ∷ 3 ∷ 0 ∷ []

reads : read_tcp_frame 1500 stream ≡ ok (payload, 0 ∷ [])
unfolding read_tcp_frame uint16_be
reads = refl
