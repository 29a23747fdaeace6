-- ===== src/Protocol/RelayWire/RoundTrip.antt =====
-- Encoding and decoding of relay packets undo one another, and decoding never runs off a buffer.
use fafsturmudprelay.Prelude.{
  ℕ, ◌+◌, ◌*◌, ◌^◌, ◌≤◌, ◌<◌, ◌≡◌, [], ◌∷◌, ◌++◌, Bytes, All, length, arith, ◌⊎◌, inl, inr,
}
use fafsturmudprelay.Outcome.{ok, err}
use fafsturmudprelay.Protocol.Binary.{IsByte, IsU32, put_uint32_be, uint32_be, put-uint32_be}
use fafsturmudprelay.Protocol.RelayWire.{
  packet_too_small, RelayPacket, max_relay_packet, max_relay_payload, relay_header_size,
  encode_relay_packet, encode_relay_header, decode_relay_packet, decode_relay_header,
}

-- A packet whose ids are 32-bit words and whose payload is at most 1392 bytes is encoded in
-- 8 bytes more than its payload, and decoding the bytes gives the packet back.
pub decode-encode :
    (s d : ℕ) (payload : Bytes)
    → IsU32 s
    → IsU32 d
    → length payload ≤ max_relay_payload
    → (bytes : Bytes) × (encode_relay_packet s d payload ≡ ok bytes)
      × (length bytes ≡ relay_header_size + length payload)
      × (decode_relay_packet bytes ≡ ok (record { sender_id = s; dest_id = d; payload = payload }))
unfolding encode_relay_packet decode_relay_packet put_uint32_be uint32_be
decode-encode s d payload hs hd hp =
    (put_uint32_be s ++ (put_uint32_be d ++ payload), ground arith, omega arith, ground arith)

-- Bytes that are decoded and are no longer than a relay packet are what encoding the packet gives.
pub encode-decode :
    (bytes : Bytes) (p : RelayPacket)
    → All IsByte bytes
    → length bytes ≤ max_relay_packet
    → decode_relay_packet bytes ≡ ok p
    → encode_relay_packet p.sender_id p.dest_id p.payload ≡ ok bytes
unfolding encode_relay_packet decode_relay_packet uint32_be
encode-decode (a ∷ b ∷ c ∷ d ∷ w ∷ x ∷ y ∷ z ∷ rest) p h n e = ground (
  arith,
  put-uint32_be a b c d h.0 h.1.0 h.1.1.0 h.1.1.1.0,
  put-uint32_be w x y z h.1.1.1.1.0 h.1.1.1.1.1.0 h.1.1.1.1.1.1.0 h.1.1.1.1.1.1.1.0,
)
encode-decode bytes p h n e = ground arith

-- Of fewer than 8 bytes both decoders return the error. Of 8 or more both succeed, never panic,
-- give the same ids, and the payload is all but 8 of the bytes.
pub decode_agree :
    (bytes : Bytes)
    → ((length bytes < relay_header_size)
        × (decode_relay_packet bytes ≡ err packet_too_small)
        × (decode_relay_header bytes ≡ err packet_too_small))
      ⊎ ((p : RelayPacket) × (decode_relay_packet bytes ≡ ok p)
          × (decode_relay_header bytes ≡ ok (p.sender_id, p.dest_id))
          × (relay_header_size + length p.payload ≡ length bytes))
unfolding decode_relay_packet decode_relay_header uint32_be
decode_agree (a ∷ b ∷ c ∷ d ∷ w ∷ x ∷ y ∷ z ∷ rest) = inr (
  record {
    sender_id = a * 2 ^ 24 + b * 2 ^ 16 + c * 2 ^ 8 + d;
    dest_id = w * 2 ^ 24 + x * 2 ^ 16 + y * 2 ^ 8 + z;
    payload = rest;
  },
  ground arith,
  ground arith,
  omega arith,
)
decode_agree _ = inl (omega arith, ground arith, ground arith)

-- Writing the header over the first 8 bytes of a buffer that ends in the payload gives the bytes
-- of the encoded packet, if those fit a relay packet.
pub encode_header_in_place :
    (buf payload : Bytes) (s d : ℕ)
    → length buf ≡ relay_header_size
    → length payload ≤ max_relay_payload
    → encode_relay_header (buf ++ payload) s d ≡ encode_relay_packet s d payload
unfolding encode_relay_packet encode_relay_header
encode_header_in_place (a ∷ b ∷ c ∷ d ∷ w ∷ x ∷ y ∷ z ∷ []) payload s t h n = ground arith
encode_header_in_place (a ∷ b ∷ c ∷ d ∷ w ∷ x ∷ y ∷ z ∷ v ∷ rest) payload s t h n =
    absurd (omega arith)
encode_header_in_place _ payload s t h n = absurd (omega arith)
