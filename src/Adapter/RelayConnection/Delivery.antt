-- ===== src/Adapter/RelayConnection/Delivery.antt =====
-- What relayconn.go of internal/adapter puts on the network for a packet, and what it makes of one.
use fafsturmudprelay.Prelude.{
  ℕ, ◌+◌, ◌%◌, ◌^◌, ◌<◌, ◌≤◌, ◌≡◌, ◌≢◌, refl, some, true, false, Bool, ◌++◌, Bytes, length, arith,
  if◌then◌else◌, ==_iff, drop, nat_eq, take-append, drop-append, length-append,
}
use fafsturmudprelay.Outcome.{ok, err}
use fafsturmudprelay.Protocol.Binary.{IsU32, put_uint32_be, uint32_be, put_uint16_be, uint16_be}
use fafsturmudprelay.Protocol.RelayWire.{
  relay_header_size, max_relay_packet, max_relay_payload, encode_relay_header, decode_relay_header,
}
use fafsturmudprelay.Relay.TcpFrame.{read_full}
use fafsturmudprelay.Relay.Router.Delivery.{frame_of}
use fafsturmudprelay.Relay.Metrics.{add_uint64}
use fafsturmudprelay.Adapter.Peer.{Peer}
use fafsturmudprelay.Adapter.PeerManager.{PeerManager, get_peer, deliver}
use fafsturmudprelay.Adapter.RelayConnection.{
  RelayConnection, Written, datagram, segment, write_tcp_frame, payload_too_large, build_packet,
  written_for, count_sent, send, read_tcp_frame, handle_packet, dispatch_to_peer, confirm_relay,
}

-- The bytes of a relay packet.
abbrev pub packet_of : ℕ → ℕ → Bytes → Bytes
packet_of sender_id dest_id payload = put_uint32_be sender_id ++ (put_uint32_be dest_id ++ payload)

pub decode-packet_of :
    (a b : ℕ) (payload : Bytes)
    → IsU32 a
    → IsU32 b
    → decode_relay_header (packet_of a b payload) ≡ ok (a, b)
unfolding decode_relay_header put_uint32_be uint32_be
decode-packet_of a b payload ha hb = ground arith

pub length-packet_of :
    (a b : ℕ) (payload : Bytes) → length (packet_of a b payload) ≡ 8 + length payload
unfolding put_uint32_be
length-packet_of a b payload = omega arith

pub drop-packet_of : (a b : ℕ) (payload : Bytes) → drop 8 (packet_of a b payload) ≡ payload
unfolding put_uint32_be
drop-packet_of a b payload = refl

-- Over UDP, what goes out is one datagram to the relay server, from the own id to the destination.
pub send_datagram :
    (net : Written → Bool) (rc : RelayConnection) (dest_id : ℕ) (payload : Bytes)
    → rc.use_tcp ≡ false
    → length payload ≤ max_relay_payload
    → let w = datagram rc.relay_addr (packet_of rc.local_id dest_id payload) in
      send net rc dest_id payload
      ≡ ok (if net w then count_sent rc (relay_header_size + length payload) else rc, w, net w)
unfolding send build_packet written_for encode_relay_header
send_datagram net rc dest_id payload udp fits = ground (arith, udp, fits)

-- Over TCP, it is one frame on the connection.
pub send_segment :
    (net : Written → Bool) (rc : RelayConnection) (conn dest_id : ℕ) (payload : Bytes)
    → rc.use_tcp ≡ true
    → rc.tcp_conn ≡ some conn
    → length payload ≤ max_relay_payload
    → let w = segment conn (frame_of (packet_of rc.local_id dest_id payload)) in
      send net rc dest_id payload
      ≡ ok (if net w then count_sent rc (relay_header_size + length payload) else rc, w, net w)
unfolding send build_packet written_for encode_relay_header write_tcp_frame
send_segment net rc conn dest_id payload tcp there fits =
    ground (arith, tcp, there, fits, length-packet_of rc.local_id dest_id payload)

pub send_refuses :
    (net : Written → Bool) (rc : RelayConnection) (dest_id : ℕ) (payload : Bytes)
    → max_relay_payload < length payload
    → send net rc dest_id payload ≡ err payload_too_large
unfolding send
send_refuses net rc dest_id payload long = ground (arith, long)

-- A frame of a packet is read back by the adapter, whatever follows.
pub read-frame_of :
    (size : ℕ) (packet rest : Bytes)
    → length packet ≤ max_relay_packet
    → length packet ≤ size
    → read_tcp_frame size (frame_of packet ++ rest) ≡ ok (packet, rest)
unfolding read_tcp_frame put_uint16_be uint16_be read_full
read-frame_of size packet rest fits room =
    let e : length packet % 2 ^ 16 ≡ length packet = omega arith in
    ground (arith, e, take-append packet rest, drop-append packet rest, length-append packet rest)

-- The connection after a packet of `total` bytes for a peer.
abbrev pub counted_recv : RelayConnection → ℕ → ℕ → RelayConnection
counted_recv rc total now = record (confirm_relay (record rc { last_recv = now })) {
  pkts_recv = add_uint64 rc.pkts_recv 1;
  bytes_recv = add_uint64 rc.bytes_recv total;
}

pub handle-packet_of :
    (rc : RelayConnection) (pm : PeerManager) (a b : ℕ) (payload : Bytes) (now : ℕ) (p : Peer)
    → IsU32 a
    → IsU32 b
    → a ≢ rc.local_id
    → get_peer pm a ≡ some p
    → handle_packet rc pm (packet_of a b payload) now
      ≡ (counted_recv rc (8 + length payload) now, deliver pm a payload)
unfolding handle_packet dispatch_to_peer
handle-packet_of rc pm a b payload now p ha hb other there = ground (
  arith,
  decode-packet_of a b payload ha hb,
  length-packet_of a b payload,
  drop-packet_of a b payload,
  there,
  ==_iff a rc.local_id,
)
