-- ===== src/Adapter/RelayConnection.antt =====
-- internal/adapter/relayconn.go: the adapter's side of the connection to the relay server. `net` says of
-- each write whether the network takes it; `now` is UnixNano().
pub mod Delivery
pub mod Backoff
pub mod Health
pub mod Stream
use fafsturmudprelay.Prelude.{
  ℕ, ◌+◌, ◌-◌, ◌*◌, ◌/◌, ◌%◌, ◌^◌, Option, none, some, Bool, true, false, not, ◌&&◌, List, [], ◌∷◌,
  ◌++◌, Bytes, length, take, drop, ltb, leb, ◌==◌, is_some, if◌then◌else◌, nat_eq,
}
use fafsturmudprelay.Prelude.Int.{ℤ, pos, sub_ℕ, pos_part, ltb_ℤ}
use fafsturmudprelay.Outcome.{Outcome, ok, err, panic, ◌>>=◌, map_err}
use fafsturmudprelay.Protocol.Binary.{put_uint16_be, uint16_be}
use fafsturmudprelay.Protocol.RelayWire.{
  WireError, relay_header_size, max_relay_packet, encode_relay_header, decode_relay_header,
}
use fafsturmudprelay.Relay.Session.Player.{AddrPort, same_ip}
use fafsturmudprelay.Relay.TcpFrame.{FrameError, eof, short_buffer, read_full}
use fafsturmudprelay.Relay.Metrics.{add_uint64}
use fafsturmudprelay.Adapter.Peer.{Peer}
use fafsturmudprelay.Adapter.PeerManager.{PeerManager, get_peer, deliver}

abbrev pub health_timeout : ℕ
health_timeout = 30 * 10 ^ 9

-- `tcp_conn` is a handle of the connection. A time of 0 is one that was never set.
pub record RelayConnection : Type 0 where
  pub relay_addr : AddrPort
  pub tcp_conn : Option ℕ
  pub use_tcp : Bool
  pub local_id : ℕ
  pub pkts_sent : ℕ
  pub pkts_recv : ℕ
  pub bytes_sent : ℕ
  pub bytes_recv : ℕ
  pub last_recv : ℕ
  pub hello_sent_at : ℕ
  pub relay_rtt_ns : ℤ
  pub transport_ready : Bool
  pub relay_confirmed : Bool

-- `local_id` and the address of the relay server are given; nothing has been sent or received.
unfoldable pub new_relay_connection : AddrPort → ℕ → RelayConnection
new_relay_connection relay_addr local_id = record {
  relay_addr = relay_addr;
  tcp_conn = none;
  use_tcp = false;
  local_id = local_id;
  pkts_sent = 0;
  pkts_recv = 0;
  bytes_sent = 0;
  bytes_recv = 0;
  last_recv = 0;
  hello_sent_at = 0;
  relay_rtt_ns = pos 0;
  transport_ready = false;
  relay_confirmed = false;
}

unfoldable pub mark_transport_ready : RelayConnection → RelayConnection
mark_transport_ready rc = record rc { transport_ready = true }

unfoldable pub switch_to_tcp : RelayConnection → Option ℕ → RelayConnection × Bool
switch_to_tcp rc none = (rc, false)
switch_to_tcp rc (some conn) = (record rc { tcp_conn = some conn; use_tcp = true }, true)

-- A datagram to the relay server, or bytes on a TCP connection to it.
pub data Written : Type 0 where
  datagram : AddrPort → Bytes → Written
  segment : ℕ → Bytes → Written

pub data SendError : Type 0 where
  payload_too_large network : SendError
  wire : WireError → SendError

-- The bytes that writeTCPFrame hands to Write: tcpFrameBuf holds 2 + MaxRelayPacket bytes.
unfoldable pub write_tcp_frame : Bytes → Outcome SendError Bytes
write_tcp_frame packet =
    if ltb (2 + max_relay_packet) (2 + length packet)
    then panic
    else ok (put_uint16_be (length packet % 2 ^ 16) ++ packet)

abbrev blank : Bytes
blank = 0 ∷ 0 ∷ 0 ∷ 0 ∷ 0 ∷ 0 ∷ 0 ∷ 0 ∷ []

-- The buffer's first bytes once the header and the payload are in it, whatever was there before.
unfoldable pub build_packet : RelayConnection → ℕ → Bytes → Outcome SendError Bytes
build_packet rc dest_id payload =
    map_err wire (encode_relay_header (blank ++ payload) rc.local_id dest_id)

-- The one write of a packet. A TCP mode with no connection would be a nil pointer.
unfoldable pub written_for : RelayConnection → Bytes → Outcome SendError Written
unfolding write_tcp_frame
written_for rc packet =
    if rc.use_tcp
    then (elim rc.tcp_conn [
      | none ↦ panic
      | some conn ↦ (do frame ← write_tcp_frame packet; ok (segment conn frame))
    ])
    else ok (datagram rc.relay_addr packet)

abbrev pub count_sent : RelayConnection → ℕ → RelayConnection
count_sent rc total = record rc {
  pkts_sent = add_uint64 rc.pkts_sent 1;
  bytes_sent = add_uint64 rc.bytes_sent total;
}

module _ (net : Written → Bool) where
  -- What was written, if anything, and whether it went out.
  unfoldable pub send :
      RelayConnection → ℕ → Bytes → Outcome SendError (RelayConnection × Written × Bool)
  unfolding build_packet written_for
  send rc dest_id payload =
      let total = relay_header_size + length payload in
      if ltb max_relay_packet total then err payload_too_large else (do
        packet ← build_packet rc dest_id payload
        w ← written_for rc packet
        ok (if net w then count_sent rc total else rc, w, net w))

  unfoldable pub send_hello :
      RelayConnection → ℕ → Outcome SendError (RelayConnection × Written × Bool)
  unfolding build_packet written_for
  send_hello rc now =
      let sent : RelayConnection = record rc { hello_sent_at = now } in
      do packet ← build_packet sent rc.local_id []; w ← written_for sent packet; ok (sent, w, net w)

-- readTCPFrame of this package: an empty frame is accepted, and so is any that fits the buffer.
header_value : Bytes → Outcome FrameError ℕ
header_value hdr = elim (uint16_be hdr) [ none ↦ panic | some n ↦ ok n ]

unfoldable pub read_tcp_frame : ℕ → Bytes → Outcome FrameError (Bytes × Bytes)
unfolding read_full header_value
read_tcp_frame size stream = do
  (hdr, body) ← read_full 2 stream
  n ← header_value hdr
  if ltb size n then err short_buffer else read_full n body

-- dispatchTopeer: a packet for a peer that is not there is not counted.
unfoldable pub dispatch_to_peer :
    RelayConnection → PeerManager → ℕ → Bytes → ℕ → RelayConnection × PeerManager
dispatch_to_peer rc pm sender_id payload total = elim (get_peer pm sender_id) [
  | none ↦ (rc, pm)
  | some peer ↦ (
    record rc {
      pkts_recv = add_uint64 rc.pkts_recv 1;
      bytes_recv = add_uint64 rc.bytes_recv total;
    },
    deliver pm sender_id payload,
  )
]

abbrev pub confirm_relay : RelayConnection → RelayConnection
confirm_relay rc = record rc { relay_confirmed = true }

-- What both receive loops do with a packet: a health timestamp, then a pong or a packet of a peer.
unfoldable pub handle_packet :
    RelayConnection → PeerManager → Bytes → ℕ → RelayConnection × PeerManager
unfolding dispatch_to_peer
handle_packet rc pm packet now =
    if ltb (length packet) relay_header_size then (rc, pm) else (elim (decode_relay_header packet) [
      | ok (sender_id, dest_id) ↦
          let seen : RelayConnection = confirm_relay (record rc { last_recv = now }) in
          if sender_id == rc.local_id
          then (
            if ltb 0 rc.hello_sent_at
                then record seen { relay_rtt_ns = sub_ℕ now rc.hello_sent_at }
                else seen,
            pm,
          )
          else dispatch_to_peer seen pm sender_id (drop relay_header_size packet) (length packet)
      | _ ↦ (rc, pm)
    ])

-- receiveUDP on a datagram: only the relay server's IP is listened to.
unfoldable pub receive_datagram :
    RelayConnection → PeerManager → AddrPort → Bytes → ℕ → RelayConnection × PeerManager
unfolding handle_packet
receive_datagram rc pm remote_addr packet now =
    if not (same_ip remote_addr.ip rc.relay_addr.ip)
    then (rc, pm)
    else handle_packet rc pm packet now

unfoldable pub relay_rtt_ms : RelayConnection → ℕ
relay_rtt_ms rc = pos_part rc.relay_rtt_ns / 10 ^ 6

unfoldable pub is_healthy : RelayConnection → ℕ → Bool
is_healthy rc now =
    if rc.last_recv == 0 then false else ltb_ℤ (sub_ℕ now rc.last_recv) (pos health_timeout)
