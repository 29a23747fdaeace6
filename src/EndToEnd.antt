-- ===== src/EndToEnd.antt =====
-- A packet's whole way: the sender's adapter (internal/adapter/relayconn.go), the relay server
-- (internal/relay/router.go), and the receiver's adapter and its peer (internal/adapter/peer.go).
use fafsturmudprelay.Prelude.{
  ℕ, ◌+◌, ◌≤◌, ◌<◌, ◌≡◌, ◌≢◌, refl, ap, ◌∙◌, inl, inr, Option, none, some, Bool, true, false, List,
  [], ◌∷◌, ◌++◌, Bytes, length, get_elem?, arith, ==_iff, Option-cases, nat_eq, if◌then◌else◌,
  is_some, ◌||◌,
}
use mathlib.Core.List.{append-nil}
use fafsturmudprelay.Prelude.Map.{lookup-insert}
use fafsturmudprelay.Outcome.{ok}
use fafsturmudprelay.Protocol.Binary.{IsU32}
use fafsturmudprelay.Protocol.RelayWire.{
  relay_header_size, max_relay_packet, max_relay_payload, broadcast_dest,
}
use fafsturmudprelay.Relay.Session.Player.{AddrPort, Conn, Verdict, is_valid, same_ip}
use fafsturmudprelay.Relay.Session.Packets.{is_accepted}
use fafsturmudprelay.Relay.Session.{
  Session, PlayerSendTarget, get_player_target, update_player_addr,
}
use fafsturmudprelay.Relay.SessionManager.{Manager, find_session_by_player}
use fafsturmudprelay.Relay.Router.{Sent, to_udp, to_tcp, route_packet, read_buffer_size}
use fafsturmudprelay.Relay.Router.Delivery.{write_for, frame_of}
use fafsturmudprelay.Relay.Router.Relayed.{relayed}
use fafsturmudprelay.Adapter.Peer.{Peer, channel_size, deliver_from_relay}
use fafsturmudprelay.Adapter.PeerManager.{PeerManager, get_peer, deliver}
use fafsturmudprelay.Adapter.RelayConnection.{
  RelayConnection, Written, datagram, count_sent, send, read_tcp_frame, handle_packet,
  receive_datagram,
}
use fafsturmudprelay.Adapter.RelayConnection.Delivery.{
  packet_of, send_datagram, length-packet_of, decode-packet_of, read-frame_of, handle-packet_of,
}

-- Where a write of the relay server arrives at the adapter that it is meant for.
abbrev pub arrives : RelayConnection → PeerManager → Sent → ℕ → RelayConnection × PeerManager
arrives rc pm (to_udp addr bytes) now = receive_datagram rc pm rc.relay_addr bytes now
arrives rc pm (to_tcp conn bytes) now = elim (read_tcp_frame read_buffer_size bytes) [
  | ok (packet, rest) ↦ handle_packet rc pm packet now
  | _ ↦ (rc, pm)
]

same_ip_refl : (a : Option ℕ) → same_ip a a ≡ true
same_ip_refl none = refl
same_ip_refl (some i) = ground (arith, ==_iff i i)

from_relay :
    (rc : RelayConnection) (pm : PeerManager) (packet : Bytes) (now : ℕ)
    → receive_datagram rc pm rc.relay_addr packet now ≡ handle_packet rc pm packet now
unfolding receive_datagram
from_relay rc pm packet now = ground (arith, same_ip_refl rc.relay_addr.ip)

from_frame :
    (rc : RelayConnection) (pm : PeerManager) (conn : Conn) (packet : Bytes) (now : ℕ)
    → length packet ≤ max_relay_packet
    → arrives rc pm (to_tcp conn (frame_of packet)) now ≡ handle_packet rc pm packet now
from_frame rc pm conn packet now fits = ground (
  arith,
  ap (read_tcp_frame read_buffer_size) (append-nil (frame_of packet)),
  read-frame_of read_buffer_size packet [] fits (omega (arith, fits)),
)

-- Whatever transport a player has, the one write for it arrives there as the packet.
arrival :
    (rc : RelayConnection) (pm : PeerManager) (target : PlayerSendTarget) (packet : Bytes) (now : ℕ)
    → length packet ≤ max_relay_packet
    → (is_some target.tcp_conn || is_valid target.udp_addr) ≡ true
    → (w : Sent) × (write_for target packet ≡ w ∷ [])
      × (arrives rc pm w now ≡ handle_packet rc pm packet now)
arrival rc pm target packet now fits reachable = elim (Option-cases target.tcp_conn) [
  | inr (conn, e) ↦
      (to_tcp conn (frame_of packet), ground (arith, e), from_frame rc pm conn packet now fits)
  | inl e ↦
      (to_udp target.udp_addr packet, ground (arith, e, reachable), from_relay rc pm packet now)
]

delivered :
    (pm : PeerManager) (id : ℕ) (p : Peer) (payload : Bytes)
    → get_peer pm id ≡ some p
    → length p.from_ch < channel_size
    → get_peer (deliver pm id payload) id
      ≡ some (record p { from_ch = p.from_ch ++ (payload ∷ []) })
unfolding get_peer deliver deliver_from_relay
delivered pm id p payload there room =
    ground (
      arith,
      there,
      room,
      ==_iff id id,
      lookup-insert id id (deliver_from_relay p payload) pm.peers,
    )

-- A payload of at most 1392 bytes that an adapter sends over UDP to another player goes out as one
-- datagram. If the relay server has both players in a session, accepts the datagram's sender and
-- knows a transport of the receiver, it makes one write; and that write, a datagram or a TCP frame,
-- puts the payload, unchanged, at the end of the queue of the peer that stands for the sender at the
-- receiving adapter, provided that there is such a peer and its queue has room.
pub payload_arrives :
    (out : Written → Bool) (net : Sent → Bool) (sender receiver : RelayConnection)
    (pm : PeerManager) (p : Peer) (m : Manager) (remote : AddrPort) (ref now later : ℕ)
    (payload : Bytes) (s t : Session) (v : Verdict) (target : PlayerSendTarget)
    → sender.use_tcp ≡ false
    → IsU32 sender.local_id
    → IsU32 receiver.local_id
    → sender.local_id ≢ receiver.local_id
    → receiver.local_id ≢ broadcast_dest
    → length payload ≤ max_relay_payload
    → find_session_by_player m sender.local_id ≡ some ref
    → get_elem? m.heap ref ≡ some s
    → update_player_addr s sender.local_id remote now ≡ (t, v)
    → is_accepted v ≡ true
    → get_player_target t receiver.local_id ≡ some target
    → (is_some target.tcp_conn || is_valid target.udp_addr) ≡ true
    → get_peer pm sender.local_id ≡ some p
    → length p.from_ch < channel_size
    → (bytes : Bytes) × (w : Sent) × (m' : Manager) × (sender' : RelayConnection) × (send out sender
          receiver.local_id payload
        ≡ ok (sender', datagram sender.relay_addr bytes, out (datagram sender.relay_addr bytes)))
      × (route_packet net m remote bytes now ≡ ok (m', w ∷ []))
      × (get_peer (arrives receiver pm w later).1 sender.local_id
          ≡ some (record p { from_ch = p.from_ch ++ (payload ∷ []) }))
payload_arrives out net sender receiver pm p m remote ref now later payload s t v target udp ha hb
      other one fits found at updated accepted aim reachable there room =
    let a = sender.local_id in
    let b = receiver.local_id in
    let bytes = packet_of a b payload in
    let fits' : length bytes ≤ max_relay_packet =
      omega (arith, fits, length-packet_of a b payload) in
    let (m', routed) =
      relayed net m remote bytes a b ref now s t v target fits' (decode-packet_of a b payload ha hb)
        other one found at updated accepted aim in
    let (w, wrote, arrived) = arrival receiver pm target bytes later fits' reachable in
    (
      bytes,
      w,
      m',
      (if out (datagram sender.relay_addr bytes)
          then count_sent sender (relay_header_size + length payload)
          else sender),
      send_datagram out sender b payload udp fits,
      routed ∙ ap (λ (x : List Sent). ok (m', x)) wrote,
      ap (λ (x : RelayConnection × PeerManager). get_peer x.1 a)
            (arrived ∙ handle-packet_of receiver pm a b payload later p ha hb other there)
          ∙ delivered pm a p payload there room,
    )
