-- ===== src/Relay/Router/Oversized.antt =====
-- A datagram that fits the 1500-byte read buffer of internal/relay/router.go need not fit the
-- 1402-byte frame buffers: what that does.
use fafsturmudprelay.Prelude.{
  ℕ, ◌<◌, ◌≡◌, ◌≢◌, refl, inl, inr, some, Bool, true, [], Bytes, length, get_elem?, arith, ==_iff,
  nat_eq, ◌⊎◌,
}
use fafsturmudprelay.Outcome.{ok, panic}
use fafsturmudprelay.Protocol.RelayWire.{broadcast_dest, decode_relay_header}
use fafsturmudprelay.Relay.TcpFrame.{write_tcp_frame, max_tcp_frame_payload}
use fafsturmudprelay.Relay.Session.Player.{
  AddrPort, Conn, PlayerInfo, Verdict, verdict_ok, first_addr,
}
use fafsturmudprelay.Relay.Session.{Session, get_player, get_player_target, update_player_addr}
use fafsturmudprelay.Relay.Session.Packets.{is_accepted, get_player-step, from_udp, packet_step}
use fafsturmudprelay.Relay.SessionManager.{Manager, find_session_by_player}
use fafsturmudprelay.Relay.Router.{Sent, Routing, unicast, forward, route_by_verdict, route_packet}

module _ (net : Sent → Bool) (packet : Bytes) (long : max_tcp_frame_payload < length packet) where
  -- Forwarding a packet of more than 1400 bytes to a player with a TCP connection panics.
  pub forward_panics :
      (s : Session) (sender_id dest_id : ℕ) (q : PlayerInfo) (conn : Conn) (r : Routing)
      → dest_id ≢ broadcast_dest
      → get_player s dest_id ≡ some q
      → q.tcp_conn ≡ some conn
      → forward net s sender_id dest_id packet r ≡ panic
  unfolding forward unicast get_player_target get_player write_tcp_frame
  forward_panics s sender_id dest_id q conn r one there tcp =
      ground (arith, there, tcp, long, ==_iff dest_id broadcast_dest)

pub accepted-cases : (v : Verdict) → is_accepted v ≡ true → (v ≡ verdict_ok) ⊎ (v ≡ first_addr)
accepted-cases verdict_ok h = inl refl
accepted-cases first_addr h = inr refl
accepted-cases _ h = cc

-- A datagram of more than 1400 bytes panics the router if its sender is a player whose packet is
-- accepted and its destination is another player of the session who has a TCP connection: one
-- player can stop the server for everybody.
pub long_datagram_panics :
    (net : Sent → Bool) (m : Manager) (remote : AddrPort) (packet : Bytes)
    (now sender_id dest_id ref : ℕ) (s : Session) (q : PlayerInfo) (conn : Conn)
    → max_tcp_frame_payload < length packet
    → decode_relay_header packet ≡ ok (sender_id, dest_id)
    → dest_id ≢ sender_id
    → dest_id ≢ broadcast_dest
    → find_session_by_player m sender_id ≡ some ref
    → get_elem? m.heap ref ≡ some s
    → is_accepted (update_player_addr s sender_id remote now).1 ≡ true
    → get_player s dest_id ≡ some q
    → q.tcp_conn ≡ some conn
    → route_packet net m remote packet now ≡ panic
unfolding route_packet route_by_verdict
long_datagram_panics net m remote packet now sender_id dest_id ref s q conn long decoded other one
      found at accepted there tcp =
    let t : Session = (update_player_addr s sender_id remote now).0 in
    let still : get_player t dest_id ≡ some q =
      unfold packet_step in
      ground (
        arith,
        get_player-step s (from_udp sender_id remote now) dest_id q there,
        ==_iff sender_id dest_id,
      ) in
    ground (
      arith,
      decoded,
      found,
      at,
      accepted-cases (update_player_addr s sender_id remote now).1 accepted,
      ==_iff dest_id sender_id,
      forward_panics net packet long t sender_id dest_id q conn
          (record { metrics = m.metrics; sent = [] }) one still tcp,
    )
