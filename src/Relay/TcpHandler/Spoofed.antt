-- ===== src/Relay/TcpHandler/Spoofed.antt =====
-- How handleConn of internal/relay/tcphandler.go meets a spoofed frame.
use fafsturmudprelay.Prelude.{
  ℕ, Bool, ◌≡◌, ◌≢◌, some, List, [], ◌∷◌, Bytes, get_elem?, arith, is_some, nat_eq, true, false,
}
use fafsturmudprelay.Outcome.{ok}
use fafsturmudprelay.Protocol.RelayWire.{decode_relay_header}
use fafsturmudprelay.Relay.TcpFrame.{read_tcp_frame}
use fafsturmudprelay.Relay.Metrics.{count_spoofed}
use fafsturmudprelay.Relay.Session.Player.{Conn, PlayerInfo}
use fafsturmudprelay.Relay.Session.{Session, get_player}
use fafsturmudprelay.Relay.Session.Pinning.{spoofed_tcp_refused}
use fafsturmudprelay.Relay.SessionManager.{Manager, find_session_by_player}
use fafsturmudprelay.Relay.Router.{Sent, read_buffer_size}
use fafsturmudprelay.Relay.Router.Datagrams.{decoded_long, set-get}
use fafsturmudprelay.Relay.TcpHandler.{
  Handled, handle_from, handle_by_verdict, handle_packet, handle_conn,
}

-- The manager with one more spoofed packet counted, nothing sent, and the handler at its end.
abbrev pub refused : Manager → Handled
refused m = record {
  manager = record m { metrics = count_spoofed m.metrics };
  sent = [];
  evicted = [];
  goes_on = false;
}

module _ (net : Sent → Bool) (conn : Conn) (m : Manager) (sender_id dest_id ref now : ℕ)
    (s : Session) (p : PlayerInfo) (packet : Bytes) where
  spoofed_packet :
      decode_relay_header packet ≡ ok (sender_id, dest_id)
      → find_session_by_player m sender_id ≡ some ref
      → get_elem? m.heap ref ≡ some s
      → get_player s sender_id ≡ some p
      → is_some p.tcp_ip ≡ true
      → p.tcp_ip ≢ conn.remote_ip
      → handle_packet net conn m packet now ≡ ok (refused m)
  unfolding handle_packet handle_from handle_by_verdict
  spoofed_packet decoded found at known pinned differ = ground (
    arith,
    decoded,
    decoded_long packet (sender_id, dest_id) decoded,
    found,
    at,
    spoofed_tcp_refused s sender_id p conn now known pinned differ,
    set-get m.heap ref s at,
  )

  -- A frame that claims a player whose pinned TCP IP is not the connection's ends the connection,
  -- whatever follows it in the stream: nothing is sent, no other connection is closed, and the
  -- manager changes in nothing but the counter of spoofed packets.
  pub spoofed_frame_ends :
      (stream rest : Bytes) (nows : List ℕ)
      → read_tcp_frame read_buffer_size stream ≡ ok (packet, rest)
      → decode_relay_header packet ≡ ok (sender_id, dest_id)
      → find_session_by_player m sender_id ≡ some ref
      → get_elem? m.heap ref ≡ some s
      → get_player s sender_id ≡ some p
      → is_some p.tcp_ip ≡ true
      → p.tcp_ip ≢ conn.remote_ip
      → handle_conn net conn m stream (now ∷ nows) ≡ ok (refused m)
  unfolding handle_conn
  spoofed_frame_ends stream rest nows read decoded found at known pinned differ =
      ground (arith, read, spoofed_packet decoded found at known pinned differ)
