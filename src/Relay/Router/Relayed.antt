-- ===== src/Relay/Router/Relayed.antt =====
-- How internal/relay/router.go passes a datagram on to one other player.
use fafsturmudprelay.Prelude.{
  ℕ, ◌≤◌, ◌≡◌, ◌≢◌, some, Bool, true, [], Bytes, length, get_elem?, arith, ==_iff,
}
use fafsturmudprelay.Outcome.{ok}
use fafsturmudprelay.Protocol.RelayWire.{decode_relay_header, broadcast_dest}
use fafsturmudprelay.Relay.TcpFrame.{max_tcp_frame_payload}
use fafsturmudprelay.Relay.Session.Player.{AddrPort, Verdict}
use fafsturmudprelay.Relay.Session.Packets.{is_accepted}
use fafsturmudprelay.Relay.Session.{
  Session, PlayerSendTarget, get_player_target, update_player_addr,
}
use fafsturmudprelay.Relay.SessionManager.{Manager, modify, find_session_by_player}
use fafsturmudprelay.Relay.Router.{Sent, unicast, forward, route_by_verdict, route_packet}
use fafsturmudprelay.Relay.Router.Delivery.{write_for, deliver_lem, counted}
use fafsturmudprelay.Relay.Router.Datagrams.{decoded_long}
use fafsturmudprelay.Relay.Router.Oversized.{accepted-cases}

-- An accepted datagram for one other player is written to that player's transport, unchanged.
pub relayed :
    (net : Sent → Bool) (m : Manager) (remote : AddrPort) (packet : Bytes) (a b ref now : ℕ)
    (s t : Session) (v : Verdict) (target : PlayerSendTarget)
    → length packet ≤ max_tcp_frame_payload
    → decode_relay_header packet ≡ ok (a, b)
    → a ≢ b
    → b ≢ broadcast_dest
    → find_session_by_player m a ≡ some ref
    → get_elem? m.heap ref ≡ some s
    → update_player_addr s a remote now ≡ (t, v)
    → is_accepted v ≡ true
    → get_player_target t b ≡ some target
    → (m' : Manager) × (route_packet net m remote packet now ≡ ok (m', write_for target packet))
unfolding route_packet route_by_verdict forward unicast
relayed net m remote packet a b ref now s t v target fits decoded other one found at updated
      accepted there =
    (
      record (modify m ref (λ _. t)) { metrics = counted net target packet m.metrics },
      ground (
        arith,
        decoded,
        decoded_long packet (a, b) decoded,
        found,
        at,
        updated,
        accepted-cases v accepted,
        ==_iff b a,
        ==_iff b broadcast_dest,
        there,
        deliver_lem net packet fits target (record { metrics = m.metrics; sent = [] }),
      ),
    )
