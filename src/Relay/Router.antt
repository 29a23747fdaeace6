-- ===== src/Relay/Router.antt =====
-- internal/relay/router.go: how a packet finds its way from the UDP socket to other players.
-- Whether a write to the network succeeds is the network's choice: `net` says it for each write.
-- The writes that were made are listed in `sent`. Logging and write deadlines are left out.
pub mod Delivery
pub mod Datagrams
pub mod Oversized
pub mod Relayed
use fafsturmudprelay.Prelude.{
  ℕ, ◌+◌, ◌≡◌, refl, Option, none, some, Bool, true, false, not, ◌&&◌, ◌||◌, List, [], ◌∷◌, ◌++◌,
  Bytes, length, take, get_elem?, ltb, ◌==◌, if◌then◌else◌,
}
use fafsturmudprelay.Outcome.{Outcome, ok, err, panic, ◌>>=◌}
use fafsturmudprelay.Protocol.RelayWire.{
  WireError, relay_header_size, broadcast_dest, decode_relay_header,
}
use fafsturmudprelay.Relay.TcpFrame.{FrameError, write_tcp_frame}
use fafsturmudprelay.Relay.Metrics.{
  Metrics, count_dropped, count_spoofed, count_rate_limited, count_routed, count_bytes,
}
use fafsturmudprelay.Relay.Session.Player.{
  AddrPort, Conn, Verdict, verdict_ok, first_addr, unknown, spoofed, rate_limited, is_valid,
}
use fafsturmudprelay.Relay.Session.{
  Session, PlayerSendTarget, get_player_target, other_player_targets, update_player_addr,
}
use fafsturmudprelay.Relay.SessionManager.{Manager, modify, find_session_by_player}

-- A write to the network: a datagram to an address, or a frame on a connection.
pub data Sent : Type 0 where
  to_udp : AddrPort → Bytes → Sent
  to_tcp : Conn → Bytes → Sent

pub record Routing : Type 0 where
  pub metrics : Metrics
  pub sent : List Sent

-- make([]byte, 1500)
abbrev pub read_buffer_size : ℕ
read_buffer_size = 1500

abbrev pub drop_packet : Routing → Routing
drop_packet r = record r { metrics = count_dropped r.metrics }

module _ (net : Sent → Bool) where
  -- Whether the target took the packet, and what was written.
  unfoldable pub send_to_target : PlayerSendTarget → Bytes → Outcome FrameError (Bool × List Sent)
  send_to_target t packet = elim t.tcp_conn [
    | some conn ↦ do
      frame ← write_tcp_frame packet
      ok (net (to_tcp conn frame), to_tcp conn frame ∷ [])
    | none ↦
        if is_valid t.udp_addr
        then ok (net (to_udp t.udp_addr packet), to_udp t.udp_addr packet ∷ [])
        else ok (false, [])
  ]

  -- What `unicast` and `broadcast` do with one target.
  unfoldable pub deliver : PlayerSendTarget → Bytes → Routing → Outcome FrameError Routing
  unfolding send_to_target
  deliver t packet r = do
    (taken, writes) ← send_to_target t packet
    let s : Routing = record r { sent = r.sent ++ writes }
    if not taken
        then ok (drop_packet s)
        else ok (record s { metrics = count_bytes (count_routed s.metrics) (length packet) })

  unfoldable pub unicast : Session → ℕ → Bytes → Routing → Outcome FrameError Routing
  unfolding deliver
  unicast s dest_id packet r = elim (get_player_target s dest_id) [
    | none ↦ ok (drop_packet r)
    | some t ↦ deliver t packet r
  ]

  unfoldable pub deliver_all : List PlayerSendTarget → Bytes → Routing → Outcome FrameError Routing
  unfolding deliver
  deliver_all [] packet r = ok r
  deliver_all (t ∷ ts) packet r = do r' ← deliver t packet r; deliver_all ts packet r'

  unfoldable pub broadcast : Session → ℕ → Bytes → Routing → Outcome FrameError Routing
  unfolding deliver_all
  broadcast s sender_id packet r = deliver_all (other_player_targets s sender_id) packet r

  -- The choice between `broadcast` and `unicast`, shared with the TCP handler.
  unfoldable pub forward : Session → ℕ → ℕ → Bytes → Routing → Outcome FrameError Routing
  unfolding broadcast unicast
  forward s sender_id dest_id packet r =
      if dest_id == broadcast_dest
      then broadcast s sender_id packet r
      else unicast s dest_id packet r

  -- The packet is echoed to where it came from, whatever becomes of the write.
  abbrev echo : AddrPort → Bytes → Routing → Routing
  echo remote_addr packet r = record {
    metrics = count_routed r.metrics;
    sent = r.sent ++ (to_udp remote_addr packet ∷ []);
  }

  abbrev pub with_metrics :
      Manager → Outcome FrameError Routing → Outcome FrameError (Manager × List Sent)
  with_metrics m (ok r) = ok (record m { metrics = r.metrics }, r.sent)
  with_metrics m (err e) = err e
  with_metrics m panic = panic

  -- The switch on the verdict and the routing, with the session as UpdatePlayerAddr left it.
  route_by_verdict :
      Verdict → Session → ℕ → ℕ → AddrPort → Bytes → Routing → Outcome FrameError Routing
  unfolding forward
  route_by_verdict spoofed s sender_id dest_id remote_addr packet r =
      ok (record r { metrics = count_spoofed r.metrics })
  route_by_verdict rate_limited s sender_id dest_id remote_addr packet r =
      ok (record r { metrics = count_rate_limited r.metrics })
  route_by_verdict unknown s sender_id dest_id remote_addr packet r = ok (drop_packet r)
  route_by_verdict _ s sender_id dest_id remote_addr packet r =
      if dest_id == sender_id
      then ok (echo remote_addr packet r)
      else forward s sender_id dest_id packet r

  route_from :
      Manager → Option ℕ → ℕ → ℕ → AddrPort → Bytes → ℕ → Outcome FrameError (Manager × List Sent)
  unfolding route_by_verdict
  route_from m none sender_id dest_id remote_addr packet now =
      ok (record m { metrics = count_dropped m.metrics }, [])
  route_from m (some ref) sender_id dest_id remote_addr packet now = elim (get_elem? m.heap ref) [
    | none ↦ panic
    | some s ↦
        let (t, verdict) = update_player_addr s sender_id remote_addr now in
        with_metrics (modify m ref (λ _. t)) (
          route_by_verdict verdict t sender_id dest_id remote_addr packet
            (record { metrics = m.metrics; sent = [] }))
  ]

  -- One round of the loop of `Run`, on a packet that was read into the buffer.
  unfoldable pub route_packet :
      Manager → AddrPort → Bytes → ℕ → Outcome FrameError (Manager × List Sent)
  unfolding route_from modify
  route_packet m remote_addr packet now =
      if ltb (length packet) relay_header_size
      then ok (record m { metrics = count_dropped m.metrics }, [])
      else (elim (decode_relay_header packet) [
        | ok (sender_id, dest_id) ↦
            route_from m (find_session_by_player m sender_id) sender_id dest_id remote_addr packet
              now
        | err e ↦ ok (record m { metrics = count_dropped m.metrics }, [])
        | panic ↦ panic
      ])

  -- The datagrams that `Run` reads until it is cancelled: a failed read changes nothing, and what
  -- does not fit the buffer is cut off.
  unfoldable pub run_router :
      Manager → List (AddrPort × Bytes × ℕ) → Outcome FrameError (Manager × List Sent)
  unfolding route_packet
  run_router m [] = ok (m, [])
  run_router m ((remote_addr, datagram, now) ∷ rest) = do
    (m', sent) ← route_packet m remote_addr (take read_buffer_size datagram) now
    (m'', more) ← run_router m' rest
    ok (m'', sent ++ more)
