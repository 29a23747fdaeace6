-- ===== src/Relay/TcpHandler.antt =====
-- handleConn of internal/relay/tcphandler.go. A connection is the list of the bytes that it still
-- delivers; `net` says of each write whether the network takes it. Deadlines are left out.
pub mod Accepting
pub mod Counts
pub mod Total
pub mod Spoofed
use fafsturmudprelay.Prelude.{
  ℕ, ◌+◌, Option, none, some, Bool, true, false, List, [], ◌∷◌, ◌++◌, Bytes, length, get_elem?, ltb,
  ◌==◌, if◌then◌else◌,
}
use fafsturmudprelay.Outcome.{Outcome, ok, err, panic, ◌>>=◌}
use fafsturmudprelay.Protocol.RelayWire.{relay_header_size, decode_relay_header}
use fafsturmudprelay.Relay.TcpFrame.{FrameError, write_tcp_frame, read_tcp_frame}
use fafsturmudprelay.Relay.Metrics.{count_dropped, count_spoofed, count_rate_limited, count_routed}
use fafsturmudprelay.Relay.Session.Player.{Conn, Verdict, unknown, spoofed, rate_limited}
use fafsturmudprelay.Relay.Session.{Session, update_player_tcp}
use fafsturmudprelay.Relay.SessionManager.{Manager, modify, find_session_by_player}
use fafsturmudprelay.Relay.Router.{Sent, to_tcp, Routing, drop_packet, forward, read_buffer_size}

-- What came of some frames: the manager, the writes, the connections that were asked to close, and
-- whether the handler goes on to the next frame.
pub record Handled : Type 0 where
  pub manager : Manager
  pub sent : List Sent
  pub evicted : List Conn
  pub goes_on : Bool

-- `if oldConn != nil && oldConn != conn { go oldConn.Close() }`
abbrev pub evict : Option Conn → Conn → List Conn
evict none conn = []
evict (some old) conn = if old.handle == conn.handle then [] else old ∷ []

abbrev pub dropped : Manager → Handled
dropped m = record {
  manager = record m { metrics = count_dropped m.metrics };
  sent = [];
  evicted = [];
  goes_on = true;
}

abbrev pub followed_by : Handled → Handled → Handled
followed_by h k = record {
  manager = k.manager;
  sent = h.sent ++ k.sent;
  evicted = h.evicted ++ k.evicted;
  goes_on = k.goes_on;
}

module _ (net : Sent → Bool) (conn : Conn) where
  -- A refused write of the echo ends the connection.
  unfoldable pub echo_frame : Bytes → Routing → Outcome FrameError (Routing × Bool)
  echo_frame packet r = do
    frame ← write_tcp_frame packet
    let s : Routing = record r { sent = r.sent ++ (to_tcp conn frame ∷ []) }
    if net (to_tcp conn frame)
        then ok (record s { metrics = count_routed s.metrics }, true)
        else ok (s, false)

  -- The switch on the verdict and the routing, with the session as UpdatePlayerTCP left it.
  unfoldable pub handle_by_verdict :
      Verdict → Session → ℕ → ℕ → Bytes → Routing → Outcome FrameError (Routing × Bool)
  handle_by_verdict spoofed s sender_id dest_id packet r =
      ok (record r { metrics = count_spoofed r.metrics }, false)
  handle_by_verdict rate_limited s sender_id dest_id packet r =
      ok (record r { metrics = count_rate_limited r.metrics }, true)
  handle_by_verdict unknown s sender_id dest_id packet r = ok (drop_packet r, true)
  handle_by_verdict _ s sender_id dest_id packet r =
      if dest_id == sender_id
      then echo_frame packet r
      else (do r' ← forward net s sender_id dest_id packet r; ok (r', true))

  abbrev pub handled : Manager → List Conn → Routing × Bool → Outcome FrameError Handled
  handled m old (r, more) = ok (record {
    manager = record m { metrics = r.metrics };
    sent = r.sent;
    evicted = old;
    goes_on = more;
  })

  unfoldable pub handle_from : Manager → Option ℕ → ℕ → ℕ → Bytes → ℕ → Outcome FrameError Handled
  unfolding modify
  handle_from m none sender_id dest_id packet now = ok (dropped m)
  handle_from m (some ref) sender_id dest_id packet now = elim (get_elem? m.heap ref) [
    | none ↦ panic
    | some s ↦
        let (t, verdict, old) = update_player_tcp s sender_id conn now in
        handle_by_verdict verdict t sender_id dest_id packet
          (record { metrics = m.metrics; sent = [] })
        >>= handled (modify m ref (λ _. t)) (evict old conn)
  ]

  -- One round of the loop, on a frame that was read.
  unfoldable pub handle_packet : Manager → Bytes → ℕ → Outcome FrameError Handled
  handle_packet m packet now =
      if ltb (length packet) relay_header_size
      then ok (dropped m)
      else (elim (decode_relay_header packet) [
        | ok (sender_id, dest_id) ↦
            handle_from m (find_session_by_player m sender_id) sender_id dest_id packet now
        | err e ↦ ok (dropped m)
        | panic ↦ panic
      ])

  -- The loop, for as many rounds as there are times: one time for each frame, when it was handled.
  -- A failed read ends the connection.
  unfoldable pub handle_conn : Manager → Bytes → List ℕ → Outcome FrameError Handled
  handle_conn m stream [] = ok (record { manager = m; sent = []; evicted = []; goes_on = true })
  handle_conn m stream (now ∷ nows) = elim (read_tcp_frame read_buffer_size stream) [
    | err e ↦ ok (record { manager = m; sent = []; evicted = []; goes_on = false })
    | panic ↦ panic
    | ok (packet, rest) ↦ handle_packet m packet now >>= λ h. elim h.goes_on [
      | false ↦ ok h
      | true ↦ handle_conn h.manager rest nows >>= λ k. ok (followed_by h k)
    ]
  ]
