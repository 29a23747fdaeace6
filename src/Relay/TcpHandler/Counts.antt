-- ===== src/Relay/TcpHandler/Counts.antt =====
-- What the routing of a frame in internal/relay/tcphandler.go leaves alone: the counters of the sessions
-- and of the players.
use fafsturmudprelay.Prelude.{
  ℕ, ◌≤◌, ◌≡◌, refl, ◌∙◌, inl, inr, Bool, true, false, List, [], ◌∷◌, ◌++◌, Bytes, length, arith,
  ◌==◌, if◌then◌else◌, Bool-cases, Option-cases,
}
use fafsturmudprelay.Outcome.{ok, ◌>>=◌}
use fafsturmudprelay.Protocol.RelayWire.{broadcast_dest}
use fafsturmudprelay.Relay.TcpFrame.{max_tcp_frame_payload, write_tcp_frame}
use fafsturmudprelay.Relay.Metrics.{Metrics, count_routed}
use fafsturmudprelay.Relay.Session.Player.{
  Conn, Verdict, verdict_ok, first_addr, unknown, spoofed, rate_limited,
}
use fafsturmudprelay.Relay.Session.{
  Session, PlayerSendTarget, get_player_target, other_player_targets,
}
use fafsturmudprelay.Relay.SessionManager.{Manager}
use fafsturmudprelay.Relay.SessionManager.Consistency.{Consistent}
use fafsturmudprelay.Relay.Router.{Sent, to_tcp, Routing, drop_packet, unicast, forward}
use fafsturmudprelay.Relay.Router.Delivery.{
  frame_of, write_for, writes_for, deliver_lem, broadcast_targets, counted, all_counted, all_taken,
}
use fafsturmudprelay.Relay.TcpHandler.{echo_frame, handle_by_verdict}

-- The two counters of what is registered are as they were.
abbrev pub SameCounts : Metrics → Metrics → Type 0
SameCounts m n = (n.active_sessions ≡ m.active_sessions) × (n.active_players ≡ m.active_players)

counted-SameCounts :
    (net : Sent → Bool) (t : PlayerSendTarget) (packet : Bytes) (m : Metrics)
    → SameCounts m (counted net t packet m)
counted-SameCounts net t packet m = elim (Bool-cases (all_taken net (write_for t packet))) [
  | inl e ↦ rw e (refl, refl)
  | inr e ↦ rw e (refl, refl)
]

all_counted-SameCounts :
    (net : Sent → Bool) (ts : List PlayerSendTarget) (packet : Bytes) (m : Metrics)
    → SameCounts m (all_counted net ts packet m)
all_counted-SameCounts net [] packet m = (refl, refl)
all_counted-SameCounts net (t ∷ ts) packet m =
    let (s, p) = counted-SameCounts net t packet m in
    let (s', p') = all_counted-SameCounts net ts packet (counted net t packet m) in (s' ∙ s, p' ∙ p)

pub Consistent-metrics :
    (m : Manager) (n : Metrics)
    → Consistent m
    → SameCounts m.metrics n
    → Consistent (record m { metrics = n })
Consistent-metrics m n c (s, p) = record {
  sessions_unique = c.sessions_unique;
  index_unique = c.index_unique;
  pointers = c.pointers;
  agree = c.agree;
  bounded = c.bounded;
  sessions_counted = s ∙ c.sessions_counted;
  players_counted = p ∙ c.players_counted;
  sessions_fit = c.sessions_fit;
  players_fit = c.players_fit;
}

module _ (net : Sent → Bool) (packet : Bytes) (fits : length packet ≤ max_tcp_frame_payload) where
  forward-SameCounts :
      (s : Session) (sender_id dest_id : ℕ) (r : Routing)
      → (r' : Routing) × (forward net s sender_id dest_id packet r ≡ ok r')
        × SameCounts r.metrics r'.metrics
  unfolding forward unicast
  forward-SameCounts s sender_id dest_id r = elim (Bool-cases (dest_id == broadcast_dest)) [
    | inl all ↦ (
      record {
        metrics = all_counted net (other_player_targets s sender_id) packet r.metrics;
        sent = r.sent ++ writes_for (other_player_targets s sender_id) packet;
      },
      rw all (broadcast_targets net packet fits s sender_id r),
      all_counted-SameCounts net (other_player_targets s sender_id) packet r.metrics,
    )
    | inr one ↦ elim (Option-cases (get_player_target s dest_id)) [
      | inl e ↦ (drop_packet r, ground (arith, one, e), (refl, refl))
      | inr (t, e) ↦ (
        record { metrics = counted net t packet r.metrics; sent = r.sent ++ write_for t packet },
        ground (arith, one, e, deliver_lem net packet fits t r),
        counted-SameCounts net t packet r.metrics,
      )
    ]
  ]

  echo-SameCounts :
      (conn : Conn) (r : Routing)
      → (x : Routing × Bool) × (echo_frame net conn packet r ≡ ok x)
        × SameCounts r.metrics x.0.metrics
  unfolding echo_frame write_tcp_frame
  echo-SameCounts conn r =
      let framed : write_tcp_frame packet ≡ ok (frame_of packet) = ground (arith, fits) in
      let echoed : List Sent = r.sent ++ (to_tcp conn (frame_of packet) ∷ []) in
      elim (Bool-cases (net (to_tcp conn (frame_of packet)))) [
        | inl e ↦ (
          (record { metrics = count_routed r.metrics; sent = echoed }, true),
          rw (framed, e) refl,
          (refl, refl),
        )
        | inr e ↦ ((record r { sent = echoed }, false), rw (framed, e) refl, (refl, refl))
      ]

  routes-SameCounts :
      (conn : Conn) (s : Session) (sender_id dest_id : ℕ) (r : Routing)
      → (x : Routing × Bool) × ((if dest_id == sender_id
            then echo_frame net conn packet r
            else (forward net s sender_id dest_id packet r >>= λ r'. ok (r', true)))
          ≡ ok x)
        × SameCounts r.metrics x.0.metrics
  routes-SameCounts conn s sender_id dest_id r = elim (Bool-cases (dest_id == sender_id)) [
    | inl e ↦ rw e (echo-SameCounts conn r)
    | inr e ↦
        let (r', f, same) = forward-SameCounts s sender_id dest_id r in
        ((r', true), rw (e, f) refl, same)
  ]

  pub verdict-SameCounts :
      (conn : Conn) (v : Verdict) (s : Session) (sender_id dest_id : ℕ) (r : Routing)
      → (x : Routing × Bool) × (handle_by_verdict net conn v s sender_id dest_id packet r ≡ ok x)
        × SameCounts r.metrics x.0.metrics
  unfolding handle_by_verdict
  verdict-SameCounts conn spoofed s sender_id dest_id r = (_, refl, (refl, refl))
  verdict-SameCounts conn rate_limited s sender_id dest_id r = (_, refl, (refl, refl))
  verdict-SameCounts conn unknown s sender_id dest_id r = (_, refl, (refl, refl))
  verdict-SameCounts conn verdict_ok s sender_id dest_id r =
      routes-SameCounts conn s sender_id dest_id r
  verdict-SameCounts conn first_addr s sender_id dest_id r =
      routes-SameCounts conn s sender_id dest_id r
