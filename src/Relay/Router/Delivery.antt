-- ===== src/Relay/Router/Delivery.antt =====
-- The deliveries of internal/relay/router.go against what a packet and a target determine: which
-- writes are made, and how they are counted.
use fafsturmudprelay.Prelude.{
  ℕ, ◌%◌, ◌^◌, ◌≤◌, ◌≡◌, refl, sym, ap, ◌∙◌, inl, inr, none, some, Bool, false, List, [], ◌∷◌, ◌++◌,
  Bytes, length, arith, if◌then◌else◌, ◌==◌, nat_eq, is_some, Bool-cases, Option-cases,
}
use mathlib.Core.List.{append_assoc, append-nil}
use fafsturmudprelay.Outcome.{ok}
use fafsturmudprelay.Protocol.Binary.{put_uint16_be}
use fafsturmudprelay.Protocol.RelayWire.{broadcast_dest}
use fafsturmudprelay.Relay.TcpFrame.{write_tcp_frame, max_tcp_frame_payload}
use fafsturmudprelay.Relay.Metrics.{Metrics, count_routed, count_dropped, count_bytes}
use fafsturmudprelay.Relay.Session.Player.{PlayerInfo, is_valid}
use fafsturmudprelay.Relay.Session.{
  Session, PlayerSendTarget, other_player_targets, targets_from, get_player_target,
}
use fafsturmudprelay.Relay.Router.{
  Sent, to_udp, to_tcp, Routing, drop_packet, deliver, deliver_all, unicast, broadcast, forward,
}

-- The frame of a packet that fits one.
abbrev pub frame_of : Bytes → Bytes
frame_of packet = put_uint16_be (length packet % 2 ^ 16) ++ packet

-- The one write that a target gets: on its connection if it has one, else to its address.
abbrev pub write_for : PlayerSendTarget → Bytes → List Sent
write_for t packet = elim t.tcp_conn [
  | some conn ↦ to_tcp conn (frame_of packet) ∷ []
  | none ↦ if is_valid t.udp_addr then to_udp t.udp_addr packet ∷ [] else []
]

abbrev pub writes_for : List PlayerSendTarget → Bytes → List Sent
writes_for [] packet = []
writes_for (t ∷ ts) packet = write_for t packet ++ writes_for ts packet

abbrev pub all_taken : (Sent → Bool) → List Sent → Bool
all_taken net [] = false
all_taken net (w ∷ ws) = net w

abbrev pub counted : (Sent → Bool) → PlayerSendTarget → Bytes → Metrics → Metrics
counted net t packet m =
    if all_taken net (write_for t packet)
    then count_bytes (count_routed m) (length packet)
    else count_dropped m

abbrev pub all_counted : (Sent → Bool) → List PlayerSendTarget → Bytes → Metrics → Metrics
all_counted net [] packet m = m
all_counted net (t ∷ ts) packet m = all_counted net ts packet (counted net t packet m)

-- The writes that a broadcast owes, told from the players of the session alone.
abbrev pub due : ℕ → Bytes → List (ℕ × PlayerInfo) → List Sent
due sender_id packet [] = []
due sender_id packet ((id, p) ∷ rest) =
    let others = due sender_id packet rest in
    if id == sender_id then others else (elim p.tcp_conn [
      | some conn ↦ to_tcp conn (frame_of packet) ∷ others
      | none ↦ if is_some p.addr.ip then to_udp p.addr packet ∷ others else others
    ])

-- Every write is counted by whether the network took it.
abbrev pub count_writes : (Sent → Bool) → Bytes → List Sent → Metrics → Metrics
count_writes net packet [] m = m
count_writes net packet (w ∷ ws) m =
    count_writes net packet ws
      (if net w then count_bytes (count_routed m) (length packet) else count_dropped m)

module _ (net : Sent → Bool) (packet : Bytes) (fits : length packet ≤ max_tcp_frame_payload) where
  pub deliver_lem :
      (t : PlayerSendTarget) (r : Routing)
      → deliver net t packet r
        ≡ ok (record {
          metrics = counted net t packet r.metrics;
          sent = r.sent ++ write_for t packet;
        })
  unfolding deliver write_tcp_frame
  deliver_lem t r = ground arith

  pub deliver_all_lem :
      (ts : List PlayerSendTarget) (r : Routing)
      → deliver_all net ts packet r
        ≡ ok (record {
          metrics = all_counted net ts packet r.metrics;
          sent = r.sent ++ writes_for ts packet;
        })
  unfolding deliver_all
  deliver_all_lem [] r =
      ap (λ (ws : List Sent). ok (record r { sent = ws })) (sym (append-nil r.sent))
  deliver_all_lem (t ∷ ts) r = rw (deliver_lem t r) (
      deliver_all_lem ts
        (record { metrics = counted net t packet r.metrics; sent = r.sent ++ write_for t packet })
      ∙ ap
          (λ (ws : List Sent). ok (record {
            metrics = all_counted net ts packet (counted net t packet r.metrics);
            sent = ws;
          }))
          (append_assoc r.sent (write_for t packet) (writes_for ts packet)))

  pub broadcast_targets :
      (s : Session) (sender_id : ℕ) (r : Routing)
      → broadcast net s sender_id packet r
        ≡ ok (record {
          metrics = all_counted net (other_player_targets s sender_id) packet r.metrics;
          sent = r.sent ++ writes_for (other_player_targets s sender_id) packet;
        })
  unfolding broadcast
  broadcast_targets s sender_id r = deliver_all_lem (other_player_targets s sender_id) r

  due_lem :
      (sender_id : ℕ) (players : List (ℕ × PlayerInfo)) (m : Metrics)
      → (writes_for (targets_from sender_id players) packet ≡ due sender_id packet players)
        × (all_counted net (targets_from sender_id players) packet m
            ≡ count_writes net packet (due sender_id packet players) m)
  unfolding targets_from
  due_lem sender_id [] m = (refl, refl)
  due_lem sender_id ((id, p) ∷ rest) m = elim (Bool-cases (id == sender_id)) [
    | inl mine ↦ rw mine (due_lem sender_id rest m)
    | inr e ↦ elim (Option-cases p.tcp_conn) [
      | inr (conn, c) ↦
          let w = to_tcp conn (frame_of packet) in
          let ih =
            due_lem sender_id rest
              (if net w then count_bytes (count_routed m) (length packet) else count_dropped m) in
          rw (e, c) (ap (λ (ws : List Sent). w ∷ ws) ih.0, ih.1)
      | inl c ↦ elim (Bool-cases (is_some p.addr.ip)) [
        | inr a ↦ rw (e, c, a) (due_lem sender_id rest m)
        | inl a ↦
            let w = to_udp p.addr packet in
            let ih =
              due_lem sender_id rest
                (if net w then count_bytes (count_routed m) (length packet) else count_dropped m) in
            rw (e, c, a, a) (ap (λ (ws : List Sent). w ∷ ws) ih.0, rw (all_counted, a) ih.1)
      ]
    ]
  ]

  -- A broadcast of a packet that fits a frame never fails or panics. For each player of the session but
  -- the sender it makes one write, a frame on the player's connection if there is one, else a datagram
  -- to the player's address if that is valid, and no other write. It counts each write as a routed
  -- packet with its bytes if the network took it, and as a dropped one if not.
  pub broadcast_lem :
      (s : Session) (sender_id : ℕ) (r : Routing)
      → broadcast net s sender_id packet r
        ≡ ok (record {
          metrics = count_writes net packet (due sender_id packet s.players) r.metrics;
          sent = r.sent ++ due sender_id packet s.players;
        })
  unfolding other_player_targets
  broadcast_lem s sender_id r =
      broadcast_targets s sender_id r
      ∙ rw ((due_lem sender_id s.players r.metrics).0, (due_lem sender_id s.players r.metrics).1)
          refl

  -- A packet that fits a frame is forwarded without an error or a panic.
  pub forward_total :
      (s : Session) (sender_id dest_id : ℕ) (r : Routing)
      → (r' : Routing) × (forward net s sender_id dest_id packet r ≡ ok r')
  unfolding forward unicast
  forward_total s sender_id dest_id r = elim (Bool-cases (dest_id == broadcast_dest)) [
    | inl all ↦ (
      record {
        metrics = all_counted net (other_player_targets s sender_id) packet r.metrics;
        sent = r.sent ++ writes_for (other_player_targets s sender_id) packet;
      },
      rw all (broadcast_targets s sender_id r),
    )
    | inr one ↦ elim (Option-cases (get_player_target s dest_id)) [
      | inl e ↦ (drop_packet r, ground (arith, one, e))
      | inr (t, e) ↦ (
        record { metrics = counted net t packet r.metrics; sent = r.sent ++ write_for t packet },
        ground (arith, one, e, deliver_lem t r),
      )
    ]
  ]
