-- ===== src/Relay/Router/Datagrams.antt =====
-- What a datagram can make internal/relay/router.go do: refused ones change one counter, and what is
-- sent stays within the sender's session.
use fafsturmudprelay.Prelude.{
  ℕ, zero, suc, ◌≤◌, ◌≡◌, ◌≢◌, refl, sym, ap, inl, inr, none, some, Bool, true, List, [], ◌∷◌, ◌++◌,
  Bytes, length, get_elem?, set, arith, ◌==◌, Bool-cases, Option-cases, nat_eq, All, All-append,
  not, ◌&&◌,
}
use mathlib.Core.List.{append-nil}
use fafsturmudprelay.Prelude.Map.{lookup, Unique, All-lookup}
use fafsturmudprelay.Outcome.{ok}
use fafsturmudprelay.Protocol.RelayWire.{relay_header_size, broadcast_dest, decode_relay_header}
use fafsturmudprelay.Relay.TcpFrame.{max_tcp_frame_payload}
use fafsturmudprelay.Relay.Metrics.{count_spoofed, count_dropped}
use fafsturmudprelay.Relay.Session.Player.{AddrPort, PlayerInfo, is_valid}
use fafsturmudprelay.Relay.Session.{
  Session, target_of, has_transport, targets_from, other_player_targets, get_player,
  get_player_target,
}
use fafsturmudprelay.Relay.Session.Pinning.{spoofed_udp_refused}
use fafsturmudprelay.Relay.SessionManager.{Manager, find_session_by_player}
use fafsturmudprelay.Relay.Router.{
  Sent, to_udp, to_tcp, Routing, drop_packet, unicast, forward, route_by_verdict, route_packet,
}
use fafsturmudprelay.Relay.Router.Delivery.{
  write_for, writes_for, frame_of, deliver_lem, broadcast_targets, counted, all_counted,
}

pub set-get {ℓ} :
    {A : Type ℓ} (xs : List A) (i : ℕ) (v : A) → get_elem? xs i ≡ some v → set xs i v ≡ xs
set-get [] i v h = refl
set-get (x ∷ xs) zero v h = ground arith
set-get (x ∷ xs) (suc i) v h = ap (◌∷◌ x) (set-get xs i v h)

pub decoded_long :
    (packet : Bytes) (ids : ℕ × ℕ)
    → decode_relay_header packet ≡ ok ids
    → relay_header_size ≤ length packet
unfolding decode_relay_header
decoded_long packet ids h = ground arith

-- A datagram that claims a player whose valid address has another IP sends nothing, and changes
-- nothing in the manager but the counter of spoofed packets.
pub spoofed_datagram_refused :
    (net : Sent → Bool) (m : Manager) (remote : AddrPort) (packet : Bytes)
    (now sender_id dest_id ref : ℕ) (s : Session) (p : PlayerInfo)
    → decode_relay_header packet ≡ ok (sender_id, dest_id)
    → find_session_by_player m sender_id ≡ some ref
    → get_elem? m.heap ref ≡ some s
    → get_player s sender_id ≡ some p
    → is_valid p.addr ≡ true
    → p.addr.ip ≢ remote.ip
    → route_packet net m remote packet now ≡ ok (record m { metrics = count_spoofed m.metrics }, [])
unfolding route_packet route_by_verdict
spoofed_datagram_refused net m remote packet now sender_id dest_id ref s p decoded found at known
      pinned differ =
    ground (
      arith,
      decoded,
      decoded_long packet (sender_id, dest_id) decoded,
      found,
      at,
      spoofed_udp_refused s sender_id p remote now known pinned differ,
      set-get m.heap ref s at,
    )

-- A datagram that claims a player of no session sends nothing, and changes nothing in the manager
-- but the counter of dropped packets.
pub stranger_refused :
    (net : Sent → Bool) (m : Manager) (remote : AddrPort) (packet : Bytes)
    (now sender_id dest_id : ℕ)
    → decode_relay_header packet ≡ ok (sender_id, dest_id)
    → find_session_by_player m sender_id ≡ none
    → route_packet net m remote packet now ≡ ok (record m { metrics = count_dropped m.metrics }, [])
unfolding route_packet
stranger_refused net m remote packet now sender_id dest_id decoded absent =
    ground (arith, decoded, absent, decoded_long packet (sender_id, dest_id) decoded)

-- The write is for this player: on the player's connection, or else to the player's address.
abbrev GoesTo : PlayerInfo → Bytes → Sent → Type 0
GoesTo p packet (to_udp addr written) =
    (p.tcp_conn ≡ none) × (p.addr ≡ addr) × (is_valid addr ≡ true) × (written ≡ packet)
GoesTo p packet (to_tcp conn written) = (p.tcp_conn ≡ some conn) × (written ≡ frame_of packet)

-- The write is for a player of `s` other than `exclude`.
abbrev pub Reaches : Session → ℕ → Bytes → Sent → Type 0
Reaches s exclude packet w =
    (k : ℕ) × (p : PlayerInfo) × (get_player s k ≡ some p) × (k ≢ exclude) × GoesTo p packet w

write_for-Reaches :
    (s : Session) (exclude k : ℕ) (p : PlayerInfo) (packet : Bytes)
    → get_player s k ≡ some p
    → k ≢ exclude
    → All (Reaches s exclude packet) (write_for (target_of k p) packet)
write_for-Reaches s exclude k p packet h n = elim (Option-cases p.tcp_conn) [
  | inr (conn, e) ↦ rw e ((k, p, h, n, (e, refl)), tt)
  | inl e ↦ elim (Bool-cases (is_valid p.addr)) [
    | inl v ↦ rw (e, v) ((k, p, h, n, (e, refl, v, refl)), tt)
    | inr v ↦ rw (e, v) tt
  ]
]

targets-Reaches :
    (s : Session) (exclude : ℕ) (packet : Bytes) (players : List (ℕ × PlayerInfo))
    → All (λ (x : ℕ × PlayerInfo). lookup x.0 s.players ≡ some x.1) players
    → All (Reaches s exclude packet) (writes_for (targets_from exclude players) packet)
unfolding targets_from get_player
targets-Reaches s exclude packet [] h = tt
targets-Reaches s exclude packet ((k, p) ∷ rest) h =
    let others = targets-Reaches s exclude packet rest h.1 in
    elim (Bool-cases (not (k == exclude) && has_transport p)) [
      | inl yes' ↦ rw yes' (
          All-append (Reaches s exclude packet) _ _
            (write_for-Reaches s exclude k p packet h.0 (ground (arith, yes'))) others)
      | inr no' ↦ rw no' others
    ]

-- Forwarding a packet that fits a frame, to a destination other than its sender, adds to what was
-- sent only writes for players of the same session other than the sender.
pub forward_confined :
    (net : Sent → Bool) (s : Session) (sender_id dest_id : ℕ) (packet : Bytes) (r : Routing)
    → Unique s.players
    → length packet ≤ max_tcp_frame_payload
    → dest_id ≢ sender_id
    → (r' : Routing) × (new : List Sent) × (forward net s sender_id dest_id packet r ≡ ok r')
      × (r'.sent ≡ r.sent ++ new)
      × All (Reaches s sender_id packet) new
unfolding forward unicast get_player_target other_player_targets
forward_confined net s sender_id dest_id packet r u fits other =
    elim (Bool-cases (dest_id == broadcast_dest)) [
      | inl all ↦
          let ts = other_player_targets s sender_id in
          (
            record {
              metrics = all_counted net ts packet r.metrics;
              sent = r.sent ++ writes_for ts packet;
            },
            writes_for ts packet,
            rw all (broadcast_targets net packet fits s sender_id r),
            refl,
            targets-Reaches s sender_id packet s.players (All-lookup s.players u),
          )
      | inr one ↦ elim (Option-cases (lookup dest_id s.players)) [
        | inl e ↦ (drop_packet r, [], ground (arith, one, e), sym (append-nil r.sent), tt)
        | inr (p, e) ↦
            let t = target_of dest_id p in
            (
              record {
                metrics = counted net t packet r.metrics;
                sent = r.sent ++ write_for t packet;
              },
              write_for t packet,
              ground (arith, one, e, deliver_lem net packet fits t r),
              refl,
              write_for-Reaches s sender_id dest_id p packet (unfold get_player in e) other,
            )
      ]
    ]
