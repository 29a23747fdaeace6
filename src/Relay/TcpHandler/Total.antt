-- ===== src/Relay/TcpHandler/Total.antt =====
-- What handleConn of internal/relay/tcphandler.go does with any stream of bytes.
use fafsturmudprelay.Prelude.{
  ℕ, ◌+◌, ◌*◌, ◌≤◌, ◌≡◌, ◌≢◌, refl, inl, inr, ◌⊎◌, some, Bool, true, false, List, [], ◌∷◌, Bytes,
  length, get_elem?, set, arith, Bool-cases, Option-cases, Option, length-take_le,
}
use fafsturmudprelay.Outcome.{Outcome, ok, err, panic}
use fafsturmudprelay.Protocol.RelayWire.RoundTrip.{decode_agree}
use fafsturmudprelay.Relay.TcpFrame.{max_tcp_frame_payload, read_tcp_frame, read_full}
use fafsturmudprelay.Protocol.Binary.{uint16_be}
use fafsturmudprelay.Relay.Session.Player.{Conn, Verdict}
use fafsturmudprelay.Relay.Session.{Session, update_player_tcp}
use fafsturmudprelay.Relay.SessionManager.{Manager, modify, find_session_by_player}
use fafsturmudprelay.Relay.SessionManager.Consistency.{Consistent}
use fafsturmudprelay.Relay.SessionManager.Writes.{set-Consistent}
use fafsturmudprelay.Relay.SessionManager.Reach.{update_tcp-Harmless, find_session_sound}
use fafsturmudprelay.Relay.Router.{Sent, Routing, read_buffer_size}
use fafsturmudprelay.Relay.TcpHandler.{
  Handled, evict, dropped, handle_by_verdict, handle_from, handle_packet, followed_by, handle_conn,
}
use fafsturmudprelay.Relay.TcpHandler.Counts.{Consistent-metrics, verdict-SameCounts}

module _ (net : Sent → Bool) (packet : Bytes) (fits : length packet ≤ max_tcp_frame_payload) where
  abbrev outcome_of :
      Manager → ℕ → Conn → Session × Verdict × Option Conn → Routing × Bool → Handled
  outcome_of m ref conn u x = record {
    manager = record m { heap = set m.heap ref u.0; metrics = x.0.metrics };
    sent = x.0.sent;
    evicted = evict u.2 conn;
    goes_on = x.1;
  }

  from_found :
      (conn : Conn) (m : Manager) (ref sender_id dest_id now : ℕ) (s : Session) (x : Routing × Bool)
      → get_elem? m.heap ref ≡ some s
      → handle_by_verdict net conn
          (update_player_tcp s sender_id conn now).1
          (update_player_tcp s sender_id conn now).0
          sender_id
          dest_id
          packet
          (record { metrics = m.metrics; sent = [] })
        ≡ ok x
      → handle_from net conn m (some ref) sender_id dest_id packet now
        ≡ ok (outcome_of m ref conn (update_player_tcp s sender_id conn now) x)
  unfolding handle_from modify
  from_found conn m ref sender_id dest_id now s x at ex = ground (arith, at, ex)

  from-Consistent :
      (conn : Conn) (m : Manager) (sender_id dest_id now : ℕ)
      → Consistent m
      → (h : Handled) × (handle_from net conn m
            (find_session_by_player m sender_id)
            sender_id
            dest_id
            packet
            now
          ≡ ok h)
        × Consistent h.manager
  unfolding handle_from modify
  from-Consistent conn m sender_id dest_id now c =
      elim (Option-cases (find_session_by_player m sender_id)) [
        | inl e ↦ rw e (dropped m, refl, Consistent-metrics m _ c (refl, refl))
        | inr (ref, e) ↦
            let found = find_session_sound m sender_id ref c e in
            let s : Session = found.0 in
            let at : get_elem? m.heap ref ≡ some s = found.1 in
            let u = update_player_tcp s sender_id conn now in
            let (x, ex, same) =
              verdict-SameCounts net packet fits conn u.1 u.0 sender_id dest_id
                (record { metrics = m.metrics; sent = [] }) in
            (
              outcome_of m ref conn u x,
              rw e (from_found conn m ref sender_id dest_id now s x at ex),
              Consistent-metrics (record m { heap = set m.heap ref u.0 }) x.0.metrics
                  (set-Consistent m c ref s u.0 at (update_tcp-Harmless sender_id conn now s)) same,
            )
      ]

  packet-Consistent :
      (conn : Conn) (m : Manager) (now : ℕ)
      → Consistent m
      → (h : Handled) × (handle_packet net conn m packet now ≡ ok h) × Consistent h.manager
  unfolding handle_packet
  packet-Consistent conn m now c = elim (decode_agree packet) [
    | inl (short, r, e) ↦ (dropped m, ground (arith, short), Consistent-metrics m _ c (refl, refl))
    | inr (p, r, e, long) ↦
        let (h, eh, ch) = from-Consistent conn m p.sender_id p.dest_id now c in
        (h, ground (arith, e, long, eh), ch)
  ]

read_not_panic : (size : ℕ) (stream : Bytes) → read_tcp_frame size stream ≢ panic
unfolding read_tcp_frame uint16_be read_full
read_not_panic size [] h = ground (arith, h)
read_not_panic size (a ∷ []) h = ground (arith, h)
read_not_panic size (a ∷ b ∷ body) h = ground (arith, h)

read_short :
    (size : ℕ) (stream packet rest : Bytes)
    → read_tcp_frame size stream ≡ ok (packet, rest)
    → length packet ≤ max_tcp_frame_payload
unfolding read_tcp_frame uint16_be read_full
read_short size [] packet rest h = ground (arith, h)
read_short size (a ∷ []) packet rest h = ground (arith, h)
read_short size (a ∷ b ∷ body) packet rest h = ground (arith, h, length-take_le (a * 256 + b) body)

Outcome-cases :
    {E A : Type 0} (o : Outcome E A)
    → ((a : A) × (o ≡ ok a)) ⊎ (((e : E) × (o ≡ err e)) ⊎ (o ≡ panic))
Outcome-cases (ok a) = inl (a, refl)
Outcome-cases (err e) = inr (inl (e, refl))
Outcome-cases panic = inr (inr refl)

module _ (net : Sent → Bool) (conn : Conn) where
  module _ (m : Manager) (stream packet rest : Bytes) (now : ℕ) (nows : List ℕ) (h : Handled)
      (read : read_tcp_frame read_buffer_size stream ≡ ok (packet, rest))
      (here : handle_packet net conn m packet now ≡ ok h) where
    conn_stops : h.goes_on ≡ false → handle_conn net conn m stream (now ∷ nows) ≡ ok h
    unfolding handle_conn
    conn_stops stops = ground (arith, read, here, stops)

    conn_goes_on :
        (k : Handled)
        → h.goes_on ≡ true
        → handle_conn net conn h.manager rest nows ≡ ok k
        → handle_conn net conn m stream (now ∷ nows) ≡ ok (followed_by h k)
    unfolding handle_conn
    conn_goes_on k on later = rw (read, handle_conn, here, on, later) refl

  -- Whatever bytes a connection delivers, handling its frames neither panics nor gives an error: the
  -- handler ends or goes on, and a manager that was consistent is consistent after it.
  pub handle_conn-Consistent :
      (m : Manager) (stream : Bytes) (nows : List ℕ)
      → Consistent m
      → (h : Handled) × (handle_conn net conn m stream nows ≡ ok h) × Consistent h.manager
  unfolding handle_conn
  handle_conn-Consistent m stream [] c =
      (record { manager = m; sent = []; evicted = []; goes_on = true }, refl, c)
  handle_conn-Consistent m stream (now ∷ nows) c =
      elim (Outcome-cases (read_tcp_frame read_buffer_size stream)) [
        | inr (inr e) ↦ absurd (read_not_panic read_buffer_size stream e)
        | inr (inl (failure, e)) ↦ (
          record { manager = m; sent = []; evicted = []; goes_on = false },
          rw (e, handle_conn) refl,
          c,
        )
        | inl ((packet, rest), e) ↦
            let (h, eh, ch) =
              packet-Consistent net packet (read_short read_buffer_size stream packet rest e) conn m
                now c in
            elim (Bool-cases h.goes_on) [
              | inr stops ↦ (h, conn_stops m stream packet rest now nows h e eh stops, ch)
              | inl on ↦
                  let (k, ek, ck) = handle_conn-Consistent h.manager rest nows ch in
                  (followed_by h k, conn_goes_on m stream packet rest now nows h e eh k on ek, ck)
            ]
      ]
