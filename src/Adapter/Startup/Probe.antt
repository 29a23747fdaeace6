-- ===== src/Adapter/Startup/Probe.antt =====
-- What the UDP probe of internal/adapter/relayconn.go finds out.
use fafsturmudprelay.Prelude.{
  ℕ, ◌≡◌, refl, Option, none, some, Bool, false, not, ◌&&◌, ◌||◌, List, [], ◌∷◌, length, ltb, ◌==◌,
  arith, is_some,
}
use fafsturmudprelay.Outcome.{ok}
use fafsturmudprelay.Protocol.RelayWire.{
  relay_header_size, decode_relay_header, encode_relay_header,
}
use fafsturmudprelay.Relay.Session.Player.{same_ip}
use fafsturmudprelay.Adapter.RelayConnection.{
  RelayConnection, Written, datagram, send_hello, build_packet, written_for,
}
use fafsturmudprelay.Adapter.RelayConnection.Delivery.{packet_of}
use fafsturmudprelay.Adapter.Startup.{Arrival, ProbeRound, probe_reads, probe_relay_udp}

-- A hello of one's own that comes back from the relay server.
abbrev is_pong : RelayConnection → Arrival → Bool
is_pong rc a =
    same_ip a.sender.ip rc.relay_addr.ip
    && (not (ltb (length a.packet) relay_header_size) && (elim (decode_relay_header a.packet) [
      | ok (sender, _) ↦ sender == rc.local_id
      | _ ↦ false
    ]))

abbrev any_pong : RelayConnection → List Arrival → Bool
any_pong rc [] = false
any_pong rc (a ∷ rest) = is_pong rc a || any_pong rc rest

reads_find_pong :
    (rc : RelayConnection) (arrived : List Arrival)
    → is_some (probe_reads rc arrived) ≡ any_pong rc arrived
unfolding probe_reads
reads_find_pong rc [] = refl
reads_find_pong rc (a ∷ rest) = ground (arith, reads_find_pong rc rest)

abbrev Kept : RelayConnection → Option RelayConnection → Type 0
Kept rc none = Unit {0}
Kept rc (some after) = (after.use_tcp ≡ rc.use_tcp) × (after.tcp_conn ≡ rc.tcp_conn)

reads_keep : (rc : RelayConnection) (arrived : List Arrival) → Kept rc (probe_reads rc arrived)
unfolding probe_reads
reads_keep rc [] = tt
reads_keep rc (a ∷ rest) = ground (arith, reads_keep rc rest)

-- The datagram that says hello.
abbrev pub hello : RelayConnection → Written
hello rc = datagram rc.relay_addr (packet_of rc.local_id rc.local_id [])

send_hello_lem :
    (net : Written → Bool) (rc : RelayConnection) (now : ℕ)
    → rc.use_tcp ≡ false
    → send_hello net rc now ≡ ok (record rc { hello_sent_at = now }, hello rc, net (hello rc))
unfolding send_hello build_packet written_for encode_relay_header
send_hello_lem net rc now udp = ground (arith, udp)

abbrev pub heard : RelayConnection → List ProbeRound → Bool
heard rc [] = false
heard rc (r ∷ rounds) = any_pong rc r.arrived || heard rc rounds

-- A UDP probe succeeds exactly when the network takes the hello and, before time is up, a datagram from
-- the relay server's IP brings back a packet of the adapter's own id.
pub probe_finds_pong :
    (net : Written → Bool) (rc : RelayConnection) (rounds : List ProbeRound)
    → rc.use_tcp ≡ false
    → (probe_relay_udp net rc rounds).1 ≡ (net (hello rc) && heard rc rounds)
unfolding probe_relay_udp
probe_finds_pong net rc [] udp = ground arith
probe_finds_pong net rc (r ∷ rounds) udp =
    let sent : RelayConnection = record rc { hello_sent_at = r.sent_at } in
    ground (
      arith,
      send_hello_lem net rc r.sent_at udp,
      reads_find_pong sent r.arrived,
      probe_finds_pong net sent rounds udp,
    )

-- The probe leaves the transport as it is.
pub probe_keeps :
    (net : Written → Bool) (rc : RelayConnection) (rounds : List ProbeRound)
    → rc.use_tcp ≡ false
    → ((probe_relay_udp net rc rounds).0.use_tcp ≡ false)
      × ((probe_relay_udp net rc rounds).0.tcp_conn ≡ rc.tcp_conn)
unfolding probe_relay_udp
probe_keeps net rc [] udp = (udp, refl)
probe_keeps net rc (r ∷ rounds) udp =
    let sent : RelayConnection = record rc { hello_sent_at = r.sent_at } in
    ground (
      arith,
      send_hello_lem net rc r.sent_at udp,
      reads_keep sent r.arrived,
      probe_keeps net sent rounds udp,
    )
