-- ===== src/Adapter/Startup.antt =====
-- internal/adapter/adapter.go: how the adapter gets ready for the relay server, and how it leaves it.
-- `dial` is the TCP dialer, `net` says of each write whether the network takes it. The goroutines that
-- register and that choose the transport run one after the other here.
pub mod Probe
pub mod Transport
pub mod Once
use fafsturmudprelay.Prelude.{
  ℕ, Option, none, some, Bool, true, false, not, List, [], ◌∷◌, Bytes, length, ltb, ◌==◌,
  if◌then◌else◌,
}
use fafsturmudprelay.Outcome.{Outcome, ok, err}
use fafsturmudprelay.Protocol.RelayWire.{relay_header_size, decode_relay_header}
use fafsturmudprelay.Relay.Session.Player.{AddrPort, same_ip}
use fafsturmudprelay.Adapter.RelayConnection.{
  RelayConnection, Written, send_hello, switch_to_tcp, mark_transport_ready, confirm_relay,
}
use fafsturmudprelay.Adapter.RelayConnection.Backoff.{greet}
use fafsturmudprelay.Adapter.RelayHttp.{
  RelayConfig, HttpRequest, Answer, Bodies, check_relay_health, register_with_relay, leave_relay,
}

-- `setup_done` says whether relaySetupOnce has run.
pub record Setup (Site : Type 0) : Type 0 where
  pub site : Site
  pub connection : RelayConnection
  pub setup_done : Bool

-- A datagram that arrives in a read of the probe, and when it does.
pub record Arrival : Type 0 where
  pub sender : AddrPort
  pub packet : Bytes
  pub at : ℕ

-- A hello of the probe, sent at `sent_at`, and what arrives until the next one is due.
pub record ProbeRound : Type 0 where
  pub sent_at : ℕ
  pub arrived : List Arrival

-- What came of the probe that TCPFallback waits for: it ended, or the context was cancelled first.
pub data Probing : Type 0 where
  probed : List ProbeRound → Probing
  cancelled : Probing

-- The inner loop of ProbeRelayUDP: it ends with a pong or at a read's deadline.
unfoldable pub probe_reads : RelayConnection → List Arrival → Option RelayConnection
probe_reads rc [] = none
probe_reads rc (a ∷ rest) =
    let more = probe_reads rc rest in
    if not (same_ip a.sender.ip rc.relay_addr.ip)
    then more
    else if ltb (length a.packet) relay_header_size
    then more
    else (elim (decode_relay_header a.packet) [
      | ok (sender_id, _) ↦
          if sender_id == rc.local_id
          then some (confirm_relay (record rc { last_recv = a.at }))
          else more
      | _ ↦ more
    ])

-- Where the relay listens for TCP.
unfoldable pub tcp_addr : RelayConfig → Bytes
tcp_addr cfg = if length cfg.relay_tcp_server == 0 then cfg.relay_server else cfg.relay_tcp_server

module _ (net : Written → Bool) where
  -- The rounds end when ProbeTimeout has passed. A hello that fails ends the probe.
  unfoldable pub probe_relay_udp : RelayConnection → List ProbeRound → RelayConnection × Bool
  unfolding probe_reads
  probe_relay_udp rc [] = (rc, false)
  probe_relay_udp rc (r ∷ rounds) = elim (send_hello net rc r.sent_at) [
    | ok (sent, written, true) ↦ elim (probe_reads sent r.arrived) [
      | some confirmed ↦ (confirmed, true)
      | none ↦ probe_relay_udp sent rounds
    ]
    | ok (sent, written, false) ↦ (sent, false)
    | _ ↦ (rc, false)
  ]

  -- SwitchToTCP, and a hello if it worked.
  unfoldable pub try_tcp : RelayConfig → (Bytes → Option ℕ) → RelayConnection → ℕ → RelayConnection
  unfolding switch_to_tcp
  try_tcp cfg dial rc now =
      let (switched, connected) = switch_to_tcp rc (dial (tcp_addr cfg)) in
      if connected then greet net switched now else switched

  -- Before MarkTransportReady, which is deferred.
  unfoldable pub setup_transport :
      RelayConfig → (Bytes → Option ℕ) → RelayConnection → Probing → ℕ → RelayConnection
  unfolding try_tcp probe_relay_udp
  setup_transport cfg dial rc probing now =
      if cfg.force_tcp
      then try_tcp cfg dial rc now
      else if cfg.tcp_fallback
      then (elim probing [
        | cancelled ↦ rc
        | probed rounds ↦
            let (after, answered) = probe_relay_udp rc rounds in
            if answered then after else try_tcp cfg dial after now
      ])
      else greet net rc now

  unfoldable pub probe_and_setup_transport :
      RelayConfig → (Bytes → Option ℕ) → RelayConnection → Probing → ℕ → RelayConnection
  unfolding setup_transport mark_transport_ready
  probe_and_setup_transport cfg dial rc probing now =
      mark_transport_ready (setup_transport cfg dial rc probing now)

  module _ {Site : Type 0} (http : Site → HttpRequest → Site × Answer) (json : Bodies)
      (cfg : RelayConfig) where
    -- What relaySetupOnce runs.
    unfoldable pub relay_setup : Site → RelayConnection → ℕ → Site × RelayConnection
    unfolding check_relay_health register_with_relay greet
    relay_setup site rc now =
        if length cfg.relay_http == 0
        then (site, rc)
        else (let (checked, healthy) = check_relay_health http json cfg site in
            let (registered, result) = register_with_relay http json cfg checked in
            elim result [ ok _ ↦ (registered, greet net rc now) | _ ↦ (registered, rc) ])

    unfoldable pub ensure_relay_ready : Setup Site → ℕ → Setup Site
    unfolding relay_setup
    ensure_relay_ready s now =
        if s.setup_done
        then s
        else (let (site, connection) = relay_setup s.site s.connection now in
            record { site = site; connection = connection; setup_done = true })

    -- Steps 7 and 8 of Run: what happens to the relay before the adapter is asked for anything.
    unfoldable pub start_relay :
        (Bytes → Option ℕ) → Setup Site → Probing → (registered_at decided_at : ℕ) → Setup Site
    unfolding ensure_relay_ready probe_and_setup_transport mark_transport_ready
    start_relay dial s probing registered_at decided_at =
        if cfg.use_official_faf
        then record s { connection = mark_transport_ready s.connection }
        else (let ready = ensure_relay_ready s registered_at in
            record ready {
              connection = probe_and_setup_transport cfg dial ready.connection probing decided_at;
            })

    -- The end of Run: the relay is left in the mode that the lobby had.
    unfoldable pub stop_relay : Setup Site → Bool → Setup Site
    unfolding leave_relay
    stop_relay s relay_mode = record s { site = leave_relay http json cfg relay_mode s.site }
