-- ===== src/Adapter/Startup/Transport.antt =====
-- How the transport to the relay server is chosen at the start of internal/adapter/adapter.go.
use fafsturmudprelay.Prelude.{
  ℕ, ◌≡◌, refl, Option, some, Bool, true, false, not, ◌&&◌, ◌||◌, Bytes, arith, is_some,
  if◌then◌else◌, sym, ap, ◌∙◌, inl, inr, Option-cases,
}
use fafsturmudprelay.Adapter.RelayConnection.{
  RelayConnection, Written, switch_to_tcp, mark_transport_ready,
}
use fafsturmudprelay.Adapter.RelayConnection.Backoff.{greet_keeps}
use fafsturmudprelay.Adapter.RelayHttp.{RelayConfig}
use fafsturmudprelay.Adapter.Startup.{
  Probing, probed, cancelled, tcp_addr, try_tcp, setup_transport, probe_and_setup_transport,
  probe_relay_udp,
}
use fafsturmudprelay.Adapter.Startup.Probe.{hello, heard, probe_finds_pong, probe_keeps}

-- Whether a probe ended without a pong.
abbrev pub unanswered : (Written → Bool) → RelayConnection → Probing → Bool
unanswered net rc cancelled = false
unanswered net rc (probed rounds) = not (net (hello rc) && heard rc rounds)

abbrev pub wants_tcp : (Written → Bool) → RelayConfig → RelayConnection → Probing → Bool
wants_tcp net cfg rc probing = cfg.force_tcp || (cfg.tcp_fallback && unanswered net rc probing)

module _ (net : Written → Bool) (cfg : RelayConfig) (dial : Bytes → Option ℕ) where
  -- In TCP mode the connection is the one that was dialled, otherwise the one that was there.
  abbrev Decided : RelayConnection → RelayConnection → Bool → Type 0
  Decided old rc tcp =
      (rc.use_tcp ≡ tcp) × (rc.tcp_conn ≡ (if tcp then dial (tcp_addr cfg) else old.tcp_conn))

  try_tcp-Decided :
      (rc : RelayConnection) (now : ℕ)
      → rc.use_tcp ≡ false
      → Decided rc (try_tcp net cfg dial rc now) (is_some (dial (tcp_addr cfg)))
  unfolding try_tcp switch_to_tcp
  try_tcp-Decided rc now udp = elim (Option-cases (dial (tcp_addr cfg))) [
    | inl e ↦ ground (arith, e, udp)
    | inr (conn, e) ↦
        let dialled : RelayConnection = record rc { tcp_conn = some conn; use_tcp = true } in
        ground (arith, e, greet_keeps net dialled now)
  ]

  setup-Decided :
      (rc : RelayConnection) (probing : Probing) (now : ℕ)
      → rc.use_tcp ≡ false
      → Decided rc
          (setup_transport net cfg dial rc probing now)
          (wants_tcp net cfg rc probing && is_some (dial (tcp_addr cfg)))
  unfolding setup_transport
  setup-Decided rc cancelled now udp =
      ground (arith, try_tcp-Decided rc now udp, greet_keeps net rc now, udp)
  setup-Decided rc (probed rounds) now udp =
      let after = (probe_relay_udp net rc rounds).0 in
      let kept = probe_keeps net rc rounds udp in
      ground (
        arith,
        try_tcp-Decided rc now udp,
        greet_keeps net rc now,
        udp,
        kept,
        try_tcp-Decided after now kept.0,
        probe_finds_pong net rc rounds udp,
      )

-- However the transport is chosen, it ends up decided, so that the receive loop starts. It is TCP exactly
-- when a connection could be dialled and it was forced, or the fallback is on and the probe went
-- unanswered; and then the connection that is written to is the one that was dialled.
pub transport_decided :
    (net : Written → Bool) (cfg : RelayConfig) (dial : Bytes → Option ℕ) (rc : RelayConnection)
    (probing : Probing) (now : ℕ)
    → rc.use_tcp ≡ false
    → let after = probe_and_setup_transport net cfg dial rc probing now in
      (after.transport_ready ≡ true)
      × (after.use_tcp ≡ (wants_tcp net cfg rc probing && is_some (dial (tcp_addr cfg))))
      × (after.tcp_conn ≡ (if after.use_tcp then dial (tcp_addr cfg) else rc.tcp_conn))
unfolding probe_and_setup_transport mark_transport_ready
transport_decided net cfg dial rc probing now udp =
    let d = setup-Decided net cfg dial rc probing now udp in
    (refl, d.0, d.1 ∙ ap (λ tcp. if tcp then dial (tcp_addr cfg) else rc.tcp_conn) (sym d.0))
