-- ===== src/Examples/Starting.antt =====
-- Concrete starts of an adapter (internal/adapter/adapter.go) and streams from its relay server.
use fafsturmudprelay.Prelude.{
  ℕ, ◌+◌, ◌≡◌, refl, some, true, false, List, [], ◌∷◌, ◌&&◌, Bytes, take, drop, arith, is_some,
  if◌then◌else◌,
}
use fafsturmudprelay.Prelude.Int.{pos}
use fafsturmudprelay.Relay.Router.Delivery.{frame_of}
use fafsturmudprelay.Relay.TcpFrame.{read_full}
use fafsturmudprelay.Protocol.Binary.{put_uint16_be, put_uint32_be}
use fafsturmudprelay.Adapter.PeerManager.{new_peer_manager}
use fafsturmudprelay.Adapter.RelayConnection.{read_tcp_frame, new_relay_connection}
use fafsturmudprelay.Adapter.RelayConnection.Delivery.{packet_of}
use fafsturmudprelay.Adapter.RelayConnection.Stream.{
  Receiver, ran_dry, read_frames, read_connection,
}
use fafsturmudprelay.Adapter.RelayConnection.Stream.Frames.{
  frames_of, take_all, reads_what_was_framed,
}
use fafsturmudprelay.Adapter.RelayConnection.Stream.Silence.{silence_drops_partial_frame}
use fafsturmudprelay.Adapter.RelayHttp.{
  Answer, unreachable, no_answer, register_with_relay, check_relay_health, health_of, create_of,
  relay_request,
}
use fafsturmudprelay.Adapter.Startup.{Setup, ProbeRound, probed, probe_and_setup_transport}
use fafsturmudprelay.Adapter.Startup.Transport.{wants_tcp, transport_decided}
use fafsturmudprelay.Adapter.Startup.Once.{ensure_at, failed_registration_is_final}
use fafsturmudprelay.Examples.Sites.{config, json}
use fafsturmudprelay.Examples.Registrations.{connection, took}

-- A probe in which nothing comes back, on a network that blocks UDP only on the way in.
abbrev silent : List ProbeRound
silent = record { sent_at = 1; arrived = [] } ∷ record { sent_at = 2; arrived = [] } ∷ []

transport_decided_example :
    let after =
      probe_and_setup_transport took
        (config (pos 7))
        (λ addr. some 3)
        connection
        (probed silent)
        9 in
    (after.transport_ready ≡ true)
    × (after.use_tcp
        ≡ (wants_tcp took (config (pos 7)) connection (probed silent) && is_some {A = ℕ} (some 3)))
    × (after.tcp_conn ≡ (if after.use_tcp then some 3 else connection.tcp_conn))
unfolding new_relay_connection
transport_decided_example =
    transport_decided took (config (pos 7)) (λ addr. some 3) connection (probed silent) 9 refl

-- The relay server is down when the adapter starts. A site is the number of requests that were made.
abbrev offline : ℕ → ℕ × Answer
offline n = (n + 1, unreachable)

abbrev fresh : Setup ℕ
fresh = record { site = 0; connection = connection; setup_done = false }

failed_registration_is_final_example :
    ensure_at took (λ n r. offline n) json (config (pos 7)) fresh (1 ∷ 2 ∷ 3 ∷ [])
    ≡ record { site = 2; connection = connection; setup_done = true }
unfolding register_with_relay check_relay_health create_of health_of relay_request
failed_registration_is_final_example =
    failed_registration_is_final took (λ n r. offline n) json (config (pos 7)) fresh 1 (2 ∷ 3 ∷ [])
      no_answer refl (λ h. absurd (omega arith)) refl

abbrev receiver : Receiver
receiver = record { connection = connection; peers = new_peer_manager 7; frames = 0 }

abbrev packets : List Bytes
packets = packet_of 8 7 (1 ∷ 2 ∷ []) ∷ packet_of 9 7 (3 ∷ []) ∷ []

reads_what_was_framed_example :
    read_frames (λ n. n) 30 receiver (frames_of packets (0 ∷ []))
    ≡ (take_all (λ n. n) receiver packets, ran_dry)
unfolding put_uint16_be put_uint32_be read_tcp_frame read_full
reads_what_was_framed_example =
    reads_what_was_framed (λ n. n) packets 30 receiver (0 ∷ []) (omega arith) refl (omega arith)

-- The second packet's frame is cut in its header.
silence_drops_partial_frame_example :
    read_connection
      (λ n. n)
      receiver
      (frames_of packets (take 1 (frame_of (packet_of 8 7 [])))
        ∷ drop 1 (frame_of (packet_of 8 7 []))
        ∷ [])
    ≡ read_connection
        (λ n. n)
        (take_all (λ n. n) receiver packets)
        (drop 1 (frame_of (packet_of 8 7 [])) ∷ [])
unfolding put_uint16_be put_uint32_be
silence_drops_partial_frame_example =
    silence_drops_partial_frame (λ n. n) receiver packets (packet_of 8 7 []) 1
      (drop 1 (frame_of (packet_of 8 7 [])) ∷ []) (omega arith) (omega arith) (omega arith)
