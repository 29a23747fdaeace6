-- ===== src/Adapter/Peer/Echo.antt =====
-- The echo frames of internal/adapter/peer.go.
use fafsturmudprelay.Prelude.{
  ℕ, ◌+◌, ◌-◌, ◌/◌, ◌%◌, ◌^◌, ◌<◌, ◌≡◌, refl, ap, ◌∙◌, List, [], ◌∷◌, Bytes, arith, true, ◌==◌,
}
use fafsturmudprelay.Protocol.Binary.{put_uint64_be, uint64_be, put_uint32_be, uint64_be-put}
use fafsturmudprelay.Adapter.Peer.{
  Peer, Effect, send, ping_frame, pong_frame, relay_to_game, measured, dest_of, rtt_is_estimated,
}

echoed :
    (p : Peer) (sent now : ℕ)
    → relay_to_game p (ping_frame sent) now
      ≡ (p, send (dest_of p) (pong_frame (ping_frame sent)) ∷ [])
unfolding relay_to_game ping_frame put_uint64_be put_uint32_be
echoed p sent now = refl

received :
    (p : Peer) (sent now : ℕ)
    → relay_to_game p (pong_frame (ping_frame sent)) now
      ≡ (measured p now (uint64_be (put_uint64_be (sent % 2 ^ 64))), [])
unfolding relay_to_game ping_frame put_uint64_be put_uint32_be
received p sent now = refl

timed :
    (p : Peer) (sent now : ℕ)
    → sent < now
    → now < 2 ^ 63
    → measured p now (uint64_be (put_uint64_be (sent % 2 ^ 64)))
      ≡ record p { rtt_ms = (now - sent) / 10 ^ 6 }
timed p sent now h k = ground (arith, uint64_be-put (sent % 2 ^ 64))

-- A ping that one adapter sends at the time `sent` is answered by the other's peer, whenever it
-- takes it, with a pong; taking the pong at a later time `now`, below 2^63, sets the round-trip time
-- to the milliseconds between the two. Neither frame reaches a game, and nothing else changes.
pub echo_measures :
    (p q : Peer) (sent between now : ℕ)
    → sent < now
    → now < 2 ^ 63
    → (pong : Bytes) × (relay_to_game q (ping_frame sent) between ≡ (q, send (dest_of q) pong ∷ []))
      × (relay_to_game p pong now ≡ (record p { rtt_ms = (now - sent) / 10 ^ 6 }, []))
echo_measures p q sent between now h k = (
  pong_frame (ping_frame sent),
  echoed q sent between,
  received p sent now ∙ ap (λ (x : Peer). (x, [])) (timed p sent now h k),
)

-- A measured round trip of less than a millisecond is stored as 0, and is then reported as an estimate.
pub short_echo_is_estimated :
    (p : Peer) (sent now : ℕ)
    → sent < now
    → now < sent + 10 ^ 6
    → now < 2 ^ 63
    → rtt_is_estimated (relay_to_game p (pong_frame (ping_frame sent)) now).0 ≡ true
unfolding rtt_is_estimated
short_echo_is_estimated p sent now h short k =
    ap (λ (x : Peer × List Effect). x.0.rtt_ms == 0) (received p sent now)
    ∙ ap (λ (x : Peer). x.rtt_ms == 0) (timed p sent now h k)
    ∙ ground (arith, short)
