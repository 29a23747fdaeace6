-- ===== src/Adapter/IceTraffic/Rtt.antt =====
-- The round-trip times of the two sides of an ICE connection (internal/adapter/icepeer.go).
use fafsturmudprelay.Prelude.{
  ℕ, ◌-◌, ◌^◌, ◌<◌, ◌≤◌, ◌≡◌, some, ap, ◌∙◌, true, false, [], ◌∷◌, Bytes, arith,
}
use fafsturmudprelay.Protocol.Binary.{
  put_uint32_be, put_uint64_be, uint64_be, uint64_be-put, uint32_be-put,
}
use fafsturmudprelay.Adapter.Peer.{since}
use fafsturmudprelay.Adapter.IceTraffic.{
  IceTraffic, write_ice, ice_to_game, receive_echo, receive_rtt_report, echo_packet,
  faf_prefix_echo, rtt_report, direct, on_remote_echo,
}

module _ (sent now : ℕ) (le : sent ≤ now) (small : now < 2 ^ 63) where
  since_lem : since now sent ≡ now - sent
  since_lem = omega (arith, le, small)

  stamp_lem : uint64_be (put_uint64_be sent) ≡ some sent
  stamp_lem = uint64_be-put sent (omega (arith, le, small))

  -- The answerer's side of an echo.
  mirrors :
      (p : IceTraffic) (between : ℕ)
      → p.offerer ≡ false
      → ice_to_game p (echo_packet faf_prefix_echo sent) between
        ≡ (on_remote_echo p between sent, write_ice (echo_packet faf_prefix_echo sent) ∷ [])
  unfolding ice_to_game receive_echo echo_packet put_uint64_be put_uint32_be
  mirrors p between a = ground (arith, a, stamp_lem)

  -- The offerer's.
  measures :
      (p : IceTraffic)
      → p.offerer ≡ true
      → now - sent < 60000
      → ice_to_game p (echo_packet faf_prefix_echo sent) now
        ≡ (record p { rtt_ms = now - sent }, write_ice (rtt_report (now - sent)) ∷ [])
  unfolding ice_to_game receive_echo echo_packet put_uint64_be put_uint32_be
  measures p o sane = ground (arith, o, stamp_lem, since_lem, sane)

takes_report :
    (p : IceTraffic) (rtt later : ℕ)
    → p.offerer ≡ false
    → rtt < 60000
    → ice_to_game p (rtt_report rtt) later ≡ (direct p rtt, [])
unfolding ice_to_game receive_rtt_report put_uint32_be
takes_report p rtt later a sane =
    ground (arith, a, sane, uint32_be-put rtt [] (omega (arith, sane)))

keeps_role :
    (p : IceTraffic) (between ts : ℕ)
    → p.offerer ≡ false
    → (on_remote_echo p between ts).offerer ≡ false
keeps_role p between ts a = ground (arith, a)

keeps_rest :
    (p : IceTraffic) (between ts rtt : ℕ) → direct (on_remote_echo p between ts) rtt ≡ direct p rtt
keeps_rest p between ts rtt = ground arith

-- The offerer sends an echo at the time `sent`; the answerer, whenever it takes it, sends it back;
-- the offerer takes that less than a minute later, at a time below 2^63, and the answerer then takes
-- the report that the offerer sends. Both sides end with the same round-trip time, the milliseconds
-- between, and the answerer's is no estimate.
pub both_sides_agree :
    (offerer answerer : IceTraffic) (sent between now later : ℕ)
    → offerer.offerer ≡ true
    → answerer.offerer ≡ false
    → sent ≤ now
    → now < 2 ^ 63
    → now - sent < 60000
    → (back report : Bytes) × (answerer' : IceTraffic) × (ice_to_game answerer
          (echo_packet faf_prefix_echo sent)
          between
        ≡ (answerer', write_ice back ∷ []))
      × (ice_to_game offerer back now
          ≡ (record offerer { rtt_ms = now - sent }, write_ice report ∷ []))
      × (ice_to_game answerer' report later
          ≡ (record answerer { rtt_ms = now - sent; rtt_estimated = false }, []))
both_sides_agree offerer answerer sent between now later o a le small sane =
    let answerer' = on_remote_echo answerer between sent in
    (
      echo_packet faf_prefix_echo sent,
      rtt_report (now - sent),
      answerer',
      mirrors sent now le small answerer between a,
      measures sent now le small offerer o sane,
      takes_report answerer' (now - sent) later (keeps_role answerer between sent a) sane
          ∙ ap (λ (x : IceTraffic). (x, [])) (keeps_rest answerer between sent (now - sent)),
    )
