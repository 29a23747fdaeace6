-- ===== src/Adapter/RelayConnection/Stream/Frames.antt =====
-- The frames of a stream that the adapter reads from the relay server.
use fafsturmudprelay.Prelude.{
  ℕ, zero, suc, ◌+◌, ◌*◌, ◌^◌, ◌≤◌, ◌<◌, ◌≡◌, ◌≢◌, refl, ◌⊎◌, inl, inr, List, [], ◌∷◌, ◌++◌, Bytes,
  length, arith, All, length-drop,
}
use fafsturmudprelay.Outcome.{Outcome, ok, err, panic}
use fafsturmudprelay.Protocol.RelayWire.{max_relay_packet}
use fafsturmudprelay.Protocol.Binary.{uint16_be}
use fafsturmudprelay.Relay.TcpFrame.{
  read_full, FrameError, eof, empty_frame, short_buffer, frame_too_large,
}
use fafsturmudprelay.Relay.Router.Delivery.{frame_of}
use fafsturmudprelay.Adapter.RelayConnection.{read_tcp_frame}
use fafsturmudprelay.Adapter.RelayConnection.Delivery.{read-frame_of}
use fafsturmudprelay.Adapter.RelayConnection.Stream.{
  Receiver, ran_dry, refused, unfinished, receive_buffer, stop_for, take_frame, read_frames,
}

-- A frame takes its header at least.
read_consumes :
    (size : ℕ) (stream packet rest : Bytes)
    → read_tcp_frame size stream ≡ ok (packet, rest)
    → 2 + length rest ≤ length stream
unfolding read_tcp_frame read_full uint16_be
read_consumes size [] packet rest h = ground (arith, h)
read_consumes size (a ∷ []) packet rest h = ground (arith, h)
read_consumes size (a ∷ b ∷ body) packet rest h =
    ground (arith, h, length-drop (a * 2 ^ 8 + b) body)

-- What a read of a frame may give.
read_cases :
    (o : Outcome FrameError (Bytes × Bytes))
    → ((p : Bytes) × (r : Bytes) × (o ≡ ok (p, r)))
      ⊎ (((e : FrameError) × (o ≡ err e)) ⊎ (o ≡ panic))
read_cases (ok (p, r)) = inl (p, r, refl)
read_cases (err e) = inr (inl (e, refl))
read_cases panic = inr (inr refl)

stop_for-ne : (e : FrameError) → stop_for e ≢ unfinished
stop_for-ne eof h = cc
stop_for-ne empty_frame h = cc
stop_for-ne short_buffer h = cc
stop_for-ne (frame_too_large n) h = cc

refused-ne : refused ≢ unfinished
refused-ne h = cc

-- The frames of packets, one after the other, and then `rest`.
abbrev pub frames_of : List Bytes → Bytes → Bytes
frames_of [] rest = rest
frames_of (p ∷ ps) rest = frame_of p ++ frames_of ps rest

module _ (clock : ℕ → ℕ) where
  -- However the server's bytes are split into frames, the loop that reads them comes to an end: with as
  -- many rounds as there are bytes, and one more, it is never left unfinished.
  pub read_frames_ends :
      (fuel : ℕ) (s : Receiver) (stream : Bytes)
      → length stream < fuel
      → (read_frames clock fuel s stream).1 ≢ unfinished
  unfolding read_frames
  read_frames_ends zero s stream h = elim h [ ]
  read_frames_ends (suc fuel) s stream h =
      elim (read_cases (read_tcp_frame receive_buffer stream)) [
        | inl (p, r, e) ↦
            let less = read_consumes receive_buffer stream p r e in
            rw (e, read_frames) (read_frames_ends fuel (take_frame clock s p) r (omega arith))
        | inr (inl (x, e)) ↦ rw (e, read_frames) (stop_for-ne x)
        | inr (inr e) ↦ rw (e, read_frames) refused-ne
      ]

  abbrev pub take_all : Receiver → List Bytes → Receiver
  take_all s [] = s
  take_all s (p ∷ ps) = take_all (take_frame clock s p) ps

  -- What the relay server frames is what the adapter handles: from a stream of frames of relay packets that
  -- ends within a frame, the loop takes exactly those packets, each once and in order, and then waits.
  pub reads_what_was_framed :
      (ps : List Bytes) (fuel : ℕ) (s : Receiver) (rest : Bytes)
      → All (λ (p : Bytes). length p ≤ max_relay_packet) ps
      → read_tcp_frame receive_buffer rest ≡ err eof
      → length (frames_of ps rest) < fuel
      → read_frames clock fuel s (frames_of ps rest) ≡ (take_all s ps, ran_dry)
  unfolding read_frames
  reads_what_was_framed ps zero s rest sizes cut h = elim h [ ]
  reads_what_was_framed [] (suc fuel) s rest sizes cut h = rw (cut, read_frames) refl
  reads_what_was_framed (p ∷ ps) (suc fuel) s rest sizes cut h =
      rw (read-frame_of receive_buffer p (frames_of ps rest) sizes.0 (omega arith), read_frames)
        (reads_what_was_framed ps fuel (take_frame clock s p) rest sizes.1 cut (
          omega (
            arith,
            read_consumes receive_buffer (frames_of (p ∷ ps) rest) p (frames_of ps rest)
                (read-frame_of receive_buffer p (frames_of ps rest) sizes.0 (omega arith)),
          )))
