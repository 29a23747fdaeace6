-- ===== src/Adapter/RelayConnection/Stream/Silence.antt =====
-- What a silence of the relay server does to the frames that the adapter reads.
use fafsturmudprelay.Prelude.{
  ℕ, zero, suc, ◌^◌, ◌%◌, ◌≤◌, ◌<◌, ◌≡◌, refl, ap, List, ◌∷◌, Bytes, length, arith, All, take,
  length-take_le,
}
use fafsturmudprelay.Outcome.{err}
use fafsturmudprelay.Protocol.RelayWire.{max_relay_packet}
use fafsturmudprelay.Protocol.Binary.{put_uint16_be, uint16_be}
use fafsturmudprelay.Relay.TcpFrame.{read_full, eof}
use fafsturmudprelay.Relay.Router.Delivery.{frame_of}
use fafsturmudprelay.Adapter.RelayConnection.{read_tcp_frame}
use fafsturmudprelay.Adapter.RelayConnection.Stream.{
  Receiver, Stop, ran_dry, receive_buffer, read_frames, read_connection,
}
use fafsturmudprelay.Adapter.RelayConnection.Stream.Frames.{
  frames_of, take_all, reads_what_was_framed,
}

cut_frame :
    (k : ℕ) (packet : Bytes)
    → length packet ≤ max_relay_packet
    → k < length (frame_of packet)
    → read_tcp_frame receive_buffer (take k (frame_of packet)) ≡ err eof
unfolding read_tcp_frame read_full put_uint16_be uint16_be
cut_frame zero packet fits h = refl
cut_frame (suc zero) packet fits h = refl
cut_frame (suc (suc j)) packet fits h =
    let l : length (take j packet) ≡ j = length-take_le j packet (omega arith) in
    let e : length packet % 2 ^ 16 ≡ length packet = omega arith in ground (arith, l, e, fits)

next_piece :
    (clock : ℕ → ℕ) (s t : Receiver) (piece : Bytes) (pieces : List Bytes)
    → read_frames clock (suc (length piece)) s piece ≡ (t, ran_dry)
    → read_connection clock s (piece ∷ pieces) ≡ read_connection clock t pieces
unfolding read_connection
next_piece clock s t piece pieces e =
    ap
      (λ (x : Receiver × Stop). elim x.1 as (λ _. Receiver) [
        | ran_dry ↦ read_connection clock x.0 pieces
        | _ ↦ x.0
      ])
      e

-- When the relay server falls silent until the read deadline, the packets whose frames had arrived have
-- been handled; of the frame that was under way, the part that had arrived is lost without a trace: what
-- comes after the silence is read as if it began a frame.
pub silence_drops_partial_frame :
    (clock : ℕ → ℕ) (s : Receiver) (ps : List Bytes) (packet : Bytes) (k : ℕ) (pieces : List Bytes)
    → All (λ (p : Bytes). length p ≤ max_relay_packet) ps
    → length packet ≤ max_relay_packet
    → k < length (frame_of packet)
    → read_connection clock s (frames_of ps (take k (frame_of packet)) ∷ pieces)
      ≡ read_connection clock (take_all clock s ps) pieces
silence_drops_partial_frame clock s ps packet k pieces sizes fits h =
    next_piece clock s (take_all clock s ps) (frames_of ps (take k (frame_of packet))) pieces (
      reads_what_was_framed clock ps (suc (length (frames_of ps (take k (frame_of packet))))) s
        (take k (frame_of packet)) sizes (cut_frame k packet fits h) (omega arith))
