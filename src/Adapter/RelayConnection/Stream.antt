-- ===== src/Adapter/RelayConnection/Stream.antt =====
-- receiveTCP of internal/adapter/relayconn.go. A connection is the list of the pieces of its byte stream
-- between which it was silent until a read deadline passed; after the last piece it is lost. `clock` is
-- UnixNano() at each frame that is read. The end of the list of connections is a cancelled context.
pub mod Frames
pub mod Silence
use fafsturmudprelay.Prelude.{
  ℕ, zero, suc, ◌+◌, Option, some, Bool, true, false, List, [], ◌∷◌, Bytes, length, if◌then◌else◌,
}
use fafsturmudprelay.Outcome.{ok, err, panic}
use fafsturmudprelay.Relay.TcpFrame.{FrameError, eof, empty_frame, short_buffer, frame_too_large}
use fafsturmudprelay.Adapter.PeerManager.{PeerManager}
use fafsturmudprelay.Adapter.RelayConnection.{
  RelayConnection, Written, read_tcp_frame, handle_packet,
}
use fafsturmudprelay.Adapter.RelayConnection.Backoff.{Reconnect, reconnect_tcp}

-- make([]byte, 1500)
abbrev pub receive_buffer : ℕ
receive_buffer = 1500

-- The connection, its peers and the number of frames read so far.
pub record Receiver : Type 0 where
  pub connection : RelayConnection
  pub peers : PeerManager
  pub frames : ℕ

-- Why no further frame was read: the bytes ran out, the frame was refused, or the loop's fuel ran out.
pub data Stop : Type 0 where
  ran_dry refused unfinished : Stop

abbrev pub stop_for : FrameError → Stop
stop_for eof = ran_dry
stop_for empty_frame = refused
stop_for short_buffer = refused
stop_for (frame_too_large n) = refused

module _ (clock : ℕ → ℕ) where
  -- The body of the inner loop for one frame.
  unfoldable pub take_frame : Receiver → Bytes → Receiver
  take_frame s packet =
      let (rc, pm) = handle_packet s.connection s.peers packet (clock s.frames) in
      record { connection = rc; peers = pm; frames = suc s.frames }

  -- The inner loop on bytes that arrive without a silence between them.
  unfoldable pub read_frames : ℕ → Receiver → Bytes → Receiver × Stop
  unfolding take_frame
  read_frames zero s stream = (s, unfinished)
  read_frames (suc fuel) s stream = elim (read_tcp_frame receive_buffer stream) [
    | ok (packet, rest) ↦ read_frames fuel (take_frame s packet) rest
    | err e ↦ (s, stop_for e)
    | panic ↦ (s, refused)
  ]

  -- The inner loop on one connection: a timeout is soft, every other error ends it.
  unfoldable pub read_connection : Receiver → List Bytes → Receiver
  unfolding read_frames
  read_connection s [] = s
  read_connection s (piece ∷ pieces) =
      let (s', stop) = read_frames (suc (length piece)) s piece in
      elim stop [ ran_dry ↦ read_connection s' pieces | _ ↦ s' ]

  -- The outer loop: each connection comes with the dials after its loss.
  unfoldable pub receive_tcp :
      (Written → Bool) → Receiver → List (List Bytes × List (Option ℕ)) → Receiver
  unfolding read_connection reconnect_tcp
  receive_tcp net s [] = s
  receive_tcp net s ((pieces, dials) ∷ later) =
      let lost = read_connection s pieces in
      let r : Reconnect = reconnect_tcp net (clock lost.frames) lost.connection dials in
      let resumed : Receiver = record lost { connection = r.connection } in
      let go_on = receive_tcp net resumed later in if r.connected then go_on else resumed
