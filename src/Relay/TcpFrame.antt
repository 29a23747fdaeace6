-- ===== src/Relay/TcpFrame.antt =====
-- The TCP framing of internal/relay/router.go: a 2-byte big-endian length and then the packet.
-- A connection that is read is the list of the bytes that it still delivers before its end.
pub mod RoundTrip
use fafsturmudprelay.Prelude.{
  ℕ, ◌+◌, ◌%◌, ◌^◌, none, some, List, [], ◌∷◌, ◌++◌, Bytes, length, take, drop, ltb, ◌==◌,
  if◌then◌else◌, Option,
}
use fafsturmudprelay.Outcome.{Outcome, ok, err, panic, ◌>>=◌}
use fafsturmudprelay.Protocol.Binary.{put_uint16_be, uint16_be}

abbrev pub max_tcp_frame_payload : ℕ
max_tcp_frame_payload = 1400

-- The length of the buffers that tcpFramePool makes.
abbrev pub frame_buffer_size : ℕ
frame_buffer_size = 2 + max_tcp_frame_payload

pub data FrameError : Type 0 where
  eof empty_frame short_buffer : FrameError
  frame_too_large : ℕ → FrameError

-- The bytes that are handed to conn.Write; `(*bp)[:total]` panics beyond the pooled buffer.
unfoldable pub write_tcp_frame : Bytes → Outcome FrameError Bytes
write_tcp_frame bytes =
    let total = 2 + length bytes in
    if ltb frame_buffer_size total
    then panic
    else ok (put_uint16_be (length bytes % 2 ^ 16) ++ bytes)

-- io.ReadFull: exactly `n` bytes and the rest of the stream, or an error at its end.
unfoldable pub read_full : ℕ → Bytes → Outcome FrameError (Bytes × Bytes)
read_full n stream = if ltb (length stream) n then err eof else ok (take n stream, drop n stream)

header_value : Bytes → Outcome FrameError ℕ
header_value hdr = elim (uint16_be hdr) [ none ↦ panic | some n ↦ ok n ]

-- `size` is the length of the caller's buffer. The frame and the rest of the stream.
unfoldable pub read_tcp_frame : ℕ → Bytes → Outcome FrameError (Bytes × Bytes)
unfolding read_full header_value
read_tcp_frame size stream = do
  (hdr, body) ← read_full 2 stream
  n ← header_value hdr
  if n == 0
      then err empty_frame
      else if ltb max_tcp_frame_payload n
      then err (frame_too_large n)
      else if ltb size n
      then err short_buffer
      else read_full n body
