-- ===== src/Relay/TcpFrame/RoundTrip.antt =====
-- Frames are read back as they were written, one after another, and nothing else is accepted.
use fafsturmudprelay.Prelude.{
  ℕ, ◌+◌, ◌%◌, ◌^◌, ◌≤◌, ◌<◌, ◌≡◌, ap, ap₂, sym, ◌∙◌, ◌*◌, ◌↔◌, [], ◌∷◌, ◌++◌, Bytes, All, length,
  take, drop, arith, take-append, drop-append, length-append, length-take_le, take-append-drop,
}
use fafsturmudprelay.Outcome.{ok, panic}
use fafsturmudprelay.Protocol.Binary.{IsByte, put_uint16_be, uint16_be}
use fafsturmudprelay.Relay.TcpFrame.{
  max_tcp_frame_payload, write_tcp_frame, read_tcp_frame, read_full,
}

pub read_full-append : (xs rest : Bytes) → read_full (length xs) (xs ++ rest) ≡ ok (xs, rest)
unfolding read_full
read_full-append xs rest =
    ground (arith, take-append xs rest, drop-append xs rest, length-append xs rest)

-- A packet of 1 to 1400 bytes is framed without a panic, and reading the frame, whatever follows
-- it in the stream, gives the packet and leaves what follows.
pub read-write :
    (size : ℕ) (packet rest : Bytes)
    → 0 < length packet
    → length packet ≤ max_tcp_frame_payload
    → length packet ≤ size
    → (frame : Bytes) × (write_tcp_frame packet ≡ ok frame)
      × (read_tcp_frame size (frame ++ rest) ≡ ok (packet, rest))
unfolding write_tcp_frame read_tcp_frame put_uint16_be uint16_be
read-write size packet rest pos fits room =
    let e : length packet % 2 ^ 16 ≡ length packet = omega arith in
    (
      put_uint16_be (length packet % 2 ^ 16) ++ packet,
      ground arith,
      ground
          (arith, e, take-append packet rest, drop-append packet rest, length-append packet rest),
    )

-- What the reader has checked when it accepts a frame.
read_accepts :
    (size a b : ℕ) (body packet rest : Bytes)
    → read_tcp_frame size (a ∷ b ∷ body) ≡ ok (packet, rest)
    → let n : ℕ = a * 2 ^ 8 + b in
      (0 < n)
      × (n ≤ max_tcp_frame_payload)
      × (n ≤ size)
      × (n ≤ length body)
      × (packet ≡ take n body)
      × (rest ≡ drop n body)
unfolding read_tcp_frame uint16_be
read_accepts size a b body packet rest h = ground arith

-- A frame that is accepted has 1 to 1400 bytes, no more than the buffer, and the stream was the
-- frame as the writer makes it and then the rest: so no byte is skipped or read twice.
pub write-read :
    (size : ℕ) (stream packet rest : Bytes)
    → All IsByte stream
    → read_tcp_frame size stream ≡ ok (packet, rest)
    → (0 < length packet)
      × (length packet ≤ max_tcp_frame_payload)
      × (length packet ≤ size)
      × ((frame : Bytes) × (write_tcp_frame packet ≡ ok frame) × (stream ≡ frame ++ rest))
unfolding write_tcp_frame read_tcp_frame put_uint16_be uint16_be
write-read size [] packet rest bytes h = ground arith
write-read size (a ∷ []) packet rest bytes h = ground arith
write-read size (a ∷ b ∷ body) packet rest bytes h =
    let (pos, fits, room, there, p, r) = read_accepts size a b body packet rest h in
    let n : ℕ = a * 2 ^ 8 + b in
    let l : length packet ≡ n = ap length p ∙ length-take_le n body there in
    (
      omega arith,
      omega arith,
      omega arith,
      (
        a ∷ b ∷ packet,
        ground (arith, l),
        ap (λ (t : Bytes). a ∷ b ∷ t) (sym (ap₂ ◌++◌ p r ∙ take-append-drop n body)),
      ),
    )

-- The writer panics exactly on packets of more than 1400 bytes, and never returns an error.
pub write_panics :
    (packet : Bytes) → (write_tcp_frame packet ≡ panic) ↔ (max_tcp_frame_payload < length packet)
unfolding write_tcp_frame
write_panics packet = ground arith
