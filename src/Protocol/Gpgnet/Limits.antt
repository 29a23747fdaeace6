-- ===== src/Protocol/Gpgnet/Limits.antt =====
-- What the reader of internal/protocol/gpgnet.go accepts and refuses, and what a failed write
-- leaves behind.
use fafsturmudprelay.Prelude.{
  ℕ, zero, suc, ◌^◌, ◌≤◌, ◌<◌, ◌≡◌, refl, sym, ap, ◌∙◌, List, [], ◌∷◌, ◌++◌, Bytes, length, arith,
  All, length-take_le,
}
use fafsturmudprelay.Prelude.Int.{ℤ, pos, negsuc, pos_part}
use fafsturmudprelay.Outcome.{Outcome, ok, err, panic, >>=-eq-ok}
use fafsturmudprelay.Protocol.Binary.{put_uint32_le}
use fafsturmudprelay.Protocol.Gpgnet.Int32.{word_of, word_of-lt}
use fafsturmudprelay.Protocol.Gpgnet.{
  GpgError, wrap, message_args, unsupported_type, read_full, read_int, read_string, read_chunk,
  read_chunk_list, read_chunks, read_message, Chunk, max_string_length, max_chunk_size,
}
use fafsturmudprelay.Protocol.Gpgnet.RoundTrip.{
  read_int-put, Fits, form, forms, string_form, write_string-form, write_arg-form,
}
use mathlib.Core.List.{append_assoc, append-nil}
use fafsturmudprelay.Protocol.Gpgnet.Writing.{
  Arg, other, write_arg, write_arg_list, write_args, write_message, write_int,
}

-- A chunk array whose count is negative as an int32 panics the reader.
pub negative_count_panics :
    (n : ℕ) (rest : Bytes)
    → n < 2 ^ 31
    → read_chunks (put_uint32_le (word_of (negsuc n)) ++ rest) ≡ panic
unfolding read_chunks
negative_count_panics n rest h =
    ground (arith, read_int-put (word_of (negsuc n)) rest (word_of-lt (negsuc n)))

string_after :
    (o : Outcome GpgError (ℤ × Bytes)) (stream s rest : Bytes)
    → read_int stream ≡ o
    → read_string stream ≡ ok (s, rest)
    → length s ≤ max_string_length
unfolding read_string read_full
string_after (ok (size, body)) stream s rest e h =
    ground (arith, e, length-take_le (pos_part size) body)
string_after (err x) stream s rest e h = ground (arith, e)
string_after panic stream s rest e h = ground (arith, e)

length-chunk_list :
    (n : ℕ) (stream : Bytes) (chunks : List Chunk) (rest : Bytes)
    → read_chunk_list n stream ≡ ok (chunks, rest)
    → length chunks ≡ n
unfolding read_chunk_list
length-chunk_list zero stream chunks rest h = ground arith
length-chunk_list (suc n) stream chunks rest h =
    let ((c, body), one, more) = >>=-eq-ok (read_chunk stream) _ h in
    let ((cs, body'), others, done) = >>=-eq-ok (read_chunk_list n body) _ more in
    ground (arith, length-chunk_list n body cs body' others, done)

chunks_after :
    (o : Outcome GpgError (ℤ × Bytes)) (stream : Bytes) (chunks : List Chunk) (rest : Bytes)
    → read_int stream ≡ o
    → read_chunks stream ≡ ok (chunks, rest)
    → length chunks ≤ max_chunk_size
unfolding read_chunks
chunks_after (ok (count, body)) stream chunks rest e h =
    ground (arith, e, length-chunk_list (pos_part count) body chunks rest)
chunks_after (err x) stream chunks rest e h = ground (arith, e)
chunks_after panic stream chunks rest e h = ground (arith, e)

message_after :
    (o : Outcome GpgError (Bytes × Bytes)) (stream header : Bytes) (chunks : List Chunk)
    (rest : Bytes)
    → read_string stream ≡ o
    → read_message stream ≡ ok ((header, chunks), rest)
    → (length header ≤ max_string_length) × (length chunks ≤ max_chunk_size)
unfolding read_message
message_after (ok (s, body)) stream header chunks rest e h = body_after (read_chunks body) refl
  where
    body_after :
        (o : Outcome GpgError (List Chunk × Bytes))
        → read_chunks body ≡ o
        → (length header ≤ max_string_length) × (length chunks ≤ max_chunk_size)
    body_after (ok (cs, end)) e' = (
      ground (arith, e, e', string_after (read_int stream) stream s body refl),
      ground (arith, e, e', chunks_after (read_int body) body cs end refl),
    )
    body_after (err x) e' = ground (arith, e, e')
    body_after panic e' = ground (arith, e, e')
message_after (err x) stream header chunks rest e h = ground (arith, e)
message_after panic stream header chunks rest e h = ground (arith, e)

-- A message that is read, from whatever stream, has a header of at most 65535 bytes and at most
-- ten chunks.
pub read_message_limits :
    (stream header : Bytes) (chunks : List Chunk) (rest : Bytes)
    → read_message stream ≡ ok ((header, chunks), rest)
    → (length header ≤ max_string_length) × (length chunks ≤ max_chunk_size)
read_message_limits stream header chunks rest h =
    message_after (read_string stream) stream header chunks rest refl h

module _ {Float : Type 0} (float_to_int32 : Float → ℤ) where
  list_stops :
      (good rest : List (Arg Float)) (out : Bytes)
      → All (Fits float_to_int32) good
      → write_arg_list float_to_int32 (good ++ other ∷ rest) out
        ≡ (err unsupported_type, out ++ forms float_to_int32 good)
  unfolding write_arg_list write_arg
  list_stops [] rest out h = ap (λ (t : Bytes). (err unsupported_type, t)) (sym (append-nil out))
  list_stops (a ∷ good) rest out h = rw (write_arg-form float_to_int32 a out h.0) (
      list_stops good rest (out ++ form float_to_int32 a) h.1
      ∙ ap (λ (t : Bytes). (err unsupported_type, t))
          (append_assoc out (form float_to_int32 a) (forms float_to_int32 good)))

  -- A message with an argument of an unsupported type is refused with an error, but its header, its
  -- count and the arguments before that one have been written by then: they stay in the buffer, and
  -- what is written next comes after them.
  pub refused_message_stays :
      (header : Bytes) (good rest : List (Arg Float)) (out : Bytes)
      → length header ≤ max_string_length
      → All (Fits float_to_int32) good
      → write_message float_to_int32 header (good ++ other ∷ rest) out ≡ (
        err (wrap message_args unsupported_type),
        ((out ++ string_form header)
              ++ put_uint32_le (word_of (pos (length (good ++ other ∷ rest)))))
            ++ forms float_to_int32 good,
      )
  unfolding write_message write_args write_int
  refused_message_stays header good rest out h fits = ground (
    arith,
    write_string-form header out h,
    list_stops good rest
        ((out ++ string_form header)
          ++ put_uint32_le (word_of (pos (length (good ++ other ∷ rest)))))
        fits,
  )
