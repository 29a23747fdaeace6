-- ===== src/Protocol/Gpgnet.antt =====
-- internal/protocol/gpgnet.go: the messages between the adapter and the game. A stream that is read
-- is the list of bytes that it delivers before its end; a stream that is written is the list of bytes
-- that were handed to the buffered writer, in order, and its sink does not fail.
pub mod Int32
pub mod Escapes
pub mod Writing
pub mod RoundTrip
pub mod Limits
use fafsturmudprelay.Prelude.{
  ℕ, zero, suc, ◌+◌, ◌^◌, ◌%◌, Option, none, some, Bool, true, false, ◌||◌, List, [], ◌∷◌, ◌++◌,
  Bytes, length, take, drop, ltb, ◌==◌, if◌then◌else◌,
}
use fafsturmudprelay.Prelude.Int.{ℤ, pos, negsuc, ltb_ℤ, pos_part}
use fafsturmudprelay.Outcome.{Outcome, ok, err, panic, ◌>>=◌, map_err}
use fafsturmudprelay.Protocol.Binary.{put_uint32_le, uint32_le}
use Int32.{word_of, signed32}
use Escapes.{replace_escapes}

abbrev pub field_type_int : ℕ
field_type_int = 0

abbrev pub field_type_string : ℕ
field_type_string = 1

abbrev pub max_chunk_size : ℕ
max_chunk_size = 10

abbrev pub max_string_length : ℕ
max_string_length = 65535

-- What fmt.Errorf puts before a wrapped error.
pub data Context : Type 0 where
  string_length string_bytes chunk_count chunk_type int_chunk string_chunk : Context
  message_header message_chunks message_args : Context

pub data GpgError : Type 0 where
  eof unexpected_eof unsupported_type : GpgError
  invalid_string_length : ℤ → GpgError
  too_many_chunks : ℤ → GpgError
  string_too_long : ℕ → GpgError
  wrap : Context → GpgError → GpgError

-- io.ReadFull; binary.Read of an int32 reads its four bytes with it.
unfoldable pub read_full : ℕ → Bytes → Outcome GpgError (Bytes × Bytes)
read_full n stream =
    if ltb (length stream) n
    then err (if length stream == 0 then eof else unexpected_eof)
    else ok (take n stream, drop n stream)

int_value : Bytes → Outcome GpgError ℤ
int_value buf = elim (uint32_le buf) [ none ↦ panic | some w ↦ ok (signed32 w) ]

unfoldable pub read_int : Bytes → Outcome GpgError (ℤ × Bytes)
unfolding read_full int_value
read_int stream = do (buf, rest) ← read_full 4 stream; v ← int_value buf; ok (v, rest)

unfoldable pub read_string : Bytes → Outcome GpgError (Bytes × Bytes)
read_string stream = do
  (size, rest) ← map_err (wrap string_length) (read_int stream)
  if ltb_ℤ size (pos 0) || ltb_ℤ (pos max_string_length) size
      then err (invalid_string_length size)
      else map_err (wrap string_bytes) (read_full (pos_part size) rest)

pub data Chunk : Type 0 where
  number : ℤ → Chunk
  text : Bytes → Chunk

type_of : Bytes → Outcome GpgError ℕ
type_of (b ∷ rest) = ok b
type_of [] = panic

unfoldable pub read_chunk : Bytes → Outcome GpgError (Chunk × Bytes)
unfolding type_of
read_chunk stream = do
  (type_buf, body) ← map_err (wrap chunk_type) (read_full 1 stream)
  type ← type_of type_buf
  if type == field_type_int
      then (do (v, rest) ← map_err (wrap int_chunk) (read_int body); ok (number v, rest))
      else (do
        (s, rest) ← map_err (wrap string_chunk) (read_string body)
        ok (text (replace_escapes s), rest))

unfoldable pub read_chunk_list : ℕ → Bytes → Outcome GpgError (List Chunk × Bytes)
read_chunk_list zero stream = ok ([], stream)
read_chunk_list (suc n) stream = do
  (chunk, rest) ← read_chunk stream
  (chunks, rest') ← read_chunk_list n rest
  ok (chunk ∷ chunks, rest')

-- `make` panics on a negative capacity.
unfoldable pub read_chunks : Bytes → Outcome GpgError (List Chunk × Bytes)
read_chunks stream = do
  (count, rest) ← map_err (wrap chunk_count) (read_int stream)
  if ltb_ℤ (pos max_chunk_size) count
      then err (too_many_chunks count)
      else if ltb_ℤ count (pos 0)
      then panic
      else read_chunk_list (pos_part count) rest

unfoldable pub read_message : Bytes → Outcome GpgError ((Bytes × List Chunk) × Bytes)
read_message stream = do
  (header, rest) ← map_err (wrap message_header) (read_string stream)
  (chunks, rest') ← map_err (wrap message_chunks) (read_chunks rest)
  ok ((header, chunks), rest')
