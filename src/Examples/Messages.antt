-- ===== src/Examples/Messages.antt =====
-- Concrete messages (internal/protocol/gpgnet.go, internal/protocol/jsonrpc.go).
use fafsturmudprelay.Prelude.{
  ℕ, Option, some, ◌≡◌, ◌≢◌, ◌≤◌, refl, List, [], ◌∷◌, ◌++◌, Bytes, length, arith, All,
}
use fafsturmudprelay.Prelude.Int.{ℤ, negsuc}
use fafsturmudprelay.Outcome.{ok}
use fafsturmudprelay.Protocol.Binary.{uint32_le}
use fafsturmudprelay.Protocol.Gpgnet.Escapes.{replace_escapes}
use fafsturmudprelay.Protocol.Gpgnet.{
  read_message, read_chunks, read_string, read_full, read_int, read_chunk, read_chunk_list, number,
  text,
}
use fafsturmudprelay.Protocol.Gpgnet.Writing.{Arg, int, string, write_message}
use fafsturmudprelay.Protocol.Gpgnet.RoundTrip.{read-write_message}
use fafsturmudprelay.Protocol.JsonRpc.{Outgoing, response, notification, read_raw, max_message_size}
use fafsturmudprelay.Protocol.JsonRpc.Braces.{Body, empty, plain, braced}
use fafsturmudprelay.Protocol.JsonRpc.Framing.{read_raw_complete, read_raw_sound}
use fafsturmudprelay.Protocol.JsonRpc.Stream.{read_each-write_each, ReadsEach, write_each}

-- Floats that are integers.
abbrev to_int32 : ℤ → ℤ
to_int32 v = v

abbrev header : Bytes
header = b'H' ∷ []

abbrev args : List (Arg ℤ)
args = int (negsuc 1) ∷ (string (b'a' ∷ b'/' ∷ b'n' ∷ []) ∷ [])

read-write_message_example :
    (bytes : Bytes) × (write_message to_int32 header args [] ≡ (ok tt, bytes))
    × ((rest : Bytes)
        → read_message (bytes ++ rest)
          ≡ ok ((header, number (negsuc 1) ∷ text (b'a' ∷ b'\n' ∷ []) ∷ []), rest))
unfolding replace_escapes
read-write_message_example =
    read-write_message to_int32 header args [] (omega arith) (tt, (omega arith, tt)) (omega arith)

abbrev message : Bytes
message = 1 ∷ 0 ∷ 0 ∷ 0 ∷ b'H' ∷ 1 ∷ 0 ∷ 0 ∷ 0 ∷ 0 ∷ 254 ∷ 255 ∷ 255 ∷ 255 ∷ 7 ∷ []

reads_message : read_message message ≡ ok ((header, number (negsuc 1) ∷ []), 7 ∷ [])
unfolding read_message read_chunks read_string read_full read_int read_chunk read_chunk_list
    uint32_le
reads_message = refl

abbrev object : Bytes
object = b'{' ∷ b'x' ∷ b'}' ∷ []

x_Body : Body (b'x' ∷ [])
x_Body = plain b'x' (omega arith) (omega arith) empty

read_raw_complete_example :
    read_raw (b'\n' ∷ b'{' ∷ b'x' ∷ b'}' ∷ b'y' ∷ []) ≡ ok (object, b'y' ∷ [])
read_raw_complete_example =
    read_raw_complete (b'\n' ∷ []) (b'x' ∷ []) (b'y' ∷ []) (omega arith, tt) x_Body (omega arith)

read_raw_sound_example :
    (junk s : Bytes) × All (λ (b : ℕ). b ≢ b'{') junk
    × Body s
    × (object ≡ braced s)
    × (b'\n' ∷ b'{' ∷ b'x' ∷ b'}' ∷ b'y' ∷ [] ≡ junk ++ (object ++ (b'y' ∷ [])))
    × (length object ≤ max_message_size)
read_raw_sound_example =
    read_raw_sound (b'\n' ∷ b'{' ∷ b'x' ∷ b'}' ∷ b'y' ∷ []) object (b'y' ∷ [])
      read_raw_complete_example

-- Every message becomes the same object.
abbrev marshal : Outgoing ℕ → Option Bytes
marshal v = some object

read_each-write_each_example :
    ReadsEach
      (object ∷ object ∷ [])
      (write_each marshal [] (response 1 2 ∷ notification (b'm' ∷ []) [] ∷ []))
read_each-write_each_example =
    read_each-write_each marshal (response 1 2 ∷ notification (b'm' ∷ []) [] ∷ [])
      (object ∷ object ∷ []) [] tt (refl, (refl, tt))
      ((b'x' ∷ [], x_Body, refl, omega arith), ((b'x' ∷ [], x_Body, refl, omega arith), tt))
