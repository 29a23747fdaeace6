-- ===== src/Protocol/Gpgnet/Writing.antt =====
-- The writer of internal/protocol/gpgnet.go. What was written before an error stays in the buffer.
use fafsturmudprelay.Prelude.{ℕ, List, [], ◌∷◌, ◌++◌, Bytes, length, ltb, if◌then◌else◌}
use fafsturmudprelay.Prelude.Int.{ℤ, pos}
use fafsturmudprelay.Outcome.{Outcome, ok, err, panic, map_err}
use fafsturmudprelay.Protocol.Binary.{put_uint32_le}
use fafsturmudprelay.Protocol.Gpgnet.Int32.{word_of}
use fafsturmudprelay.Protocol.Gpgnet.{
  GpgError, wrap, message_header, message_args, string_too_long, unsupported_type, field_type_int,
  field_type_string, max_string_length,
}

-- A write sees what the buffered writer was given so far, and adds to it.
abbrev pub Write : Type 0
Write = Bytes → Outcome GpgError (Unit {0}) × Bytes

abbrev continue_with : Outcome GpgError (Unit {0}) → Write → Write
continue_with (ok u) n out = n out
continue_with (err e) n out = (err e, out)
continue_with panic n out = (panic, out)

infixl 5 ◌>>◌
abbrev pub ◌>>◌ : Write → Write → Write
◌>>◌ m n out = let (r, out') = m out in continue_with r n out'

abbrev pub wrapped : (GpgError → GpgError) → Write → Write
wrapped f m out = let (r, out') = m out in (map_err f r, out')

abbrev pub fail : GpgError → Write
fail e out = (err e, out)

unfoldable pub write_bytes : Bytes → Write
write_bytes bs out = (ok tt, out ++ bs)

unfoldable pub write_int : ℤ → Write
unfolding write_bytes
write_int v = write_bytes (put_uint32_le (word_of v))

unfoldable pub write_byte : ℕ → Write
unfolding write_bytes
write_byte b = write_bytes (b ∷ [])

unfoldable pub write_string : Bytes → Write
unfolding write_int write_bytes
write_string s =
    if ltb max_string_length (length s)
    then fail (string_too_long (length s))
    else write_int (pos (length s)) >> write_bytes s

-- An argument by its dynamic type; `other` is any type that the switch does not name.
pub data Arg (Float : Type 0) : Type 0 where
  int int32 : ℤ → Arg Float
  uint16 uint32 : ℕ → Arg Float
  float64 : Float → Arg Float
  string : Bytes → Arg Float
  other : Arg Float

-- `float_to_int32` is Go's conversion int32(v) of a float64.
module _ {Float : Type 0} (float_to_int32 : Float → ℤ) where
  unfoldable pub write_arg : Arg Float → Write
  unfolding write_byte write_int write_bytes write_string
  write_arg (int v) = write_byte field_type_int >> write_int v
  write_arg (int32 v) = write_byte field_type_int >> write_int v
  write_arg (uint16 v) = write_byte field_type_int >> write_int (pos v)
  write_arg (uint32 v) = write_byte field_type_int >> write_bytes (put_uint32_le v)
  write_arg (float64 v) = write_byte field_type_int >> write_int (float_to_int32 v)
  write_arg (string s) = write_byte field_type_string >> write_string s
  write_arg other = fail unsupported_type

  unfoldable pub write_arg_list : List (Arg Float) → Write
  write_arg_list [] out = (ok tt, out)
  write_arg_list (a ∷ as') out = (write_arg a >> write_arg_list as') out

  unfoldable pub write_args : List (Arg Float) → Write
  write_args args = write_int (pos (length args)) >> write_arg_list args

  unfoldable pub write_message : Bytes → List (Arg Float) → Write
  write_message header args =
      wrapped (wrap message_header) (write_string header)
      >> wrapped (wrap message_args) (write_args args)
