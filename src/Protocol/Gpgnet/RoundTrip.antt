-- ===== src/Protocol/Gpgnet/RoundTrip.antt =====
-- A GPGNet message that is written is read back (internal/protocol/gpgnet.go).
use mathlib.Core.List.{append_assoc, append-nil}
use fafsturmudprelay.Prelude.{
  ℕ, ◌≤◌, ◌≡◌, refl, sym, ap, ◌∙◌, List, [], ◌∷◌, ◌++◌, Bytes, length, map, arith, All, take-append,
  drop-append, length-append,
}
use fafsturmudprelay.Prelude.Int.{ℤ, pos}
use fafsturmudprelay.Outcome.{ok}
use fafsturmudprelay.Protocol.Binary.{put_uint32_le, uint32_le, IsU32, IsU16}
use fafsturmudprelay.Protocol.Gpgnet.Int32.{word_of, signed32, to_int32, word_of-lt}
use fafsturmudprelay.Protocol.Gpgnet.Escapes.{replace_escapes}
use fafsturmudprelay.Protocol.Gpgnet.{
  read_full, read_int, read_string, read_chunk, read_chunk_list, read_chunks, read_message, Chunk,
  number, text, max_string_length, max_chunk_size, field_type_int, field_type_string,
}
use fafsturmudprelay.Protocol.Gpgnet.Writing.{
  Arg, int, int32, uint16, uint32, float64, string, other, write_string, write_arg, write_arg_list,
  write_args, write_message, write_int,
}

-- The bytes of a string that is not too long.
abbrev pub string_form : Bytes → Bytes
string_form s = put_uint32_le (word_of (pos (length s))) ++ s

pub read_int-put :
    (w : ℕ) (rest : Bytes) → IsU32 w → read_int (put_uint32_le w ++ rest) ≡ ok (signed32 w, rest)
unfolding read_int put_uint32_le uint32_le
read_int-put w rest h = ground arith

pub read_string-form :
    (s rest : Bytes)
    → length s ≤ max_string_length
    → read_string (string_form s ++ rest) ≡ ok (s, rest)
unfolding read_string read_full
read_string-form s rest h =
    let w : word_of (pos (length s)) ≡ length s = omega arith in
    let here : read_int (put_uint32_le (word_of (pos (length s))) ++ (s ++ rest))
        ≡ ok (pos (length s), s ++ rest) =
      read_int-put (word_of (pos (length s))) (s ++ rest) (word_of-lt (pos (length s)))
      ∙ ground (arith, w) in
    ground (
      arith,
      append_assoc (put_uint32_le (word_of (pos (length s)))) s rest,
      here,
      take-append s rest,
      drop-append s rest,
      length-append s rest,
    )

pub write_string-form :
    (s out : Bytes)
    → length s ≤ max_string_length
    → write_string s out ≡ (ok tt, out ++ string_form s)
unfolding write_string
write_string-form s out h =
    ground (arith, append_assoc out (put_uint32_le (word_of (pos (length s)))) s)

module _ {Float : Type 0} (float_to_int32 : Float → ℤ) where
  -- The arguments that the writer supports and the range of their values.
  abbrev pub Fits : Arg Float → Type 0
  Fits (uint16 v) = IsU16 v
  Fits (uint32 v) = IsU32 v
  Fits (string s) = length s ≤ max_string_length
  Fits other = ⊥
  Fits _ = Unit {0}

  abbrev pub form : Arg Float → Bytes
  form (int v) = field_type_int ∷ put_uint32_le (word_of v)
  form (int32 v) = field_type_int ∷ put_uint32_le (word_of v)
  form (uint16 v) = field_type_int ∷ put_uint32_le (word_of (pos v))
  form (uint32 v) = field_type_int ∷ put_uint32_le v
  form (float64 v) = field_type_int ∷ put_uint32_le (word_of (float_to_int32 v))
  form (string s) = field_type_string ∷ string_form s
  form other = []

  abbrev pub forms : List (Arg Float) → Bytes
  forms [] = []
  forms (a ∷ as') = form a ++ forms as'

  -- What the reader makes of an argument: integers as int32, texts with their escapes replaced.
  abbrev pub chunk_of : Arg Float → Chunk
  chunk_of (int v) = number (to_int32 v)
  chunk_of (int32 v) = number (to_int32 v)
  chunk_of (uint16 v) = number (to_int32 (pos v))
  chunk_of (uint32 v) = number (signed32 v)
  chunk_of (float64 v) = number (to_int32 (float_to_int32 v))
  chunk_of (string s) = text (replace_escapes s)
  chunk_of other = text []

  int_form :
      (w : ℕ) (rest : Bytes)
      → IsU32 w
      → read_chunk ((field_type_int ∷ put_uint32_le w) ++ rest) ≡ ok (number (signed32 w), rest)
  unfolding read_chunk read_full
  int_form w rest h = ground (arith, read_int-put w rest h)

  read_chunk-form :
      (a : Arg Float) (rest : Bytes) → Fits a → read_chunk (form a ++ rest) ≡ ok (chunk_of a, rest)
  unfolding read_chunk read_full
  read_chunk-form (int v) rest h = int_form (word_of v) rest (word_of-lt v)
  read_chunk-form (int32 v) rest h = int_form (word_of v) rest (word_of-lt v)
  read_chunk-form (uint16 v) rest h = int_form (word_of (pos v)) rest (word_of-lt (pos v))
  read_chunk-form (uint32 v) rest h = int_form v rest h
  read_chunk-form (float64 v) rest h =
      int_form (word_of (float_to_int32 v)) rest (word_of-lt (float_to_int32 v))
  read_chunk-form (string s) rest h = ground (arith, read_string-form s rest h)
  read_chunk-form other rest h = absurd h

  pub write_arg-form :
      (a : Arg Float) (out : Bytes)
      → Fits a
      → write_arg float_to_int32 a out ≡ (ok tt, out ++ form a)
  unfolding write_arg
  write_arg-form (int v) out h =
      ground (arith, append_assoc out (field_type_int ∷ []) (put_uint32_le (word_of v)))
  write_arg-form (int32 v) out h =
      ground (arith, append_assoc out (field_type_int ∷ []) (put_uint32_le (word_of v)))
  write_arg-form (uint16 v) out h =
      ground (arith, append_assoc out (field_type_int ∷ []) (put_uint32_le (word_of (pos v))))
  write_arg-form (uint32 v) out h =
      ground (arith, append_assoc out (field_type_int ∷ []) (put_uint32_le v))
  write_arg-form (float64 v) out h =
      ground
        (arith, append_assoc out (field_type_int ∷ []) (put_uint32_le (word_of (float_to_int32 v))))
  write_arg-form (string s) out h =
      write_string-form s (out ++ (field_type_string ∷ [])) h
      ∙ ap (λ (t : Bytes). (ok tt, t)) (append_assoc out (field_type_string ∷ []) (string_form s))
  write_arg-form other out h = absurd h

  read_chunk_list-forms :
      (args : List (Arg Float)) (rest : Bytes)
      → All Fits args
      → read_chunk_list (length args) (forms args ++ rest) ≡ ok (map chunk_of args, rest)
  unfolding read_chunk_list
  read_chunk_list-forms [] rest h = refl
  read_chunk_list-forms (a ∷ as') rest h =
      rw (append_assoc (form a) (forms as') rest, read_chunk-form a (forms as' ++ rest) h.0)
        (ground (arith, read_chunk_list-forms as' rest h.1))

  write_arg_list-forms :
      (args : List (Arg Float)) (out : Bytes)
      → All Fits args
      → write_arg_list float_to_int32 args out ≡ (ok tt, out ++ forms args)
  unfolding write_arg_list
  write_arg_list-forms [] out h = ap (λ (t : Bytes). (ok tt, t)) (sym (append-nil out))
  write_arg_list-forms (a ∷ as') out h = rw (write_arg-form a out h.0) (
      write_arg_list-forms as' (out ++ form a) h.1
      ∙ ap (λ (t : Bytes). (ok tt, t)) (append_assoc out (form a) (forms as')))

  abbrev args_form : List (Arg Float) → Bytes
  args_form args = put_uint32_le (word_of (pos (length args))) ++ forms args

  read_chunks-form :
      (args : List (Arg Float)) (rest : Bytes)
      → All Fits args
      → length args ≤ max_chunk_size
      → read_chunks (args_form args ++ rest) ≡ ok (map chunk_of args, rest)
  unfolding read_chunks
  read_chunks-form args rest h few =
      let w : word_of (pos (length args)) ≡ length args = omega arith in
      ground (
        arith,
        w,
        append_assoc (put_uint32_le (word_of (pos (length args)))) (forms args) rest,
        read_int-put (word_of (pos (length args))) (forms args ++ rest)
            (word_of-lt (pos (length args))),
        read_chunk_list-forms args rest h,
      )

  write_args-form :
      (args : List (Arg Float)) (out : Bytes)
      → All Fits args
      → write_args float_to_int32 args out ≡ (ok tt, out ++ args_form args)
  unfolding write_args write_int
  write_args-form args out h =
      write_arg_list-forms args (out ++ put_uint32_le (word_of (pos (length args)))) h
      ∙ ap (λ (t : Bytes). (ok tt, t))
          (append_assoc out (put_uint32_le (word_of (pos (length args)))) (forms args))

  abbrev pub message_form : Bytes → List (Arg Float) → Bytes
  message_form header args = string_form header ++ args_form args

  pub write_message-form :
      (header : Bytes) (args : List (Arg Float)) (out : Bytes)
      → length header ≤ max_string_length
      → All Fits args
      → write_message float_to_int32 header args out ≡ (ok tt, out ++ message_form header args)
  unfolding write_message
  write_message-form header args out h fits = ground (
    arith,
    write_string-form header out h,
    write_args-form args (out ++ string_form header) fits,
    append_assoc out (string_form header) (args_form args),
  )

  -- A message whose header and texts have at most 65535 bytes, and that has at most ten arguments,
  -- all of supported types and in their ranges, is written without an error, whatever was written
  -- before. The bytes that it adds are read back, whatever follows them, as the same header and
  -- the arguments, integers as int32 and texts with their escapes replaced.
  pub read-write_message :
      (header : Bytes) (args : List (Arg Float)) (out : Bytes)
      → length header ≤ max_string_length
      → All Fits args
      → length args ≤ max_chunk_size
      → (bytes : Bytes) × (write_message float_to_int32 header args out ≡ (ok tt, out ++ bytes))
        × ((rest : Bytes) → read_message (bytes ++ rest) ≡ ok ((header, map chunk_of args), rest))
  unfolding read_message
  read-write_message header args out h fits few = (
    message_form header args,
    write_message-form header args out h fits,
    λ rest. ground (
      arith,
      append_assoc (string_form header) (args_form args) rest,
      read_string-form header (args_form args ++ rest) h,
      read_chunks-form args rest fits few,
    ),
  )
