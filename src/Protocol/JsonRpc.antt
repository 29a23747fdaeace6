-- ===== src/Protocol/JsonRpc.antt =====
-- internal/protocol/jsonrpc.go: one JSON object at a time is cut out of a stream by counting braces,
-- with no regard to strings. The bytes that the stream delivers before its end are a list.
pub mod Braces
pub mod Loop
pub mod Framing
pub mod Stream
use fafsturmudprelay.Prelude.{
  ℕ, Option, none, some, ◌+◌, ◌-◌, ◌^◌, Bool, true, false, ◌&&◌, ◌||◌, List, [], ◌∷◌, ◌++◌, Bytes,
  length, ltb, ◌==◌, if◌then◌else◌,
}
use fafsturmudprelay.Prelude.Int.{ℤ}
use fafsturmudprelay.Outcome.{Outcome, ok, err, panic, ◌>>=◌, map_err}

abbrev pub max_message_size : ℕ
max_message_size = 2 ^ 20

pub data RpcReadError : Type 0 where
  end_of_stream message_too_large : RpcReadError

-- `depth` is lowered only once `started`, when it is not 0: at 0 the loop has returned.
abbrev pub depth_after : ℕ → ℕ → Bool → ℕ
depth_after b depth started =
    if b == b'{' then depth + 1 else if b == b'}' && started then depth - 1 else depth

-- The loop of ReadRaw, on the bytes not yet read.
unfoldable pub read_raw_loop : Bytes → Bytes → ℕ → Bool → Outcome RpcReadError (Bytes × Bytes)
read_raw_loop [] buf depth started = err end_of_stream
read_raw_loop (b ∷ rest) buf depth started =
    let depth' : ℕ = depth_after b depth started in
    let started' : Bool = started || b == b'{' in
    let buf' : Bytes = if started' then buf ++ (b ∷ []) else buf in
    let more = read_raw_loop rest buf' depth' started' in
    if started' && ltb max_message_size (length buf')
    then err message_too_large
    else if started' && depth' == 0
    then ok (buf', rest)
    else more

-- The object, and the rest of the stream.
unfoldable pub read_raw : Bytes → Outcome RpcReadError (Bytes × Bytes)
unfolding read_raw_loop
read_raw stream = read_raw_loop stream [] 0 false

-- The structs that the writer marshals; `Json` is what an interface{} may hold.
pub data Outgoing (Json : Type 0) : Type 0 where
  response : (id result : Json) → Outgoing Json
  error_response : (id : Json) (code : ℤ) (message : Bytes) → Outgoing Json
  notification : (method : Bytes) (params : List Json) → Outgoing Json

pub data RpcWriteError : Type 0 where
  marshalling : RpcWriteError

pub data RequestError : Type 0 where
  raw : RpcReadError → RequestError
  parsing : RequestError

pub record Request (Json : Type 0) : Type 0 where
  version : Bytes
  id : Json
  method : Bytes
  params : List Bytes

-- `marshal` is json.Marshal on these structs, `unmarshal` json.Unmarshal into a request. A writer is
-- what was written and flushed so far.
module _ {Json : Type 0} (marshal : Outgoing Json → Option Bytes) where
  unfoldable pub write_json : Outgoing Json → Bytes → Outcome RpcWriteError (Unit {0}) × Bytes
  write_json v out = elim (marshal v) [
    | none ↦ (err marshalling, out)
    | some data' ↦ (ok tt, (out ++ data') ++ (b'\n' ∷ []))
  ]

  abbrev pub write_response : Json → Json → Bytes → Outcome RpcWriteError (Unit {0}) × Bytes
  write_response id result = write_json (response id result)

  abbrev pub write_error : Json → ℤ → Bytes → Bytes → Outcome RpcWriteError (Unit {0}) × Bytes
  write_error id code message = write_json (error_response id code message)

  abbrev pub write_notification :
      Bytes → List Json → Bytes → Outcome RpcWriteError (Unit {0}) × Bytes
  write_notification method params = write_json (notification method params)

module _ {Json : Type 0} (unmarshal : Bytes → Option (Request Json)) where
  parse : Bytes × Bytes → Outcome RequestError (Request Json × Bytes)
  parse (text, rest) = elim (unmarshal text) [
    | none ↦ err parsing
    | some request ↦ ok (request, rest)
  ]

  unfoldable pub read_request : Bytes → Outcome RequestError (Request Json × Bytes)
  unfolding parse
  read_request stream = map_err raw (read_raw stream) >>= parse
