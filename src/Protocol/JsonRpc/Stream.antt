-- ===== src/Protocol/JsonRpc/Stream.antt =====
-- The writer's writeJSON and the reader's ReadRaw of internal/protocol/jsonrpc.go over one stream.
use mathlib.Core.List.{append_assoc, append-nil}
use fafsturmudprelay.Prelude.{
  ℕ, Option, some, ◌≤◌, ◌≡◌, ◌≢◌, sym, List, [], ◌∷◌, ◌++◌, Bytes, length, All, arith, subst,
}
use fafsturmudprelay.Outcome.{ok, err}
use fafsturmudprelay.Protocol.JsonRpc.{
  max_message_size, read_raw_loop, read_raw, write_json, Outgoing,
}
use fafsturmudprelay.Protocol.JsonRpc.Braces.{Body, braced}
use fafsturmudprelay.Protocol.JsonRpc.{end_of_stream}
use fafsturmudprelay.Protocol.JsonRpc.Framing.{read_raw_complete, skip}

-- An object that the reader takes.
abbrev pub IsMessage : Bytes → Type 0
IsMessage m = (s : Bytes) × Body s × (m ≡ braced s) × (length m ≤ max_message_size)

-- The messages that the reader finds, one after another, in a stream that then has no more.
abbrev pub ReadsEach : List Bytes → Bytes → Type 0
ReadsEach [] stream = read_raw stream ≡ err end_of_stream
ReadsEach (m ∷ ms) stream = (rest : Bytes) × (read_raw stream ≡ ok (m, rest)) × ReadsEach ms rest

texts : List Bytes → Bytes
texts [] = []
texts (m ∷ ms) = m ++ (b'\n' ∷ texts ms)

newline : All (λ (b : ℕ). b ≢ b'{') (b'\n' ∷ [])
newline = (omega arith, tt)

reads_texts :
    (ms : List Bytes) (junk : Bytes)
    → All (λ (b : ℕ). b ≢ b'{') junk
    → All IsMessage ms
    → ReadsEach ms (junk ++ texts ms)
unfolding texts read_raw read_raw_loop
reads_texts [] junk a h = skip junk [] a
reads_texts (m ∷ ms) junk a ((s, b, e, le), h) = (
  b'\n' ∷ texts ms,
  subst (λ (x : Bytes). read_raw (junk ++ (x ++ (b'\n' ∷ texts ms))) ≡ ok (x, b'\n' ∷ texts ms))
      (sym e)
      (read_raw_complete junk s (b'\n' ∷ texts ms) a b
        (subst (λ (x : Bytes). length x ≤ max_message_size) e le)),
  reads_texts ms (b'\n' ∷ []) newline h,
)

module _ {Json : Type 0} (marshal : Outgoing Json → Option Bytes) where
  -- What the writer has written after the messages `vs`, from `out`.
  abbrev pub write_each : Bytes → List (Outgoing Json) → Bytes
  write_each out [] = out
  write_each out (v ∷ vs) = let (r, out') = write_json marshal v out in write_each out' vs

  abbrev pub MarshalsTo : List (Outgoing Json) → List Bytes → Type 0
  MarshalsTo [] [] = Unit {0}
  MarshalsTo [] (m ∷ ms) = ⊥
  MarshalsTo (v ∷ vs) [] = ⊥
  MarshalsTo (v ∷ vs) (m ∷ ms) = (marshal v ≡ some m) × MarshalsTo vs ms

  write_each_lem :
      (out : Bytes) (vs : List (Outgoing Json)) (ms : List Bytes)
      → MarshalsTo vs ms
      → write_each out vs ≡ out ++ texts ms
  unfolding texts write_json
  write_each_lem out [] [] h = sym (append-nil out)
  write_each_lem out [] (m ∷ ms) h = absurd h
  write_each_lem out (v ∷ vs) [] h = absurd h
  write_each_lem out (v ∷ vs) (m ∷ ms) (e, h) = grind (
    arith,
    e,
    write_each_lem ((out ++ m) ++ (b'\n' ∷ [])) vs ms h,
    append_assoc (out ++ m) (b'\n' ∷ []) (texts ms),
    append_assoc out m (b'\n' ∷ texts ms),
  )

  -- Messages that are marshalled to objects of at most 2^20 bytes with every brace closed, written one
  -- after another behind bytes with no opening brace, are read back in their order, and then the
  -- stream has ended.
  pub read_each-write_each :
      (vs : List (Outgoing Json)) (ms : List Bytes) (junk : Bytes)
      → All (λ (b : ℕ). b ≢ b'{') junk
      → MarshalsTo vs ms
      → All IsMessage ms
      → ReadsEach ms (write_each junk vs)
  read_each-write_each vs ms junk a e h =
      subst (λ (x : Bytes). ReadsEach ms x) (sym (write_each_lem junk vs ms e))
        (reads_texts ms junk a h)
