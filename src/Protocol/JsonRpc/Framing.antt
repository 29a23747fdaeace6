-- ===== src/Protocol/JsonRpc/Framing.antt =====
-- ReadRaw of internal/protocol/jsonrpc.go cuts out the first brace and what it encloses, and nothing
-- else.
use mathlib.Core.List.{append_assoc}
use fafsturmudprelay.Prelude.{
  ℕ, suc, ◌+◌, ◌≤◌, ◌≡◌, ◌≢◌, refl, sym, ap, ◌∙◌, ◌⊎◌, inl, inr, true, false, [], ◌∷◌, ◌++◌, Bytes,
  length, All, arith, length-append,
}
use fafsturmudprelay.Outcome.{ok}
use fafsturmudprelay.Protocol.JsonRpc.{max_message_size, read_raw_loop, read_raw}
use fafsturmudprelay.Protocol.JsonRpc.Braces.{Body, empty, braced}
use fafsturmudprelay.Protocol.JsonRpc.Loop.{loop-Body, loop_sound, IsFramed}

skip_one :
    (b : ℕ) (stream : Bytes)
    → b ≢ b'{'
    → read_raw_loop (b ∷ stream) [] 0 false ≡ read_raw_loop stream [] 0 false
unfolding read_raw_loop
skip_one b stream n = ground (arith, n)

-- Bytes before the first brace are skipped.
pub skip :
    (junk stream : Bytes)
    → All (λ (b : ℕ). b ≢ b'{') junk
    → read_raw_loop (junk ++ stream) [] 0 false ≡ read_raw_loop stream [] 0 false
skip [] stream h = refl
skip (b ∷ junk) stream (n, h) = skip_one b (junk ++ stream) n ∙ skip junk stream h

start :
    (stream : Bytes)
    → read_raw_loop (b'{' ∷ stream) [] 0 false ≡ read_raw_loop stream (b'{' ∷ []) 1 true
unfolding read_raw_loop
start stream = ground arith

first_brace :
    (stream m rest : Bytes)
    → read_raw_loop stream [] 0 false ≡ ok (m, rest)
    → (junk t : Bytes) × All (λ (b : ℕ). b ≢ b'{') junk
      × (stream ≡ junk ++ (b'{' ∷ t))
      × (read_raw_loop t (b'{' ∷ []) 1 true ≡ ok (m, rest))
unfolding read_raw_loop
first_brace [] m rest h = absurd (ground (arith, h))
first_brace (b ∷ stream) m rest h = elim (brace_or_not b) [
  | inl e ↦ (
    [],
    stream,
    tt,
    ap (λ (x : ℕ). x ∷ stream) e,
    sym (start stream) ∙ ap (λ (x : ℕ). read_raw_loop (x ∷ stream) [] 0 false) (sym e) ∙ h,
  )
  | inr n ↦
      let (junk, t, a, e, r) = first_brace stream m rest (sym (skip_one b stream n) ∙ h) in
      (b ∷ junk, t, (n, a), ap (λ (x : Bytes). b ∷ x) e, r)
]
  where
    brace_or_not : (b : ℕ) → (b ≡ b'{') ⊎ (b ≢ b'{')
    brace_or_not b = ground arith

close_first :
    (rest buf : Bytes)
    → suc (length buf) ≤ max_message_size
    → read_raw_loop (b'}' ∷ rest) buf 1 true ≡ ok (buf ++ (b'}' ∷ []), rest)
unfolding read_raw_loop
close_first rest buf h = ground (arith, h, length-append buf (b'}' ∷ []))

-- Of a stream that has bytes without an opening brace, then an object of at most 2^20 bytes in which
-- every brace is closed, ReadRaw returns that object, and leaves what follows it.
pub read_raw_complete :
    (junk s rest : Bytes)
    → All (λ (b : ℕ). b ≢ b'{') junk
    → Body s
    → length (braced s) ≤ max_message_size
    → read_raw (junk ++ (braced s ++ rest)) ≡ ok (braced s, rest)
unfolding read_raw
read_raw_complete junk s rest a b h =
    skip junk (braced s ++ rest) a
    ∙ start ((s ++ (b'}' ∷ [])) ++ rest)
    ∙ ap (λ (x : Bytes). read_raw_loop x (b'{' ∷ []) 1 true) (append_assoc s (b'}' ∷ []) rest)
    ∙ loop-Body (b'}' ∷ rest) (b'{' ∷ []) 0 b (omega (arith, size))
    ∙ close_first rest (b'{' ∷ s) (omega (arith, size))
  where
    size : suc (length s + 1) ≤ max_message_size
    size = omega (arith, h, length-append s (b'}' ∷ []))

-- What ReadRaw returns is an object of at most 2^20 bytes in which every brace is closed, and the
-- stream had it directly after bytes without an opening brace and before what is left.
pub read_raw_sound :
    (stream m rest : Bytes)
    → read_raw stream ≡ ok (m, rest)
    → (junk s : Bytes) × All (λ (b : ℕ). b ≢ b'{') junk
      × Body s
      × (m ≡ braced s)
      × (stream ≡ junk ++ (m ++ rest))
      × (length m ≤ max_message_size)
unfolding read_raw IsFramed
read_raw_sound stream m rest h =
    let (junk, t, a, e, r) = first_brace stream m rest h in
    let (s, b, em, er, le) = loop_sound t (b'{' ∷ []) m rest 0 ([], empty, refl) r in
    (junk, s, a, b, em, e ∙ ap (λ (x : Bytes). junk ++ x) er, le)
