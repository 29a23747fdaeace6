-- ===== src/Protocol/JsonRpc/Loop.antt =====
-- The loop of ReadRaw in internal/protocol/jsonrpc.go once it has met a brace.
use mathlib.Core.List.{append_assoc, append-nil}
use fafsturmudprelay.Prelude.{
  ℕ, zero, suc, ◌+◌, ◌≤◌, ◌<◌, ◌≡◌, ◌≢◌, refl, sym, ap, ap₂, ◌∙◌, ◌⊎◌, inl, inr, true, [], ◌∷◌,
  ◌++◌, Bytes, length, arith, subst, length-append,
}
use fafsturmudprelay.Outcome.{ok}
use fafsturmudprelay.Protocol.JsonRpc.{max_message_size, depth_after, read_raw_loop}
use fafsturmudprelay.Protocol.JsonRpc.Braces.{
  Body, empty, plain, nest, braced, IsOpen, IsOpen-extend, IsOpen-close,
}

-- One byte that closes nothing.
loop_next :
    (b : ℕ) (rest buf : Bytes) (d d' : ℕ)
    → depth_after b (suc d) true ≡ suc d'
    → suc (length buf) ≤ max_message_size
    → read_raw_loop (b ∷ rest) buf (suc d) true ≡ read_raw_loop rest (buf ++ (b ∷ [])) (suc d') true
unfolding read_raw_loop
loop_next b rest buf d d' e h = ground (arith, e, length-append buf (b ∷ []))

-- What a step of a successful loop does.
loop_step :
    (b : ℕ) (stream buf m rest : Bytes) (d : ℕ)
    → read_raw_loop (b ∷ stream) buf (suc d) true ≡ ok (m, rest)
    → (length (buf ++ (b ∷ [])) ≤ max_message_size)
      × (((depth_after b (suc d) true ≡ 0) × (buf ++ (b ∷ []) ≡ m) × (stream ≡ rest))
          ⊎ ((0 < depth_after b (suc d) true)
              × (read_raw_loop stream (buf ++ (b ∷ [])) (depth_after b (suc d) true) true
                  ≡ ok (m, rest))))
unfolding read_raw_loop
loop_step b stream buf m rest d h = ground (arith, h)

depth_cases :
    (b d : ℕ)
    → ((b ≡ b'{') × (depth_after b (suc d) true ≡ suc (suc d)))
      ⊎ (((b ≡ b'}') × (depth_after b (suc d) true ≡ d))
          ⊎ ((b ≢ b'{') × (b ≢ b'}') × (depth_after b (suc d) true ≡ suc d)))
depth_cases b d = ground arith

depth_open : (d : ℕ) → depth_after b'{' (suc d) true ≡ suc (suc d)
depth_open d = ground arith

depth_close : (d : ℕ) → depth_after b'}' (suc d) true ≡ d
depth_close d = ground arith

depth_plain : (b d : ℕ) → b ≢ b'{' → b ≢ b'}' → depth_after b (suc d) true ≡ suc d
depth_plain b d o c = ground (arith, o, c)

-- The loop runs through a body and comes out at the same depth.
pub loop-Body :
    {s : Bytes} (rest buf : Bytes) (d : ℕ)
    → Body s
    → length buf + length s ≤ max_message_size
    → read_raw_loop (s ++ rest) buf (suc d) true ≡ read_raw_loop rest (buf ++ s) (suc d) true
loop-Body rest buf d empty h =
    ap (λ (x : Bytes). read_raw_loop rest x (suc d) true) (sym (append-nil buf))
loop-Body rest buf d (plain {s} c o k b) h =
    loop_next c (s ++ rest) buf d d (depth_plain c d o k) (omega arith)
    ∙ loop-Body rest (buf ++ (c ∷ [])) d b (omega (arith, length-append buf (c ∷ [])))
    ∙ ap (λ (x : Bytes). read_raw_loop rest x (suc d) true) (append_assoc buf (c ∷ []) s)
loop-Body rest buf d (nest {s} {t} b b') h =
    loop_next b'{' ((s ++ (b'}' ∷ t)) ++ rest) buf d (suc d) (depth_open d) (omega (arith, size))
    ∙ ap (λ (x : Bytes). read_raw_loop x (buf ++ (b'{' ∷ [])) (suc (suc d)) true)
        (append_assoc s (b'}' ∷ t) rest)
    ∙ loop-Body (b'}' ∷ (t ++ rest)) (buf ++ (b'{' ∷ [])) (suc d) b (omega (arith, size, size1))
    ∙ loop_next b'}' (t ++ rest) ((buf ++ (b'{' ∷ [])) ++ s) (suc d) d (depth_close (suc d))
        (omega (arith, size, size1, size2))
    ∙ loop-Body rest (((buf ++ (b'{' ∷ [])) ++ s) ++ (b'}' ∷ [])) d b'
        (omega (arith, size, size1, size2, size3))
    ∙ ap (λ (x : Bytes). read_raw_loop rest x (suc d) true) (simp (append_assoc))
  where
    size : length buf + suc (length s + suc (length t)) ≤ max_message_size
    size = omega (arith, h, length-append s (b'}' ∷ t))

    size1 : length (buf ++ (b'{' ∷ [])) ≡ length buf + 1
    size1 = length-append buf (b'{' ∷ [])

    size2 : length ((buf ++ (b'{' ∷ [])) ++ s) ≡ length (buf ++ (b'{' ∷ [])) + length s
    size2 = length-append (buf ++ (b'{' ∷ [])) s

    size3 :
        length (((buf ++ (b'{' ∷ [])) ++ s) ++ (b'}' ∷ [])) ≡ length ((buf ++ (b'{' ∷ [])) ++ s) + 1
    size3 = length-append ((buf ++ (b'{' ∷ [])) ++ s) (b'}' ∷ [])

step_on :
    (b : ℕ) (stream buf m rest : Bytes) (d d' : ℕ)
    → depth_after b (suc d) true ≡ suc d'
    → read_raw_loop (b ∷ stream) buf (suc d) true ≡ ok (m, rest)
    → read_raw_loop stream (buf ++ (b ∷ [])) (suc d') true ≡ ok (m, rest)
step_on b stream buf m rest d d' k h = ground (arith, k, loop_step b stream buf m rest d h)

-- What `loop_step` leaves open: the closing of the first brace, or open text one byte longer.
IsOpen-after :
    (b : ℕ) (buf : Bytes) (d : ℕ)
    → IsOpen (suc d) buf
    → ((b ≡ b'}') × (d ≡ 0) × (depth_after b (suc d) true ≡ 0))
      ⊎ ((d' : ℕ) × IsOpen (suc d') (buf ++ (b ∷ [])) × (depth_after b (suc d) true ≡ suc d'))
IsOpen-after b buf d o = elim (depth_cases b d) [
  | inl (e, k) ↦ inr (suc d, (buf, [], o, empty, ap (λ (x : ℕ). buf ++ (x ∷ [])) e), k)
  | inr (inl (e, k)) ↦ close d e o k
  | inr (inr (n, n', k)) ↦ inr (d, IsOpen-extend d buf (b ∷ []) o (plain b n n' empty), k)
]
  where
    close :
        (d : ℕ)
        → b ≡ b'}'
        → IsOpen (suc d) buf
        → depth_after b (suc d) true ≡ d
        → ((b ≡ b'}') × (d ≡ 0) × (depth_after b (suc d) true ≡ 0))
          ⊎ ((d' : ℕ) × IsOpen (suc d') (buf ++ (b ∷ [])) × (depth_after b (suc d) true ≡ suc d'))
    close zero e o k = inl (e, refl, k)
    close (suc d) e o k =
        inr
          (d, subst (λ (x : ℕ). IsOpen (suc d) (buf ++ (x ∷ []))) (sym e) (IsOpen-close d buf o), k)

unfoldable pub IsFramed : Bytes → Bytes → Bytes → Type 0
IsFramed stream m rest =
    (s : Bytes) × Body s × (m ≡ braced s) × (stream ≡ m ++ rest) × (length m ≤ max_message_size)

IsFramed-at_end :
    (b : ℕ) (stream buf m rest : Bytes)
    → b ≡ b'}'
    → IsOpen 1 buf
    → buf ++ (b ∷ []) ≡ m
    → stream ≡ rest
    → length (buf ++ (b ∷ [])) ≤ max_message_size
    → IsFramed (buf ++ (b ∷ stream)) m rest
unfolding IsFramed
IsFramed-at_end b stream buf m rest e (s, bs, eb) em er le = (
  s,
  bs,
  sym em ∙ ap₂ (λ (x : Bytes) (y : ℕ). x ++ (y ∷ [])) eb e,
  sym (append_assoc buf (b ∷ []) stream) ∙ ap₂ (λ (x y : Bytes). x ++ y) em er,
  subst (λ (x : Bytes). length x ≤ max_message_size) em le,
)

stop_at :
    (b : ℕ) (stream buf m rest : Bytes) (d : ℕ)
    → depth_after b (suc d) true ≡ 0
    → read_raw_loop (b ∷ stream) buf (suc d) true ≡ ok (m, rest)
    → (buf ++ (b ∷ []) ≡ m) × (stream ≡ rest) × (length (buf ++ (b ∷ [])) ≤ max_message_size)
stop_at b stream buf m rest d k h = ground (arith, k, loop_step b stream buf m rest d h)

pub loop_sound :
    (stream buf m rest : Bytes) (d : ℕ)
    → IsOpen (suc d) buf
    → read_raw_loop stream buf (suc d) true ≡ ok (m, rest)
    → IsFramed (buf ++ stream) m rest
unfolding read_raw_loop
loop_sound [] buf m rest d o h = absurd (ground (arith, h))
loop_sound (b ∷ stream) buf m rest d o h = elim (IsOpen-after b buf d o) [
  | inl (e, z, k) ↦
      let (em, er, le) = stop_at b stream buf m rest d k h in
      IsFramed-at_end b stream buf m rest e (subst (λ (x : ℕ). IsOpen (suc x) buf) z o) em er le
  | inr (d', o', k) ↦
      subst (λ (x : Bytes). IsFramed x m rest) (append_assoc buf (b ∷ []) stream)
        (loop_sound stream (buf ++ (b ∷ [])) m rest d' o' (step_on b stream buf m rest d d' k h))
]
