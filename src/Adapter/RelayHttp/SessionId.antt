-- ===== src/Adapter/RelayHttp/SessionId.antt =====
-- What internal/adapter/adapter.go writes as a session id, and what the relay server's handlers make of it.
use fafsturmudprelay.Prelude.{
  ℕ, zero, suc, ◌+◌, ◌-◌, ◌*◌, ◌/◌, ◌%◌, ◌^◌, ◌≤◌, ◌<◌, ◌≡◌, refl, ap, ◌∙◌, Bool, true, false, inl,
  inr, [], ◌∷◌, ◌++◌, Bytes, length, ltb, leb, arith, Bool-cases, sym, ◌&&◌, ◌==◌, if◌then◌else◌,
}
use fafsturmudprelay.Prelude.Int.{ℤ, pos, negsuc, pos_part, neg_part}
use fafsturmudprelay.Relay.HttpApi.{valid_session_id, id_char, all_id_chars, split_path}
use fafsturmudprelay.Prelude.Decimal.{digits_from}
use fafsturmudprelay.Adapter.RelayHttp.{session_id}

-- The number that digits after `v` stand for.
value : ℕ → Bytes → ℕ
value v [] = v
value v (c ∷ cs) = value (10 * v + (c - 48)) cs

digit_value : (n : ℕ) (acc : Bytes) → n < 10 → value 0 ((48 + n % 10) ∷ acc) ≡ value n acc
unfolding value
digit_value n acc h = ap (λ k. value k acc) (omega arith)

digits_last :
    (fuel n : ℕ) (acc : Bytes)
    → ltb n 10 ≡ true
    → digits_from (suc fuel) n acc ≡ (48 + n % 10) ∷ acc
unfolding digits_from
digits_last fuel n acc e = rw (e, digits_from) refl

digits_more :
    (fuel n : ℕ) (acc : Bytes)
    → ltb n 10 ≡ false
    → digits_from (suc fuel) n acc ≡ digits_from fuel (n / 10) ((48 + n % 10) ∷ acc)
unfolding digits_from
digits_more fuel n acc e = rw (e, digits_from) refl

below_ten : (n : ℕ) → n < 10 → ltb n 10 ≡ true
below_ten n h = ground arith

tenth : (n p q : ℕ) → q ≡ 10 * p → n < q → n / 10 < p
tenth n p q e h = omega arith

value-digits :
    (fuel n : ℕ) (acc : Bytes)
    → n < 10 ^ suc fuel
    → value 0 (digits_from (suc fuel) n acc) ≡ value n acc
value-digits zero n acc h =
    ap (value 0) (digits_last 0 n acc (below_ten n (omega arith))) ∙ digit_value n acc (omega arith)
value-digits (suc fuel) n acc h = elim (Bool-cases (ltb n 10)) [
  | inl e ↦ ap (value 0) (digits_last (suc fuel) n acc e) ∙ digit_value n acc (ground (arith, e))
  | inr e ↦
      ap (value 0) (digits_more (suc fuel) n acc e)
      ∙ (value-digits fuel (n / 10) ((48 + n % 10) ∷ acc)
            (tenth n (10 ^ suc fuel) (10 ^ suc (suc fuel)) (omega arith) h)
          ∙ unfold value in ap (λ k. value k acc) (omega arith))
]

digits-all_id_chars :
    (fuel n : ℕ) (acc : Bytes)
    → all_id_chars acc ≡ true
    → all_id_chars (digits_from fuel n acc) ≡ true
unfolding digits_from
digits-all_id_chars zero n acc h = h
digits-all_id_chars (suc fuel) n acc h =
    let d : id_char (48 + n % 10) ≡ true = ground arith in
    ground (arith, d, digits-all_id_chars fuel (n / 10) ((48 + n % 10) ∷ acc))

length-digits :
    (fuel n : ℕ) (acc : Bytes)
    → (length acc ≤ length (digits_from fuel n acc))
      × (length (digits_from fuel n acc) ≤ fuel + length acc)
unfolding digits_from
length-digits zero n acc = omega arith
length-digits (suc fuel) n acc = ground (arith, length-digits fuel (n / 10) ((48 + n % 10) ∷ acc))

digits_pos : (fuel n : ℕ) (acc : Bytes) → 1 ≤ length (digits_from (suc fuel) n acc)
digits_pos fuel n acc = elim (Bool-cases (ltb n 10)) [
  | inl e ↦ rw (digits_last fuel n acc e) (omega arith)
  | inr e ↦
      rw (digits_more fuel n acc e)
        (omega (arith, length-digits fuel (n / 10) ((48 + n % 10) ∷ acc)))
]

pub session_id_lengths : (g : ℤ) → (1 ≤ length (session_id g)) × (length (session_id g) ≤ 64)
unfolding session_id
session_id_lengths (pos n) = omega (arith, length-digits 20 n [], digits_pos 19 n [])
session_id_lengths (negsuc n) = omega (arith, length-digits 20 (n + 1) [])

pub session_id-all_id_chars : (g : ℤ) → all_id_chars (session_id g) ≡ true
unfolding session_id
session_id-all_id_chars (pos n) = digits-all_id_chars 20 n [] refl
session_id-all_id_chars (negsuc n) = digits-all_id_chars 20 (n + 1) [] refl

-- The relay server accepts the session id of every game, also one with a negative number.
pub session_id-valid : (g : ℤ) → valid_session_id (session_id g) ≡ true
unfolding valid_session_id
session_id-valid g = ground (arith, session_id-all_id_chars g, session_id_lengths g)

pub split_id :
    (id rest : Bytes) → all_id_chars id ≡ true → split_path (id ++ (b'/' ∷ rest)) ≡ (id, rest)
unfolding split_path
split_id [] rest h = refl
split_id (c ∷ cs) rest h = ground (arith, split_id cs rest, h)

pub split_whole : (id : Bytes) → all_id_chars id ≡ true → split_path id ≡ (id, [])
unfolding split_path
split_whole [] h = refl
split_whole (c ∷ cs) h = ground (arith, split_whole cs, h)

all_digits : Bytes → Bool
all_digits [] = true
all_digits (c ∷ cs) = leb 48 c && all_digits cs

digits-all_digits :
    (fuel n : ℕ) (acc : Bytes) → all_digits acc ≡ true → all_digits (digits_from fuel n acc) ≡ true
unfolding digits_from all_digits
digits-all_digits zero n acc h = h
digits-all_digits (suc fuel) n acc h =
    ground (arith, digits-all_digits fuel (n / 10) ((48 + n % 10) ∷ acc))

signed : Bytes → ℤ
signed [] = pos 0
signed (c ∷ cs) = if c == b'-' then negsuc (value 0 cs - 1) else pos (value 0 (c ∷ cs))

signed_unsigned : (s : Bytes) → all_digits s ≡ true → 1 ≤ length s → signed s ≡ pos (value 0 s)
unfolding signed all_digits
signed_unsigned [] h k = absurd (omega arith)
signed_unsigned (c ∷ cs) h k = ground (arith, h)

signed_minus : (s : Bytes) → signed (b'-' ∷ s) ≡ negsuc (value 0 s - 1)
unfolding signed
signed_minus s = refl

digits_of : (n : ℕ) → all_digits (digits_from 20 n []) ≡ true
unfolding all_digits
digits_of n = digits-all_digits 20 n [] refl

value-decimal : (n : ℕ) → n < 10 ^ 20 → value 0 (digits_from 20 n []) ≡ n
unfolding value
value-decimal n h = value-digits 19 n [] h

signed-session_id :
    (g : ℤ) → pos_part g < 10 ^ 20 → neg_part g < 10 ^ 20 → signed (session_id g) ≡ g
unfolding session_id
signed-session_id (pos n) h k =
    signed_unsigned (digits_from 20 n []) (digits_of n) (digits_pos 19 n [])
    ∙ ap pos (value-decimal n h)
signed-session_id (negsuc n) h k =
    signed_minus (digits_from 20 (n + 1) [])
    ∙ (ap (λ v. negsuc (v - 1)) (value-decimal (n + 1) (omega arith)) ∙ ap negsuc (omega arith))

-- Two games whose numbers differ never share a session id: an int that is written with at most 20 digits
-- (every 64-bit int is) can be read back from it.
pub session_id-injective :
    (g h : ℤ)
    → pos_part g < 10 ^ 20
    → neg_part g < 10 ^ 20
    → pos_part h < 10 ^ 20
    → neg_part h < 10 ^ 20
    → session_id g ≡ session_id h
    → g ≡ h
session_id-injective g h a b c d e =
    sym (signed-session_id g a b) ∙ (ap signed e ∙ signed-session_id h c d)
