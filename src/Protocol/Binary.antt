-- ===== src/Protocol/Binary.antt =====
-- The parts of Go's encoding/binary that the program calls. An unsigned word is a number below its
-- modulus; a byte is a number below 256. A read past the end of a slice is a panic, `none` here.
use fafsturmudprelay.Prelude.{
  ℕ, ◌+◌, ◌*◌, ◌/◌, ◌%◌, ◌^◌, ◌<◌, ◌≡◌, Option, none, some, [], ◌∷◌, ◌++◌, arith, Bytes, All,
}

abbrev pub IsByte : ℕ → Type 0
IsByte b = b < 256

abbrev pub IsU16 : ℕ → Type 0
IsU16 n = n < 2 ^ 16

abbrev pub IsU32 : ℕ → Type 0
IsU32 n = n < 2 ^ 32

-- binary.BigEndian.PutUint16
unfoldable pub put_uint16_be : ℕ → Bytes
put_uint16_be n = (n / 2 ^ 8 % 256) ∷ (n % 256) ∷ []

-- binary.BigEndian.PutUint32
unfoldable pub put_uint32_be : ℕ → Bytes
put_uint32_be n = (n / 2 ^ 24 % 256) ∷ (n / 2 ^ 16 % 256) ∷ (n / 2 ^ 8 % 256) ∷ (n % 256) ∷ []

-- binary.BigEndian.PutUint64
unfoldable pub put_uint64_be : ℕ → Bytes
unfolding put_uint32_be
put_uint64_be n = put_uint32_be (n / 2 ^ 32) ++ put_uint32_be n

-- binary.LittleEndian.PutUint32, which binary.Write uses for an int32 or a uint32
unfoldable pub put_uint32_le : ℕ → Bytes
put_uint32_le n = (n % 256) ∷ (n / 2 ^ 8 % 256) ∷ (n / 2 ^ 16 % 256) ∷ (n / 2 ^ 24 % 256) ∷ []

-- binary.BigEndian.Uint16
unfoldable pub uint16_be : Bytes → Option ℕ
uint16_be (a ∷ b ∷ rest) = some (a * 2 ^ 8 + b)
uint16_be _ = none

-- binary.BigEndian.Uint32
unfoldable pub uint32_be : Bytes → Option ℕ
uint32_be (a ∷ b ∷ c ∷ d ∷ rest) = some (a * 2 ^ 24 + b * 2 ^ 16 + c * 2 ^ 8 + d)
uint32_be _ = none

-- binary.BigEndian.Uint64
unfoldable pub uint64_be : Bytes → Option ℕ
unfolding uint32_be
uint64_be (a ∷ b ∷ c ∷ d ∷ rest) = elim (uint32_be (a ∷ b ∷ c ∷ d ∷ [])) [
  | none ↦ none
  | some high ↦ elim (uint32_be rest) [ none ↦ none | some low ↦ some (high * 2 ^ 32 + low) ]
]
uint64_be _ = none

-- binary.LittleEndian.Uint32
unfoldable pub uint32_le : Bytes → Option ℕ
uint32_le (a ∷ b ∷ c ∷ d ∷ rest) = some (a + b * 2 ^ 8 + c * 2 ^ 16 + d * 2 ^ 24)
uint32_le _ = none

pub uint16_be-put : (n : ℕ) (rest : Bytes) → IsU16 n → uint16_be (put_uint16_be n ++ rest) ≡ some n
unfolding uint16_be put_uint16_be
uint16_be-put n rest h = ground arith

pub uint32_be-put : (n : ℕ) (rest : Bytes) → IsU32 n → uint32_be (put_uint32_be n ++ rest) ≡ some n
unfolding uint32_be put_uint32_be
uint32_be-put n rest h = ground arith

pub uint32_le-put : (n : ℕ) (rest : Bytes) → IsU32 n → uint32_le (put_uint32_le n ++ rest) ≡ some n
unfolding uint32_le put_uint32_le
uint32_le-put n rest h = ground arith

pub put_uint32_be-bytes : (n : ℕ) → All IsByte (put_uint32_be n)
unfolding put_uint32_be
put_uint32_be-bytes n = omega arith

-- The four bytes of a number that was read from them.
pub put-uint32_be :
    (a b c d : ℕ)
    → IsByte a
    → IsByte b
    → IsByte c
    → IsByte d
    → put_uint32_be (a * 2 ^ 24 + b * 2 ^ 16 + c * 2 ^ 8 + d) ≡ a ∷ b ∷ c ∷ d ∷ []
unfolding put_uint32_be
put-uint32_be a b c d ha hb hc hd = ground arith

pub uint64_be-put : (n : ℕ) → n < 2 ^ 64 → uint64_be (put_uint64_be n) ≡ some n
unfolding uint64_be put_uint64_be uint32_be put_uint32_be
uint64_be-put n h = ground arith
