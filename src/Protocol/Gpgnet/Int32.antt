-- ===== src/Protocol/Gpgnet/Int32.antt =====
-- Go's int32 as an integer and as the 32-bit word that stands for it (internal/protocol/gpgnet.go).
use fafsturmudprelay.Prelude.{ℕ, ◌-◌, ◌%◌, ◌^◌, ◌<◌, ◌≡◌, arith, ltb, if◌then◌else◌}
use fafsturmudprelay.Prelude.Int.{ℤ, pos, negsuc, ◌≤ℤ◌}

abbrev pub signed32 : ℕ → ℤ
signed32 w = if ltb w (2 ^ 31) then pos w else negsuc (2 ^ 32 - w - 1)

-- The conversion to a 32-bit word, which wraps.
abbrev pub word_of : ℤ → ℕ
word_of (pos n) = n % 2 ^ 32
word_of (negsuc n) = 2 ^ 32 - 1 - n % 2 ^ 32

-- The conversion int32(v).
abbrev pub to_int32 : ℤ → ℤ
to_int32 v = signed32 (word_of v)

pub word_of-lt : (v : ℤ) → word_of v < 2 ^ 32
word_of-lt (pos n) = omega arith
word_of-lt (negsuc n) = omega arith

-- A number that fits an int32 is not changed by the conversion.
pub to_int32-fits : (v : ℤ) → negsuc (2 ^ 31 - 1) ≤ℤ v → v ≤ℤ pos (2 ^ 31 - 1) → to_int32 v ≡ v
to_int32-fits (pos n) lo hi = ground arith
to_int32-fits (negsuc n) lo hi = ground arith
