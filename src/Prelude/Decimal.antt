-- ===== src/Prelude/Decimal.antt =====
-- fmt.Sprintf("%d") of an int.
use fafsturmudprelay.Prelude.Int.{ℤ, pos, negsuc}
use fafsturmudprelay.Prelude.Keys.{Bytes}
use fafsturmudprelay.Prelude.Tests.{ltb, if◌then◌else◌}
use Prim.Native.Nat.{ℕ, zero, suc, ◌+◌, ◌/◌, ◌%◌}
use mathlib.Core.List.{[], ◌∷◌}

-- The decimal digits of a number before `acc`; 20 of them are enough for 64 bits.
unfoldable pub digits_from : ℕ → ℕ → Bytes → Bytes
digits_from zero n acc = acc
digits_from (suc fuel) n acc =
    let more = digits_from fuel (n / 10) ((b'0' + n % 10) ∷ acc) in
    if ltb n 10 then (b'0' + n % 10) ∷ acc else more

unfoldable pub decimal : ℤ → Bytes
decimal (pos n) = digits_from 20 n []
decimal (negsuc n) = b'-' ∷ digits_from 20 (n + 1) []
