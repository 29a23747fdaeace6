-- ===== src/Protocol/Gpgnet/Escapes.antt =====
-- replaceEscapes of internal/protocol/gpgnet.go.
use fafsturmudprelay.Prelude.{
  ℕ, ◌≡◌, refl, Bool, false, ◌&&◌, ◌||◌, [], ◌∷◌, Bytes, arith, ◌==◌, if◌then◌else◌,
}

-- strings.ReplaceAll of the two bytes `a b` by the one byte `r`, from left to right.
unfoldable pub replace_all : ℕ → ℕ → ℕ → Bytes → Bytes
replace_all a b r [] = []
replace_all a b r (x ∷ []) = x ∷ []
replace_all a b r (x ∷ y ∷ rest) =
    let skipped = r ∷ replace_all a b r rest in
    let kept = x ∷ replace_all a b r (y ∷ rest) in if x == a && y == b then skipped else kept

unfoldable pub replace_escapes : Bytes → Bytes
unfolding replace_all
replace_escapes s = replace_all b'/' b'n' b'\n' (replace_all b'/' b't' b'\t' s)

-- Whether the two bytes `a b` stand somewhere.
abbrev pub has_pair : ℕ → ℕ → Bytes → Bool
has_pair a b [] = false
has_pair a b (x ∷ []) = false
has_pair a b (x ∷ y ∷ rest) = (x == a && y == b) || has_pair a b (y ∷ rest)

replace_all-unchanged : (a b r : ℕ) (s : Bytes) → has_pair a b s ≡ false → replace_all a b r s ≡ s
unfolding replace_all
replace_all-unchanged a b r [] h = refl
replace_all-unchanged a b r (x ∷ []) h = refl
replace_all-unchanged a b r (x ∷ y ∷ rest) h =
    ground (arith, replace_all-unchanged a b r (y ∷ rest))

-- A text without the escapes /t and /n is not changed.
pub replace_escapes-unchanged :
    (s : Bytes)
    → has_pair b'/' b't' s ≡ false
    → has_pair b'/' b'n' s ≡ false
    → replace_escapes s ≡ s
unfolding replace_escapes
replace_escapes-unchanged s t n =
    rw (replace_all-unchanged b'/' b't' b'\t' s t) (replace_all-unchanged b'/' b'n' b'\n' s n)
