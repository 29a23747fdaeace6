-- ===== src/Protocol/JsonRpc/Braces.antt =====
-- Text in which each closing brace closes the last brace that is open: what ReadRaw of
-- internal/protocol/jsonrpc.go is to find between the first brace and the one that closes it.
use mathlib.Core.List.{append_assoc}
use fafsturmudprelay.Prelude.{ℕ, zero, suc, ◌≡◌, ◌≢◌, sym, ap, ◌∙◌, [], ◌∷◌, ◌++◌, Bytes, subst}

pub data Body : Bytes → Type 0 where
  empty : Body []
  plain : {s : Bytes} (c : ℕ) → c ≢ b'{' → c ≢ b'}' → Body s → Body (c ∷ s)
  nest : {s t : Bytes} → Body s → Body t → Body (b'{' ∷ (s ++ (b'}' ∷ t)))

pub Body-append : {s t : Bytes} → Body s → Body t → Body (s ++ t)
Body-append empty b = b
Body-append (plain c o k a) b = plain c o k (Body-append a b)
Body-append {t = u} (nest {s = s} {t = t} a a') b =
    subst Body (ap (λ (x : Bytes). b'{' ∷ x) (sym (append_assoc s (b'}' ∷ t) u)))
      (nest a (Body-append a' b))

-- The object around a body.
abbrev pub braced : Bytes → Bytes
braced s = b'{' ∷ (s ++ (b'}' ∷ []))

pub braced-Body : {s : Bytes} → Body s → Body (braced s)
braced-Body a = nest a empty

-- Text with `d` braces open: bodies, with an open brace before each.
abbrev pub IsOpen : ℕ → Bytes → Type 0
IsOpen zero buf = ⊥
IsOpen (suc zero) buf = (s : Bytes) × Body s × (buf ≡ b'{' ∷ s)
IsOpen (suc (suc d)) buf =
    (p : Bytes) × (s : Bytes) × IsOpen (suc d) p × Body s × (buf ≡ p ++ (b'{' ∷ s))

pub IsOpen-extend :
    (d : ℕ) (buf t : Bytes) → IsOpen (suc d) buf → Body t → IsOpen (suc d) (buf ++ t)
IsOpen-extend zero buf t (s, b, e) bt = (s ++ t, Body-append b bt, ap (λ (x : Bytes). x ++ t) e)
IsOpen-extend (suc d) buf t (p, s, o, b, e) bt =
    (p, s ++ t, o, Body-append b bt, ap (λ (x : Bytes). x ++ t) e ∙ append_assoc p (b'{' ∷ s) t)

pub IsOpen-close :
    (d : ℕ) (buf : Bytes) → IsOpen (suc (suc d)) buf → IsOpen (suc d) (buf ++ (b'}' ∷ []))
IsOpen-close d buf (p, s, o, b, e) =
    subst (λ (x : Bytes). IsOpen (suc d) x)
      (sym (ap (λ (x : Bytes). x ++ (b'}' ∷ [])) e ∙ append_assoc p (b'{' ∷ s) (b'}' ∷ [])))
      (IsOpen-extend d p (braced s) o (braced-Body b))
