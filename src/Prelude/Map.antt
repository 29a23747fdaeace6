-- ===== src/Prelude/Map.antt =====
-- Go's `map` as an association list. A list holds one of the orders in which `range` may run over
-- the map; the statements range over every list, so over every order.
use fafsturmudprelay.Prelude.Tests.{if◌then◌else◌, is_some}
use fafsturmudprelay.Prelude.Lists.{length, All}
use fafsturmudprelay.Prelude.Keys.{Eq}
use Prim.Native.Nat.{suc}
use mathlib.Core.Path.{◌≡◌, refl}
use mathlib.Core.Option.{Option, none, some}
use mathlib.Core.List.{List, [], ◌∷◌}
use native.Mathlib.Omega.{arith}

module _ {K V : Type 0} ⦃e : Eq K⦄ where
  -- v, ok := m[k]
  unfoldable pub lookup : K → List (K × V) → Option V
  lookup k [] = none
  lookup k ((j, v) ∷ m) = if e.beq j k then some v else lookup k m

  -- m[k] = v
  unfoldable pub insert : K → V → List (K × V) → List (K × V)
  insert k v [] = (k, v) ∷ []
  insert k v ((j, w) ∷ m) = if e.beq j k then (j, v) ∷ m else (j, w) ∷ insert k v m

  -- delete(m, k)
  unfoldable pub delete : K → List (K × V) → List (K × V)
  delete k [] = []
  delete k ((j, w) ∷ m) = let rest = delete k m in if e.beq j k then rest else (j, w) ∷ rest

  -- No key stands twice.
  abbrev pub Unique : List (K × V) → Type 0
  Unique [] = Unit {0}
  Unique ((k, v) ∷ m) = (lookup k m ≡ none) × Unique m

  pub lookup-insert :
      (k j : K) (v : V) (m : List (K × V))
      → lookup j (insert k v m) ≡ (if e.beq k j then some v else lookup j m)
  unfolding lookup insert
  lookup-insert k j v [] = refl
  lookup-insert k j v ((i, w) ∷ m) =
      ground (arith, lookup-insert k j v m, e.beq_iff k j, e.beq_iff i k, e.beq_iff i j)

  pub lookup-delete :
      (k j : K) (m : List (K × V))
      → lookup j (delete k m) ≡ (if e.beq k j then none else lookup j m)
  unfolding lookup delete
  lookup-delete k j [] = ground arith
  lookup-delete k j ((i, w) ∷ m) =
      ground (arith, lookup-delete k j m, e.beq_iff k j, e.beq_iff i k, e.beq_iff i j)

  pub insert-Unique : (k : K) (v : V) (m : List (K × V)) → Unique m → Unique (insert k v m)
  unfolding lookup insert
  insert-Unique k v [] h = ground arith
  insert-Unique k v ((i, w) ∷ m) h =
      ground (arith, insert-Unique k v m h.1, lookup-insert k i v m, e.beq_iff k i, e.beq_iff i k)

  pub delete-Unique : (k : K) (m : List (K × V)) → Unique m → Unique (delete k m)
  unfolding lookup delete
  delete-Unique k [] h = h
  delete-Unique k ((i, w) ∷ m) h =
      ground (arith, delete-Unique k m h.1, lookup-delete k i m, e.beq_iff k i, e.beq_iff i k)

  pub length-insert :
      (k : K) (v : V) (m : List (K × V))
      → length (insert k v m) ≡ (if is_some (lookup k m) then length m else suc (length m))
  unfolding lookup insert
  length-insert k v [] = refl
  length-insert k v ((i, w) ∷ m) = ground (arith, length-insert k v m)

  delete_missing : (k : K) (m : List (K × V)) → lookup k m ≡ none → delete k m ≡ m
  unfolding lookup delete
  delete_missing k [] h = refl
  delete_missing k ((i, w) ∷ m) h = ground (arith, delete_missing k m)

  pub length-delete :
      (k : K) (m : List (K × V))
      → Unique m
      → length m ≡ (if is_some (lookup k m) then suc (length (delete k m)) else length (delete k m))
  unfolding lookup delete
  length-delete k [] h = refl
  length-delete k ((i, w) ∷ m) h =
      ground (arith, length-delete k m h.1, delete_missing k m, e.beq_iff i k, e.beq_iff k i)

  -- Writing back what a key holds changes nothing.
  pub insert-lookup : (k : K) (v : V) (m : List (K × V)) → lookup k m ≡ some v → insert k v m ≡ m
  unfolding lookup insert
  insert-lookup k v [] h = ground arith
  insert-lookup k v ((i, w) ∷ m) h = ground (arith, insert-lookup k v m)

  lookup-cons :
      (k : K) (v : V) (m es : List (K × V))
      → lookup k m ≡ none
      → All (λ (x : K × V). lookup x.0 m ≡ some x.1) es
      → All (λ (x : K × V). lookup x.0 ((k, v) ∷ m) ≡ some x.1) es
  unfolding lookup
  lookup-cons k v m [] new h = tt
  lookup-cons k v m ((j, w) ∷ es) new h =
      (ground (arith, new, h.0, e.beq_iff k j), lookup-cons k v m es new h.1)

  -- With no key twice, each entry is what its key looks up.
  pub All-lookup : (m : List (K × V)) → Unique m → All (λ (x : K × V). lookup x.0 m ≡ some x.1) m
  unfolding lookup
  All-lookup [] u = tt
  All-lookup ((k, v) ∷ m) u =
      (ground (arith, e.beq_iff k k), lookup-cons k v m m u.0 (All-lookup m u.1))
