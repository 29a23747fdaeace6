-- ===== src/Relay/RateLimits/PerIp.antt =====
-- perIPLimit of internal/relay/httpapi.go: what it grants to one address in one second.
use fafsturmudprelay.Prelude.{
  ℕ, suc, ◌+◌, ◌-◌, ◌%◌, ◌^◌, ◌<◌, ◌≤◌, ◌≡◌, refl, ap, ◌∙◌, inl, inr, Option, none, some, Bool,
  ◌&&◌, List, [], ◌∷◌, Bytes, length, ltb, leb, ◌==◌, if◌then◌else◌, bytes_eq, bytes_beq,
  bytes_beq_iff, arith, Bool-cases, Option-cases,
}
use fafsturmudprelay.Prelude.Map.{lookup, insert, Unique, lookup-insert, insert-Unique}
use fafsturmudprelay.Relay.RateLimits.{
  IpBucket, max_buckets, is_old, delete_old, bucket_of, allow_ip,
}

abbrev Buckets : Type 0
Buckets = List (Bytes × IpBucket)

-- How many requests of `ip` were counted in the second `now`.
abbrev pub used : Buckets → Bytes → ℕ → ℕ
used m ip now = let b : IpBucket = bucket_of (lookup ip m) in if b.second == now then b.count else 0

abbrev unless_old : Option IpBucket → ℕ → Option IpBucket
unless_old none now = none
unless_old (some b) now = if is_old b now then none else some b

lookup-delete_old :
    (ip : Bytes) (now : ℕ) (m : Buckets)
    → Unique m
    → lookup ip (delete_old now m) ≡ unless_old (lookup ip m) now
unfolding lookup delete_old
lookup-delete_old ip now [] u = refl
lookup-delete_old ip now ((k, b) ∷ m) u =
    ground (arith, lookup-delete_old ip now m u.1, u.0, bytes_beq_iff k ip)

delete_old-Unique : (now : ℕ) (m : Buckets) → Unique m → Unique (delete_old now m)
unfolding delete_old
delete_old-Unique now [] u = u
delete_old-Unique now ((k, b) ∷ m) u =
    ground (arith, lookup-delete_old k now m u.1, u.0, delete_old-Unique now m u.1)

-- Deleting old buckets forgets no request of this second.
used-delete_old :
    (ip : Bytes) (now : ℕ) (m : Buckets) → Unique m → used (delete_old now m) ip now ≡ used m ip now
used-delete_old ip now m u = elim (Option-cases (lookup ip m)) [
  | inl e ↦ ground (arith, e, lookup-delete_old ip now m u)
  | inr (b, e) ↦ ground (arith, e, lookup-delete_old ip now m u)
]

abbrev kept : Buckets → ℕ → Buckets
kept m now = if ltb max_buckets (length m) then delete_old now m else m

kept-Unique : (m : Buckets) (now : ℕ) → Unique m → Unique (kept m now)
kept-Unique m now u = elim (Bool-cases (ltb max_buckets (length m))) [
  | inl e ↦ rw e (delete_old-Unique now m u)
  | inr e ↦ rw e u
]

used-kept :
    (m : Buckets) (ip : Bytes) (now : ℕ) → Unique m → used (kept m now) ip now ≡ used m ip now
used-kept m ip now u = elim (Bool-cases (ltb max_buckets (length m))) [
  | inl e ↦ rw e (used-delete_old ip now m u)
  | inr e ↦ rw e refl
]

allow-Unique : (m : Buckets) (c : Bytes) (max now : ℕ) → Unique m → Unique (allow_ip m c max now).0
unfolding allow_ip
allow-Unique m c max now u = insert-Unique c _ (kept m now) (kept-Unique m now u)

used-insert :
    (m : Buckets) (c ip : Bytes) (n now : ℕ)
    → used (insert c (record { count = n; second = now }) m) ip now
      ≡ (if bytes_beq c ip then n else used m ip now)
used-insert m c ip n now = elim (Bool-cases (bytes_beq c ip)) [
  | inl e ↦ ground (arith, e, lookup-insert c ip (record { count = n; second = now }) m)
  | inr e ↦ ground (arith, e, lookup-insert c ip (record { count = n; second = now }) m)
]

allow-used :
    (m : Buckets) (c ip : Bytes) (max now : ℕ)
    → Unique m
    → used (allow_ip m c max now).0 ip now
      ≡ (if bytes_beq c ip then (used m ip now + 1) % 2 ^ 64 else used m ip now)
unfolding allow_ip
allow-used m c ip max now u =
    used-insert (kept m now) c ip ((used (kept m now) c now + 1) % 2 ^ 64) now
    ∙ elim (Bool-cases (bytes_beq c ip)) [
      | inl e ↦ rw e (
          ap (λ (n : ℕ). (n + 1) % 2 ^ 64)
            (used-kept m c now u ∙ ap (λ (x : Bytes). used m x now) ((bytes_beq_iff c ip).0 e)))
      | inr e ↦ rw e (used-kept m ip now u)
    ]

pub allow_granted :
    (m : Buckets) (c : Bytes) (max now : ℕ)
    → Unique m
    → (allow_ip m c max now).1 ≡ leb ((used m c now + 1) % 2 ^ 64) max
unfolding allow_ip
allow_granted m c max now u = rw (← used-kept m c now u) refl

-- How many requests of `ip` are granted, of requests that all come in the second `now`, each by the
-- address that it comes from.
unfoldable pub granted : Buckets → Bytes → ℕ → ℕ → List Bytes → ℕ
granted m ip max now [] = 0
granted m ip max now (c ∷ cs) =
    let (m', allowed) = allow_ip m c max now in
    let later = granted m' ip max now cs in if bytes_beq c ip && allowed then later + 1 else later

unfoldable pub requests_of : Bytes → List Bytes → ℕ
requests_of ip [] = 0
requests_of ip (c ∷ cs) =
    let later = requests_of ip cs in if bytes_beq c ip then later + 1 else later

requests_of-le : (ip : Bytes) (cs : List Bytes) → requests_of ip cs ≤ length cs
unfolding requests_of
requests_of-le ip [] = omega arith
requests_of-le ip (c ∷ cs) = ground (arith, requests_of-le ip cs)

abbrev pub min : ℕ → ℕ → ℕ
min a b = if leb a b then a else b

room : (a b n : ℕ) → b ≡ (a + 1) % 2 ^ 64 → a + suc n < 2 ^ 64 → b + n < 2 ^ 64
room a b n e h = ground (arith, e, h)

less : (a b n : ℕ) → b ≡ a → a + suc n < 2 ^ 64 → b + n < 2 ^ 64
less a b n e h = ground (arith, e, h)

enough : (a n : ℕ) → a + suc n < 2 ^ 64 → a + 1 < 2 ^ 64
enough a n h = omega (arith, h)

count_one :
    (a b max r g : ℕ) (allowed : Bool)
    → a + 1 < 2 ^ 64
    → b ≡ (a + 1) % 2 ^ 64
    → allowed ≡ leb ((a + 1) % 2 ^ 64) max
    → g ≡ min r (max - b)
    → (if allowed then g + 1 else g) ≡ min (r + 1) (max - a)
count_one a b max r g allowed h e l k = ground (arith, h, e, l, k)

-- Within one second, an address is granted exactly as many requests as it makes, up to what is left of
-- the limit: requests of other addresses, and the deletion of old buckets, neither use up its limit
-- nor restore it. The counters must not wrap.
pub granted_lem :
    (m : Buckets) (ip : Bytes) (max now : ℕ) (cs : List Bytes)
    → Unique m
    → used m ip now + length cs < 2 ^ 64
    → granted m ip max now cs ≡ min (requests_of ip cs) (max - used m ip now)
unfolding granted requests_of
granted_lem m ip max now [] u h = ground arith
granted_lem m ip max now (c ∷ cs) u h =
    let m' = (allow_ip m c max now).0 in
    let step = allow-used m c ip max now u in
    let u' = allow-Unique m c max now u in
    elim (Bool-cases (bytes_beq c ip)) [
      | inl e ↦
          let step' : used m' ip now ≡ (used m ip now + 1) % 2 ^ 64 =
            step ∙ ap (λ (x : Bool). if x then (used m ip now + 1) % 2 ^ 64 else used m ip now) e in
          let later =
            granted_lem m' ip max now cs u'
              (room (used m ip now) (used m' ip now) (length cs) step' h) in
          rw e (
            count_one (used m ip now) (used m' ip now) max (requests_of ip cs)
              (granted m' ip max now cs) (allow_ip m c max now).1
              (enough (used m ip now) (length cs) h) step'
              (allow_granted m c max now u
                ∙ ap (λ (x : Bytes). leb ((used m x now + 1) % 2 ^ 64) max)
                    ((bytes_beq_iff c ip).0 e))
              later)
      | inr e ↦
          let step' : used m' ip now ≡ used m ip now =
            step ∙ ap (λ (x : Bool). if x then (used m ip now + 1) % 2 ^ 64 else used m ip now) e in
          let later =
            granted_lem m' ip max now cs u'
              (less (used m ip now) (used m' ip now) (length cs) step' h) in
          rw e (later ∙ ap (λ (x : ℕ). min (requests_of ip cs) (max - x)) step')
    ]
