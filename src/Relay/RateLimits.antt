-- ===== src/Relay/RateLimits.antt =====
-- The two rate limiters of internal/relay/httpapi.go. `now` is time.Now().Unix(); counts are uint64.
pub mod PerIp
use fafsturmudprelay.Prelude.{
  ℕ, ◌+◌, ◌%◌, ◌^◌, Option, none, some, Bool, List, [], ◌∷◌, Bytes, length, ltb, leb, ◌==◌,
  if◌then◌else◌, bytes_eq,
}
use fafsturmudprelay.Prelude.Map.{lookup, insert}

pub record HttpRateLimit : Type 0 where
  pub count : ℕ
  pub second : ℕ
  pub max_rate : ℕ

-- httpRateLimit.Allow
unfoldable pub allow : HttpRateLimit → ℕ → HttpRateLimit × Bool
allow rl now =
    let count : ℕ = if rl.second == now then rl.count else 0 in
    let counted : ℕ = (count + 1) % 2 ^ 64 in
    (record rl { second = now; count = counted }, leb counted rl.max_rate)

pub record IpBucket : Type 0 where
  pub count : ℕ
  pub second : ℕ

abbrev pub max_buckets : ℕ
max_buckets = 10000

-- `b.second < now-1`, without a negative number.
abbrev pub is_old : IpBucket → ℕ → Bool
is_old b now = ltb (b.second + 1) now

-- The loop that deletes old buckets.
unfoldable pub delete_old : ℕ → List (Bytes × IpBucket) → List (Bytes × IpBucket)
delete_old now [] = []
delete_old now ((ip, b) ∷ rest) =
    let others = delete_old now rest in if is_old b now then others else (ip, b) ∷ others

abbrev pub bucket_of : Option IpBucket → IpBucket
bucket_of none = record { count = 0; second = 0 }
bucket_of (some b) = b

abbrev pub counted_in : IpBucket → ℕ → ℕ
counted_in b now = ((if b.second == now then b.count else 0) + 1) % 2 ^ 64

-- perIPLimit.Allow
unfoldable pub allow_ip : List (Bytes × IpBucket) → Bytes → ℕ → ℕ → List (Bytes × IpBucket) × Bool
unfolding delete_old
allow_ip buckets ip max_rate now =
    let kept : List (Bytes × IpBucket) =
      if ltb max_buckets (length buckets) then delete_old now buckets else buckets in
    let counted : ℕ = counted_in (bucket_of (lookup ip kept)) now in
    (insert ip (record { count = counted; second = now }) kept, leb counted max_rate)
