-- ===== src/Relay/HttpApi/Changes.antt =====
-- What a request may do to the sessions, told apart from the handlers of internal/relay/httpapi.go.
use fafsturmudprelay.Prelude.{
  ℕ, ◌+◌, ◌%◌, ◌^◌, ◌≤◌, ◌≡◌, ◌≢◌, ◌⊎◌, inl, inr, Option, some, Bytes, [], ◌∷◌, length, All, true,
  Bool-cases, arith, if◌then◌else◌, ◌==◌, ltb,
}
use fafsturmudprelay.Prelude.Int.{ℤ, pos, negsuc}
use fafsturmudprelay.Relay.SessionManager.{
  Manager, create_session, delete_session, add_player_to_session, remove_player_from_session,
}
use fafsturmudprelay.Relay.SessionManager.Reach.{Reach, next, creates, deletes, joins, leaves}
use fafsturmudprelay.Relay.RateLimits.{HttpRateLimit}
use fafsturmudprelay.Relay.RateLimits.PerIp.{used}
use fafsturmudprelay.Relay.HttpApi.{
  post, delete_method, Request, Api, id_char, all_id_chars, valid_session_id, session_size,
  split_path, trim_prefix, sessions_prefix, join, leave, Route, sessions, session_by_id,
}

-- Letters, digits, underscores and hyphens, 1 to 64 of them.
abbrev pub IsIdChar : ℕ → Type 0
IsIdChar c =
    ((b'a' ≤ c) × (c ≤ b'z'))
    ⊎ (((b'A' ≤ c) × (c ≤ b'Z')) ⊎ (((b'0' ≤ c) × (c ≤ b'9')) ⊎ ((c ≡ b'_') ⊎ (c ≡ b'-'))))

abbrev pub IsSessionId : Bytes → Type 0
IsSessionId id = All IsIdChar id × (1 ≤ length id) × (length id ≤ 64)

id_char-IsIdChar : (c : ℕ) → id_char c ≡ true → IsIdChar c
id_char-IsIdChar c h = ground (arith, h)

All-IsIdChar : (id : Bytes) → all_id_chars id ≡ true → All IsIdChar id
All-IsIdChar [] h = tt
All-IsIdChar (c ∷ cs) h = ground (arith, id_char-IsIdChar c, All-IsIdChar cs, h)

pub valid-IsSessionId : (id : Bytes) → valid_session_id id ≡ true → IsSessionId id
unfolding valid_session_id
valid-IsSessionId id h = ground (arith, All-IsIdChar id, h)

pub session_size-bounds :
    (n : ℤ) → (size : ℕ) × (session_size n ≡ pos size) × (1 ≤ size) × (size ≤ 32)
unfolding session_size
session_size-bounds (negsuc n) = (12, ground arith, omega arith, omega arith)
session_size-bounds (pos n) = elim (Bool-cases (ltb 0 n)) [
  | inr none_wanted ↦ (12, ground (arith, none_wanted), omega arith, omega arith)
  | inl some_wanted ↦ elim (Bool-cases (ltb 32 n)) [
    | inl many ↦ (32, ground (arith, some_wanted, many), omega arith, omega arith)
    | inr few ↦
        (n, ground (arith, some_wanted, few), ground (arith, some_wanted), ground (arith, few))
  ]
]

-- How many requests the limiter has counted in this second.
abbrev pub counted_before : HttpRateLimit → ℕ → ℕ
counted_before limit unix = if limit.second == unix then limit.count else 0

-- The request carries the key, if there is one, and neither the limit on all changes nor the one for its
-- address is used up.
abbrev pub MayChange : Api → Request → ℕ → Type 0
MayChange a r unix =
    ((a.api_key ≡ [])
      ⊎ (r.authorization ≡ b'B' ∷ b'e' ∷ b'a' ∷ b'r' ∷ b'e' ∷ b'r' ∷ b' ' ∷ a.api_key))
    × ((counted_before a.rate_limit unix + 1) % 2 ^ 64 ≤ a.rate_limit.max_rate)
    × ((used a.per_ip_limit r.client_ip unix + 1) % 2 ^ 64 ≤ a.per_ip_rate)

-- The session id and the action that a path names.
abbrev pub Names : Request → Bytes → Bytes → Type 0
Names r id action = split_path (trim_prefix sessions_prefix r.path) ≡ (id, action)

module _ (decode_session : Bytes → Option (Bytes × ℤ)) (decode_join : Bytes → Option (ℕ × Bytes))
    (decode_leave : Bytes → Option ℕ) (route : Bytes → Route) (r : Request) (now : ℕ)
    (m : Manager) where
  -- The only changes that a request can be answered with.
  pub data Change : Manager → Type 0 where
    makes :
        (id : Bytes) (n : ℤ) (size : ℕ)
        → route r.path ≡ sessions
        → r.method ≡ post
        → decode_session r.body ≡ some (id, n)
        → IsSessionId id
        → 1 ≤ size
        → size ≤ 32
        → Change (create_session m id (pos size) now).0
    drops :
        (id : Bytes)
        → route r.path ≡ session_by_id
        → r.method ≡ delete_method
        → Names r id []
        → IsSessionId id
        → Change (delete_session m id).0
    admits :
        (id : Bytes) (player_id : ℕ) (login : Bytes)
        → route r.path ≡ session_by_id
        → r.method ≡ post
        → Names r id join
        → IsSessionId id
        → decode_join r.body ≡ some (player_id, login)
        → player_id ≢ 0
        → Change (add_player_to_session m id player_id login).0
    removes :
        (id : Bytes) (player_id : ℕ)
        → route r.path ≡ session_by_id
        → r.method ≡ post
        → Names r id leave
        → IsSessionId id
        → decode_leave r.body ≡ some player_id
        → player_id ≢ 0
        → Change (remove_player_from_session m id player_id).0

  pub Change-Reach : {n : Manager} → Change n → Reach m → Reach n
  Change-Reach (makes id n size at p d v low high) h = next h (creates id (pos size) now)
  Change-Reach (drops id at p e v) h = next h (deletes id)
  Change-Reach (admits id player_id login at p e v d nonzero) h = next h (joins id player_id login)
  Change-Reach (removes id player_id at p e v d nonzero) h = next h (leaves id player_id)
