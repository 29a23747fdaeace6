-- ===== src/Examples/Http.antt =====
-- Concrete requests (internal/relay/httpapi.go).

use fafsturmudprelay.Prelude.{
  arith, ◌-◌, ◌*◌, ◌≡◌, ◌⊎◌, refl, none, some, List, [], ◌∷◌, Bytes, bytes_eq, ◌^◌,
}
use fafsturmudprelay.Prelude.Map.{lookup, insert}
use fafsturmudprelay.Relay.RateLimits.{HttpRateLimit, IpBucket, allow_ip}
use fafsturmudprelay.Relay.RateLimits.PerIp.{min, granted, granted_lem, used, requests_of}
use fafsturmudprelay.Relay.HttpApi.{Api, Request, session_by_id, post, join, serve_http}
use fafsturmudprelay.Relay.HttpApi.Changes.{MayChange, Change}
use fafsturmudprelay.Relay.HttpApi.Guards.{changes_are_guarded}
use fafsturmudprelay.Relay.SessionManager.{Manager}
use fafsturmudprelay.Examples.Managers.{m₄}

abbrev here : Bytes
here = b'1' ∷ []

abbrev there : Bytes
there = b'2' ∷ []

-- Two requests of a limit of three have come from the first address.
abbrev buckets : List (Bytes × IpBucket)
buckets = (here, record { count = 2; second = 50 }) ∷ []

granted_once : granted buckets here 3 50 (there ∷ here ∷ here ∷ []) ≡ 1
unfolding granted lookup allow_ip insert
granted_once = refl

granted_lem_example :
    granted buckets here 3 50 (there ∷ here ∷ here ∷ [])
    ≡ min (requests_of here (there ∷ here ∷ here ∷ [])) (3 - used buckets here 50)
unfolding lookup
granted_lem_example =
    granted_lem buckets here 3 50 (there ∷ here ∷ here ∷ []) (refl, tt) (omega arith)

abbrev limit : HttpRateLimit
limit = record { count = 0; second = 0; max_rate = 200 }

abbrev api : Api
api = record {
  manager = m₄;
  rate_limit = limit;
  read_rate_limit = limit;
  per_ip_limit = buckets;
  per_ip_rate = 20;
  api_key = [];
}

abbrev request : Request
request = record {
  method = post;
  path = b'/' ∷ b's' ∷ b'e' ∷ b's' ∷ b's' ∷ b'i' ∷ b'o' ∷ b'n' ∷ b's' ∷ b'/' ∷ b'g' ∷ b'/' ∷ join;
  authorization = [];
  client_ip = here;
  body = [];
}

-- Every body is a join of player 9, or has a wrong form.
changes_are_guarded_example :
    let m : Manager =
      (serve_http
        (λ b. none)
        (λ b. some (9, here))
        (λ b. none)
        (λ p. session_by_id)
        api
        request
        (50 * 10 ^ 9)
        50).0.manager in
    (m ≡ m₄)
    ⊎ (MayChange api request 50
        × Change
            (λ b. none)
            (λ b. some (9, here))
            (λ b. none)
            (λ p. session_by_id)
            request
            (50 * 10 ^ 9)
            m₄
            m)
unfolding lookup
changes_are_guarded_example =
    changes_are_guarded (λ b. none) (λ b. some (9, here)) (λ b. none) (λ p. session_by_id) api
      request (50 * 10 ^ 9) 50 (refl, tt)
