-- ===== src/Relay/HttpApi/Guards.antt =====
-- The handlers of internal/relay/httpapi.go change the sessions only as the guards before them allow.
use fafsturmudprelay.Prelude.{
  ℕ, ◌+◌, ◌%◌, ◌^◌, ◌≤◌, ◌≡◌, refl, sym, subst, ◌∙◌, inl, inr, ◌⊎◌, Option, true, Bytes, ◌++◌,
  Bool-cases, ◌==◌, length, [], ◌∷◌, bytes_eq, bytes_beq_iff, arith, leb→le,
}
use fafsturmudprelay.Prelude.Int.{ℤ}
use fafsturmudprelay.Prelude.Map.{Unique}
use fafsturmudprelay.Relay.SessionManager.{Manager}
use fafsturmudprelay.Relay.SessionManager.Reach.{Reach}
use fafsturmudprelay.Relay.RateLimits.{HttpRateLimit, allow, allow_ip}
use fafsturmudprelay.Relay.RateLimits.PerIp.{used, allow_granted}
use fafsturmudprelay.Relay.HttpApi.{Request, Api, bearer, check_api_key, is_get, Route, serve_http}
use fafsturmudprelay.Relay.HttpApi.Changes.{counted_before, MayChange, Change, Change-Reach}
use fafsturmudprelay.Relay.HttpApi.Handlers.{dispatch-Fine, read_only}

with_permission : {A B C D E : Type 0} → A ⊎ B → C → D → E → A ⊎ (C × D × E × B)
with_permission (inl a) c d e = inl a
with_permission (inr b) c d e = inr (c, d, e, b)

no_bytes : (key : Bytes) → (length key == 0) ≡ true → key ≡ []
no_bytes [] h = refl
no_bytes (c ∷ cs) h = ground (arith, h)

has_key :
    (a : Api) (r : Request)
    → check_api_key a r ≡ true
    → (a.api_key ≡ []) ⊎ (r.authorization ≡ bearer ++ a.api_key)
unfolding check_api_key
has_key a r h = elim (Bool-cases (length a.api_key == 0)) [
  | inl none_set ↦ inl (no_bytes a.api_key none_set)
  | inr set ↦ inr ((bytes_beq_iff r.authorization (bearer ++ a.api_key)).0 (ground (arith, h, set)))
]

has_room :
    (limit : HttpRateLimit) (unix : ℕ)
    → (allow limit unix).1 ≡ true
    → (counted_before limit unix + 1) % 2 ^ 64 ≤ limit.max_rate
unfolding allow
has_room limit unix h = leb→le _ limit.max_rate h

address_has_room :
    (a : Api) (r : Request) (unix : ℕ)
    → Unique a.per_ip_limit
    → (allow_ip a.per_ip_limit r.client_ip a.per_ip_rate unix).1 ≡ true
    → (used a.per_ip_limit r.client_ip unix + 1) % 2 ^ 64 ≤ a.per_ip_rate
address_has_room a r unix u h =
    leb→le _ a.per_ip_rate (sym (allow_granted a.per_ip_limit r.client_ip a.per_ip_rate unix u) ∙ h)

module _ (decode_session : Bytes → Option (Bytes × ℤ)) (decode_join : Bytes → Option (ℕ × Bytes))
    (decode_leave : Bytes → Option ℕ) (route : Bytes → Route) where
  served_cases :
      (a : Api) (r : Request) (now unix : ℕ)
      → let m : Manager =
          (serve_http decode_session decode_join decode_leave route a r now unix).0.manager in
        (m ≡ a.manager)
        ⊎ ((check_api_key a r ≡ true)
            × ((allow a.rate_limit unix).1 ≡ true)
            × ((allow_ip a.per_ip_limit r.client_ip a.per_ip_rate unix).1 ≡ true)
            × Change decode_session decode_join decode_leave route r now a.manager m)
  unfolding serve_http
  served_cases a r now unix =
      let handled =
        dispatch-Fine decode_session decode_join decode_leave route r now a.manager (route r.path)
          refl in
      elim (Bool-cases (is_get r.method)) [
        | inl g ↦ elim (Bool-cases (allow a.read_rate_limit unix).1) [
          | inl w ↦
              rw (g, w)
                (inl (
                  read_only decode_session decode_join decode_leave route r now a.manager _ handled
                    g))
          | inr w ↦ rw (g, w) (inl refl)
        ]
        | inr g ↦ elim (Bool-cases (check_api_key a r)) [
          | inr k ↦ rw (g, k) (inl refl)
          | inl k ↦ elim (Bool-cases (allow a.rate_limit unix).1) [
            | inr w ↦ rw (g, k, w) (inl refl)
            | inl w ↦ elim (Bool-cases (allow_ip a.per_ip_limit r.client_ip a.per_ip_rate unix).1) [
              | inr i ↦ rw (g, k, w, i) (inl refl)
              | inl i ↦ rw (g, k, w, i) (with_permission handled refl refl refl)
            ]
          ]
        ]
      ]

  -- A request, whatever its method, path, body and key, leaves the sessions as they are, or it has the
  -- API key, both limits have room for it, and it is one of these: a POST that creates a session with a
  -- valid id and 1 to 32 places, a DELETE of the session that its path names, or a POST by which a
  -- player, whose id is not 0, joins or leaves that session. The table of limits has no address twice.
  pub changes_are_guarded :
      (a : Api) (r : Request) (now unix : ℕ)
      → Unique a.per_ip_limit
      → let m : Manager =
          (serve_http decode_session decode_join decode_leave route a r now unix).0.manager in
        (m ≡ a.manager)
        ⊎ (MayChange a r unix
            × Change decode_session decode_join decode_leave route r now a.manager m)
  changes_are_guarded a r now unix u = elim (served_cases a r now unix) [
    | inl same ↦ inl same
    | inr (k, w, i, change) ↦
        inr ((has_key a r k, has_room a.rate_limit unix w, address_has_room a r unix u i), change)
  ]

  -- The steps of the session manager make all changes.
  pub serve_http-Reach :
      (a : Api) (r : Request) (now unix : ℕ)
      → Reach a.manager
      → Reach (serve_http decode_session decode_join decode_leave route a r now unix).0.manager
  serve_http-Reach a r now unix h = elim (served_cases a r now unix) [
    | inl same ↦ subst Reach (sym same) h
    | inr (k, w, i, change) ↦
        Change-Reach decode_session decode_join decode_leave route r now a.manager change h
  ]
