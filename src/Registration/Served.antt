-- ===== src/Registration/Served.antt =====
-- What the relay server makes of the requests that an adapter sends.
use fafsturmudprelay.Prelude.{
  ℕ, ◌≡◌, refl, ◌⊎◌, inl, inr, true, false, Bool-cases, Bytes, [], ◌∷◌, ◌++◌, length, arith, ◌==◌,
  Option,
}
use fafsturmudprelay.Prelude.Int.{ℤ}
use fafsturmudprelay.Outcome.{Outcome, ok}
use fafsturmudprelay.Relay.SessionManager.{Manager, ManagerError}
use fafsturmudprelay.Relay.HttpApi.{
  Request, Response, failure, Api, serve_http, dispatch, Route, handle_session_by_id,
  handle_session_join, handle_session_leave, handle_session_root, split_path, trim_prefix,
  sessions_prefix, join, leave, is_get, check_api_key,
}
use fafsturmudprelay.Relay.RateLimits.{allow, allow_ip}
use fafsturmudprelay.Adapter.RelayHttp.{session_id}
use fafsturmudprelay.Adapter.RelayHttp.SessionId.{
  session_id-valid, session_id-all_id_chars, session_id_lengths, split_id, split_whole,
}

module _ (decode_session : Bytes → Option (Bytes × ℤ)) (decode_join : Bytes → Option (ℕ × Bytes))
    (decode_leave : Bytes → Option ℕ) (m : Manager) (r : Request) (g : ℤ) where
  not_empty : (length (session_id g) == 0) ≡ false
  not_empty = ground (arith, session_id_lengths g)

  acts :
      (action : Bytes)
      → split_path
          (trim_prefix sessions_prefix (sessions_prefix ++ (session_id g ++ (b'/' ∷ action))))
        ≡ (session_id g, action)
  acts action = split_id (session_id g) action (session_id-all_id_chars g)

  whole :
      split_path (trim_prefix sessions_prefix (sessions_prefix ++ session_id g))
      ≡ (session_id g, [])
  whole = split_whole (session_id g) (session_id-all_id_chars g)

  -- The path of an action leads to the action's handler, with the session id that was written.
  pub by_id_join :
      r.path ≡ sessions_prefix ++ (session_id g ++ (b'/' ∷ join))
      → handle_session_by_id decode_session decode_join decode_leave m r
        ≡ handle_session_join decode_session decode_join decode_leave m r (session_id g)
  unfolding handle_session_by_id
  by_id_join e = rw (e, acts join, not_empty, session_id-valid g) refl

  pub by_id_leave :
      r.path ≡ sessions_prefix ++ (session_id g ++ (b'/' ∷ leave))
      → handle_session_by_id decode_session decode_join decode_leave m r
        ≡ handle_session_leave decode_session decode_join decode_leave m r (session_id g)
  unfolding handle_session_by_id
  by_id_leave e = rw (e, acts leave, not_empty, session_id-valid g) refl

  pub by_id_root :
      r.path ≡ sessions_prefix ++ session_id g
      → handle_session_by_id decode_session decode_join decode_leave m r
        ≡ handle_session_root decode_session decode_join decode_leave m r (session_id g)
  unfolding handle_session_by_id
  by_id_root e = rw (e, whole, not_empty, session_id-valid g) refl

-- A request that was turned away before a handler was chosen.
abbrev pub TurnedAway : Api → Api × Outcome ManagerError Response → Type 0
TurnedAway a x = (x.0.manager ≡ a.manager) × ((x.1 ≡ ok (failure 401)) ⊎ (x.1 ≡ ok (failure 429)))

module _ (decode_session : Bytes → Option (Bytes × ℤ)) (decode_join : Bytes → Option (ℕ × Bytes))
    (decode_leave : Bytes → Option ℕ) (route : Bytes → Route) (a : Api) (r : Request)
    (now unix : ℕ) where
  pub post_cases :
      is_get r.method ≡ false
      → let x = serve_http decode_session decode_join decode_leave route a r now unix in
        TurnedAway a x
        ⊎ ((x.0.manager, x.1)
            ≡ dispatch decode_session decode_join decode_leave route a.manager r now)
  unfolding serve_http
  post_cases p = elim (Bool-cases (check_api_key a r)) [
    | inr k ↦ inl (rw (p, serve_http, k) (refl, inl refl))
    | inl k ↦ elim (Bool-cases (allow a.rate_limit unix).1) [
      | inr l ↦ inl (rw (p, serve_http, k, l) (refl, inr refl))
      | inl l ↦ elim (Bool-cases (allow_ip a.per_ip_limit r.client_ip a.per_ip_rate unix).1) [
        | inr i ↦ inl (rw (p, serve_http, k, l, i) (refl, inr refl))
        | inl i ↦ inr (rw (p, serve_http, k, l, i) refl)
      ]
    ]
  ]

  pub post_granted :
      is_get r.method ≡ false
      → check_api_key a r ≡ true
      → (allow a.rate_limit unix).1 ≡ true
      → (allow_ip a.per_ip_limit r.client_ip a.per_ip_rate unix).1 ≡ true
      → let x = serve_http decode_session decode_join decode_leave route a r now unix in
        (x.0.manager, x.1) ≡ dispatch decode_session decode_join decode_leave route a.manager r now
  unfolding serve_http
  post_granted p k l i = rw (p, serve_http, k, l, i) refl

  pub get_granted :
      is_get r.method ≡ true
      → (allow a.read_rate_limit unix).1 ≡ true
      → let x = serve_http decode_session decode_join decode_leave route a r now unix in
        (x.0.manager, x.1) ≡ dispatch decode_session decode_join decode_leave route a.manager r now
  unfolding serve_http
  get_granted g l = rw (g, serve_http, l) refl
