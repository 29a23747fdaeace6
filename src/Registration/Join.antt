-- ===== src/Registration/Join.antt =====
-- What it means for the relay server that an adapter's join succeeded.
use fafsturmudprelay.Prelude.{
  ℕ, ◌≡◌, refl, sym, subst, ◌∙◌, ap, ◌⊎◌, inl, inr, false, Bool-cases, Bytes, ◌∷◌, ◌++◌, arith,
  ◌==◌, if◌then◌else◌, Option, none, some,
}
use fafsturmudprelay.Prelude.Int.{ℤ}
use fafsturmudprelay.Outcome.{Outcome, ok, err, panic}
use fafsturmudprelay.Relay.SessionManager.{Manager, ManagerError, add_player_to_session}
use fafsturmudprelay.Relay.SessionManager.Placed.{PlacedIn, add-PlacedIn}
use fafsturmudprelay.Relay.HttpApi.{
  Request, Reply, failure, answer, joined, post, session_by_id, sessions_prefix, join, dispatch,
  handle_session_join,
}
use fafsturmudprelay.Adapter.RelayHttp.{
  RelayConfig, Bodies, HttpRequest, session_id, join_of, join_session, relay_request, action_url,
}
use fafsturmudprelay.Registration.{
  with_login, uint32_of, Server, Site, Agrees, serve, served_by, received, answer_of,
}
use fafsturmudprelay.Registration.Served.{by_id_join, TurnedAway, post_cases}

-- The answer to a join, as the adapter reads it.
abbrev pub join_reply : Manager → Bytes → ℕ → Bytes → Reply
join_reply m id pid login =
    if pid == 0
    then (m, ok (failure 400))
    else answer (joined id pid) 409 (add_player_to_session m id pid login)

-- And with the id that the server decodes, if it does.
abbrev pub join_answer : Manager → Bytes → Option ℕ → Bytes → Reply
join_answer m id none login = (m, ok (failure 400))
join_answer m id (some pid) login = join_reply m id pid login

answer_ok :
    (server : Server) (id : Bytes) (pid : ℕ) (y : Manager × Outcome ManagerError (Unit {0}))
    → join_of (answer_of server (answer (joined id pid) 409 y).1) ≡ ok tt
    → (y.1 ≡ ok tt) × ((answer (joined id pid) 409 y).0 ≡ y.0)
unfolding join_of answer_of
answer_ok server id pid (m, ok tt) h = (refl, refl)
answer_ok server id pid (m, err e) h = ground (arith, h)
answer_ok server id pid (m, panic) h = ground (arith, h)

reply-PlacedIn :
    (server : Server) (m : Manager) (id : Bytes) (pid : ℕ) (login : Bytes)
    → join_of (answer_of server (join_reply m id pid login).1) ≡ ok tt
    → PlacedIn id pid (join_reply m id pid login).0
reply-PlacedIn server m id pid login = elim (Bool-cases (pid == 0)) [
  | inl z ↦ rw z (λ h. unfold join_of answer_of in ground (arith, h))
  | inr z ↦ rw z (λ h.
      let k = answer_ok server id pid (add_player_to_session m id pid login) h in
      rw k.1 (add-PlacedIn m id pid login k.0))
]

refused :
    (server : Server) (status : ℕ)
    → join_of (answer_of server (ok (failure status))) ≡ ok tt
    → (status == 200) ≡ false
    → ⊥
unfolding join_of answer_of
refused server status h other = ground (arith, h, other)

answer-PlacedIn :
    (server : Server) (m : Manager) (id : Bytes) (decoded : Option ℕ) (login : Bytes)
    → join_of (answer_of server (join_answer m id decoded login).1) ≡ ok tt
    → (pid : ℕ) × (decoded ≡ some pid) × PlacedIn id pid (join_answer m id decoded login).0
answer-PlacedIn server m id none login h = absurd (refused server 400 h refl)
answer-PlacedIn server m id (some pid) login h = (pid, refl, reply-PlacedIn server m id pid login h)

pub join_dispatched :
    (server : Server) (m : Manager) (r : Request) (now : ℕ) (g : ℤ) (pid : Option ℕ) (login : Bytes)
    → r.method ≡ post
    → server.route r.path ≡ session_by_id
    → r.path ≡ sessions_prefix ++ (session_id g ++ (b'/' ∷ join))
    → server.decode_join r.body ≡ with_login pid login
    → dispatch server.decode_session server.decode_join server.decode_leave server.route m r now
      ≡ join_answer m (session_id g) pid login
unfolding dispatch handle_session_join
join_dispatched server m r now g none login p q e d =
    rw (q, dispatch) refl
    ∙ (by_id_join server.decode_session server.decode_join server.decode_leave m r g e
        ∙ rw (p, handle_session_join, d) refl)
join_dispatched server m r now g (some pid) login p q e d =
    rw (q, dispatch) refl
    ∙ (by_id_join server.decode_session server.decode_join server.decode_leave m r g e
        ∙ rw (p, handle_session_join, d) refl)

module _ (server : Server) (json : Bodies) (cfg : RelayConfig)
    (agrees : Agrees server json cfg) where
  -- The join that the adapter sends, as the server receives it at `site`.
  abbrev pub join_request : HttpRequest
  join_request =
      relay_request cfg post (action_url cfg join) (json.join_body cfg.player_id cfg.login)

  served_join :
      (site : Site)
      → let x = served_by server site join_request in
        TurnedAway site.api x
        ⊎ ((x.0.manager, x.1)
            ≡ join_answer site.api.manager
                (session_id cfg.game_id)
                (uint32_of cfg.player_id)
                (agrees.to_utf8 cfg.login))
  unfolding relay_request
  served_join site =
      let to_path = agrees.at_join in
      let r = received server join_request in
      elim (post_cases server.decode_session server.decode_join server.decode_leave server.route
        site.api r (server.now site.requests) (server.unix site.requests) refl) [
          | inl away ↦ inl away
          | inr served ↦ inr (
              served
              ∙ join_dispatched server site.api.manager r (server.now site.requests) cfg.game_id
                  (uint32_of cfg.player_id) (agrees.to_utf8 cfg.login) refl
                  (ap server.route to_path ∙ agrees.to_join) to_path agrees.join_decoded)
        ]

  -- The second request of a registration succeeds only by placing the player in the session of the game.
  pub join_session-PlacedIn :
      (site : Site)
      → (join_session (serve server) json cfg site).1 ≡ ok tt
      → (pid : ℕ) × (uint32_of cfg.player_id ≡ some pid)
        × PlacedIn
            (session_id cfg.game_id)
            pid
            (join_session (serve server) json cfg site).0.api.manager
  unfolding join_session serve relay_request
  join_session-PlacedIn site h = elim (served_join site) [
    | inl (same, inl e) ↦
        absurd (refused server 401 (ap (λ o. join_of (answer_of server o)) (sym e) ∙ h) refl)
    | inl (same, inr e) ↦
        absurd (refused server 429 (ap (λ o. join_of (answer_of server o)) (sym e) ∙ h) refl)
    | inr e ↦
        let (pid, decoded, placed) =
          answer-PlacedIn server site.api.manager (session_id cfg.game_id) (uint32_of cfg.player_id)
            (agrees.to_utf8 cfg.login) (ap (λ z. join_of (answer_of server z.1)) (sym e) ∙ h) in
        (pid, decoded, subst (λ z. PlacedIn (session_id cfg.game_id) pid z.0) (sym e) placed)
  ]
