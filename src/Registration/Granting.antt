-- ===== src/Registration/Granting.antt =====
-- When the registration of an adapter succeeds.
use fafsturmudprelay.Prelude.{
  ℕ, ◌≡◌, refl, ◌∙◌, ap, inl, inr, false, Bool-cases, Bytes, ◌++◌, length, arith, ◌==◌, Option,
  none, some, if◌then◌else◌, get_elem?, get_elem?-append_end, is_some, leb, bytes_eq,
}
use fafsturmudprelay.Prelude.Int.{ℤ, pos}
use fafsturmudprelay.Prelude.Map.{lookup}
use fafsturmudprelay.Outcome.{Outcome, ok, err, panic}
use fafsturmudprelay.Relay.Session.{Session, new_session}
use fafsturmudprelay.Relay.SessionManager.{
  Manager, ManagerError, max_total_sessions, create_session, add_player_to_session,
}
use fafsturmudprelay.Relay.HttpApi.{
  Request, Reply, failure, show_created, answer, joined, post, sessions, dispatch, handle_sessions,
  session_size,
}
use fafsturmudprelay.Adapter.RelayHttp.{
  RelayConfig, Bodies, HttpRequest, RegisterError, no_answer, join_status, session_id,
  sessions_path, create_of, join_of, join_session, join_if_created, register_with_relay,
  relay_request,
}
use fafsturmudprelay.Adapter.RelayHttp.SessionId.{session_id-valid, session_id_lengths}
use fafsturmudprelay.Registration.{
  uint32_of, Granted, Server, Site, Agrees, serve, received, answer_of,
}
use fafsturmudprelay.Registration.Served.{post_granted}
use fafsturmudprelay.Registration.Join.{join_answer, join_dispatched, join_request}

shown :
    (server : Server) (m : Manager) (ref : ℕ) (s : Session)
    → get_elem? m.heap ref ≡ some s
    → (create_of (answer_of server (show_created (m, ok ref)).1) ≡ ok tt)
      × ((show_created (m, ok ref)).0 ≡ m)
unfolding create_of answer_of
shown server m ref s at = rw (at, show_created) (refl, refl)

-- Whether a session is made, is there already or cannot be made, the adapter goes on to join.
create_goes_on :
    (server : Server) (m : Manager) (id : Bytes) (n : ℤ) (now : ℕ)
    → (create_of (answer_of server (show_created (create_session m id n now)).1) ≡ ok tt)
      × ((show_created (create_session m id n now)).0 ≡ (create_session m id n now).0)
unfolding create_session create_of answer_of
create_goes_on server m id n now = elim (Bool-cases (is_some (lookup id m.sessions))) [
  | inl e ↦ rw (e, create_session) (refl, refl)
  | inr e ↦ elim (Bool-cases (leb max_total_sessions (length m.sessions))) [
    | inl f ↦ rw (e, create_session, f) (refl, refl)
    | inr f ↦
        rw (e, create_session, f)
          (shown server _ (length m.heap) (new_session id n now)
            (get_elem?-append_end m.heap (new_session id n now)))
  ]
]

module _ (server : Server) (json : Bodies) (cfg : RelayConfig)
    (agrees : Agrees server json cfg) where
  abbrev pub create_request : HttpRequest
  create_request =
      relay_request cfg post (cfg.relay_http ++ sessions_path)
        (json.session_body (session_id cfg.game_id) 32)

  create_dispatched :
      (m : Manager) (r : Request) (now : ℕ)
      → r.method ≡ post
      → server.route r.path ≡ sessions
      → server.decode_session r.body ≡ some (session_id cfg.game_id, pos 32)
      → dispatch server.decode_session server.decode_join server.decode_leave server.route m r now
        ≡ show_created (create_session m (session_id cfg.game_id) (pos 32) now)
  unfolding dispatch handle_sessions session_size
  create_dispatched m r now p q d =
      let named : (length (session_id cfg.game_id) == 0) ≡ false =
        ground (arith, session_id_lengths cfg.game_id) in
      rw (q, dispatch) (rw (p, handle_sessions, d, named, session_id-valid cfg.game_id) refl)

  -- The two managers: after the first request, and the answer to the second.
  abbrev pub with_session : Site → Manager
  with_session site =
      (create_session site.api.manager (session_id cfg.game_id) (pos 32)
        (server.now site.requests)).0

  served_create :
      (site : Site)
      → Granted server site create_request
      → (((serve server site create_request).0.api.manager ≡ with_session site)
          × (create_of (serve server site create_request).1 ≡ ok tt))
  unfolding serve relay_request
  served_create site (k, l, i) =
      let r = received server create_request in
      let now = server.now site.requests in
      let made = create_goes_on server site.api.manager (session_id cfg.game_id) (pos 32) now in
      let e =
        post_granted server.decode_session server.decode_join server.decode_leave server.route
          site.api r now (server.unix site.requests) refl k l i
        ∙ create_dispatched site.api.manager r now refl
            (ap server.route agrees.at_sessions ∙ agrees.to_sessions) agrees.session_decoded in
      (
        ap (λ (x : Reply). x.0) e ∙ made.1,
        ap (λ (x : Reply). create_of (answer_of server x.1)) e ∙ made.0,
      )

  abbrev joined_reply : Manager → Reply
  joined_reply m =
      join_answer m (session_id cfg.game_id) (uint32_of cfg.player_id) (agrees.to_utf8 cfg.login)

  served_granted :
      (site : Site)
      → Granted server site (join_request server json cfg agrees)
      → (join_session (serve server) json cfg site).1
        ≡ join_of (answer_of server (joined_reply site.api.manager).1)
  unfolding join_session serve relay_request
  served_granted site (k, l, i) =
      let r = received server (join_request server json cfg agrees) in
      let now = server.now site.requests in
      let to_path = agrees.at_join in
      ap (λ (x : Reply). join_of (answer_of server x.1))
        (post_granted server.decode_session server.decode_join server.decode_leave server.route
            site.api r now (server.unix site.requests) refl k l i
          ∙ join_dispatched server site.api.manager r now cfg.game_id (uint32_of cfg.player_id)
              (agrees.to_utf8 cfg.login) refl (ap server.route to_path ∙ agrees.to_join) to_path
              agrees.join_decoded)

  -- What the outcome of AddPlayerToSession becomes at the adapter.
  abbrev pub reported : Outcome ManagerError (Unit {0}) → Outcome RegisterError (Unit {0})
  reported (ok u) = ok tt
  reported (err e) = err (join_status 409)
  reported panic = err no_answer

  -- What is reported of a player id that the server decodes to `decoded`.
  abbrev pub join_outcome : Manager → Option ℕ → Outcome RegisterError (Unit {0})
  join_outcome m none = err (join_status 400)
  join_outcome m (some pid) =
      if pid == 0
      then err (join_status 400)
      else reported
          (add_player_to_session m (session_id cfg.game_id) pid (agrees.to_utf8 cfg.login)).1

  join_reported :
      (pid : ℕ) (y : Manager × Outcome ManagerError (Unit {0}))
      → join_of (answer_of server (answer (joined (session_id cfg.game_id) pid) 409 y).1)
        ≡ reported y.1
  unfolding join_of answer_of
  join_reported pid (m, ok u) = refl
  join_reported pid (m, err e) = refl
  join_reported pid (m, panic) = refl

  bad_request : join_of (answer_of server (ok (failure 400))) ≡ err (join_status 400)
  unfolding join_of answer_of
  bad_request = refl

  joined_reported :
      (m : Manager) (decoded : Option ℕ)
      → join_of (
          answer_of server
            (join_answer m (session_id cfg.game_id) decoded (agrees.to_utf8 cfg.login)).1)
        ≡ join_outcome m decoded
  joined_reported m none = bad_request
  joined_reported m (some pid) = elim (Bool-cases (pid == 0)) [
    | inl z ↦ rw z bad_request
    | inr z ↦ rw z (
        join_reported pid
          (add_player_to_session m (session_id cfg.game_id) pid (agrees.to_utf8 cfg.login)))
  ]

  -- Where the server grants both requests, a registration reports just what AddPlayerToSession says of the
  -- player, on the server with the session of the game, new or old: success if it takes the player, a
  -- conflict if it refuses, as when the session or the server is full. A player id that is 0, or not a
  -- 32-bit word, is refused as a bad request.
  pub register_lem :
      (site : Site)
      → Granted server site create_request
      → Granted server (serve server site create_request).0 (join_request server json cfg agrees)
      → (register_with_relay (serve server) json cfg site).1
        ≡ join_outcome (with_session site) (uint32_of cfg.player_id)
  unfolding register_with_relay
  register_lem site first second =
      let next = (serve server site create_request).0 in
      let made = served_create site first in
      ap (λ o. (join_if_created (serve server) json cfg next o).1) made.1
      ∙ (served_granted next second
          ∙ (joined_reported next.api.manager (uint32_of cfg.player_id)
              ∙ ap (λ m. join_outcome m (uint32_of cfg.player_id)) made.0))
