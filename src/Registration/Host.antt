-- ===== src/Registration/Host.antt =====
-- How an adapter finds out whether the host of its game uses the relay.
use fafsturmudprelay.Prelude.{
  ℕ, ◌≡◌, ◌≢◌, refl, subst, ◌∙◌, ap, inl, inr, Bool, false, ◌&&◌, Bool-cases, Option-cases, List,
  [], ◌∷◌, ◌++◌, Bytes, arith, ◌==◌, ==_iff, length, ◌<◌, ◌^◌, All, get_elem?, is_some, Option,
  none, some, map, nat_eq, bytes_eq,
}
use fafsturmudprelay.Prelude.Map.{lookup}
use fafsturmudprelay.Outcome.{ok}
use fafsturmudprelay.Prelude.Int.{ℤ, pos, negsuc}
use fafsturmudprelay.Relay.Session.{Session, player_ids, player_count}
use fafsturmudprelay.Relay.Session.Player.{PlayerInfo}
use fafsturmudprelay.Relay.RateLimits.{allow}
use fafsturmudprelay.Relay.SessionManager.{Manager, get_session}
use fafsturmudprelay.Relay.SessionManager.Reach.{Reach}
use fafsturmudprelay.Relay.HttpApi.{
  Request, Reply, failure, get, session_by_id, sessions_prefix, dispatch, handle_session_root,
  serve_http,
}
use fafsturmudprelay.Adapter.RelayHttp.{
  RelayConfig, Bodies, HttpRequest, session_id, session_url, plain_get, contains, host_of,
  is_host_on_relay,
}
use fafsturmudprelay.Registration.{Server, Site, Agrees, serve, served_by, received, answer_of}
use fafsturmudprelay.Registration.Served.{by_id_root, get_granted}

-- The session has a player with this id.
abbrev pub is_member : ℤ → List (ℕ × PlayerInfo) → Bool
is_member (pos pid) players = is_some (lookup pid players)
is_member (negsuc n) players = false

contains-ids :
    (host : ℤ) (players : List (ℕ × PlayerInfo))
    → contains host (map pos (map (λ (x : ℕ × PlayerInfo). x.0) players)) ≡ is_member host players
unfolding lookup
contains-ids (pos pid) [] = refl
contains-ids (negsuc n) [] = refl
contains-ids (pos pid) ((id, p) ∷ rest) = ground (arith, contains-ids (pos pid) rest)
contains-ids (negsuc n) ((id, p) ∷ rest) = contains-ids (negsuc n) rest

-- Whether the session of an id is there and has the player.
abbrev pub has_member_at : Manager → Option ℕ → ℤ → Bool
has_member_at m none host = false
has_member_at m (some ref) host = elim (get_elem? m.heap ref) [
  | none ↦ false
  | some s ↦ is_member host s.players
]

-- The players of the session are known by uint32s.
abbrev pub WordsOf : Option Session → Type 0
WordsOf none = Unit {0}
WordsOf (some s) = All (λ (n : ℕ). n < 2 ^ 32) (player_ids s)

abbrev pub WordsAt : Manager → Option ℕ → Type 0
WordsAt m none = Unit {0}
WordsAt m (some ref) = WordsOf (get_elem? m.heap ref)

module _ (server : Server) (json : Bodies) (cfg : RelayConfig)
    (agrees : Agrees server json cfg) where
  root_reply :
      (m : Manager) (r : Request) (id : Bytes) (o : Option ℕ) (host : ℤ)
      → WordsAt m o
      → get_session m id ≡ o
      → r.method ≡ get
      → host_of json host (
          answer_of server
            (handle_session_root server.decode_session server.decode_join server.decode_leave m r
              id).1)
        ≡ has_member_at m o host
  unfolding host_of answer_of handle_session_root player_ids
  root_reply m r id none host words e g = rw (g, handle_session_root, e) refl
  root_reply m r id (some ref) host words e g = elim (Option-cases (get_elem? m.heap ref)) [
    | inl at ↦ rw (g, handle_session_root, e, has_member_at, at) refl
    | inr (s, at) ↦
        rw (g, handle_session_root, e, has_member_at, at)
          (rw
            (agrees.ids_decoded s.id s.max_players (player_count s) (player_ids s)
              (subst WordsOf at words))
            (contains-ids host s.players))
  ]

  get_limited :
      (site : Site) (r : HttpRequest)
      → r.method ≡ get
      → (allow site.api.read_rate_limit (server.unix site.requests)).1 ≡ false
      → (served_by server site r).1 ≡ ok (failure 429)
  unfolding serve_http
  get_limited site r g l = rw (g, serve_http, l) refl

  limited_host : (host : ℤ) → host_of json host (answer_of server (ok (failure 429))) ≡ false
  unfolding host_of answer_of
  limited_host host = refl

  session_lookup :
      (m : Manager)
      → get_session m (session_id cfg.game_id) ≡ lookup (session_id cfg.game_id) m.sessions
  unfolding get_session
  session_lookup m = refl

  root_dispatched :
      (m : Manager) (r : Request) (now : ℕ)
      → server.route r.path ≡ session_by_id
      → r.path ≡ sessions_prefix ++ session_id cfg.game_id
      → dispatch server.decode_session server.decode_join server.decode_leave server.route m r now
        ≡ handle_session_root server.decode_session server.decode_join server.decode_leave m r
            (session_id cfg.game_id)
  unfolding dispatch
  root_dispatched m r now q e =
      rw (q, dispatch) refl
      ∙ by_id_root server.decode_session server.decode_join server.decode_leave m r cfg.game_id e

  -- An adapter takes a player for one on the relay exactly when the server answers the read, within its
  -- rate limit, and has the player in the session of the adapter's game, if that session knows its
  -- players by 32-bit words.
  pub is_host_on_relay_lem :
      (site : Site) (host : ℤ)
      → length cfg.relay_http ≢ 0
      → WordsAt site.api.manager (lookup (session_id cfg.game_id) site.api.manager.sessions)
      → (is_host_on_relay (serve server) json cfg site host).1 ≡ (
          (allow site.api.read_rate_limit (server.unix site.requests)).1
          && has_member_at site.api.manager
              (lookup (session_id cfg.game_id) site.api.manager.sessions)
              host)
  unfolding is_host_on_relay serve
  is_host_on_relay_lem site host named words =
      let r = plain_get (session_url cfg) in
      let to_path = agrees.at_session in
      elim (Bool-cases (length cfg.relay_http == 0)) [
        | inl z ↦ absurd (named ((==_iff (length cfg.relay_http) 0).0 z))
        | inr z ↦ elim (Bool-cases (allow site.api.read_rate_limit (server.unix site.requests)).1) [
          | inr l ↦
              rw (z, l)
                (ap (λ o. host_of json host (answer_of server o)) (get_limited site r refl l)
                  ∙ limited_host host)
          | inl l ↦
              rw (z, l)
                (ap (λ (x : Reply). host_of json host (answer_of server x.1))
                    (get_granted server.decode_session server.decode_join server.decode_leave
                        server.route site.api (received server r) (server.now site.requests)
                        (server.unix site.requests) refl l
                      ∙ root_dispatched site.api.manager (received server r)
                          (server.now site.requests) (ap server.route to_path ∙ agrees.to_session)
                          to_path)
                  ∙ root_reply site.api.manager (received server r) (session_id cfg.game_id)
                      (lookup (session_id cfg.game_id) site.api.manager.sessions) host words
                      (session_lookup site.api.manager) refl)
        ]
      ]
