-- ===== src/Registration.antt =====
-- internal/adapter/adapter.go against internal/relay/httpapi.go: the adapter's HTTP calls are served by the
-- relay server. A `Server` is what lies between and below the two: net/http, its ServeMux, encoding/json,
-- the address of the adapter and the clocks. A handler that panics leaves the request unanswered.
pub mod Served
pub mod Join
pub mod Lobby
pub mod Host
pub mod Departure
pub mod Granting
use fafsturmudprelay.Prelude.{
  ℕ, suc, ◌<◌, ◌^◌, ◌≡◌, Option, none, some, List, [], ◌∷◌, ◌++◌, Bytes, Bool, true, map, All, ltb,
  if◌then◌else◌,
}
use fafsturmudprelay.Prelude.Int.{ℤ, pos, negsuc}
use fafsturmudprelay.Outcome.{Outcome, ok, err, panic}
use fafsturmudprelay.Relay.SessionManager.{ManagerError}
use fafsturmudprelay.Relay.HttpApi.{
  Request, Response, failure, no_content, healthy, created, info, joined, Route, sessions,
  session_by_id, Api, check_api_key, serve_http, sessions_prefix, join, leave,
}
use fafsturmudprelay.Relay.RateLimits.{allow, allow_ip}
use fafsturmudprelay.Adapter.RelayHttp.{
  RelayConfig, Bodies, HttpRequest, Answer, unreachable, response, session_id, sessions_path,
}

-- `now` and `unix` are the clock at each request, in nanoseconds and in seconds.
pub record Server : Type 0 where
  pub decode_session : Bytes → Option (Bytes × ℤ)
  pub decode_join : Bytes → Option (ℕ × Bytes)
  pub decode_leave : Bytes → Option ℕ
  pub route : Bytes → Route
  pub path_of : Bytes → Bytes
  pub body_of : Response → Bytes
  pub client_ip : Bytes
  pub now : ℕ → ℕ
  pub unix : ℕ → ℕ

-- The relay server and the number of requests that it has been sent.
pub record Site : Type 0 where
  pub api : Api
  pub requests : ℕ

unfoldable pub status_of : Response → ℕ
status_of (failure status) = status
status_of no_content = 204
status_of (healthy session_count player_count) = 200
status_of (created id max_players) = 201
status_of (info id max_players count ids) = 200
status_of (joined id player_id) = 200

unfoldable pub answer_of : Server → Outcome ManagerError Response → Answer
unfolding status_of
answer_of server (ok r) = response (status_of r) (server.body_of r)
answer_of server (err e) = unreachable
answer_of server panic = unreachable

-- The request as the server's handlers see it.
abbrev pub received : Server → HttpRequest → Request
received server r = record {
  method = r.method;
  path = server.path_of r.url;
  authorization = r.authorization;
  client_ip = server.client_ip;
  body = r.body;
}

abbrev pub served_by : Server → Site → HttpRequest → Api × Outcome ManagerError Response
served_by server site r =
    serve_http server.decode_session server.decode_join server.decode_leave server.route site.api
      (received server r) (server.now site.requests) (server.unix site.requests)

unfoldable pub serve : Server → Site → HttpRequest → Site × Answer
unfolding answer_of
serve server site r =
    let (api, out) = served_by server site r in
    (record { api = api; requests = suc site.requests }, answer_of server out)

-- The key and the two limits on changes let a request through.
abbrev pub Granted : Server → Site → HttpRequest → Type 0
Granted server site r =
    (check_api_key site.api (received server r) ≡ true)
    × ((allow site.api.rate_limit (server.unix site.requests)).1 ≡ true)
    × ((allow_ip site.api.per_ip_limit server.client_ip site.api.per_ip_rate
          (server.unix site.requests)).1
        ≡ true)

-- What encoding/json makes of a Go int for a uint32: a number out of its range is an error.
abbrev pub uint32_of : ℤ → Option ℕ
uint32_of (pos n) = if ltb n (2 ^ 32) then some n else none
uint32_of (negsuc n) = none

abbrev pub with_login : Option ℕ → Bytes → Option (ℕ × Bytes)
with_login none login = none
with_login (some player_id) login = some (player_id, login)

-- For what this adapter sends: the server decodes the JSON that the adapter encodes, with `to_utf8` what
-- json.Marshal makes of a string that is not UTF-8; the adapter decodes lists of uint32s; the paths of its
-- requests are what follows the configured address, and the ServeMux has the handlers of sessions for them.
pub record Agrees (server : Server) (json : Bodies) (cfg : RelayConfig) : Type 0 where
  pub session_decoded :
      server.decode_session (json.session_body (session_id cfg.game_id) 32)
      ≡ some (session_id cfg.game_id, pos 32)
  pub to_utf8 : Bytes → Bytes
  pub join_decoded :
      server.decode_join (json.join_body cfg.player_id cfg.login)
      ≡ with_login (uint32_of cfg.player_id) (to_utf8 cfg.login)
  pub leave_decoded : server.decode_leave (json.leave_body cfg.player_id) ≡ uint32_of cfg.player_id
  pub ids_decoded :
      (id : Bytes) (max : ℤ) (count : ℕ) (ids : List ℕ)
      → All (λ (n : ℕ). n < 2 ^ 32) ids
      → json.player_ids_of (server.body_of (info id max count ids)) ≡ some (map pos ids)
  pub at_sessions : server.path_of (cfg.relay_http ++ sessions_path) ≡ sessions_path
  pub at_session :
      server.path_of (cfg.relay_http ++ (sessions_prefix ++ session_id cfg.game_id))
      ≡ sessions_prefix ++ session_id cfg.game_id
  pub at_join :
      server.path_of
        (cfg.relay_http ++ (sessions_prefix ++ (session_id cfg.game_id ++ (b'/' ∷ join))))
      ≡ sessions_prefix ++ (session_id cfg.game_id ++ (b'/' ∷ join))
  pub at_leave :
      server.path_of
        (cfg.relay_http ++ (sessions_prefix ++ (session_id cfg.game_id ++ (b'/' ∷ leave))))
      ≡ sessions_prefix ++ (session_id cfg.game_id ++ (b'/' ∷ leave))
  pub to_sessions : server.route sessions_path ≡ sessions
  pub to_session : server.route (sessions_prefix ++ session_id cfg.game_id) ≡ session_by_id
  pub to_join :
      server.route (sessions_prefix ++ (session_id cfg.game_id ++ (b'/' ∷ join))) ≡ session_by_id
  pub to_leave :
      server.route (sessions_prefix ++ (session_id cfg.game_id ++ (b'/' ∷ leave))) ≡ session_by_id
