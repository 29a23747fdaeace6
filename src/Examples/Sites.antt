-- ===== src/Examples/Sites.antt =====
-- A relay server with an empty manager (internal/relay), and adapters of players of game 42 (internal/adapter).
use fafsturmudprelay.Prelude.{
  ℕ, ◌^◌, map, ltb, inl, inr, Bool-cases, ◌≡◌, refl, Option, none, some, true, false, [], ◌∷◌,
  Bytes, drop, if◌then◌else◌, bytes_beq, nat_eq, bytes_eq,
}
use fafsturmudprelay.Prelude.Int.{ℤ, pos, negsuc}
use fafsturmudprelay.Prelude.Decimal.{digits_from}
use fafsturmudprelay.Relay.SessionManager.{new_manager}
use fafsturmudprelay.Relay.SessionManager.Reach.{Reach, start}
use fafsturmudprelay.Relay.HttpApi.{new_http_api, Response, info, health, sessions, session_by_id}
use fafsturmudprelay.Adapter.RelayHttp.{RelayConfig, Bodies, session_id, sessions_path, health_path}
use fafsturmudprelay.Registration.{with_login, uint32_of, Server, Site, Agrees}

abbrev pub decode_session : Bytes → Option (Bytes × ℤ)
decode_session [] = none
decode_session (n ∷ id) = some (id, pos n)

abbrev pub decode_join : Bytes → Option (ℕ × Bytes)
decode_join [] = none
decode_join (player_id ∷ login) = if ltb player_id (2 ^ 32) then some (player_id, login) else none

abbrev pub decode_leave : Bytes → Option ℕ
decode_leave [] = none
decode_leave (player_id ∷ rest) = if ltb player_id (2 ^ 32) then some player_id else none

abbrev pub body_of : Response → Bytes
body_of (info id max_players count ids) = ids
body_of _ = []

abbrev pub json : Bodies
json = record {
  session_body = λ id n. n ∷ id;
  join_body = λ player_id login. elim player_id [ pos n ↦ n ∷ login | negsuc n ↦ [] ];
  leave_body = λ player_id. elim player_id [ pos n ↦ n ∷ [] | negsuc n ↦ [] ];
  player_ids_of = λ body. some (map pos body);
}

abbrev pub server : Server
server = record {
  decode_session = decode_session;
  decode_join = decode_join;
  decode_leave = decode_leave;
  route = λ p.
      if bytes_beq p health_path
      then health
      else if bytes_beq p sessions_path
      then sessions
      else session_by_id;
  path_of = drop 1;
  body_of = body_of;
  client_ip = 9 ∷ [];
  now = λ n. n;
  unix = λ n. 5;
}

abbrev pub site : Site
unfolding new_http_api
site = record { api = new_http_api new_manager [] 0 0; requests = 0 }

pub from_start : Reach site.api.manager
unfolding new_http_api
from_start = start

abbrev pub config : ℤ → RelayConfig
config player_id = record {
  player_id = player_id;
  game_id = pos 42;
  login = 97 ∷ [];
  relay_server = [];
  relay_tcp_server = [];
  relay_http = 104 ∷ [];
  api_key = [];
  tcp_fallback = true;
  force_tcp = false;
  use_official_faf = false;
}

pub decoded_join :
    (player_id : ℤ) (login : Bytes)
    → decode_join (json.join_body player_id login) ≡ with_login (uint32_of player_id) login
decoded_join (pos n) login = elim (Bool-cases (ltb n (2 ^ 32))) [
  | inl e ↦ rw e refl
  | inr e ↦ rw e refl
]
decoded_join (negsuc n) login = refl

pub decoded_leave : (player_id : ℤ) → decode_leave (json.leave_body player_id) ≡ uint32_of player_id
decoded_leave (pos n) = refl
decoded_leave (negsuc n) = refl

pub agrees : (player_id : ℤ) → Agrees server json (config player_id)
unfolding session_id digits_from
agrees player_id = record {
  session_decoded = refl;
  to_utf8 = λ s. s;
  join_decoded = decoded_join player_id (97 ∷ []);
  leave_decoded = decoded_leave player_id;
  ids_decoded = λ id max count ids words. refl;
  at_sessions = refl;
  at_session = refl;
  at_join = refl;
  at_leave = refl;
  to_sessions = refl;
  to_session = refl;
  to_join = refl;
  to_leave = refl;
}
