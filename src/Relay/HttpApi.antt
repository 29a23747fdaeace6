-- ===== src/Relay/HttpApi.antt =====
-- The handlers of internal/relay/httpapi.go. A request says what net/http and encoding/json made of it:
-- the decoders of the bodies and the choice of a handler by the path are parameters.
pub mod Changes
pub mod Handlers
pub mod Guards
use fafsturmudprelay.Prelude.{
  ℕ, ◌≤◌, Option, none, some, Bool, true, false, not, ◌&&◌, ◌||◌, List, [], ◌∷◌, ◌++◌, Bytes,
  length, get_elem?, ltb, leb, ◌==◌, if◌then◌else◌, bytes_beq, bytes_eq,
}
use fafsturmudprelay.Prelude.Int.{ℤ, pos, ltb_ℤ}
use fafsturmudprelay.Outcome.{Outcome, ok, err, panic}
use fafsturmudprelay.Relay.Session.{Session, player_count, player_ids}
use fafsturmudprelay.Relay.SessionManager.{
  Manager, ManagerError, create_session, get_session, delete_session, add_player_to_session,
  remove_player_from_session,
}
use fafsturmudprelay.Relay.RateLimits.{HttpRateLimit, IpBucket, allow, allow_ip}

abbrev pub max_session_players : ℕ
max_session_players = 32

pub data Method : Type 0 where
  get post delete_method other_method : Method

-- `client_ip` is what extractClientIP gives.
pub record Request : Type 0 where
  pub method : Method
  pub path : Bytes
  pub authorization : Bytes
  pub client_ip : Bytes
  pub body : Bytes

pub data Response : Type 0 where
  failure : ℕ → Response
  no_content : Response
  healthy : ℤ → ℤ → Response
  created : Bytes → ℤ → Response
  info : Bytes → ℤ → ℕ → List ℕ → Response
  joined : Bytes → ℕ → Response

-- [a-zA-Z0-9_-]
abbrev pub id_char : ℕ → Bool
id_char c =
    (leb b'a' c && leb c b'z')
    || ((leb b'A' c && leb c b'Z') || ((leb b'0' c && leb c b'9') || (c == b'_' || c == b'-')))

abbrev pub all_id_chars : Bytes → Bool
all_id_chars [] = true
all_id_chars (c ∷ cs) = id_char c && all_id_chars cs

unfoldable pub valid_session_id : Bytes → Bool
valid_session_id id = all_id_chars id && (leb 1 (length id) && leb (length id) 64)

-- What handleSessions makes of the requested number of players.
unfoldable pub session_size : ℤ → ℤ
session_size n =
    let wanted : ℤ = if ltb_ℤ (pos 0) n then n else pos 12 in
    if ltb_ℤ (pos max_session_players) wanted then pos max_session_players else wanted

abbrev pub Reply : Type 0
Reply = Manager × Outcome ManagerError Response

-- strings.SplitN of the rest of the path at the first slash: the session id and the action.
unfoldable pub split_path : Bytes → Bytes × Bytes
split_path [] = ([], [])
split_path (c ∷ cs) =
    let (id, action) = split_path cs in if c == b'/' then ([], cs) else (c ∷ id, action)

unfoldable pub handle_health : Manager → Request → Reply
handle_health m r = elim r.method [
  | get ↦ (m, ok (healthy m.metrics.active_sessions m.metrics.active_players))
  | _ ↦ (m, ok (failure 405))
]

abbrev pub show_created : Manager × Outcome ManagerError ℕ → Reply
show_created (m, ok ref) = elim (get_elem? m.heap ref) [
  | none ↦ (m, panic)
  | some s ↦ (m, ok (created s.id s.max_players))
]
show_created (m, err e) = (m, ok (failure 409))
show_created (m, panic) = (m, panic)

abbrev pub answer : Response → ℕ → Manager × Outcome ManagerError (Unit {0}) → Reply
answer success status (m, ok u) = (m, ok success)
answer success status (m, err e) = (m, ok (failure status))
answer success status (m, panic) = (m, panic)

-- decodeJSONBody on the three kinds of bodies.
abbrev pub sessions_prefix : Bytes
sessions_prefix = b'/' ∷ b's' ∷ b'e' ∷ b's' ∷ b's' ∷ b'i' ∷ b'o' ∷ b'n' ∷ b's' ∷ b'/' ∷ []

abbrev strip : Bytes → Bytes → Option Bytes
strip [] s = some s
strip (p ∷ ps) [] = none
strip (p ∷ ps) (c ∷ cs) = if p == c then strip ps cs else none

abbrev pub join : Bytes
join = b'j' ∷ b'o' ∷ b'i' ∷ b'n' ∷ []

abbrev pub leave : Bytes
leave = b'l' ∷ b'e' ∷ b'a' ∷ b'v' ∷ b'e' ∷ []

-- strings.TrimPrefix
abbrev pub trim_prefix : Bytes → Bytes → Bytes
trim_prefix p s = elim (strip p s) [ none ↦ s | some rest ↦ rest ]

-- The handler that the http.ServeMux chooses, or the status with which it answers by itself.
pub data Route : Type 0 where
  health sessions session_by_id : Route
  answered : ℕ → Route

pub record Api : Type 0 where
  pub manager : Manager
  pub rate_limit : HttpRateLimit
  pub read_rate_limit : HttpRateLimit
  pub per_ip_limit : List (Bytes × IpBucket)
  pub per_ip_rate : ℕ
  pub api_key : Bytes

-- NewHTTPAPI: a rate of 0 stands for the default. The reads have a limit of their own.
unfoldable pub new_http_api : Manager → Bytes → ℕ → ℕ → Api
new_http_api m api_key global_rate per_ip_rate = record {
  manager = m;
  rate_limit = record {
    count = 0;
    second = 0;
    max_rate = if global_rate == 0 then 200 else global_rate;
  };
  read_rate_limit = record { count = 0; second = 0; max_rate = 2000 };
  per_ip_limit = [];
  per_ip_rate = if per_ip_rate == 0 then 20 else per_ip_rate;
  api_key = api_key;
}

abbrev pub bearer : Bytes
bearer = b'B' ∷ b'e' ∷ b'a' ∷ b'r' ∷ b'e' ∷ b'r' ∷ b' ' ∷ []

unfoldable pub check_api_key : Api → Request → Bool
check_api_key a r = length a.api_key == 0 || bytes_beq r.authorization (bearer ++ a.api_key)

abbrev pub is_get : Method → Bool
is_get get = true
is_get _ = false

module _ (decode_session : Bytes → Option (Bytes × ℤ)) (decode_join : Bytes → Option (ℕ × Bytes))
    (decode_leave : Bytes → Option ℕ) where
  unfoldable pub handle_sessions : Manager → Request → ℕ → Reply
  handle_sessions m r now = elim r.method [
    | post ↦ elim (decode_session r.body) [
      | none ↦ (m, ok (failure 400))
      | some (id, max_players) ↦
          if length id == 0
          then (m, ok (failure 400))
          else if not (valid_session_id id)
          then (m, ok (failure 400))
          else show_created (create_session m id (session_size max_players) now)
    ]
    | _ ↦ (m, ok (failure 405))
  ]

  unfoldable pub handle_session_root : Manager → Request → Bytes → Reply
  handle_session_root m r id = elim r.method [
    | get ↦ elim (get_session m id) [
      | none ↦ (m, ok (failure 404))
      | some ref ↦ elim (get_elem? m.heap ref) [
        | none ↦ (m, panic)
        | some s ↦ (m, ok (info s.id s.max_players (player_count s) (player_ids s)))
      ]
    ]
    | delete_method ↦ answer no_content 404 (delete_session m id)
    | _ ↦ (m, ok (failure 405))
  ]

  unfoldable pub handle_session_join : Manager → Request → Bytes → Reply
  handle_session_join m r id = elim r.method [
    | post ↦ elim (decode_join r.body) [
      | none ↦ (m, ok (failure 400))
      | some (player_id, login) ↦
          if player_id == 0
          then (m, ok (failure 400))
          else answer (joined id player_id) 409 (add_player_to_session m id player_id login)
    ]
    | _ ↦ (m, ok (failure 405))
  ]

  unfoldable pub handle_session_leave : Manager → Request → Bytes → Reply
  handle_session_leave m r id = elim r.method [
    | post ↦ elim (decode_leave r.body) [
      | none ↦ (m, ok (failure 400))
      | some player_id ↦
          if player_id == 0
          then (m, ok (failure 400))
          else answer no_content 404 (remove_player_from_session m id player_id)
    ]
    | _ ↦ (m, ok (failure 405))
  ]

  unfoldable pub handle_session_by_id : Manager → Request → Reply
  handle_session_by_id m r =
      let (id, action) = split_path (trim_prefix sessions_prefix r.path) in
      if length id == 0
      then (m, ok (failure 400))
      else if not (valid_session_id id)
      then (m, ok (failure 400))
      else if bytes_beq action []
      then handle_session_root m r id
      else if bytes_beq action join
      then handle_session_join m r id
      else if bytes_beq action leave
      then handle_session_leave m r id
      else (m, ok (failure 404))

  module _ (route : Bytes → Route) where
    unfoldable pub dispatch : Manager → Request → ℕ → Reply
    dispatch m r now = elim (route r.path) [
      | health ↦ handle_health m r
      | sessions ↦ handle_sessions m r now
      | session_by_id ↦ handle_session_by_id m r
      | answered status ↦ (m, ok (failure status))
    ]

    abbrev with_manager : Api → Reply → Api × Outcome ManagerError Response
    with_manager a (m, response) = (record a { manager = m }, response)

    -- ServeHTTP: the checks before a handler is chosen. `unix` is the second of `now`.
    unfoldable pub serve_http : Api → Request → ℕ → ℕ → Api × Outcome ManagerError Response
    unfolding dispatch
    serve_http a r now unix =
        if is_get r.method
        then (let (read, within) = allow a.read_rate_limit unix in
            let a' : Api = record a { read_rate_limit = read } in
            if not within
            then (a', ok (failure 429))
            else with_manager a' (dispatch a.manager r now))
        else if not (check_api_key a r)
        then (a, ok (failure 401))
        else (let (limit, within) = allow a.rate_limit unix in
            let a' : Api = record a { rate_limit = limit } in
            if not within
            then (a', ok (failure 429))
            else (let (buckets, granted) = allow_ip a.per_ip_limit r.client_ip a.per_ip_rate unix in
                let a'' : Api = record a' { per_ip_limit = buckets } in
                if not granted
                then (a'', ok (failure 429))
                else with_manager a'' (dispatch a.manager r now)))
