-- ===== src/Adapter/RelayHttp.antt =====
-- internal/adapter/adapter.go: the calls of the relay server's HTTP API. `http` is the client with the
-- network and the server behind it, which a request may change; `Bodies` is what json.Marshal and
-- json.Decoder make of the bodies. Logging is left out, and so are deadlines: an answer that comes too
-- late is `unreachable`.
pub mod SessionId
use fafsturmudprelay.Prelude.{
  ℕ, zero, suc, ◌+◌, ◌/◌, ◌%◌, Option, none, some, Bool, true, false, not, ◌&&◌, ◌||◌, List, [],
  ◌∷◌, ◌++◌, Bytes, length, ltb, ◌==◌, if◌then◌else◌,
}
use fafsturmudprelay.Prelude.Int.{ℤ, pos, negsuc, eq_ℤ}
use fafsturmudprelay.Prelude.Decimal.{decimal}
use fafsturmudprelay.Outcome.{Outcome, ok, err, panic}
use fafsturmudprelay.Relay.HttpApi.{Method, get, post, sessions_prefix, join, leave, bearer}

-- The fields of Config that the relay's side of the adapter reads.
pub record RelayConfig : Type 0 where
  pub player_id : ℤ
  pub game_id : ℤ
  pub login : Bytes
  pub relay_server : Bytes
  pub relay_tcp_server : Bytes
  pub relay_http : Bytes
  pub api_key : Bytes
  pub tcp_fallback : Bool
  pub force_tcp : Bool
  pub use_official_faf : Bool

pub record HttpRequest : Type 0 where
  pub method : Method
  pub url : Bytes
  pub authorization : Bytes
  pub body : Bytes

pub data Answer : Type 0 where
  unreachable : Answer
  response : ℕ → Bytes → Answer

pub record Bodies : Type 0 where
  pub session_body : Bytes → ℕ → Bytes
  pub join_body : ℤ → Bytes → Bytes
  pub leave_body : ℤ → Bytes
  pub player_ids_of : Bytes → Option (List ℤ)

pub data RegisterError : Type 0 where
  no_answer : RegisterError
  create_status join_status : ℕ → RegisterError

-- fmt.Sprintf("%d", a.cfg.GameID)
unfoldable pub session_id : ℤ → Bytes
unfolding decimal
session_id game_id = decimal game_id

abbrev pub sessions_path : Bytes
sessions_path = b'/' ∷ b's' ∷ b'e' ∷ b's' ∷ b's' ∷ b'i' ∷ b'o' ∷ b'n' ∷ b's' ∷ []

abbrev pub health_path : Bytes
health_path = b'/' ∷ b'h' ∷ b'e' ∷ b'a' ∷ b'l' ∷ b't' ∷ b'h' ∷ []

-- "%s/sessions/%s" and "%s/sessions/%s/<action>"
abbrev pub session_url : RelayConfig → Bytes
session_url cfg = cfg.relay_http ++ (sessions_prefix ++ session_id cfg.game_id)

abbrev pub action_url : RelayConfig → Bytes → Bytes
action_url cfg action =
    cfg.relay_http ++ (sessions_prefix ++ (session_id cfg.game_id ++ (b'/' ∷ action)))

-- The Authorization header of doRelayHTTP, empty when it is not set.
abbrev pub authorization_of : RelayConfig → Bytes
authorization_of cfg = if length cfg.api_key == 0 then [] else bearer ++ cfg.api_key

-- The request of doRelayHTTP and doRelayHTTPWithCtx.
unfoldable pub relay_request : RelayConfig → Method → Bytes → Bytes → HttpRequest
relay_request cfg method url body = record {
  method = method;
  url = url;
  authorization = authorization_of cfg;
  body = body;
}

-- A GET by the bare client, without the key.
abbrev pub plain_get : Bytes → HttpRequest
plain_get url = record { method = get; url = url; authorization = []; body = [] }

unfoldable pub health_of : Answer → Bool
health_of unreachable = false
health_of (response status _) = status == 200

unfoldable pub create_of : Answer → Outcome RegisterError (Unit {0})
create_of unreachable = err no_answer
create_of (response status _) =
    if not (status == 201) && not (status == 409) then err (create_status status) else ok tt

unfoldable pub join_of : Answer → Outcome RegisterError (Unit {0})
join_of unreachable = err no_answer
join_of (response status _) = if not (status == 200) then err (join_status status) else ok tt

-- The loop of isHostOnRelay over the ids.
abbrev pub contains : ℤ → List ℤ → Bool
contains host [] = false
contains host (id ∷ ids) = eq_ℤ id host || contains host ids

unfoldable pub host_of : Bodies → ℤ → Answer → Bool
host_of json host unreachable = false
host_of json host (response status body) =
    if status == 404
    then false
    else if not (status == 200)
    then false
    else (elim (json.player_ids_of body) [ none ↦ false | some ids ↦ contains host ids ])

module _ {Site : Type 0} (http : Site → HttpRequest → Site × Answer) (json : Bodies)
    (cfg : RelayConfig) where
  unfoldable pub check_relay_health : Site → Site × Bool
  unfolding health_of
  check_relay_health site =
      let (after, answer) = http site (plain_get (cfg.relay_http ++ health_path)) in
      (after, health_of answer)

  -- The second request of registerWithRelay.
  unfoldable pub join_session : Site → Site × Outcome RegisterError (Unit {0})
  unfolding relay_request join_of
  join_session site =
      let (after, answer) =
        http site
          (relay_request cfg post (action_url cfg join) (json.join_body cfg.player_id cfg.login)) in
      (after, join_of answer)

  abbrev pub join_if_created :
      Site → Outcome RegisterError (Unit {0}) → Site × Outcome RegisterError (Unit {0})
  join_if_created site (ok u) = join_session site
  join_if_created site (err e) = (site, err e)
  join_if_created site panic = (site, panic)

  unfoldable pub register_with_relay : Site → Site × Outcome RegisterError (Unit {0})
  unfolding relay_request create_of join_session
  register_with_relay site =
      let (created, answer) = http site (
        relay_request cfg post (cfg.relay_http ++ sessions_path)
          (json.session_body (session_id cfg.game_id) 32)) in
      join_if_created created (create_of answer)

  -- `relay_mode` is a.relayMode when the adapter shuts down.
  unfoldable pub leave_relay : Bool → Site → Site
  unfolding relay_request
  leave_relay relay_mode site =
      if length cfg.relay_http == 0 || not relay_mode
      then site
      else (http site
          (relay_request cfg post (action_url cfg leave) (json.leave_body cfg.player_id))).0

  unfoldable pub is_host_on_relay : Site → ℤ → Site × Bool
  unfolding host_of
  is_host_on_relay site host =
      if length cfg.relay_http == 0
      then (site, false)
      else (let (after, answer) = http site (plain_get (session_url cfg)) in
          (after, host_of json host answer))
