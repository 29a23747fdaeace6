-- ===== src/Examples/Registrations.antt =====
-- Concrete runs of an adapter (internal/adapter/adapter.go) against the relay server (internal/relay).
use fafsturmudprelay.Prelude.{
  ℕ, subst, sym, ◌≡◌, ◌≢◌, refl, some, Bool, true, false, ◌&&◌, length, arith, nat_eq, bytes_eq,
}
use fafsturmudprelay.Prelude.Int.{pos}
use fafsturmudprelay.Prelude.Decimal.{digits_from}
use fafsturmudprelay.Prelude.Map.{lookup, insert}
use fafsturmudprelay.Outcome.{ok}
use fafsturmudprelay.Relay.Session.{new_session, add_player, store, player_ids}
use fafsturmudprelay.Relay.SessionManager.{create_session, add_player_to_session, admit}
use fafsturmudprelay.Relay.RateLimits.{allow, allow_ip}
use fafsturmudprelay.Relay.HttpApi.{
  new_http_api, serve_http, dispatch, handle_sessions, handle_session_by_id, handle_session_join,
  valid_session_id, split_path, session_size, check_api_key,
}
use fafsturmudprelay.Adapter.RelayHttp.{
  session_id, relay_request, create_of, join_of, register_with_relay, join_session,
  is_host_on_relay,
}
use fafsturmudprelay.Adapter.RelayConnection.{RelayConnection, Written, new_relay_connection}
use fafsturmudprelay.Adapter.Startup.{Setup}
use fafsturmudprelay.Registration.Departure.{leave_request}
use fafsturmudprelay.Registration.Join.{join_request}
use fafsturmudprelay.Registration.Granting.{
  create_request, with_session, join_outcome, register_lem,
}
use fafsturmudprelay.Registration.{Granted, Site, status_of, answer_of, serve}
use fafsturmudprelay.Registration.Lobby.{InSession, registered-InSession}
use fafsturmudprelay.Registration.Host.{is_host_on_relay_lem, has_member_at, WordsAt}
use fafsturmudprelay.Examples.Sites.{json, server, site, from_start, config, agrees}

-- Player 7 hosts game 42 on a server that has no session yet.
registered : (register_with_relay (serve server) json (config (pos 7)) site).1 ≡ ok tt
unfolding new_http_api register_with_relay join_session relay_request create_of join_of serve
    answer_of status_of serve_http dispatch handle_sessions handle_session_by_id handle_session_join
    valid_session_id split_path session_size check_api_key allow allow_ip session_id digits_from
    create_session add_player_to_session admit new_session add_player store lookup insert
registered = refl

abbrev after : Site
after = (register_with_relay (serve server) json (config (pos 7)) site).0

words : WordsAt after.api.manager (lookup (session_id (pos 42)) after.api.manager.sessions)
unfolding new_http_api register_with_relay join_session relay_request create_of join_of serve
    answer_of status_of serve_http dispatch handle_sessions handle_session_by_id handle_session_join
    valid_session_id split_path session_size check_api_key allow allow_ip session_id digits_from
    create_session add_player_to_session admit new_session add_player store lookup insert player_ids
words = (omega arith, tt)

named : length (config (pos 8)).relay_http ≢ 0
named h = absurd (omega arith)

is_host_on_relay_lem_example :
    (is_host_on_relay (serve server) json (config (pos 8)) after (pos 9)).1 ≡ (
      (allow after.api.read_rate_limit (server.unix after.requests)).1
      && has_member_at after.api.manager
          (lookup (session_id (pos 42)) after.api.manager.sessions)
          (pos 9))
is_host_on_relay_lem_example =
    is_host_on_relay_lem server json (config (pos 8)) (agrees (pos 8)) after (pos 9) named words

abbrev pub connection : RelayConnection
connection = new_relay_connection (record { ip = some 1; port = 10000 }) 7

abbrev pub took : Written → Bool
took w = true

abbrev stopping : Setup Site
stopping = record { site = after; connection = connection; setup_done = true }

granted : Granted server after (leave_request server json (config (pos 7)) (agrees (pos 7)))
unfolding new_http_api register_with_relay join_session relay_request create_of join_of serve
    answer_of status_of serve_http dispatch handle_sessions handle_session_by_id handle_session_join
    valid_session_id split_path session_size check_api_key allow allow_ip session_id digits_from
    create_session add_player_to_session admit new_session add_player store lookup insert
granted = (refl, refl, refl)

seven : (pid : ℕ) × (pid ≡ 7) × InSession after.api.manager (session_id (pos 42)) pid
seven =
    let (pid, same, word, there) =
      registered-InSession server json (config (pos 7)) (agrees (pos 7)) site from_start
        registered in
    (pid, sym (ground (same, arith)), there)

there : InSession after.api.manager (session_id (pos 42)) 7
there = subst (λ (n : ℕ). InSession after.api.manager (session_id (pos 42)) n) seven.1 seven.2

-- The adapter of player 7 before it has started.
abbrev starting : Setup Site
starting = record { site = site; connection = connection; setup_done = false }

granted_first : Granted server site (create_request server json (config (pos 7)) (agrees (pos 7)))
unfolding new_http_api register_with_relay join_session relay_request create_of join_of serve
    answer_of status_of serve_http dispatch handle_sessions handle_session_by_id handle_session_join
    valid_session_id split_path session_size check_api_key allow allow_ip session_id digits_from
    create_session add_player_to_session admit new_session add_player store lookup insert
granted_first = (refl, refl, refl)

granted_second :
    Granted server
      (serve server site (create_request server json (config (pos 7)) (agrees (pos 7)))).0
      (join_request server json (config (pos 7)) (agrees (pos 7)))
unfolding new_http_api register_with_relay join_session relay_request create_of join_of serve
    answer_of status_of serve_http dispatch handle_sessions handle_session_by_id handle_session_join
    valid_session_id split_path session_size check_api_key allow allow_ip session_id digits_from
    create_session add_player_to_session admit new_session add_player store lookup insert
granted_second = (refl, refl, refl)

register_lem_example :
    (register_with_relay (serve server) json (config (pos 7)) site).1
    ≡ join_outcome server json
        (config (pos 7))
        (agrees (pos 7))
        (with_session server json (config (pos 7)) (agrees (pos 7)) site)
        (some 7)
register_lem_example =
    register_lem server json (config (pos 7)) (agrees (pos 7)) site granted_first granted_second
