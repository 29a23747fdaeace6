-- ===== src/Registration/Departure.antt =====
-- What the relay server keeps of an adapter that has stopped.
use fafsturmudprelay.Prelude.{ℕ, Option, none, some, Bytes, ◌==◌, nat_eq, bytes_eq, if◌then◌else◌}
use fafsturmudprelay.Outcome.{Outcome, ok}
use fafsturmudprelay.Relay.SessionManager.{Manager, remove_player_from_session}
use fafsturmudprelay.Relay.SessionManager.Reach.{Reach}
use fafsturmudprelay.Relay.HttpApi.{Reply, failure, no_content, answer, post, leave}
use fafsturmudprelay.Adapter.RelayConnection.{RelayConnection}
use fafsturmudprelay.Adapter.RelayHttp.{RelayConfig, Bodies, HttpRequest, relay_request, action_url}
use fafsturmudprelay.Registration.{Server, Agrees}

abbrev leave_reply : Manager → Bytes → Option ℕ → Reply
leave_reply m id none = (m, ok (failure 400))
leave_reply m id (some pid) =
    if pid == 0
    then (m, ok (failure 400))
    else answer no_content 404 (remove_player_from_session m id pid)

module _ (server : Server) (json : Bodies) (cfg : RelayConfig)
    (agrees : Agrees server json cfg) where
  -- The request with which the adapter leaves.
  abbrev pub leave_request : HttpRequest
  leave_request = relay_request cfg post (action_url cfg leave) (json.leave_body cfg.player_id)
