-- ===== src/Examples/Ice.antt =====
-- Concrete ICE peers (internal/adapter/icepeer.go).
use fafsturmudprelay.Prelude.{
  ◌≡◌, refl, Option, none, some, true, false, List, [], ◌∷◌, Bytes, bytes_beq, if◌then◌else◌,
}
use fafsturmudprelay.Prelude.Int.{pos}
use fafsturmudprelay.Prelude.Decimal.{decimal, digits_from}
use fafsturmudprelay.Adapter.IceCandidate.{
  Candidate, host, relay, candidate_line, IsReadBack, proto_udp, typ_host, typ_relay,
}
use fafsturmudprelay.Adapter.IceExchange.{
  IceSession, message, dial, accept, faf_ice_msg, run_exchange,
}
use fafsturmudprelay.Adapter.IceExchange.Meeting.{timeouts, repeated, credentials_meet}
use fafsturmudprelay.Adapter.IceLifecycle.{
  Life, Event, state_changed, failed, connected, dial_failed, forced, delay_ended, handle_all,
}
use fafsturmudprelay.Adapter.IceLifecycle.Restarts.{automatic, offerer_restarts_once}

abbrev lan : Candidate
lan = record {
  cand_type = host;
  foundation = 49 ∷ [];
  priority = 200;
  address = 50 ∷ [];
  port = pos 6112;
  related = none;
}

abbrev turn : Candidate
turn = record {
  cand_type = relay;
  foundation = 51 ∷ [];
  priority = 5;
  address = 52 ∷ [];
  port = pos 3478;
  related = some (50 ∷ [], pos 6112);
}

-- A library that knows these two candidates.
abbrev unmarshal : Bytes → Option Candidate
unmarshal s =
    if bytes_beq s (candidate_line (49 ∷ []) proto_udp 200 (50 ∷ []) (pos 6112) typ_host none)
    then some lan
    else if bytes_beq s (
        candidate_line (51 ∷ []) proto_udp 5 (52 ∷ []) (pos 3478) typ_relay
          (some (50 ∷ [], pos 6112)))
    then some turn
    else none

lan_read : IsReadBack unmarshal lan
unfolding candidate_line decimal digits_from
lan_read = record { read_back = refl; typed = λ h. cc; named = tt }

turn_read : IsReadBack unmarshal turn
unfolding candidate_line decimal digits_from
turn_read = record { read_back = refl; typed = λ h. cc; named = refl }

abbrev offerer : IceSession
offerer = record {
  player_id = pos 8;
  local_player_id = pos 7;
  offerer = true;
  relay_only = false;
  send_first = false;
  credentials = some (97 ∷ [], 98 ∷ []);
  gathered = lan ∷ turn ∷ [];
}

abbrev answerer : IceSession
answerer = record {
  player_id = pos 7;
  local_player_id = pos 8;
  offerer = false;
  relay_only = true;
  send_first = false;
  credentials = some (99 ∷ [], 100 ∷ []);
  gathered = lan ∷ turn ∷ [];
}

-- The offerer waits through two timeouts; the answerer advertises its relayed candidate only.
credentials_meet_example :
    (run_exchange unmarshal offerer
        (timeouts 2 (message (faf_ice_msg answerer (99 ∷ []) (100 ∷ [])) ∷ []))
      ≡ record {
        sent = repeated 3 (faf_ice_msg offerer (97 ∷ []) (98 ∷ []));
        remote_ufrag = 99 ∷ [];
        added = turn ∷ [];
        connect = some (dial (99 ∷ []) (100 ∷ []));
      })
    × (run_exchange unmarshal answerer
          (timeouts 0 (message (faf_ice_msg offerer (97 ∷ []) (98 ∷ [])) ∷ []))
        ≡ record {
          sent = faf_ice_msg answerer (99 ∷ []) (100 ∷ []) ∷ [];
          remote_ufrag = 97 ∷ [];
          added = lan ∷ turn ∷ [];
          connect = some (accept (97 ∷ []) (98 ∷ []));
        })
credentials_meet_example =
    credentials_meet unmarshal offerer answerer (97 ∷ []) (98 ∷ []) (99 ∷ []) (100 ∷ []) 2 0 [] []
      refl refl refl refl refl (lan_read, (turn_read, tt)) (lan_read, (turn_read, tt))

abbrev alive : Life
alive = record {
  offerer = true;
  has_restart = true;
  has_connected = true;
  ice_state = none;
  connected_at = none;
  pending = 0;
  fired = false;
  cancelled = false;
}

-- The agent fails and Dial returns an error, after a connection and a restart by hand.
abbrev history : List Event
history =
    state_changed connected 5 ∷ forced ∷ state_changed failed 9 ∷ dial_failed ∷ delay_ended ∷ []

offerer_restarts_once_example : automatic (handle_all alive history).1 ≡ 1
offerer_restarts_once_example = offerer_restarts_once alive history (refl, refl, refl) refl
