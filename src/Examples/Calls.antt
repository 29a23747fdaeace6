-- ===== src/Examples/Calls.antt =====
-- Concrete runs of the game server and of the FAF client's calls (internal/adapter).
use fafsturmudprelay.Prelude.{
  ℕ, ◌*◌, ◌^◌, ◌≡◌, refl, Option, none, some, Bool, true, false, List, [], ◌∷◌, ◌++◌, Bytes, map,
  arith, nat_eq, length,
}
use fafsturmudprelay.Prelude.Int.{ℤ, pos}
use fafsturmudprelay.Prelude.Map.{lookup}
use fafsturmudprelay.Protocol.Gpgnet.{text}
use fafsturmudprelay.Protocol.Gpgnet.Writing.{Arg, int32, string, other}
use fafsturmudprelay.Protocol.Gpgnet.RoundTrip.{message_form}
use fafsturmudprelay.Adapter.PeerManager.{new_peer_manager, get_peer, get_ice_peer}
use fafsturmudprelay.Adapter.GpgnetServer.{
  GpgnetServer, QueuedMessage, Lobby, new_gpgnet_server, accept_game, cmd_game_state,
  game_state_lobby, flush_queue, send_to_game_queued, open_lobby, on_game_state,
}
use fafsturmudprelay.Adapter.GpgnetServer.Mailbox.{
  Event, from_game, to_game, Mailbox, Implements, serve, post_all, serve-Implements,
}
use fafsturmudprelay.Adapter.GpgnetServer.Sent.{forms}
use fafsturmudprelay.Adapter.GpgnetServer.Overtaking.{late_message_overtakes}
use fafsturmudprelay.Adapter.IceRestart.{IceMsg, same_peer, peer_gone, new_restarts}
use fafsturmudprelay.Adapter.IceRestart.Capped.{
  Round, rounds, let_through, at_most, flapping_is_capped,
}
use fafsturmudprelay.Adapter.RpcHandler.{
  Decoder, Surroundings, Config, Adapter, cmd_connect_to_peer, cmd_disconnect_from_peer, lobby_of,
}
use fafsturmudprelay.Adapter.RpcHandler.Params.{connect_params, disconnect_params}
use fafsturmudprelay.Adapter.RpcHandler.Games.{connect_to_peer}
use fafsturmudprelay.Adapter.RpcHandler.Calls.{disconnect_from_peer}
use fafsturmudprelay.Adapter.RpcHandler.{IceServer}
use fafsturmudprelay.Adapter.RpcHandler.Dispatch.{connect_to_peer_name, disconnect_from_peer_name}
use fafsturmudprelay.Adapter.RpcServer.{Call, Response, serve_calls}
use fafsturmudprelay.Adapter.RpcServer.Answers.{answered, answered_in_order}
use fafsturmudprelay.Adapter.RpcHandler.Disconnect.{removed_peer_is_announced}

-- Values of JSON, with whole numbers only.
data Value : Type 0 where
  text_value : Bytes → Value
  number_value : ℕ → Value
  bool_value : Bool → Value

abbrev string_of : Value → Option Bytes
string_of (text_value s) = some s
string_of _ = none

abbrev number_of : Value → Option ℕ
number_of (number_value n) = some n
number_of _ = none

abbrev bool_of : Value → Option Bool
bool_of (bool_value b) = some b
bool_of _ = none

abbrev any_of : Value → Option (Arg ℕ)
any_of (text_value s) = some (string s)
any_of (number_value n) = some (int32 (pos n))
any_of (bool_value b) = some other

abbrev no_text : Value → Bytes
no_text v = []

abbrev whole : ℕ → ℤ
whole n = pos n

abbrev json : Decoder Value ℕ
json = record {
  as_string = string_of;
  as_number = number_of;
  as_bool = bool_of;
  as_any = any_of;
  text_of = no_text;
  int_of = whole;
  float_to_int32 = whole;
}

abbrev bob : Bytes
bob = 98 ∷ []

abbrev lobby : Lobby
lobby = record { init_mode = 0; port = 6112; login = bob; player_id = 7 }

abbrev idle_server : GpgnetServer ℕ
idle_server = record new_gpgnet_server { connected = false }

abbrev game_server : GpgnetServer ℕ
game_server = (accept_game idle_server 1).0

abbrev join : QueuedMessage ℕ
join = record { header = 74 ∷ []; args = string bob ∷ int32 (pos 8) ∷ [] }

abbrev chat : QueuedMessage ℕ
chat = record { header = 67 ∷ []; args = string bob ∷ [] }

abbrev events : List (Event ℕ)
events = to_game join ∷ from_game cmd_game_state (text game_state_lobby ∷ []) ∷ to_game chat ∷ []

abbrev empty_mailbox : Mailbox ℕ
empty_mailbox = record { opened = false; held = []; passed = [] }

serve-Implements_example :
    Implements whole lobby []
      (serve whole lobby game_server events)
      (post_all whole lobby empty_mailbox events)
unfolding accept_game
serve-Implements_example =
    serve-Implements whole lobby [] events game_server empty_mailbox (omega arith)
      ((omega arith, (omega arith, (tt, tt))), (tt, ((omega arith, (omega arith, tt)), tt)))
      (refl, refl, refl, tt)

abbrev waiting_server : GpgnetServer ℕ
waiting_server = record game_server { message_queue = join ∷ [] }

late_message_overtakes_example :
    (flush_queue whole lobby (
      send_to_game_queued whole lobby
        (open_lobby whole lobby waiting_server)
        chat.header
        chat.args)).writer
    ≡ some (([] ++ message_form whole chat.header chat.args) ++ forms whole lobby (join ∷ []))
unfolding accept_game
late_message_overtakes_example =
    late_message_overtakes whole lobby waiting_server chat [] refl (omega arith, (omega arith, tt))
      ((omega arith, (omega arith, (tt, tt))), tt)

-- A peer whose connection fails at once, seven times, and one that held for four seconds.
abbrev failure : IceMsg
failure = record { ufrag = []; manual = false }

abbrev second : ℕ
second = 10 ^ 9

abbrev failed_at : ℕ → Round
failed_at n = record { connected = none; restarted = n * second; msg = failure; waited = same_peer }

abbrev dropped : Round
dropped = record {
  connected = some (30 * second);
  restarted = 34 * second;
  msg = failure;
  waited = peer_gone;
}

abbrev flapping : List Round
flapping =
    failed_at 1
    ∷ dropped
    ∷ failed_at 40
    ∷ failed_at 50
    ∷ failed_at 60
    ∷ failed_at 70
    ∷ failed_at 80
    ∷ []

flapping_is_capped_example :
    let_through (rounds true new_restarts flapping) ≡ at_most 5 (length flapping)
flapping_is_capped_example = flapping_is_capped true flapping (
  (refl, tt),
  ((refl, omega arith), ((refl, tt), ((refl, tt), ((refl, tt), ((refl, tt), ((refl, tt), tt)))))),
)

abbrev cfg : Config
cfg = record { use_official_faf = false; lobby_port = 6112; login = bob }

abbrev address : ℕ → Bytes
address socket = 49 ∷ 50 ∷ []

abbrev env : Surroundings
env = record { listen = some 3; agent_ok = true; host_on_relay = true; address = address }

abbrev adapter : Adapter ℕ
adapter = record {
  gpgnet = game_server;
  peer_mgr = new_peer_manager 7;
  lobby_init_mode = 0;
  relay_mode = true;
  host = true;
  ice_servers = [];
  stopped = false;
}

abbrev connect : List Value
connect = text_value bob ∷ number_value 8 ∷ bool_value true ∷ []

abbrev disconnect : List Value
disconnect = number_value 8 ∷ []

removed_peer_is_announced_example :
    let added = (connect_to_peer json cfg env adapter connect).0.0 in
    let removed = (disconnect_from_peer json cfg added disconnect).0.0 in
    let in_lobby = on_game_state whole (lobby_of cfg removed) removed.gpgnet game_state_lobby in
    (get_peer removed.peer_mgr 8 ≡ none)
    × (in_lobby.writer
        ≡ some (
            ([] ++ message_form whole cmd_disconnect_from_peer (int32 (pos 8) ∷ []))
            ++ message_form whole cmd_connect_to_peer
                (string (address 3) ∷ string bob ∷ int32 (pos 8) ∷ [])))
unfolding connect_params disconnect_params accept_game new_peer_manager get_peer get_ice_peer lookup
removed_peer_is_announced_example =
    removed_peer_is_announced json cfg env adapter connect disconnect bob [] 8 3 true refl refl refl
      refl refl refl refl refl refl refl (omega arith) (omega arith)

-- A notification and two calls, the last of an unknown method; every response can be written.
abbrev calls : List (Call ℕ Value)
calls =
    record { id = none; method = disconnect_from_peer_name; params = disconnect }
    ∷ record { id = some 1; method = connect_to_peer_name; params = connect }
    ∷ record { id = some 2; method = []; params = [] }
    ∷ []

abbrev no_servers : Value → Option (List IceServer)
no_servers v = none

abbrev all_written : Response ℕ → Bool
all_written r = true

answered_in_order_example :
    (rest : List ℕ) × (1 ∷ 2 ∷ []
      ≡ map answered (serve_calls json no_servers cfg env all_written adapter calls).2 ++ rest)
answered_in_order_example = answered_in_order json no_servers cfg env all_written calls adapter
