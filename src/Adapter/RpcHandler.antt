-- ===== src/Adapter/RpcHandler.antt =====
-- internal/adapter/rpchandler.go: the calls of the FAF client. `Decoder` is json.Unmarshal on a raw value,
-- `Surroundings` what the system and the relay server answer. Logging is left out.
pub mod Params
pub mod IceServers
pub mod Calls
pub mod Games
pub mod Dispatch
pub mod Disconnect
use fafsturmudprelay.Prelude.{ℕ, Option, Bool, true, List, [], ◌∷◌, ◌++◌, Bytes}
use fafsturmudprelay.Prelude.Int.{ℤ, pos}
use fafsturmudprelay.Outcome.{Outcome, ok, err}
use fafsturmudprelay.Protocol.Gpgnet.Writing.{Arg, int32, string}
use fafsturmudprelay.Adapter.GpgnetServer.{GpgnetServer, SendFailure, Lobby, send_to_game_queued}
use fafsturmudprelay.Adapter.PeerManager.{PeerManager}

-- What json.Unmarshal makes of a raw value for a string, a float64, a bool and an interface{}; `int_of` is
-- the conversion int(v), and `float_to_int32` is int32(v).
pub record Decoder (Raw Float : Type 0) : Type 0 where
  pub as_string : Raw → Option Bytes
  pub as_number : Raw → Option Float
  pub as_bool : Raw → Option Bool
  pub as_any : Raw → Option (Arg Float)
  pub text_of : Raw → Bytes
  pub int_of : Float → ℤ
  pub float_to_int32 : Float → ℤ

pub record IceServer : Type 0 where
  pub urls : List Bytes
  pub username : Bytes
  pub credential : Bytes

-- `listen` and `agent_ok` are as for the peer manager, `host_on_relay` is isHostOnRelay and `address`
-- the text of 127.0.0.1 with the port of a socket.
pub record Surroundings : Type 0 where
  pub listen : Option ℕ
  pub agent_ok : Bool
  pub host_on_relay : Bool
  pub address : ℕ → Bytes

pub record Config : Type 0 where
  pub use_official_faf : Bool
  pub lobby_port : ℕ
  pub login : Bytes

pub record Adapter (Float : Type 0) : Type 0 where
  pub gpgnet : GpgnetServer Float
  pub peer_mgr : PeerManager
  pub lobby_init_mode : ℕ
  pub relay_mode : Bool
  pub host : Bool
  pub ice_servers : List IceServer
  pub stopped : Bool

pub data PeerState : Type 0 where
  connecting connected : PeerState

-- What the handler does besides its state: it tells the FAF client of a peer, makes sure that the relay
-- is ready, starts a goroutine that waits for the relay (for a peer, or to host a map), starts a peer,
-- or hands a message to an ICE peer.
pub data Action : Type 0 where
  notify : (local remote : ℕ) → PeerState → Action
  ensure_relay_ready : Action
  await_peer start_relay_peer start_ice_peer : ℕ → Action
  await_host : Bytes → Action
  to_ice_peer : ℕ → Bytes → Action

pub data RpcError : Type 0 where
  missing_params login_too_long map_name_too_long no_peer unknown : RpcError
  no_game : SendFailure → RpcError
  bad_param : ℕ → RpcError
  invalid_player_id : ℤ → RpcError

-- The reply to status is a text, which is not modelled; every other reply is nil.
pub data Reply : Type 0 where
  nil status_text : Reply

-- The state after a call, what was done, and the reply.
abbrev pub Handled : Type 0 → Type 0
Handled Float = (Adapter Float × List Action) × Outcome RpcError Reply

abbrev pub lobby_init_mode_auto : ℕ
lobby_init_mode_auto = 1

abbrev pub lobby_init_mode_normal : ℕ
lobby_init_mode_normal = 0

-- "HostGame", "JoinGame", "ConnectToPeer", "DisconnectFromPeer".
abbrev pub cmd_host_game : Bytes
cmd_host_game = 72 ∷ 111 ∷ 115 ∷ 116 ∷ 71 ∷ 97 ∷ 109 ∷ 101 ∷ []

abbrev pub cmd_join_game : Bytes
cmd_join_game = 74 ∷ 111 ∷ 105 ∷ 110 ∷ 71 ∷ 97 ∷ 109 ∷ 101 ∷ []

abbrev pub cmd_connect_to_peer : Bytes
cmd_connect_to_peer = 67 ∷ 111 ∷ 110 ∷ 110 ∷ 101 ∷ 99 ∷ 116 ∷ 84 ∷ 111 ∷ 80 ∷ 101 ∷ 101 ∷ 114 ∷ []

abbrev pub cmd_disconnect_from_peer : Bytes
cmd_disconnect_from_peer =
    68 ∷ 105 ∷ 115 ∷ 99 ∷ 111 ∷ 110 ∷ 110 ∷ 101 ∷ 99 ∷ 116 ∷ 70 ∷ 114 ∷ 111 ∷ 109 ∷ 80 ∷ 101 ∷ 101
    ∷ 114 ∷ []

abbrev pub lobby_of : {Float : Type 0} → Config → Adapter Float → Lobby
lobby_of cfg a = record {
  init_mode = a.lobby_init_mode;
  port = cfg.lobby_port;
  login = cfg.login;
  player_id = a.peer_mgr.local_id;
}

-- SendToGameQueued of the adapter's game server.
unfoldable pub queue_for_game :
    {Raw Float : Type 0}
    → Decoder Raw Float
    → Config
    → Adapter Float
    → Bytes
    → List (Arg Float)
    → Adapter Float
unfolding send_to_game_queued
queue_for_game json cfg a header args = record a {
  gpgnet = send_to_game_queued json.float_to_int32 (lobby_of cfg a) a.gpgnet header args;
}
