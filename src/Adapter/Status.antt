-- ===== src/Adapter/Status.antt =====
-- internal/adapter/status.go: what the adapter tells of itself. Ports of sockets, and for an ICE peer its
-- state and the library's answers, are arguments. Fields that BuildStatus leaves at their zero are left out.
pub mod Listing
use fafsturmudprelay.Prelude.{
  ℕ, ◌-◌, ◌/◌, ◌^◌, Option, none, some, Bool, true, false, List, [], ◌∷◌, ◌++◌, Bytes, length, map,
  leb, ◌==◌, if◌then◌else◌,
}
use fafsturmudprelay.Adapter.Peer.{Peer, peer_rtt_ms}
use fafsturmudprelay.Adapter.PeerManager.{PeerManager, get_all_peers, get_all_ice_peers}
use fafsturmudprelay.Adapter.IcePeer.{IcePeer}
use fafsturmudprelay.Adapter.RelayConnection.{RelayConnection, relay_rtt_ms, is_healthy}
use fafsturmudprelay.Adapter.GpgnetServer.{GpgnetServer}
use fafsturmudprelay.Adapter.RpcHandler.{Adapter, Config}
use fafsturmudprelay.Adapter.IceLifecycle.{
  Life, ConnectionState, connected, SelectedPair, Transport, udp, tcp, shown_state, shown_rtt_ms,
  selected_transport, selected_cand_types,
}

pub record StatusRelayIce : Type 0 where
  pub offerer : Bool
  pub state : ConnectionState
  pub is_connected : Bool
  pub connected_ms : ℕ
  pub loc_cand_type : Bytes
  pub rem_cand_type : Bytes
  pub rtt_ms : ℕ
  pub rtt_estimated : Bool
  pub dedicated : Bool
  pub transport : Transport

pub record StatusRelay : Type 0 where
  pub remote_player_id : ℕ
  pub remote_player_login : Bytes
  pub local_game_udp_port : ℕ
  pub added_order : ℕ
  pub ice : StatusRelayIce

pub record StatusOptions : Type 0 where
  pub player_id : ℕ
  pub player_login : Bytes
  pub rpc_port : ℕ
  pub gpgnet_port : ℕ

pub record StatusResponse : Type 0 where
  pub ice_servers_size : ℕ
  pub lobby_port : ℕ
  pub init_mode_auto : Bool
  pub options : StatusOptions
  pub game_connected : Bool
  pub game_state : Bytes
  pub relays : List StatusRelay
  pub relay_connected : Bool

-- What an ICE peer and its agent say when they are asked.
pub record IceView : Type 0 where
  pub life : Life
  pub pair : Option SelectedPair
  pub stun : Option (ℕ × Bool)
  pub measured_ms : ℕ

-- RelayConnection.Transport
unfoldable pub transport_of : RelayConnection → Transport
transport_of rc = if rc.use_tcp then tcp else udp

abbrev text_relay : Bytes
text_relay = b'r' ∷ b'e' ∷ b'l' ∷ b'a' ∷ b'y' ∷ []

abbrev text_unknown : Bytes
text_unknown = b'u' ∷ b'n' ∷ b'k' ∷ b'n' ∷ b'o' ∷ b'w' ∷ b'n' ∷ []

abbrev or_unknown : Bytes → Bytes
or_unknown s = if length s == 0 then text_unknown else s

abbrev is_connected_state : ConnectionState → Bool
is_connected_state connected = true
is_connected_state _ = false

unfoldable pub relay_entry : (ℕ → ℕ) → RelayConnection → Peer → StatusRelay
unfolding transport_of
relay_entry port_of rc p = record {
  remote_player_id = p.player_id;
  remote_player_login = p.login;
  local_game_udp_port = port_of p.socket;
  added_order = p.added_order;
  ice = record {
    offerer = false;
    state = connected;
    is_connected = true;
    connected_ms = 0;
    loc_cand_type = text_relay;
    rem_cand_type = text_relay;
    rtt_ms = peer_rtt_ms p (relay_rtt_ms rc);
    rtt_estimated = true;
    dedicated = true;
    transport = transport_of rc;
  };
}

-- `now` is in nanoseconds.
unfoldable pub ice_entry : (ℕ → ℕ) → IceView → ℕ → IcePeer → StatusRelay
ice_entry port_of view now p =
    let state = shown_state view.life in
    let (local_type, remote_type) = selected_cand_types view.life view.pair in
    record {
      remote_player_id = p.player_id;
      remote_player_login = p.login;
      local_game_udp_port = port_of p.conn;
      added_order = p.added_order;
      ice = record {
        offerer = p.offerer;
        state = state;
        is_connected = is_connected_state state;
        connected_ms =
            if is_connected_state state
            then (elim view.life.connected_at [ none ↦ 0 | some at ↦ (now - at) / 10 ^ 6 ])
            else 0;
        loc_cand_type = or_unknown local_type;
        rem_cand_type = or_unknown remote_type;
        rtt_ms = shown_rtt_ms view.life view.stun view.measured_ms;
        rtt_estimated = true;
        dedicated = false;
        transport = selected_transport view.life view.pair;
      };
    }

-- sort.Slice by the order in which the peers were added.
unfoldable pub put_in_order : StatusRelay → List StatusRelay → List StatusRelay
put_in_order r [] = r ∷ []
put_in_order r (s ∷ rest) =
    let later = put_in_order r rest in
    if leb r.added_order s.added_order then r ∷ s ∷ rest else s ∷ later

unfoldable pub sort_relays : List StatusRelay → List StatusRelay
unfolding put_in_order
sort_relays [] = []
sort_relays (r ∷ rest) = put_in_order r (sort_relays rest)

module _ (port_of : ℕ → ℕ) (view : IcePeer → IceView) (rc : RelayConnection) (now : ℕ) where
  unfoldable pub relay_entries : PeerManager → List StatusRelay
  unfolding relay_entry ice_entry get_all_peers get_all_ice_peers
  relay_entries pm =
      map (relay_entry port_of rc) (get_all_peers pm)
      ++ map (λ p. ice_entry port_of (view p) now p) (get_all_ice_peers pm)

  unfoldable pub build_status : {Float : Type 0} → Config → ℕ → ℕ → Adapter Float → StatusResponse
  unfolding relay_entries sort_relays
  build_status cfg rpc_port gpgnet_port a = record {
    ice_servers_size = length a.ice_servers;
    lobby_port = cfg.lobby_port;
    init_mode_auto = a.lobby_init_mode == 1;
    options = record {
      player_id = a.peer_mgr.local_id;
      player_login = cfg.login;
      rpc_port = rpc_port;
      gpgnet_port = gpgnet_port;
    };
    game_connected = a.gpgnet.connected;
    game_state = a.gpgnet.game_state;
    relays = sort_relays (relay_entries a.peer_mgr);
    relay_connected = is_healthy rc now;
  }
