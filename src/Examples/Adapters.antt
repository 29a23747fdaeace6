-- ===== src/Examples/Adapters.antt =====
-- Concrete runs of the adapter (internal/adapter): its peers, the game server and the relay connection.
use fafsturmudprelay.Prelude.{
  take, false, ◌++◌, ◌-◌, ◌≡◌, refl, none, some, Bool, true, List, [], ◌∷◌, Bytes, arith, nat_eq,
}
use fafsturmudprelay.Prelude.Map.{lookup, insert}
use fafsturmudprelay.Outcome.{ok}
use fafsturmudprelay.Adapter.Peer.{Peer}
use fafsturmudprelay.Adapter.PeerManager.{
  PeerManager, new_peer_manager, add_ice_peer, replace_ice_peer, remove_peer, get_ice_peer,
  new_peer, add_peer, get_peer,
}
use fafsturmudprelay.Adapter.IcePeer.{IcePeer, new_ice_peer}
use fafsturmudprelay.Adapter.PeerManager.Leak.{replaced_socket_leaks}
use fafsturmudprelay.Adapter.PeerManager.Sockets.{IsHeld}
use fafsturmudprelay.Adapter.PeerManager.Histories.{
  Operation, add_relay_peer, add_new_ice_peer, restart_ice_peer, remove, receive, apply_all,
  peers_hold_their_sockets,
}
use fafsturmudprelay.Adapter.RelayConnection
use fafsturmudprelay.Adapter.RelayConnection.{
  RelayConnection, Written, datagram, new_relay_connection, switch_to_tcp,
}
use fafsturmudprelay.Adapter.RelayConnection.Backoff.{
  reconnects, reconnect_tcp, failures, waits_from,
}
use fafsturmudprelay.Relay.Session.{
  Session, update_player_addr, get_player_target, PlayerSendTarget,
}
use fafsturmudprelay.Relay.Session.Player.{Verdict, player_update_addr}
use fafsturmudprelay.Relay.SessionManager.{Manager, find_session_by_player}
use fafsturmudprelay.Relay.Router.{Sent, route_packet}
use fafsturmudprelay.EndToEnd.{payload_arrives, arrives}
use fafsturmudprelay.Examples.Routing.{server, up}
use fafsturmudprelay.Adapter.IceTraffic.{
  IceTraffic, write_ice, ice_to_game, game_to_ice, echo_packet, faf_prefix_echo, writes,
  early_buf_cap,
}
use fafsturmudprelay.Adapter.IceTraffic.Rtt.{both_sides_agree}
use fafsturmudprelay.Adapter.IceTraffic.Early.{early_data_in_order, receive_all}
use fafsturmudprelay.Examples.Sessions.{home, second, game, bob, wire}

abbrev ann : Bytes
ann = 97 ∷ []

abbrev peer : Peer
peer = new_peer 8 ann 1 7 1

abbrev other : Peer
other = new_peer 7 ann 1 8 2

-- A relay peer, an ICE peer that restarts and is removed, a packet.
abbrev operations : List Operation
operations =
    add_relay_peer 8 ann (some 1)
    ∷ add_new_ice_peer 9 ann true (some 2) true
    ∷ restart_ice_peer 9 ann true none none true
    ∷ receive 8 (1 ∷ 2 ∷ [])
    ∷ remove 9
    ∷ []

peers_hold_their_sockets_example : IsHeld (apply_all (new_peer_manager 7) operations)
unfolding new_peer_manager add_peer lookup
peers_hold_their_sockets_example =
    peers_hold_their_sockets 7 operations (refl, (refl, (tt, (tt, (tt, tt)))))

abbrev with_ice : PeerManager
with_ice = (add_ice_peer (new_peer_manager 7) 9 ann true (some 2) true).0

abbrev ice_peer : IcePeer
ice_peer = record {
  player_id = 9;
  login = ann;
  offerer = true;
  conn = 2;
  owns_conn = true;
  game_addr = none;
  added_order = 1;
  remote_msgs = [];
}

replaced_socket_leaks_example :
    let pm' = remove_peer (replace_ice_peer with_ice 9 ann true none none true).0 9 in
    (get_ice_peer pm' 9 ≡ none)
    × (lookup 9 pm'.peers ≡ none)
    × (pm'.open_sockets ≡ with_ice.open_sockets)
unfolding add_ice_peer new_ice_peer new_peer_manager get_ice_peer lookup insert
replaced_socket_leaks_example =
    replaced_socket_leaks with_ice 9 ann true none none ice_peer refl refl

-- A TCP connection to the relay server that is lost; three dials fail.
abbrev lost : RelayConnection
lost = (switch_to_tcp (new_relay_connection home 7) (some 1)).0

abbrev all_sent : Written → Bool
all_sent w = true

reconnects_example :
    let r = reconnect_tcp all_sent second lost (failures 3 (some 2 ∷ [])) in
    (r.connected ≡ true)
    × (r.waits ≡ waits_from 0 3)
    × (r.connection.tcp_conn ≡ some 2)
    × (r.connection.use_tcp ≡ lost.use_tcp)
reconnects_example = reconnects all_sent second 2 [] 3 lost

-- Player 7 sends three bytes over UDP; player 8 is on TCP.
abbrev sender : RelayConnection
sender = new_relay_connection home 7

abbrev receiver : RelayConnection
receiver = new_relay_connection home 8

abbrev from_seven : Peer
from_seven = new_peer 7 ann 1 8 1

abbrev tables : PeerManager
tables = (add_peer (new_peer_manager 8) 7 ann (some 1)).0

abbrev updated : Session × Verdict
updated = update_player_addr game 7 home second

abbrev target : PlayerSendTarget
target = record { player_id = 8; udp_addr = bob.addr; tcp_conn = some wire }

payload_arrives_example :
    (bytes : Bytes) × (w : Sent) × (m' : Manager) × (sender' : RelayConnection)
    × (RelayConnection.send all_sent sender 8 (1 ∷ 2 ∷ 3 ∷ [])
        ≡ ok (sender', datagram home bytes, true))
    × (route_packet up server home bytes second ≡ ok (m', w ∷ []))
    × (get_peer (arrives receiver tables w second).1 7
        ≡ some (record from_seven { from_ch = (1 ∷ 2 ∷ 3 ∷ []) ∷ [] }))
unfolding new_relay_connection new_peer_manager add_peer get_peer update_player_addr
    player_update_addr get_player_target find_session_by_player lookup insert
payload_arrives_example =
    payload_arrives all_sent up sender receiver tables from_seven server home 0 second second
      (1 ∷ 2 ∷ 3 ∷ []) game updated.0 updated.1 target refl (omega arith) (omega arith)
      (omega arith) (omega arith) (omega arith) refl refl refl refl refl refl refl (omega arith)

-- The two sides of an ICE connection, before anything was measured.
abbrev dialling : IceTraffic
dialling = record {
  offerer = true;
  game_addr = none;
  early_buf = [];
  rtt_ms = 0;
  rtt_estimated = false;
}

abbrev accepting : IceTraffic
accepting = record dialling { offerer = false }

both_sides_agree_example :
    (back report : Bytes) × (answerer' : IceTraffic) × (ice_to_game accepting
        (echo_packet faf_prefix_echo 1000)
        1020
      ≡ (answerer', write_ice back ∷ []))
    × (ice_to_game dialling back 1045
        ≡ (record dialling { rtt_ms = 1045 - 1000 }, write_ice report ∷ []))
    × (ice_to_game answerer' report 1060
        ≡ (record accepting { rtt_ms = 1045 - 1000; rtt_estimated = false }, []))
both_sides_agree_example =
    both_sides_agree dialling accepting 1000 1020 1045 1060 refl refl (omega arith) (omega arith)
      (omega arith)

early_data_in_order_example :
    let (waiting, first) = receive_all accepting ((1 ∷ []) ∷ (2 ∷ []) ∷ []) 5 in
    let (known, out) = game_to_ice waiting home (9 ∷ []) true in
    (first ≡ [])
    × ((receive_all known ((3 ∷ []) ∷ []) 6).1
        ≡ writes home (take early_buf_cap ((1 ∷ []) ∷ (2 ∷ []) ∷ []) ++ (3 ∷ []) ∷ []))
early_data_in_order_example =
    early_data_in_order accepting ((1 ∷ []) ∷ (2 ∷ []) ∷ []) 5 home (9 ∷ []) true (3 ∷ []) [] 6 refl
      refl ((λ e. cc), ((λ e. cc), tt)) ((λ e. cc), tt)
