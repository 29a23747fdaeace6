-- ===== src/Adapter/RpcHandler/Dispatch.antt =====
-- HandleRequest of internal/adapter/rpchandler.go.
use fafsturmudprelay.Prelude.{Option, List, [], ◌∷◌, Bytes, bytes_beq, if◌then◌else◌}
use fafsturmudprelay.Outcome.{ok, err}
use fafsturmudprelay.Adapter.RpcHandler.{
  Decoder, Surroundings, Config, Adapter, IceServer, Handled, status_text, unknown,
}
use fafsturmudprelay.Adapter.RpcHandler.Games.{host_game, join_game, connect_to_peer}
use fafsturmudprelay.Adapter.RpcHandler.Calls.{
  disconnect_from_peer, set_lobby_init_mode, ice_msg, send_to_gpg_net, quit,
}
use fafsturmudprelay.Adapter.RpcHandler.IceServers.{set_ice_servers}

-- The names of the methods, as the switch has them.
abbrev pub host_game_name : Bytes
host_game_name = 104 ∷ 111 ∷ 115 ∷ 116 ∷ 71 ∷ 97 ∷ 109 ∷ 101 ∷ []

abbrev pub join_game_name : Bytes
join_game_name = 106 ∷ 111 ∷ 105 ∷ 110 ∷ 71 ∷ 97 ∷ 109 ∷ 101 ∷ []

abbrev pub connect_to_peer_name : Bytes
connect_to_peer_name = 99 ∷ 111 ∷ 110 ∷ 110 ∷ 101 ∷ 99 ∷ 116 ∷ 84 ∷ 111 ∷ 80 ∷ 101 ∷ 101 ∷ 114 ∷ []

abbrev pub disconnect_from_peer_name : Bytes
disconnect_from_peer_name =
    100 ∷ 105 ∷ 115 ∷ 99 ∷ 111 ∷ 110 ∷ 110 ∷ 101 ∷ 99 ∷ 116 ∷ 70 ∷ 114 ∷ 111 ∷ 109 ∷ 80 ∷ 101 ∷ 101
    ∷ 114 ∷ []

abbrev pub set_lobby_init_mode_name : Bytes
set_lobby_init_mode_name =
    115 ∷ 101 ∷ 116 ∷ 76 ∷ 111 ∷ 98 ∷ 98 ∷ 121 ∷ 73 ∷ 110 ∷ 105 ∷ 116 ∷ 77 ∷ 111 ∷ 100 ∷ 101 ∷ []

abbrev pub ice_msg_name : Bytes
ice_msg_name = 105 ∷ 99 ∷ 101 ∷ 77 ∷ 115 ∷ 103 ∷ []

abbrev pub send_to_gpg_net_name : Bytes
send_to_gpg_net_name = 115 ∷ 101 ∷ 110 ∷ 100 ∷ 84 ∷ 111 ∷ 71 ∷ 112 ∷ 103 ∷ 78 ∷ 101 ∷ 116 ∷ []

abbrev pub set_ice_servers_name : Bytes
set_ice_servers_name = 115 ∷ 101 ∷ 116 ∷ 73 ∷ 99 ∷ 101 ∷ 83 ∷ 101 ∷ 114 ∷ 118 ∷ 101 ∷ 114 ∷ 115 ∷ []

abbrev pub status_name : Bytes
status_name = 115 ∷ 116 ∷ 97 ∷ 116 ∷ 117 ∷ 115 ∷ []

abbrev pub quit_name : Bytes
quit_name = 113 ∷ 117 ∷ 105 ∷ 116 ∷ []

unfoldable pub handle_request :
    {Raw Float : Type 0}
    → Decoder Raw Float
    → (Raw → Option (List IceServer))
    → Config
    → Surroundings
    → Adapter Float
    → Bytes
    → List Raw
    → Handled Float
unfolding host_game join_game connect_to_peer disconnect_from_peer set_lobby_init_mode ice_msg
    send_to_gpg_net quit set_ice_servers
handle_request json parse cfg env a method params =
    if bytes_beq method host_game_name
    then host_game json cfg a params
    else if bytes_beq method join_game_name
    then join_game json cfg env a params
    else if bytes_beq method connect_to_peer_name
    then connect_to_peer json cfg env a params
    else if bytes_beq method disconnect_from_peer_name
    then disconnect_from_peer json cfg a params
    else if bytes_beq method set_lobby_init_mode_name
    then set_lobby_init_mode json cfg a params
    else if bytes_beq method ice_msg_name
    then ice_msg json cfg a params
    else if bytes_beq method send_to_gpg_net_name
    then send_to_gpg_net json cfg a params
    else if bytes_beq method set_ice_servers_name
    then set_ice_servers parse a params
    else if bytes_beq method status_name
    then ((a, []), ok status_text)
    else if bytes_beq method quit_name
    then quit json cfg a
    else ((a, []), err unknown)
