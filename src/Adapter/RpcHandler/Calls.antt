-- ===== src/Adapter/RpcHandler/Calls.antt =====
-- The other calls of internal/adapter/rpchandler.go that change the adapter.
use fafsturmudprelay.Prelude.{
  ℕ, Option, none, some, true, List, [], ◌∷◌, Bytes, bytes_beq, if◌then◌else◌,
}
use fafsturmudprelay.Prelude.Int.{ℤ, pos, negsuc}
use fafsturmudprelay.Outcome.{Outcome, ok, err, panic}
use fafsturmudprelay.Protocol.Gpgnet.Writing.{int32}
use fafsturmudprelay.Adapter.GpgnetServer.{SendFailure, send_to_game}
use fafsturmudprelay.Adapter.PeerManager.{PeerManager, remove_peer, get_ice_peer}
use fafsturmudprelay.Adapter.IcePeer.{IcePeer}
use fafsturmudprelay.Adapter.RpcHandler.{
  Decoder, Config, Adapter, to_ice_peer, RpcError, no_game, Reply, nil, Handled,
  lobby_init_mode_auto, lobby_init_mode_normal, lobby_of, cmd_disconnect_from_peer,
}
use fafsturmudprelay.Adapter.RpcHandler.Params.{
  disconnect_params, string_param, send_params, ice_msg_params,
}
use fafsturmudprelay.Adapter.RpcHandler.Games.{done, checked}

-- "auto".
abbrev pub auto_mode : Bytes
auto_mode = 97 ∷ 117 ∷ 116 ∷ 111 ∷ []

-- The tables have no id below 0.
abbrev pub remove_peer_at : PeerManager → ℤ → PeerManager
remove_peer_at pm (pos n) = remove_peer pm n
remove_peer_at pm (negsuc n) = pm

abbrev pub ice_peer_at : PeerManager → ℤ → Option IcePeer
ice_peer_at pm (pos n) = get_ice_peer pm n
ice_peer_at pm (negsuc n) = none

abbrev pub id_of : ℤ → ℕ
id_of (pos n) = n
id_of (negsuc n) = 0

abbrev sent_reply : Outcome SendFailure (Unit {0}) → Outcome RpcError Reply
sent_reply (ok u) = ok nil
sent_reply (err e) = err (no_game e)
sent_reply panic = panic

module _ {Raw Float : Type 0} (json : Decoder Raw Float) (cfg : Config) where
  -- The command goes to the game at once; that it could not be sent is ignored.
  unfoldable pub disconnect_from_peer : Adapter Float → List Raw → Handled Float
  unfolding send_to_game remove_peer
  disconnect_from_peer a params = checked json cfg a (disconnect_params json params) (λ pid.
      let sent =
        send_to_game json.float_to_int32 (lobby_of cfg a) a.gpgnet cmd_disconnect_from_peer
          (int32 pid ∷ []) in
      done json cfg (record a { peer_mgr = remove_peer_at a.peer_mgr pid; gpgnet = sent.0 }) [])

  unfoldable pub set_lobby_init_mode : Adapter Float → List Raw → Handled Float
  set_lobby_init_mode a params = checked json cfg a (string_param json params) (λ mode.
      done json cfg
        (record a {
          lobby_init_mode =
              if bytes_beq mode auto_mode then lobby_init_mode_auto else lobby_init_mode_normal;
        })
        [])

  unfoldable pub send_to_gpg_net : Adapter Float → List Raw → Handled Float
  unfolding send_to_game
  send_to_gpg_net a params = checked json cfg a (send_params json params) (λ x.
      let (g, r) = send_to_game json.float_to_int32 (lobby_of cfg a) a.gpgnet x.0 x.1 in
      ((record a { gpgnet = g }, []), sent_reply r))

  unfoldable pub ice_msg : Adapter Float → List Raw → Handled Float
  unfolding get_ice_peer
  ice_msg a params = checked json cfg a (ice_msg_params json params) (λ x.
      let (pid, msg) = x in
      elim (ice_peer_at a.peer_mgr pid) [
        | none ↦ done json cfg a []
        | some p ↦ done json cfg a (to_ice_peer (id_of pid) msg ∷ [])
      ])

  unfoldable pub quit : Adapter Float → Handled Float
  quit a = done json cfg (record a { stopped = true }) []
