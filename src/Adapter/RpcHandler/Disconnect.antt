-- ===== src/Adapter/RpcHandler/Disconnect.antt =====
-- connectToPeer and disconnectFromPeer of internal/adapter/rpchandler.go before the game has its lobby.
use mathlib.Core.List.{append-nil}
use fafsturmudprelay.Prelude.{
  ℕ, ◌≤◌, ◌≡◌, refl, ap, ◌∙◌, none, some, Bool, ◌||◌, bytes_beq, if◌then◌else◌, true, false, List,
  [], ◌∷◌, ◌++◌, Bytes, length, arith, ==_refl, nat_eq,
}
use fafsturmudprelay.Prelude.Int.{ℤ, pos}
use fafsturmudprelay.Prelude.Map.{lookup, delete, lookup-delete}
use fafsturmudprelay.Outcome.{Outcome, ok}
use fafsturmudprelay.Protocol.Gpgnet.{max_string_length}
use fafsturmudprelay.Protocol.Gpgnet.Writing.{int32, string}
use fafsturmudprelay.Protocol.Gpgnet.RoundTrip.{message_form}
use fafsturmudprelay.Adapter.GpgnetServer.{
  GpgnetServer, QueuedMessage, game_state_none, game_state_lobby, on_game_state, open_lobby,
  flush_queue, send_to_game_queued, send_to_game,
}
use fafsturmudprelay.Adapter.GpgnetServer.Sent.{send_to_game_lem, send_all_lem}
use fafsturmudprelay.Adapter.PeerManager.{get_peer, get_ice_peer, remove_peer, add_peer}
use fafsturmudprelay.Adapter.RpcHandler.{
  RpcError, Decoder, Surroundings, Config, Adapter, cmd_connect_to_peer, cmd_disconnect_from_peer,
  lobby_of, queue_for_game,
}
use fafsturmudprelay.Adapter.RpcHandler.Params.{connect_params, disconnect_params}
use fafsturmudprelay.Adapter.RpcHandler.Games.{
  connect_to_peer, checked, done, game_state_launching, game_state_ended, connect_known,
  open_relay_peer, name_peer,
}
use fafsturmudprelay.Adapter.RpcHandler.Calls.{disconnect_from_peer, remove_peer_at}

module _ {Raw Float : Type 0} (json : Decoder Raw Float) (cfg : Config) (env : Surroundings)
    (a : Adapter Float) where
  -- ConnectToPeer for a peer behind a socket, and DisconnectFromPeer for one.
  abbrev pub announce : ℕ → Bytes → ℕ → QueuedMessage Float
  announce socket login pid = record {
    header = cmd_connect_to_peer;
    args = string (env.address socket) ∷ string login ∷ int32 (pos pid) ∷ [];
  }

  abbrev pub retract : ℕ → QueuedMessage Float
  retract pid = record { header = cmd_disconnect_from_peer; args = int32 (pos pid) ∷ [] }

  known_queues :
      (login : Bytes) (pid socket : ℕ) (offer : Bool)
      → get_peer a.peer_mgr pid ≡ none
      → get_ice_peer a.peer_mgr pid ≡ none
      → a.relay_mode ≡ true
      → env.listen ≡ some socket
      → a.gpgnet.lobby_ready ≡ false
      → a.gpgnet.message_queue ≡ []
      → (connect_known json cfg env a login pid offer).0.0.gpgnet
        ≡ record a.gpgnet { message_queue = announce socket login pid ∷ [] }
  unfolding connect_known open_relay_peer name_peer queue_for_game send_to_game_queued get_peer
      get_ice_peer add_peer
  known_queues login pid socket offer no_peer no_ice relay listen closed empty =
      ground (arith, no_peer, no_ice, relay, listen, closed, empty)

  connect_queues :
      (params : List Raw) (login : Bytes) (pid socket : ℕ) (offer : Bool)
      → connect_params json params ≡ ok (login, pid, offer)
      → a.gpgnet.game_state ≡ game_state_none
      → get_peer a.peer_mgr pid ≡ none
      → get_ice_peer a.peer_mgr pid ≡ none
      → a.relay_mode ≡ true
      → env.listen ≡ some socket
      → a.gpgnet.lobby_ready ≡ false
      → a.gpgnet.message_queue ≡ []
      → (connect_to_peer json cfg env a params).0.0.gpgnet
        ≡ record a.gpgnet { message_queue = announce socket login pid ∷ [] }
  unfolding connect_to_peer connect_known open_relay_peer name_peer queue_for_game
      send_to_game_queued get_peer get_ice_peer add_peer
  connect_queues params login pid socket offer p state no_peer no_ice relay listen closed empty =
      ap
        (λ x.
          (checked json cfg a x (λ y.
            let (l, i, o) = y in
            let state = a.gpgnet.game_state in
            if bytes_beq state game_state_launching || bytes_beq state game_state_ended
            then done json cfg a []
            else connect_known json cfg env a l i o)).0.0.gpgnet)
        p
      ∙ ap
          (λ (st : Bytes).
            (if bytes_beq st game_state_launching || bytes_beq st game_state_ended
              then done json cfg a []
              else connect_known json cfg env a login pid offer).0.0.gpgnet)
          state
      ∙ known_queues login pid socket offer no_peer no_ice relay listen closed empty

  gone_from : {V : Type 0} (pid : ℕ) (m : List (ℕ × V)) → lookup pid (delete pid m) ≡ none
  gone_from pid m = ground (arith, lookup-delete pid pid m, ==_refl pid)

  disconnect_sends :
      (b : Adapter Float) (params : List Raw) (pid : ℕ) (out : Bytes)
      → disconnect_params json params ≡ ok (pos pid)
      → b.gpgnet.writer ≡ some out
      → let after = (disconnect_from_peer json cfg b params).0.0 in
        (after.gpgnet ≡ record b.gpgnet {
          writer =
              some
                (out ++ message_form json.float_to_int32 (retract pid).header (retract pid).args);
        })
        × (get_peer after.peer_mgr pid ≡ none)
        × (get_ice_peer after.peer_mgr pid ≡ none)
  unfolding disconnect_from_peer get_peer get_ice_peer remove_peer
  disconnect_sends b params pid out p w =
      let call : Outcome RpcError ℤ → Adapter Float = λ x.
        (checked json cfg b x (λ i.
          let sent =
            send_to_game json.float_to_int32 (lobby_of cfg b) b.gpgnet cmd_disconnect_from_peer
              (int32 i ∷ []) in
          done json cfg (record b { peer_mgr = remove_peer_at b.peer_mgr i; gpgnet = sent.0 })
            [])).0.0 in
      (
        ap (λ x. (call x).gpgnet) p
            ∙ send_to_game_lem json.float_to_int32 (lobby_of cfg b) out b.gpgnet (retract pid) w
                (omega arith, (tt, tt)),
        ap (λ x. get_peer (call x).peer_mgr pid) p ∙ gone_from pid b.peer_mgr.peers,
        ap (λ x. get_ice_peer (call x).peer_mgr pid) p ∙ gone_from pid b.peer_mgr.ice_peers,
      )

-- A peer that is added in relay mode and removed again before the connected game has its lobby is
-- announced to the game after its removal: the game is sent DisconnectFromPeer first, and
-- ConnectToPeer for the removed peer, with the port of its old socket, when it enters the lobby. It
-- is assumed that the player had no peer before, that the game reported no state and nothing was
-- queued, that there is a socket, and that the login and the address fit a message.
pub removed_peer_is_announced :
    {Raw Float : Type 0} (json : Decoder Raw Float) (cfg : Config) (env : Surroundings)
    (a : Adapter Float) (connect disconnect : List Raw) (login out : Bytes) (pid socket : ℕ)
    (offer : Bool)
    → connect_params json connect ≡ ok (login, pid, offer)
    → disconnect_params json disconnect ≡ ok (pos pid)
    → a.gpgnet.game_state ≡ game_state_none
    → get_peer a.peer_mgr pid ≡ none
    → get_ice_peer a.peer_mgr pid ≡ none
    → a.relay_mode ≡ true
    → env.listen ≡ some socket
    → a.gpgnet.lobby_ready ≡ false
    → a.gpgnet.message_queue ≡ []
    → a.gpgnet.writer ≡ some out
    → length login ≤ max_string_length
    → length (env.address socket) ≤ max_string_length
    → let added = (connect_to_peer json cfg env a connect).0.0 in
      let removed = (disconnect_from_peer json cfg added disconnect).0.0 in
      let in_lobby =
        on_game_state json.float_to_int32 (lobby_of cfg removed) removed.gpgnet game_state_lobby in
      (get_peer removed.peer_mgr pid ≡ none)
      × (in_lobby.writer
          ≡ some (
              (out
                ++ message_form json.float_to_int32 cmd_disconnect_from_peer (int32 (pos pid) ∷ []))
              ++ message_form json.float_to_int32 cmd_connect_to_peer
                  (string (env.address socket) ∷ string login ∷ int32 (pos pid) ∷ [])))
unfolding on_game_state flush_queue open_lobby
removed_peer_is_announced json cfg env a connect disconnect login out pid socket offer pc pd state
      no_peer no_ice relay listen closed empty w short_login short_address =
    let f = json.float_to_int32 in
    let added = (connect_to_peer json cfg env a connect).0.0 in
    let queued =
      connect_queues json cfg env a connect login pid socket offer pc state no_peer no_ice relay
        listen closed empty in
    let sent =
      disconnect_sends json cfg env a added disconnect pid out pd
        (ap (λ (g : GpgnetServer _). g.writer) queued ∙ w) in
    let removed = (disconnect_from_peer json cfg added disconnect).0.0 in
    let m = announce json cfg env a socket login pid in
    let out' = out ++ message_form f cmd_disconnect_from_peer (int32 (pos pid) ∷ []) in
    let closed_lobby : GpgnetServer _ = record a.gpgnet {
      message_queue = m ∷ [];
      writer = some out';
    } in
    let opened : GpgnetServer _ = record closed_lobby {
      game_state = game_state_lobby;
      lobby_ready = true;
      message_queue = [];
    } in
    (
      sent.1,
      ap
            (λ (g : GpgnetServer _).
              (on_game_state f (lobby_of cfg removed) g game_state_lobby).writer)
            (sent.0 ∙ ap (λ (g : GpgnetServer _). record g { writer = some out' }) queued)
          ∙ ap (λ (g : GpgnetServer _). g.writer)
              (send_all_lem f (lobby_of cfg removed) (m ∷ []) out' opened refl
                ((omega arith, (short_address, (short_login, (tt, tt)))), tt))
          ∙ ap (λ (t : Bytes). some (out' ++ t)) (append-nil (message_form f m.header m.args)),
    )
