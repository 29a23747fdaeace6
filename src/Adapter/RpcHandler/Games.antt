-- ===== src/Adapter/RpcHandler/Games.antt =====
-- hostGame, joinGame and connectToPeer of internal/adapter/rpchandler.go, each call as a whole. What the
-- goroutine of hostGame does once the relay is confirmed is host_confirmed.
use fafsturmudprelay.Prelude.{
  ℕ, none, some, Bool, true, false, not, ◌&&◌, ◌||◌, List, [], ◌∷◌, Bytes, bytes_beq, ◌==◌,
  if◌then◌else◌, nat_eq,
}
use fafsturmudprelay.Prelude.Int.{pos}
use fafsturmudprelay.Prelude.Map.{insert}
use fafsturmudprelay.Outcome.{Outcome, ok, err, panic}
use fafsturmudprelay.Protocol.Gpgnet.Writing.{int32, string}
use fafsturmudprelay.Adapter.Peer.{start}
use fafsturmudprelay.Adapter.PeerManager.{
  PeerManager, add_peer, get_peer, get_ice_peer, add_ice_peer, replace_ice_peer,
}
use fafsturmudprelay.Adapter.RpcHandler.{
  Decoder, Surroundings, Config, Adapter, Action, notify, connecting, connected, ensure_relay_ready,
  await_peer, await_host, start_relay_peer, start_ice_peer, RpcError, no_peer, nil, Handled,
  lobby_init_mode_auto, cmd_host_game, cmd_join_game, cmd_connect_to_peer, queue_for_game,
}
use fafsturmudprelay.Adapter.RpcHandler.Params.{host_params, join_params, connect_params}

-- "Launching" and "Ended".
abbrev pub game_state_launching : Bytes
game_state_launching = 76 ∷ 97 ∷ 117 ∷ 110 ∷ 99 ∷ 104 ∷ 105 ∷ 110 ∷ 103 ∷ []

abbrev pub game_state_ended : Bytes
game_state_ended = 69 ∷ 110 ∷ 100 ∷ 101 ∷ 100 ∷ []

abbrev pub bool_eq : Bool → Bool → Bool
bool_eq true b = b
bool_eq false b = not b

module _ {Raw Float : Type 0} (json : Decoder Raw Float) (cfg : Config) where
  abbrev pub done : Adapter Float → List Action → Handled Float
  done a actions = ((a, actions), ok nil)

  -- A call whose parameters are refused does nothing.
  abbrev pub checked {ℓ} :
      {P : Type ℓ} → Adapter Float → Outcome RpcError P → (P → Handled Float) → Handled Float
  checked a (ok p) f = f p
  checked a (err e) f = ((a, []), err e)
  checked a panic f = ((a, []), panic)

  abbrev pub connecting_peer : Adapter Float → ℕ → Action
  connecting_peer a pid = notify a.peer_mgr.local_id pid connecting

  unfoldable pub host_game : Adapter Float → List Raw → Handled Float
  unfolding queue_for_game
  host_game a params = checked a (host_params json params) (λ map_name.
      let use_relay = not cfg.use_official_faf && not (a.lobby_init_mode == lobby_init_mode_auto) in
      let hosting : Adapter Float = record a { host = true; relay_mode = use_relay } in
      let self = a.peer_mgr.local_id in
      if use_relay
      then done hosting (notify self self connecting ∷ await_host map_name ∷ [])
      else done (queue_for_game json cfg hosting cmd_host_game (string map_name ∷ []))
          (notify self self connected ∷ []))

  unfoldable pub host_confirmed : Adapter Float → Bytes → Adapter Float × List Action
  unfolding queue_for_game
  host_confirmed a map_name = (
    queue_for_game json cfg a cmd_host_game (string map_name ∷ []),
    notify a.peer_mgr.local_id a.peer_mgr.local_id connected ∷ [],
  )

  module _ (env : Surroundings) where
    -- The command for the game that names a peer, its login and the port of its socket.
    unfoldable pub name_peer : Adapter Float → Bytes → ℕ → Bytes → ℕ → Adapter Float
    unfolding queue_for_game
    name_peer a cmd socket login pid =
        queue_for_game json cfg a cmd
          (string (env.address socket) ∷ string login ∷ int32 (pos pid) ∷ [])

    unfoldable pub open_relay_peer : Adapter Float → Bytes → Bytes → ℕ → Handled Float
    unfolding add_peer start name_peer
    open_relay_peer a cmd login pid =
        let (pm, made) = add_peer a.peer_mgr pid login env.listen in
        elim made [
          | none ↦ ((record a { peer_mgr = pm }, ensure_relay_ready ∷ []), err no_peer)
          | some p ↦
              let started : PeerManager = record pm { peers = insert pid (start p) pm.peers } in
              done (name_peer (record a { peer_mgr = started }) cmd p.socket login pid)
                (ensure_relay_ready ∷ start_relay_peer pid ∷ await_peer pid ∷ [])
        ]

    unfoldable pub open_ice_peer : Adapter Float → Bytes → Bytes → ℕ → Bool → Handled Float
    unfolding add_ice_peer name_peer
    open_ice_peer a cmd login pid offer =
        let (pm, made) = add_ice_peer a.peer_mgr pid login offer env.listen env.agent_ok in
        elim made [
          | none ↦ ((record a { peer_mgr = pm }, []), err no_peer)
          | some p ↦
              done (name_peer (record a { peer_mgr = pm }) cmd p.conn login pid)
                (start_ice_peer pid ∷ connecting_peer a pid ∷ [])
        ]

    -- Without a peer yet.
    unfoldable pub join_new : Adapter Float → Bytes → ℕ → Handled Float
    unfolding open_relay_peer open_ice_peer
    join_new a login pid =
        let on_relay = not (a.lobby_init_mode == lobby_init_mode_auto) && env.host_on_relay in
        let joining : Adapter Float = record a { relay_mode = on_relay } in
        if on_relay
        then open_relay_peer joining cmd_join_game login pid
        else open_ice_peer joining cmd_join_game login pid false

    unfoldable pub join_game : Adapter Float → List Raw → Handled Float
    unfolding get_peer get_ice_peer name_peer join_new
    join_game a params = checked a (join_params json params) (λ x.
        let (login, pid) = x in
        elim (get_peer a.peer_mgr pid) [
          | some p ↦ done (name_peer a cmd_join_game p.socket login pid) []
          | none ↦ elim (get_ice_peer a.peer_mgr pid) [
            | some p ↦ done a []
            | none ↦ join_new a login pid
          ]
        ])

    -- An ICE peer whose role changes is replaced; the game is not told, since the port stays the same.
    unfoldable pub change_role : Adapter Float → Bytes → ℕ → Bool → Handled Float
    unfolding replace_ice_peer
    change_role a login pid offer =
        let (pm, made) = replace_ice_peer a.peer_mgr pid login offer none env.listen env.agent_ok in
        elim made [
          | none ↦ done (record a { peer_mgr = pm }) []
          | some p ↦
              done (record a { peer_mgr = pm }) (start_ice_peer pid ∷ connecting_peer a pid ∷ [])
        ]

    unfoldable pub connect_known : Adapter Float → Bytes → ℕ → Bool → Handled Float
    unfolding get_peer get_ice_peer name_peer change_role open_relay_peer open_ice_peer
    connect_known a login pid offer = elim (get_peer a.peer_mgr pid) [
      | some p ↦ done (name_peer a cmd_connect_to_peer p.socket login pid) []
      | none ↦ elim (get_ice_peer a.peer_mgr pid) [
        | some p ↦ if bool_eq p.offerer offer then done a [] else change_role a login pid offer
        | none ↦
            if a.relay_mode
            then open_relay_peer a cmd_connect_to_peer login pid
            else open_ice_peer a cmd_connect_to_peer login pid offer
      ]
    ]

    unfoldable pub connect_to_peer : Adapter Float → List Raw → Handled Float
    unfolding connect_known
    connect_to_peer a params = checked a (connect_params json params) (λ x.
        let (login, pid, offer) = x in
        let state = a.gpgnet.game_state in
        if bytes_beq state game_state_launching || bytes_beq state game_state_ended
        then done a []
        else connect_known a login pid offer)
