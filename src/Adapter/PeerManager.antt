-- ===== src/Adapter/PeerManager.antt =====
-- internal/adapter/peermgr.go: the peers behind the relay server and those reached by ICE. `open` are the
-- local sockets that the program holds; `listen` is what net.ListenUDP gives, none for an error, and
-- `agent_ok` whether the ICE agent could be created. A peer that ends closes its socket or leaves it.
pub mod Leak
pub mod Held
pub mod Sockets
pub mod Histories
use fafsturmudprelay.Prelude.{
  ℕ, ◌+◌, Option, none, some, Bool, true, false, List, [], ◌∷◌, Bytes, is_some, if◌then◌else◌,
  nat_eq, ltb, ◌==◌, map,
}
use fafsturmudprelay.Prelude.Map.{lookup, insert, delete}
use fafsturmudprelay.Relay.Session.Player.{AddrPort}
use fafsturmudprelay.Adapter.Peer.{Peer, deliver_from_relay}
use fafsturmudprelay.Adapter.IcePeer.{IcePeer, close_socket, new_ice_peer, close_ice_peer}

pub record PeerManager : Type 0 where
  pub peers : List (ℕ × Peer)
  pub ice_peers : List (ℕ × IcePeer)
  pub local_id : ℕ
  pub next_order : ℕ
  pub open_sockets : List ℕ

unfoldable pub new_peer_manager : ℕ → PeerManager
new_peer_manager local_id = record {
  peers = [];
  ice_peers = [];
  local_id = local_id;
  next_order = 0;
  open_sockets = [];
}

abbrev pub new_peer : ℕ → Bytes → ℕ → ℕ → ℕ → Peer
new_peer player_id login order local_id socket = record {
  player_id = player_id;
  login = login;
  added_order = order;
  local_id = local_id;
  socket = socket;
  game_addr = none;
  from_ch = [];
  started = false;
  rtt_ms = 0;
}

unfoldable pub add_peer : PeerManager → ℕ → Bytes → Option ℕ → PeerManager × Option Peer
add_peer pm player_id login listen = elim (lookup player_id pm.peers) [
  | some existing ↦ (pm, some existing)
  | none ↦ elim listen [
    | none ↦ (pm, none)
    | some socket ↦
        let order = pm.next_order + 1 in
        let peer = new_peer player_id login order pm.local_id socket in
        (
          record pm {
            peers = insert player_id peer pm.peers;
            next_order = order;
            open_sockets = socket ∷ pm.open_sockets;
          },
          some peer,
        )
  ]
]

unfoldable pub get_peer : PeerManager → ℕ → Option Peer
get_peer pm player_id = lookup player_id pm.peers

unfoldable pub get_ice_peer : PeerManager → ℕ → Option IcePeer
get_ice_peer pm player_id = lookup player_id pm.ice_peers

-- DeliverFromRelay on the peer that GetPeer gave.
unfoldable pub deliver : PeerManager → ℕ → Bytes → PeerManager
deliver pm player_id packet = elim (lookup player_id pm.peers) [
  | none ↦ pm
  | some p ↦ record pm { peers = insert player_id (deliver_from_relay p packet) pm.peers }
]

unfoldable pub add_ice_peer :
    PeerManager → ℕ → Bytes → Bool → Option ℕ → Bool → PeerManager × Option IcePeer
unfolding new_ice_peer
add_ice_peer pm player_id login offerer listen agent_ok = elim (lookup player_id pm.ice_peers) [
  | some existing ↦ (pm, some existing)
  | none ↦
      let (made, open_sockets) =
        new_ice_peer player_id login offerer none listen agent_ok pm.open_sockets in
      elim made [
        | none ↦ (record pm { open_sockets = open_sockets }, none)
        | some p ↦
            let order = pm.next_order + 1 in
            let peer : IcePeer = record p { added_order = order } in
            (
              record pm {
                ice_peers = insert player_id peer pm.ice_peers;
                next_order = order;
                open_sockets = open_sockets;
              },
              some peer,
            )
      ]
]

-- What a new peer takes over from the old one of ReplaceICEPeer.
abbrev pub inherited_order : Option IcePeer → ℕ
inherited_order none = 0
inherited_order (some old) = old.added_order

abbrev pub inherited_addr : Option IcePeer → Option AddrPort
inherited_addr none = none
inherited_addr (some old) = old.game_addr

abbrev pub inherited_conn : Option IcePeer → Option ℕ
inherited_conn none = none
inherited_conn (some old) = some old.conn

abbrev pub close_inherited : Option ℕ → List ℕ → List ℕ
close_inherited none open_sockets = open_sockets
close_inherited (some conn) open_sockets = close_socket conn open_sockets

abbrev pub preloaded : Option Bytes → List Bytes
preloaded none = []
preloaded (some msg) = msg ∷ []

-- The old peer is closed with ownsConn set to false, so its socket stays open.
unfoldable pub replace_old :
    PeerManager
    → Option IcePeer
    → ℕ
    → Bytes
    → Bool
    → Option Bytes
    → Option ℕ
    → Bool
    → PeerManager × Option IcePeer
unfolding new_ice_peer
replace_old pm old player_id login offerer initial_msg listen agent_ok =
    let others : List (ℕ × IcePeer) = delete player_id pm.ice_peers in
    let (made, open_sockets) =
      new_ice_peer player_id login offerer (inherited_conn old) listen agent_ok pm.open_sockets in
    elim made [
      | none ↦ (
        record pm {
          ice_peers = others;
          open_sockets = close_inherited (inherited_conn old) open_sockets;
        },
        none,
      )
      | some p ↦
          let kept : Bool = ltb 0 (inherited_order old) in
          let order : ℕ = if kept then inherited_order old else pm.next_order + 1 in
          let peer : IcePeer = record p {
            added_order = order;
            game_addr = inherited_addr old;
            remote_msgs = preloaded initial_msg;
          } in
          (
            record pm {
              ice_peers = insert player_id peer others;
              next_order = if kept then pm.next_order else order;
              open_sockets = open_sockets;
            },
            some peer,
          )
    ]

unfoldable pub replace_ice_peer :
    PeerManager → ℕ → Bytes → Bool → Option Bytes → Option ℕ → Bool → PeerManager × Option IcePeer
unfolding replace_old
replace_ice_peer pm player_id login offerer initial_msg listen agent_ok =
    replace_old pm (lookup player_id pm.ice_peers) player_id login offerer initial_msg listen
      agent_ok

abbrev pub close_peer_at : Option Peer → List ℕ → List ℕ
close_peer_at none open_sockets = open_sockets
close_peer_at (some p) open_sockets = close_socket p.socket open_sockets

abbrev pub close_ice_peer_at : Option IcePeer → List ℕ → List ℕ
close_ice_peer_at none open_sockets = open_sockets
close_ice_peer_at (some p) open_sockets =
    if p.owns_conn then close_socket p.conn open_sockets else open_sockets

unfoldable pub remove_peer : PeerManager → ℕ → PeerManager
remove_peer pm player_id = record pm {
  peers = delete player_id pm.peers;
  ice_peers = delete player_id pm.ice_peers;
  open_sockets =
      close_ice_peer_at (lookup player_id pm.ice_peers)
        (close_peer_at (lookup player_id pm.peers) pm.open_sockets);
}

unfoldable pub get_all_peers : PeerManager → List Peer
get_all_peers pm = map (λ e. e.1) pm.peers

unfoldable pub get_all_ice_peers : PeerManager → List IcePeer
get_all_ice_peers pm = map (λ e. e.1) pm.ice_peers

unfoldable pub get_all_peer_ids : PeerManager → List ℕ
get_all_peer_ids pm = map (λ e. e.0) pm.peers

unfoldable pub close_peers : List (ℕ × Peer) → List ℕ → List ℕ
close_peers [] open_sockets = open_sockets
close_peers ((id, p) ∷ rest) open_sockets = close_peers rest (close_socket p.socket open_sockets)

unfoldable pub close_ice_peers : List (ℕ × IcePeer) → List ℕ → List ℕ
unfolding close_ice_peer
close_ice_peers [] open_sockets = open_sockets
close_ice_peers ((id, p) ∷ rest) open_sockets = close_ice_peers rest (close_ice_peer p open_sockets)

unfoldable pub close_all : PeerManager → PeerManager
unfolding close_peers close_ice_peers
close_all pm = record pm {
  peers = [];
  ice_peers = [];
  open_sockets = close_ice_peers pm.ice_peers (close_peers pm.peers pm.open_sockets);
}
