-- ===== src/Adapter/IcePeer.antt =====
-- internal/adapter/icepeer.go: NewICEPeer and Close, and the local sockets that the program holds.
use fafsturmudprelay.Prelude.{
  ℕ, Option, none, some, Bool, true, false, List, [], ◌∷◌, Bytes, if◌then◌else◌, ◌==◌,
}
use fafsturmudprelay.Relay.Session.Player.{AddrPort}

-- ICEPeer, without the agent of pion/ice and the goroutines around it. `conn` is its local socket.
pub record IcePeer : Type 0 where
  pub player_id : ℕ
  pub login : Bytes
  pub offerer : Bool
  pub conn : ℕ
  pub owns_conn : Bool
  pub game_addr : Option AddrPort
  pub added_order : ℕ
  pub remote_msgs : List Bytes

unfoldable pub close_socket : ℕ → List ℕ → List ℕ
close_socket k [] = []
close_socket k (s ∷ open_sockets) =
    let rest = close_socket k open_sockets in if s == k then rest else s ∷ rest

-- NewICEPeer: a socket that is given is used, and is not the peer's to close. A fresh one is closed
-- again if the agent fails.
unfoldable pub new_ice_peer :
    ℕ → Bytes → Bool → Option ℕ → Option ℕ → Bool → List ℕ → Option IcePeer × List ℕ
new_ice_peer player_id login offerer existing_conn listen agent_ok open_sockets =
    let peer : ℕ → Bool → IcePeer = λ conn owns_conn. record {
      player_id = player_id;
      login = login;
      offerer = offerer;
      conn = conn;
      owns_conn = owns_conn;
      game_addr = none;
      added_order = 0;
      remote_msgs = [];
    } in
    elim existing_conn [
      | some conn ↦ (if agent_ok then some (peer conn false) else none, open_sockets)
      | none ↦ elim listen [
        | none ↦ (none, open_sockets)
        | some conn ↦
            if agent_ok then (some (peer conn true), conn ∷ open_sockets) else (none, open_sockets)
      ]
    ]

-- Close of an ICE peer.
unfoldable pub close_ice_peer : IcePeer → List ℕ → List ℕ
close_ice_peer p open_sockets =
    if p.owns_conn then close_socket p.conn open_sockets else open_sockets
