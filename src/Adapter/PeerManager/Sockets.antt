-- ===== src/Adapter/PeerManager/Sockets.antt =====
-- The peer tables of internal/adapter/peermgr.go over any sequence of its operations.
use fafsturmudprelay.Prelude.{
  ℕ, ◌+◌, ◌≡◌, refl, Option, none, some, Bool, true, false, List, ◌∷◌, Bytes, elem, if◌then◌else◌,
  arith, Option-cases, inl, inr, nat_eq,
}
use fafsturmudprelay.Prelude.Map.{lookup, insert, lookup-insert}
use fafsturmudprelay.Adapter.Peer.{Peer}
use fafsturmudprelay.Adapter.PeerManager.{PeerManager, new_peer, add_peer, add_ice_peer}
use fafsturmudprelay.Adapter.IcePeer.{IcePeer, new_ice_peer}
use fafsturmudprelay.Adapter.PeerManager.Held.{Slot, relay, ice, slot_eq, HeldBy, HeldBy-grow}

abbrev pub relay_socket : Option Peer → Option ℕ
relay_socket none = none
relay_socket (some p) = some p.socket

abbrev pub ice_socket : Option IcePeer → Option ℕ
ice_socket none = none
ice_socket (some p) = some p.conn

unfoldable pub socket_at : PeerManager → Slot → Option ℕ
socket_at pm (relay id) = relay_socket (lookup id pm.peers)
socket_at pm (ice id) = ice_socket (lookup id pm.ice_peers)

-- Every peer's socket is open, and no two peers share one.
abbrev pub IsHeld : PeerManager → Type 0
IsHeld pm = HeldBy (socket_at pm) pm.open_sockets

-- A socket that the system gives is none that is open.
abbrev pub IsFresh : PeerManager → Option ℕ → Type 0
IsFresh pm none = Unit {0}
IsFresh pm (some k) = elem k pm.open_sockets ≡ false

pub relay_at :
    (pm : PeerManager) (id : ℕ) (p : Peer) (order : ℕ) (open_sockets : List ℕ) (s : Slot)
    → socket_at
        (record pm {
          peers = insert id p pm.peers;
          next_order = order;
          open_sockets = open_sockets;
        })
        s
      ≡ (if slot_eq (relay id) s then some p.socket else socket_at pm s)
unfolding socket_at
relay_at pm id p order open_sockets (relay j) = ground (arith, lookup-insert id j p pm.peers)
relay_at pm id p order open_sockets (ice j) = refl

ice_at :
    (pm : PeerManager) (id : ℕ) (p : IcePeer) (order : ℕ) (open_sockets : List ℕ) (s : Slot)
    → socket_at
        (record pm {
          ice_peers = insert id p pm.ice_peers;
          next_order = order;
          open_sockets = open_sockets;
        })
        s
      ≡ (if slot_eq (ice id) s then some p.conn else socket_at pm s)
unfolding socket_at
ice_at pm id p order open_sockets (relay j) = refl
ice_at pm id p order open_sockets (ice j) = ground (arith, lookup-insert id j p pm.ice_peers)

pub add_peer-IsHeld :
    (pm : PeerManager) (player_id : ℕ) (login : Bytes) (listen : Option ℕ)
    → IsFresh pm listen
    → IsHeld pm
    → IsHeld (add_peer pm player_id login listen).0
unfolding add_peer
add_peer-IsHeld pm player_id login none fresh h = elim (Option-cases (lookup player_id pm.peers)) [
  | inl e ↦ rw (e, add_peer) h
  | inr (p, e) ↦ rw (e, add_peer) h
]
add_peer-IsHeld pm player_id login (some k) fresh h =
    let order = pm.next_order + 1 in
    let p = new_peer player_id login order pm.local_id k in
    elim (Option-cases (lookup player_id pm.peers)) [
      | inl e ↦
          rw (e, add_peer)
            (HeldBy-grow (socket_at pm) _ pm.open_sockets (relay player_id) k
              (relay_at pm player_id p order (k ∷ pm.open_sockets)) fresh h)
      | inr (p, e) ↦ rw (e, add_peer) h
    ]

pub add_ice_peer-IsHeld :
    (pm : PeerManager) (player_id : ℕ) (login : Bytes) (offerer : Bool) (listen : Option ℕ)
    (agent_ok : Bool)
    → IsFresh pm listen
    → IsHeld pm
    → IsHeld (add_ice_peer pm player_id login offerer listen agent_ok).0
unfolding add_ice_peer new_ice_peer
add_ice_peer-IsHeld pm player_id login offerer none agent_ok fresh h =
    elim (Option-cases (lookup player_id pm.ice_peers)) [
      | inl e ↦ rw (e, add_ice_peer) h
      | inr (p, e) ↦ rw (e, add_ice_peer) h
    ]
add_ice_peer-IsHeld pm player_id login offerer (some k) false fresh h =
    elim (Option-cases (lookup player_id pm.ice_peers)) [
      | inl e ↦ rw (e, add_ice_peer) h
      | inr (p, e) ↦ rw (e, add_ice_peer) h
    ]
add_ice_peer-IsHeld pm player_id login offerer (some k) true fresh h =
    elim (Option-cases (lookup player_id pm.ice_peers)) [
      | inl e ↦
          rw (e, add_ice_peer)
            (HeldBy-grow (socket_at pm) _ pm.open_sockets (ice player_id) k
              (ice_at pm player_id _ (pm.next_order + 1) (k ∷ pm.open_sockets)) fresh h)
      | inr (p, e) ↦ rw (e, add_ice_peer) h
    ]
