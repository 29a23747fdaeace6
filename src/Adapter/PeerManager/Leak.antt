-- ===== src/Adapter/PeerManager/Leak.antt =====
-- What ReplaceICEPeer of internal/adapter/peermgr.go keeps of the old peer, and what becomes of its socket.
use fafsturmudprelay.Prelude.{
  ℕ, ◌+◌, ◌<◌, ◌≡◌, ap, Option, none, some, Bool, true, false, Bytes, arith, nat_eq, ==_refl, ltb,
  if◌then◌else◌,
}
use fafsturmudprelay.Prelude.Map.{lookup, insert, delete, lookup-insert, lookup-delete}
use fafsturmudprelay.Adapter.PeerManager.{
  PeerManager, get_ice_peer, replace_ice_peer, remove_peer, preloaded, replace_old,
}
use fafsturmudprelay.Adapter.IcePeer.{IcePeer, new_ice_peer}

-- The peer that takes over from `old`.
abbrev pub successor : ℕ → Bytes → Bool → Option Bytes → IcePeer → ℕ → IcePeer
successor player_id login offerer msg old order = record {
  player_id = player_id;
  login = login;
  offerer = offerer;
  conn = old.conn;
  owns_conn = false;
  game_addr = old.game_addr;
  added_order = order;
  remote_msgs = preloaded msg;
}

abbrev pub order_after : PeerManager → IcePeer → ℕ
order_after pm old = if ltb 0 old.added_order then old.added_order else pm.next_order + 1

pub replace_ice_peer_lem :
    (pm : PeerManager) (player_id : ℕ) (login : Bytes) (offerer : Bool) (msg : Option Bytes)
    (listen : Option ℕ) (old : IcePeer)
    → lookup player_id pm.ice_peers ≡ some old
    → (replace_ice_peer pm player_id login offerer msg listen true).0 ≡ record pm {
      ice_peers =
          insert player_id
            (successor player_id login offerer msg old (order_after pm old))
            (delete player_id pm.ice_peers);
      next_order = if ltb 0 old.added_order then pm.next_order else order_after pm old;
    }
unfolding replace_ice_peer replace_old new_ice_peer
replace_ice_peer_lem pm player_id login offerer msg listen old there =
    ap (λ (o : Option IcePeer). (replace_old pm o player_id login offerer msg listen true).0) there

-- A replacement keeps what the game sees of the peer: its socket, so its port, the game's address and
-- the place in the order. It starts from the message that is given, and the open sockets stay the same.
pub replacement_keeps :
    (pm : PeerManager) (player_id : ℕ) (login : Bytes) (offerer : Bool) (msg : Option Bytes)
    (listen : Option ℕ) (old : IcePeer)
    → get_ice_peer pm player_id ≡ some old
    → 0 < old.added_order
    → let pm' = (replace_ice_peer pm player_id login offerer msg listen true).0 in
      (get_ice_peer pm' player_id
        ≡ some (successor player_id login offerer msg old old.added_order))
      × (pm'.next_order ≡ pm.next_order)
      × (pm'.open_sockets ≡ pm.open_sockets)
unfolding get_ice_peer
replacement_keeps pm player_id login offerer msg listen old there placed =
    let p = successor player_id login offerer msg old (order_after pm old) in
    rw (replace_ice_peer_lem pm player_id login offerer msg listen old there) (
      ground (
        arith,
        placed,
        ==_refl player_id,
        lookup-insert player_id player_id p (delete player_id pm.ice_peers),
      ))

-- Removing a player does not close a socket that a replacement took over: when the ICE peer of a
-- player with no relay peer is replaced, with an agent that could be created, and then removed, it is gone from both
-- tables, and the open sockets are those from before the replacement, the peer's own among them if
-- it was open.
pub replaced_socket_leaks :
    (pm : PeerManager) (player_id : ℕ) (login : Bytes) (offerer : Bool) (msg : Option Bytes)
    (listen : Option ℕ) (old : IcePeer)
    → get_ice_peer pm player_id ≡ some old
    → lookup player_id pm.peers ≡ none
    → let pm' =
        remove_peer (replace_ice_peer pm player_id login offerer msg listen true).0 player_id in
      (get_ice_peer pm' player_id ≡ none)
      × (lookup player_id pm'.peers ≡ none)
      × (pm'.open_sockets ≡ pm.open_sockets)
unfolding get_ice_peer remove_peer
replaced_socket_leaks pm player_id login offerer msg listen old there no_relay =
    let p = successor player_id login offerer msg old (order_after pm old) in
    rw (replace_ice_peer_lem pm player_id login offerer msg listen old there) (
      ground (
        arith,
        no_relay,
        ==_refl player_id,
        lookup-insert player_id player_id p (delete player_id pm.ice_peers),
        lookup-delete player_id player_id pm.peers,
        lookup-delete player_id player_id (insert player_id p (delete player_id pm.ice_peers)),
      ))
