-- ===== src/Adapter/PeerManager/Histories.antt =====
-- Any sequence of the operations of internal/adapter/peermgr.go. DeliverFromRelay is among them.
use fafsturmudprelay.Prelude.{
  ℕ, ◌+◌, ◌≡◌, refl, sym, ap, ◌∙◌, Option, none, some, Bool, true, false, List, [], ◌∷◌, Bytes,
  if◌then◌else◌, arith, Bool-cases, Option-cases, inl, inr, nat_eq, ltb,
}
use fafsturmudprelay.Prelude.Map.{lookup, insert, delete, lookup-insert, lookup-delete}
use fafsturmudprelay.Adapter.Peer.{Peer, deliver_from_relay}
use fafsturmudprelay.Adapter.PeerManager.{
  PeerManager, new_peer_manager, add_peer, add_ice_peer, replace_ice_peer, replace_old, remove_peer,
  deliver, close_peer_at, close_ice_peer_at, close_all,
}
use fafsturmudprelay.Adapter.IcePeer.{IcePeer, new_ice_peer, close_socket}
use fafsturmudprelay.Adapter.PeerManager.Leak.{successor, order_after}
use fafsturmudprelay.Adapter.PeerManager.Held.{
  Slot, relay, ice, slot_eq, slot-same, HeldBy, HeldBy-same, HeldBy-grow, HeldBy-drop, HeldBy-close,
}
use fafsturmudprelay.Adapter.PeerManager.Sockets.{
  IsHeld, IsFresh, socket_at, relay_socket, ice_socket, add_peer-IsHeld, add_ice_peer-IsHeld,
  relay_at,
}

same_socket : (p : Peer) (packet : Bytes) → (deliver_from_relay p packet).socket ≡ p.socket
unfolding deliver_from_relay
same_socket p packet = ground arith

deliver-IsHeld :
    (pm : PeerManager) (player_id : ℕ) (packet : Bytes)
    → IsHeld pm
    → IsHeld (deliver pm player_id packet)
unfolding deliver socket_at deliver_from_relay
deliver-IsHeld pm player_id packet h = elim (Option-cases (lookup player_id pm.peers)) [
  | inl e ↦ rw (e, deliver) h
  | inr (p, e) ↦
      rw (e, deliver)
        (HeldBy-same (socket_at pm) _ pm.open_sockets
          (λ s.
            relay_at pm player_id (deliver_from_relay p packet) pm.next_order pm.open_sockets s
            ∙ slot-same (socket_at pm) (relay player_id) s
                (some (deliver_from_relay p packet).socket)
                (ap relay_socket e ∙ ap some (sym (same_socket p packet))))
          h)
]

-- The ICE table with one entry replaced, and with one entry less.
replaced_at :
    (pm : PeerManager) (id : ℕ) (p : IcePeer) (order : ℕ) (open_sockets : List ℕ) (s : Slot)
    → socket_at
        (record pm {
          ice_peers = insert id p (delete id pm.ice_peers);
          next_order = order;
          open_sockets = open_sockets;
        })
        s
      ≡ (if slot_eq (ice id) s then some p.conn else socket_at pm s)
unfolding socket_at
replaced_at pm id p order open_sockets (relay j) = refl
replaced_at pm id p order open_sockets (ice j) =
    ground (arith, lookup-insert id j p (delete id pm.ice_peers), lookup-delete id j pm.ice_peers)

dropped_at :
    (pm : PeerManager) (id : ℕ) (open_sockets : List ℕ) (s : Slot)
    → socket_at (record pm { ice_peers = delete id pm.ice_peers; open_sockets = open_sockets }) s
      ≡ (if slot_eq (ice id) s then none else socket_at pm s)
unfolding socket_at
dropped_at pm id open_sockets (relay j) = refl
dropped_at pm id open_sockets (ice j) = ground (arith, lookup-delete id j pm.ice_peers)

module _ (pm : PeerManager) (player_id : ℕ) (login : Bytes) (offerer : Bool)
    (msg : Option Bytes) where
  replace_old-IsHeld :
      (old : Option IcePeer) (listen : Option ℕ) (agent_ok : Bool)
      → lookup player_id pm.ice_peers ≡ old
      → IsFresh pm listen
      → IsHeld pm
      → IsHeld (replace_old pm old player_id login offerer msg listen agent_ok).0
  unfolding replace_old new_ice_peer socket_at
  replace_old-IsHeld none none agent_ok e fresh h =
      HeldBy-drop (socket_at pm) _ pm.open_sockets (ice player_id)
        (dropped_at pm player_id pm.open_sockets) h
  replace_old-IsHeld none (some k) false e fresh h =
      HeldBy-drop (socket_at pm) _ pm.open_sockets (ice player_id)
        (dropped_at pm player_id pm.open_sockets) h
  replace_old-IsHeld none (some k) true e fresh h =
      HeldBy-grow (socket_at pm) _ pm.open_sockets (ice player_id) k
        (replaced_at pm player_id _ (pm.next_order + 1) (k ∷ pm.open_sockets)) fresh h
  replace_old-IsHeld (some old) listen false e fresh h =
      HeldBy-close (socket_at pm) _ pm.open_sockets (ice player_id) (some old.conn)
        (ap ice_socket e) (dropped_at pm player_id (close_socket old.conn pm.open_sockets)) h
  replace_old-IsHeld (some old) listen true e fresh h =
      let order = order_after pm old in
      let p = successor player_id login offerer msg old order in
      HeldBy-same (socket_at pm) _ pm.open_sockets
        (λ s.
          replaced_at pm player_id p (if ltb 0 old.added_order then pm.next_order else order)
            pm.open_sockets s
          ∙ slot-same (socket_at pm) (ice player_id) s (some old.conn) (ap ice_socket e))
        h

-- What a peer leaves when it is taken out of its table.
relay_removed :
    (id : ℕ) (o : Option Peer) (open_sockets : List ℕ) (f g : Slot → Option ℕ)
    → f (relay id) ≡ relay_socket o
    → ((s : Slot) → g s ≡ (if slot_eq (relay id) s then none else f s))
    → HeldBy f open_sockets
    → HeldBy g (close_peer_at o open_sockets)
relay_removed id none open_sockets f g there e h = HeldBy-drop f g open_sockets (relay id) e h
relay_removed id (some p) open_sockets f g there e h =
    HeldBy-close f g open_sockets (relay id) (some p.socket) there e h

ice_removed :
    (id : ℕ) (o : Option IcePeer) (open_sockets : List ℕ) (f g : Slot → Option ℕ)
    → f (ice id) ≡ ice_socket o
    → ((s : Slot) → g s ≡ (if slot_eq (ice id) s then none else f s))
    → HeldBy f open_sockets
    → HeldBy g (close_ice_peer_at o open_sockets)
ice_removed id none open_sockets f g there e h = HeldBy-drop f g open_sockets (ice id) e h
ice_removed id (some p) open_sockets f g there e h = elim (Bool-cases p.owns_conn) [
  | inl owned ↦ rw (owned) (HeldBy-close f g open_sockets (ice id) (some p.conn) there e h)
  | inr other ↦ rw (other) (HeldBy-drop f g open_sockets (ice id) e h)
]

removed_at :
    (pm : PeerManager) (id : ℕ) (s : Slot)
    → socket_at (remove_peer pm id) s
      ≡ (if slot_eq (ice id) s then none else if slot_eq (relay id) s then none else socket_at pm s)
unfolding remove_peer socket_at
removed_at pm id (relay j) = ground (arith, lookup-delete id j pm.peers)
removed_at pm id (ice j) = ground (arith, lookup-delete id j pm.ice_peers)

remove_peer-IsHeld :
    (pm : PeerManager) (player_id : ℕ) → IsHeld pm → IsHeld (remove_peer pm player_id)
unfolding remove_peer socket_at
remove_peer-IsHeld pm player_id h =
    let mid : Slot → Option ℕ = λ s. if slot_eq (relay player_id) s then none else socket_at pm s in
    let opened = close_peer_at (lookup player_id pm.peers) pm.open_sockets in
    ice_removed player_id (lookup player_id pm.ice_peers) opened mid
      (socket_at (remove_peer pm player_id)) refl (removed_at pm player_id)
      (relay_removed player_id (lookup player_id pm.peers) pm.open_sockets (socket_at pm) mid refl
        (λ s. refl) h)

no_peer : (pm : PeerManager) (s : Slot) → socket_at (close_all pm) s ≡ none
unfolding close_all socket_at lookup
no_peer pm (relay j) = refl
no_peer pm (ice j) = refl

HeldBy-none :
    (f : Slot → Option ℕ) (open_sockets : List ℕ)
    → ((s : Slot) → f s ≡ none)
    → HeldBy f open_sockets
HeldBy-none f open_sockets e =
    (λ s k there. ground (arith, e s, there), λ s t k a b. ground (arith, e s, a))

-- What the adapter does with the peer tables. `listen` is the socket that the system gives, if it does.
pub data Operation : Type 0 where
  add_relay_peer : ℕ → Bytes → Option ℕ → Operation
  add_new_ice_peer : ℕ → Bytes → Bool → Option ℕ → Bool → Operation
  restart_ice_peer : ℕ → Bytes → Bool → Option Bytes → Option ℕ → Bool → Operation
  remove : ℕ → Operation
  receive : ℕ → Bytes → Operation
  shut_down : Operation

abbrev pub apply : PeerManager → Operation → PeerManager
apply pm (add_relay_peer id login listen) = (add_peer pm id login listen).0
apply pm (add_new_ice_peer id login offerer listen agent_ok) =
    (add_ice_peer pm id login offerer listen agent_ok).0
apply pm (restart_ice_peer id login offerer msg listen agent_ok) =
    (replace_ice_peer pm id login offerer msg listen agent_ok).0
apply pm (remove id) = remove_peer pm id
apply pm (receive id packet) = deliver pm id packet
apply pm shut_down = close_all pm

abbrev pub apply_all : PeerManager → List Operation → PeerManager
apply_all pm [] = pm
apply_all pm (op ∷ ops) = apply_all (apply pm op) ops

abbrev pub given_socket : Operation → Option ℕ
given_socket (add_relay_peer id login listen) = listen
given_socket (add_new_ice_peer id login offerer listen agent_ok) = listen
given_socket (restart_ice_peer id login offerer msg listen agent_ok) = listen
given_socket _ = none

-- Every socket that the system gives along the way is none that is open then.
abbrev pub AllFresh : PeerManager → List Operation → Type 0
AllFresh pm [] = Unit {0}
AllFresh pm (op ∷ ops) = IsFresh pm (given_socket op) × AllFresh (apply pm op) ops

apply-IsHeld :
    (pm : PeerManager) (op : Operation)
    → IsFresh pm (given_socket op)
    → IsHeld pm
    → IsHeld (apply pm op)
unfolding replace_ice_peer
apply-IsHeld pm (add_relay_peer id login listen) fresh h =
    add_peer-IsHeld pm id login listen fresh h
apply-IsHeld pm (add_new_ice_peer id login offerer listen agent_ok) fresh h =
    add_ice_peer-IsHeld pm id login offerer listen agent_ok fresh h
apply-IsHeld pm (restart_ice_peer id login offerer msg listen agent_ok) fresh h =
    replace_old-IsHeld pm id login offerer msg (lookup id pm.ice_peers) listen agent_ok refl fresh h
apply-IsHeld pm (remove id) fresh h = remove_peer-IsHeld pm id h
apply-IsHeld pm (receive id packet) fresh h = deliver-IsHeld pm id packet h
apply-IsHeld pm shut_down fresh h =
    HeldBy-none (socket_at (close_all pm)) (close_all pm).open_sockets (no_peer pm)

apply_all-IsHeld :
    (ops : List Operation) (pm : PeerManager)
    → AllFresh pm ops
    → IsHeld pm
    → IsHeld (apply_all pm ops)
apply_all-IsHeld [] pm fresh h = h
apply_all-IsHeld (op ∷ ops) pm fresh h =
    apply_all-IsHeld ops (apply pm op) fresh.1 (apply-IsHeld pm op fresh.0 h)

-- From a new peer manager, after any sequence of additions, ICE restarts, removals, packets and
-- shutdowns, the socket of every peer in the tables is open and no two peers have the same socket, if
-- each socket that the system gives is none of those that are open.
pub peers_hold_their_sockets :
    (local_id : ℕ) (ops : List Operation)
    → AllFresh (new_peer_manager local_id) ops
    → IsHeld (apply_all (new_peer_manager local_id) ops)
unfolding new_peer_manager socket_at lookup close_all
peers_hold_their_sockets local_id ops fresh =
    apply_all-IsHeld ops (new_peer_manager local_id) fresh
      (HeldBy-none (socket_at (new_peer_manager local_id)) [] (no_peer (new_peer_manager local_id)))
