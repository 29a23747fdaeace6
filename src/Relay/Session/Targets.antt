-- ===== src/Relay/Session/Targets.antt =====
-- Iteration over the other players of a session (ForEachOtherPlayerTarget of
-- internal/relay/session.go) against the routing destination of a single player.
use fafsturmudprelay.Prelude.{
  ℕ, ◌≡◌, refl, Option, none, some, Bool, true, false, List, [], ◌∷◌, arith, ◌==◌, ==_iff, nat_eq,
  if◌then◌else◌,
}
use fafsturmudprelay.Prelude.Map.{lookup, Unique}
use fafsturmudprelay.Relay.Session.Player.{PlayerInfo}
use fafsturmudprelay.Relay.Session.{
  Session, PlayerSendTarget, targets_from, other_player_targets, get_player_target,
}

-- The targets of the list that are for player `id`.
abbrev pub targets_for : ℕ → List PlayerSendTarget → List PlayerSendTarget
targets_for id [] = []
targets_for id (t ∷ ts) =
    let rest = targets_for id ts in if t.player_id == id then t ∷ rest else rest

-- The target of a player, told from the player alone.
abbrev pub way_to : ℕ → PlayerInfo → PlayerSendTarget
way_to id p = record { player_id = id; udp_addr = p.addr; tcp_conn = p.tcp_conn }

-- A connection reaches the player, and so does an address that is not the zero value.
abbrev pub reachable : PlayerInfo → Bool
reachable p = elim p.tcp_conn [
  | some conn ↦ true
  | none ↦ elim p.addr.ip [ some ip ↦ true | none ↦ false ]
]

-- What a broadcast by `exclude` owes to player `id`.
abbrev pub owed : ℕ → ℕ → Option PlayerInfo → List PlayerSendTarget
owed exclude id none = []
owed exclude id (some p) =
    if id == exclude then [] else if reachable p then way_to id p ∷ [] else []

-- What a unicast to player `id` uses.
abbrev pub unicast_way : ℕ → Option PlayerInfo → Option PlayerSendTarget
unicast_way id none = none
unicast_way id (some p) = some (way_to id p)

owed_from :
    (exclude id : ℕ) (players : List (ℕ × PlayerInfo))
    → Unique players
    → targets_for id (targets_from exclude players) ≡ owed exclude id (lookup id players)
unfolding targets_from lookup
owed_from exclude id [] u = refl
owed_from exclude id ((k, p) ∷ rest) u = ground (arith, owed_from exclude id rest u.1, ==_iff k id)

unicast_lem :
    (s : Session) (id : ℕ) (found : Option PlayerInfo)
    → lookup id s.players ≡ found
    → get_player_target s id ≡ unicast_way id found
unfolding get_player_target
unicast_lem s id none e = rw (e, get_player_target) refl
unicast_lem s id (some p) e = rw (e, get_player_target) refl

-- In a session that lists no player twice, each player but the excluded one who has a TCP connection or a
-- valid UDP address gets exactly one target of a broadcast, with the player's address and connection; the
-- excluded player, players with neither and strangers get none. A unicast to any player of the session
-- uses that same target, and to a stranger none.
pub targets_for-others :
    (s : Session) (exclude id : ℕ)
    → Unique s.players
    → (targets_for id (other_player_targets s exclude) ≡ owed exclude id (lookup id s.players))
      × (get_player_target s id ≡ unicast_way id (lookup id s.players))
unfolding other_player_targets
targets_for-others s exclude id u =
    (owed_from exclude id s.players u, unicast_lem s id (lookup id s.players) refl)
