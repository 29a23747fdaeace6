-- ===== src/Relay/Session.antt =====
-- internal/relay/session.go, first half: the players of one session.
-- A `time.Time` is a number of nanoseconds, and the zero time is `none`. `s.mu` is held by each
-- operation, so an operation is a function on the session. IP addresses are opaque numbers.
pub mod Player
pub mod Packets
pub mod Pinning
pub mod Rate
pub mod Capacity
pub mod Targets
pub mod Stale
use fafsturmudprelay.Prelude.{
  ℕ, ◌+◌, ◌-◌, ◌<◌, ◌≤◌, Option, none, some, Bool, true, false, not, ◌&&◌, ◌||◌, List, [], ◌∷◌,
  Bytes, length, ltb, leb, ◌==◌, is_some, if◌then◌else◌, nat_eq, map,
}
use fafsturmudprelay.Prelude.Int.{ℤ, pos, ltb_ℤ}
use fafsturmudprelay.Prelude.Map.{lookup, insert, delete}
use fafsturmudprelay.Outcome.{Outcome, ok, err, panic}
use Player.{
  AddrPort, Conn, Verdict, unknown, PlayerInfo, new_player, is_valid, player_update_addr,
  player_update_tcp, no_addr, unset,
}

pub record Session : Type 0 where
  pub id : Bytes
  pub max_players : ℤ
  pub created_at : ℕ
  pub players : List (ℕ × PlayerInfo)

pub data SessionError : Type 0 where
  already_in_session session_full : SessionError

unfoldable pub new_session : Bytes → ℤ → ℕ → Session
new_session id max_players now = record {
  id = id;
  max_players = max_players;
  created_at = now;
  players = [];
}

unfoldable pub store : Session → ℕ → PlayerInfo → Session
store s player_id p = record s { players = insert player_id p s.players }

unfoldable pub add_player : Session → ℕ → Bytes → Outcome SessionError Session
unfolding store
add_player s player_id login =
    if is_some (lookup player_id s.players)
    then err already_in_session
    else if not (ltb_ℤ (pos (length s.players)) s.max_players)
    then err session_full
    else ok (store s player_id (new_player player_id login))

abbrev pub cleared : PlayerInfo → PlayerInfo
cleared p = record p {
  addr = no_addr;
  tcp_conn = none;
  tcp_ip = none;
  transport = unset;
  last_seen = none;
}

unfoldable pub reset_player_transport : Session → ℕ → Session
unfolding store
reset_player_transport s player_id = elim (lookup player_id s.players) [
  | none ↦ s
  | some p ↦ store s player_id (cleared p)
]

unfoldable pub remove_player : Session → ℕ → Session × Bool
remove_player s player_id =
    (record s { players = delete player_id s.players }, is_some (lookup player_id s.players))

unfoldable pub get_player : Session → ℕ → Option PlayerInfo
get_player s player_id = lookup player_id s.players

unfoldable pub get_player_addr : Session → ℕ → Option AddrPort
get_player_addr s player_id = elim (lookup player_id s.players) [
  | none ↦ none
  | some p ↦ some p.addr
]

unfoldable pub update_player_addr : Session → ℕ → AddrPort → ℕ → Session × Verdict
unfolding store
update_player_addr s player_id addr now = elim (lookup player_id s.players) [
  | none ↦ (s, unknown)
  | some p ↦ let (q, verdict) = player_update_addr p addr now in (store s player_id q, verdict)
]

unfoldable pub update_player_tcp : Session → ℕ → Conn → ℕ → Session × Verdict × Option Conn
unfolding store
update_player_tcp s player_id conn now = elim (lookup player_id s.players) [
  | none ↦ (s, unknown, none)
  | some p ↦
      let (q, verdict, old_conn) = player_update_tcp p conn now in
      (store s player_id q, verdict, old_conn)
]

pub record PlayerSendTarget : Type 0 where
  pub player_id : ℕ
  pub udp_addr : AddrPort
  pub tcp_conn : Option Conn

abbrev pub target_of : ℕ → PlayerInfo → PlayerSendTarget
target_of id p = record { player_id = id; udp_addr = p.addr; tcp_conn = p.tcp_conn }

abbrev pub has_transport : PlayerInfo → Bool
has_transport p = is_some p.tcp_conn || is_valid p.addr

unfoldable pub others_from : ℕ → List (ℕ × PlayerInfo) → List PlayerInfo
others_from exclude_id [] = []
others_from exclude_id ((id, p) ∷ rest) =
    let others = others_from exclude_id rest in
    if not (id == exclude_id) then p ∷ others else others

unfoldable pub get_other_players : Session → ℕ → List PlayerInfo
unfolding others_from
get_other_players s exclude_id = others_from exclude_id s.players

unfoldable pub targets_from : ℕ → List (ℕ × PlayerInfo) → List PlayerSendTarget
targets_from exclude_id [] = []
targets_from exclude_id ((id, p) ∷ rest) =
    let others = targets_from exclude_id rest in
    if not (id == exclude_id) && has_transport p then target_of id p ∷ others else others

-- The targets for which ForEachOtherPlayerTarget calls its function.
unfoldable pub other_player_targets : Session → ℕ → List PlayerSendTarget
unfolding targets_from
other_player_targets s exclude_id = targets_from exclude_id s.players

unfoldable pub addrs_from : ℕ → List (ℕ × PlayerInfo) → List (ℕ × AddrPort)
addrs_from exclude_id [] = []
addrs_from exclude_id ((id, p) ∷ rest) =
    let others = addrs_from exclude_id rest in
    if not (id == exclude_id) && is_valid p.addr then (id, p.addr) ∷ others else others

-- The addresses for which ForEachOtherPlayerAddr calls its function.
unfoldable pub other_player_addrs : Session → ℕ → List (ℕ × AddrPort)
unfolding addrs_from
other_player_addrs s exclude_id = addrs_from exclude_id s.players

unfoldable pub get_player_target : Session → ℕ → Option PlayerSendTarget
get_player_target s player_id = elim (lookup player_id s.players) [
  | none ↦ none
  | some p ↦ some (target_of player_id p)
]

unfoldable pub player_count : Session → ℕ
player_count s = length s.players

unfoldable pub player_ids : Session → List ℕ
player_ids s = map (λ e. e.0) s.players

-- `last` is when the player was last seen; one who never was counts from the session's creation.
-- Durations are not negative, so the truncated difference passes `timeout` when Go's does.
abbrev pub is_stale : Session → PlayerInfo → ℕ → ℕ → Bool
is_stale s p timeout now = elim p.last_seen [
  | none ↦ ltb timeout (now - s.created_at)
  | some seen ↦ ltb timeout (now - seen)
]

stale_from : Session → ℕ → ℕ → List (ℕ × PlayerInfo) → List ℕ
stale_from s timeout now [] = []
stale_from s timeout now ((id, p) ∷ rest) =
    let others = stale_from s timeout now rest in
    if is_stale s p timeout now then id ∷ others else others

unfoldable pub stale_players : Session → ℕ → ℕ → List ℕ
unfolding stale_from
stale_players s timeout now = stale_from s timeout now s.players

-- The session, whether the player was removed, and the connection to close.
unfoldable pub remove_player_if_stale : Session → ℕ → ℕ → ℕ → Session × Bool × Option Conn
remove_player_if_stale s player_id timeout now = elim (lookup player_id s.players) [
  | none ↦ (s, false, none)
  | some p ↦
      if is_stale s p timeout now
      then (record s { players = delete player_id s.players }, true, p.tcp_conn)
      else (s, false, none)
]
