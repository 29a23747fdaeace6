-- ===== src/Relay/SessionManager/Reaper.antt =====
-- ReapStaleSessions of internal/relay/session.go. Phase 1 collects under the read lock, phase 2
-- applies under the write lock, and anything may happen to the manager between them. Each phase
-- reads the clock once for itself (`now`), and once in each call on a session (`clock`).
pub mod Uninterrupted
use fafsturmudprelay.Prelude.{
  ℕ, not, ◌+◌, ◌-◌, ◌*◌, ◌^◌, Option, none, some, Bool, true, false, ◌&&◌, ◌||◌, List, [], ◌∷◌,
  ◌++◌, Bytes, length, get_elem?, set, ltb, ◌==◌, if◌then◌else◌, nat_eq, bytes_eq,
}
use fafsturmudprelay.Prelude.Int.{negsuc}
use fafsturmudprelay.Prelude.Map.{delete}
use fafsturmudprelay.Relay.Metrics.{add_sessions, add_players}
use fafsturmudprelay.Relay.Session.Player.{Conn}
use fafsturmudprelay.Relay.Session.{Session, stale_players, player_count, remove_player_if_stale}
use fafsturmudprelay.Relay.SessionManager.{Manager}

abbrev pub player_timeout : ℕ
player_timeout = 90 * 10 ^ 9

abbrev pub session_empty_timeout : ℕ
session_empty_timeout = 120 * 10 ^ 9

pub record Candidate : Type 0 where
  pub session_id : Bytes
  pub session : ℕ
  pub stale_pids : List ℕ

abbrev pub is_empty_and_old : Session → ℕ → Bool
is_empty_and_old s now = player_count s == 0 && ltb session_empty_timeout (now - s.created_at)

unfoldable pub candidate_of : List Session → ℕ → (ℕ → ℕ) → Bytes → ℕ → List Candidate
candidate_of heap now clock id ref = elim (get_elem? heap ref) [
  | none ↦ []
  | some s ↦
      let stale = stale_players s player_timeout (clock ref) in
      if not (length stale == 0) || is_empty_and_old s now
      then record { session_id = id; session = ref; stale_pids = stale } ∷ []
      else []
]

unfoldable pub candidates : List Session → ℕ → (ℕ → ℕ) → List (Bytes × ℕ) → List Candidate
candidates heap now clock [] = []
candidates heap now clock ((id, ref) ∷ rest) =
    candidate_of heap now clock id ref ++ candidates heap now clock rest

-- Phase 1.
unfoldable pub collect_stale : Manager → ℕ → (ℕ → ℕ) → List Candidate
unfolding candidates candidate_of
collect_stale m now clock = candidates m.heap now clock m.sessions

-- The manager, the two counts, and the connections that are closed in the background.
pub record Reaped : Type 0 where
  pub manager : Manager
  pub removed_players : ℕ
  pub removed_sessions : ℕ
  pub closed : List Conn

abbrev pub conns_of : Option Conn → List Conn
conns_of none = []
conns_of (some c) = c ∷ []

unfoldable pub reap_player : ℕ → ℕ → ℕ → Reaped → Reaped
reap_player now ref pid r = elim (get_elem? r.manager.heap ref) [
  | none ↦ r
  | some s ↦
      let (t, removed, tcp_conn) = remove_player_if_stale s pid player_timeout now in
      if removed
      then record r {
        manager = record r.manager {
          heap = set r.manager.heap ref t;
          player_index = delete pid r.manager.player_index;
          metrics = add_players r.manager.metrics (negsuc 0);
        };
        removed_players = r.removed_players + 1;
        closed = r.closed ++ conns_of tcp_conn;
      }
      else r
]

unfoldable pub reap_players : (ℕ → ℕ) → ℕ → List ℕ → Reaped → Reaped
unfolding reap_player
reap_players clock ref [] r = r
reap_players clock ref (pid ∷ pids) r =
    reap_players clock ref pids (reap_player (clock pid) ref pid r)

unfoldable pub reap_session : ℕ → Bytes → ℕ → Reaped → Reaped
reap_session now id ref r = elim (get_elem? r.manager.heap ref) [
  | none ↦ r
  | some s ↦
      if is_empty_and_old s now
      then record r {
        manager = record r.manager {
          sessions = delete id r.manager.sessions;
          metrics = add_sessions r.manager.metrics (negsuc 0);
        };
        removed_sessions = r.removed_sessions + 1;
      }
      else r
]

unfoldable pub reap_candidates : ℕ → (ℕ → ℕ → ℕ) → List Candidate → Reaped → Reaped
reap_candidates now clock [] r = r
reap_candidates now clock (c ∷ cs) r = reap_candidates now clock cs (
    reap_session now c.session_id c.session
      (reap_players (clock c.session) c.session c.stale_pids r))

-- Phase 2, on the manager as it is by then.
unfoldable pub apply_removals : Manager → ℕ → (ℕ → ℕ → ℕ) → List Candidate → Reaped
unfolding reap_candidates reap_players reap_session
apply_removals m now clock cs =
    reap_candidates now clock cs
      (record { manager = m; removed_players = 0; removed_sessions = 0; closed = [] })
