-- ===== src/Relay/SessionManager.antt =====
-- internal/relay/session.go, second half: the session manager.
-- A *Session is an index into `heap`, where sessions are allocated and never freed, so that a
-- pointer that was read before a session was deleted still has its session, as in the Go program.
-- A map never holds a pointer that was not allocated; a read through one is a panic, a write
-- nothing. `sm.mu` is held by each operation; the reaper's two phases hold it one at a time.
pub mod Reaper
pub mod Consistency
pub mod Writes
pub mod Create
pub mod Join
pub mod Leave
pub mod Reach
pub mod Hazards
pub mod Placed
use fafsturmudprelay.Prelude.{
  ℕ, ◌+◌, ◌*◌, ◌^◌, Option, none, some, Bool, true, false, List, [], ◌∷◌, ◌++◌, Bytes, length,
  get_elem?, set, leb, ltb, is_some, if◌then◌else◌, nat_eq, bytes_eq, bytes_beq, ◌==◌,
}
use fafsturmudprelay.Prelude.Int.{ℤ, pos, negsuc, ◌-ℤ◌}
use fafsturmudprelay.Prelude.Map.{lookup, insert, delete}
use fafsturmudprelay.Outcome.{Outcome, ok, err, panic}
use fafsturmudprelay.Relay.Metrics.{Metrics, no_metrics, add_sessions, add_players}
use fafsturmudprelay.Relay.Session.{
  Session, SessionError, new_session, add_player, reset_player_transport, remove_player, player_ids,
}

abbrev pub max_total_sessions : ℕ
max_total_sessions = 15000

abbrev pub max_total_players : ℕ
max_total_players = 50000

pub record Manager : Type 0 where
  pub sessions : List (Bytes × ℕ)
  pub player_index : List (ℕ × Bytes)
  pub metrics : Metrics
  pub heap : List Session

pub data ManagerError : Type 0 where
  session_exists session_capacity session_not_found player_capacity not_in_session : ManagerError
  session_error : SessionError → ManagerError

abbrev pub new_manager : Manager
new_manager = record { sessions = []; player_index = []; metrics = no_metrics; heap = [] }

-- What a pointer points to is replaced.
unfoldable pub modify : Manager → ℕ → (Session → Session) → Manager
modify m ref f = elim (get_elem? m.heap ref) [
  | none ↦ m
  | some s ↦ record m { heap = set m.heap ref (f s) }
]

unfoldable pub create_session : Manager → Bytes → ℤ → ℕ → Manager × Outcome ManagerError ℕ
create_session m id max_players now =
    if is_some (lookup id m.sessions)
    then (m, err session_exists)
    else if leb max_total_sessions (length m.sessions)
    then (m, err session_capacity)
    else (
      record m {
        heap = m.heap ++ (new_session id max_players now ∷ []);
        sessions = insert id (length m.heap) m.sessions;
        metrics = add_sessions m.metrics (pos 1);
      },
      ok (length m.heap),
    )

unfoldable pub get_session : Manager → Bytes → Option ℕ
get_session m id = lookup id m.sessions

unfoldable pub delete_all : List ℕ → List (ℕ × Bytes) → List (ℕ × Bytes)
delete_all [] index = index
delete_all (id ∷ ids) index = delete_all ids (delete id index)

unfoldable pub delete_session : Manager → Bytes → Manager × Outcome ManagerError (Unit {0})
delete_session m id = elim (lookup id m.sessions) [
  | none ↦ (m, err session_not_found)
  | some ref ↦ elim (get_elem? m.heap ref) [
    | none ↦ (m, panic)
    | some s ↦ (
      record m {
        player_index = delete_all (player_ids s) m.player_index;
        metrics =
            add_sessions (add_players m.metrics (pos 0 -ℤ pos (length (player_ids s)))) (negsuc 0);
        sessions = delete id m.sessions;
      },
      ok tt,
    )
  ]
]

-- The player leaves the session that the index names, and the index.
unfoldable pub migrate_out : Manager → Bytes → ℕ → Manager
unfolding modify
migrate_out m old_id player_id =
    let left : Manager = elim (lookup old_id m.sessions) [
      | none ↦ m
      | some ref ↦ modify m ref (λ s. (remove_player s player_id).0)
    ] in
    record left {
      player_index = delete player_id left.player_index;
      metrics = add_players left.metrics (negsuc 0);
    }

-- From the capacity check of AddPlayerToSession on.
unfoldable pub admit : Manager → Bytes → ℕ → ℕ → Bytes → Manager × Outcome ManagerError (Unit {0})
admit m session_id ref player_id login =
    if leb max_total_players (length m.player_index)
    then (m, err player_capacity)
    else (elim (get_elem? m.heap ref) [
      | none ↦ (m, panic)
      | some s ↦ elim (add_player s player_id login) [
        | ok t ↦ (
          record m {
            heap = set m.heap ref t;
            player_index = insert player_id session_id m.player_index;
            metrics = add_players m.metrics (pos 1);
          },
          ok tt,
        )
        | err e ↦ (m, err (session_error e))
        | panic ↦ (m, panic)
      ]
    ])

unfoldable pub add_player_to_session :
    Manager → Bytes → ℕ → Bytes → Manager × Outcome ManagerError (Unit {0})
unfolding modify
add_player_to_session m session_id player_id login = elim (lookup session_id m.sessions) [
  | none ↦ (m, err session_not_found)
  | some ref ↦ elim (lookup player_id m.player_index) [
    | none ↦ admit m session_id ref player_id login
    | some old_id ↦
        if bytes_beq old_id session_id
        then (modify m ref (λ s. reset_player_transport s player_id), ok tt)
        else admit (migrate_out m old_id player_id) session_id ref player_id login
  ]
]

unfoldable pub remove_player_from_session :
    Manager → Bytes → ℕ → Manager × Outcome ManagerError (Unit {0})
remove_player_from_session m session_id player_id = elim (lookup session_id m.sessions) [
  | none ↦ (m, err session_not_found)
  | some ref ↦ elim (get_elem? m.heap ref) [
    | none ↦ (m, panic)
    | some s ↦
        let (t, existed) = remove_player s player_id in
        if existed
        then (
          record m {
            heap = set m.heap ref t;
            player_index = delete player_id m.player_index;
            metrics = add_players m.metrics (negsuc 0);
          },
          ok tt,
        )
        else (record m { heap = set m.heap ref t }, err not_in_session)
  ]
]

unfoldable pub find_session_by_player : Manager → ℕ → Option ℕ
find_session_by_player m player_id = elim (lookup player_id m.player_index) [
  | none ↦ none
  | some session_id ↦ lookup session_id m.sessions
]
