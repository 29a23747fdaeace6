-- ===== src/Examples/Managers.antt =====
-- Concrete histories of the session manager (internal/relay/session.go).
use fafsturmudprelay.Prelude.{
  ℕ, ◌*◌, ◌^◌, ◌≡◌, refl, none, true, false, [], ◌∷◌, Bytes, arith, nat_eq, bytes_eq,
}
use fafsturmudprelay.Prelude.Int.{pos}
use fafsturmudprelay.Prelude.Map.{lookup, insert, delete}
use fafsturmudprelay.Outcome.{err}
use fafsturmudprelay.Relay.Session.{
  Session, new_session, add_player, session_full, player_count, player_ids, new_session,
}
use fafsturmudprelay.Relay.Session.Player.{new_player}
use fafsturmudprelay.Relay.SessionManager.{
  Manager, new_manager, create_session, delete_session, add_player_to_session, session_error, admit,
  delete_all,
}
use fafsturmudprelay.Relay.SessionManager.Consistency.{Consistent, has_player, indexed}
use fafsturmudprelay.Relay.SessionManager.Reach.{
  Reach, start, next, creates, deletes, joins, Reach-Consistent,
}
use fafsturmudprelay.Relay.SessionManager.Reaper.{Candidate, apply_removals}
use fafsturmudprelay.Relay.SessionManager.Hazards.{refused_join_evicts, replaced_session_lost}

abbrev game : Bytes
game = 103 ∷ []

abbrev duel : Bytes
duel = 100 ∷ []

abbrev ann : Bytes
ann = 97 ∷ []

-- Player 7 is in `game`; `duel` has room for one, player 8.
abbrev m₁ : Manager
m₁ = (create_session new_manager game (pos 4) 0).0

abbrev m₂ : Manager
m₂ = (create_session m₁ duel (pos 1) 0).0

abbrev m₃ : Manager
m₃ = (add_player_to_session m₂ game 7 ann).0

abbrev pub m₄ : Manager
m₄ = (add_player_to_session m₃ duel 8 ann).0

pub history : Reach m₄
history =
    next
      (next (next (next start (creates game (pos 4) 0)) (creates duel (pos 1) 0))
        (joins game 7 ann))
      (joins duel 8 ann)

Reach-Consistent_example : Consistent m₄
Reach-Consistent_example = Reach-Consistent m₄ history

refused_join_evicts_example :
    ((add_player_to_session m₄ duel 7 ann).1 ≡ err (session_error session_full))
    × (lookup 7 (add_player_to_session m₄ duel 7 ann).0.player_index ≡ none)
    × ((other : Bytes)
        → has_player
            (add_player_to_session m₄ duel 7 ann).0.sessions
            (add_player_to_session m₄ duel 7 ann).0.heap
            other
            7
          ≡ false)
unfolding create_session add_player_to_session new_session add_player admit lookup insert
refused_join_evicts_example =
    refused_join_evicts m₄ game duel 1 7 full ann (Reach-Consistent m₄ history) refl
      (λ e. ground arith) refl refl (omega arith)
  where
    full : Session
    full = record {
      id = duel;
      max_players = pos 1;
      created_at = 0;
      players = (8, new_player 8 ann) ∷ [];
    }

abbrev minute : ℕ
minute = 60 * 10 ^ 9

-- `game` is created, found empty by a reaper, deleted, created again, and joined by player 7.
abbrev n₂ : Manager
n₂ = (delete_session m₁ game).0

abbrev n₃ : Manager
n₃ = (create_session n₂ game (pos 4) (5 * minute)).0

abbrev n₄ : Manager
n₄ = (add_player_to_session n₃ game 7 ann).0

replaced : Reach n₄
replaced =
    next
      (next (next (next start (creates game (pos 4) 0)) (deletes game))
        (creates game (pos 4) (5 * minute)))
      (joins game 7 ann)

abbrev found_empty : Candidate
found_empty = record { session_id = game; session = 0; stale_pids = [] }

replaced_session_lost_example :
    (lookup game
        (apply_removals n₄ (5 * minute) (λ _ _. 5 * minute) (found_empty ∷ [])).manager.sessions
      ≡ none)
    × (indexed
          (apply_removals n₄
            (5 * minute)
            (λ _ _. 5 * minute)
            (found_empty ∷ [])).manager.player_index
          7
          game
        ≡ true)
    × (¬ Consistent (apply_removals n₄ (5 * minute) (λ _ _. 5 * minute) (found_empty ∷ [])).manager)
unfolding create_session delete_session add_player_to_session new_session add_player admit lookup
    insert delete player_count player_ids delete_all
replaced_session_lost_example =
    replaced_session_lost n₄ (5 * minute) (λ _ _. 5 * minute) found_empty
      (new_session game (pos 4) 0) live 1 7 (Reach-Consistent n₄ replaced) refl refl refl refl refl
      refl
  where
    live : Session
    live = record {
      id = game;
      max_players = pos 4;
      created_at = 5 * minute;
      players = (7, new_player 7 ann) ∷ [];
    }
