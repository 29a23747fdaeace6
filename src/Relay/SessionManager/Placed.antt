-- ===== src/Relay/SessionManager/Placed.antt =====
-- Where AddPlayerToSession of internal/relay/session.go puts a player.
use fafsturmudprelay.Prelude.{
  ℕ, ◌≡◌, ◌∙◌, ap, inl, inr, true, Bool-cases, Option-cases, Bytes, arith, some, bytes_beq,
  bytes_eq, bytes_beq_iff, nat_eq, is_some,
}
use fafsturmudprelay.Prelude.Map.{lookup, lookup-insert}
use fafsturmudprelay.Outcome.{Outcome, ok, err}
use fafsturmudprelay.Relay.Session.{Session, reset_player_transport}
use fafsturmudprelay.Relay.SessionManager.{
  Manager, ManagerError, session_not_found, modify, migrate_out, admit, add_player_to_session,
}

-- Where a player is when the index sends it to a session that is there.
abbrev pub PlacedIn : Bytes → ℕ → Manager → Type 0
PlacedIn sid pid m =
    (lookup pid m.player_index ≡ some sid) × (is_some (lookup sid m.sessions) ≡ true)

-- The sessions of a manager stay, whoever moves between them.
modify_sessions :
    (m : Manager) (ref : ℕ) (f : Session → Session) → (modify m ref f).sessions ≡ m.sessions
unfolding modify
modify_sessions m ref f = ground arith

modify_index :
    (m : Manager) (ref : ℕ) (f : Session → Session) → (modify m ref f).player_index ≡ m.player_index
unfolding modify
modify_index m ref f = ground arith

migrate_sessions :
    (m : Manager) (old : Bytes) (pid : ℕ) → (migrate_out m old pid).sessions ≡ m.sessions
unfolding migrate_out
migrate_sessions m old pid = ground arith

admit-PlacedIn :
    (m : Manager) (sid : Bytes) (ref pid : ℕ) (login : Bytes)
    → is_some (lookup sid m.sessions) ≡ true
    → (admit m sid ref pid login).1 ≡ ok tt
    → PlacedIn sid pid (admit m sid ref pid login).0
unfolding admit
admit-PlacedIn m sid ref pid login here done =
    ground (arith, here, done, lookup-insert pid pid sid m.player_index)

never_ok : (e : ManagerError) → ◌≡◌ {A = Outcome ManagerError (Unit {0})} (err e) (ok tt) → ⊥
never_ok e h = cc

-- AddPlayerToSession succeeds only by placing the player.
pub add-PlacedIn :
    (m : Manager) (sid : Bytes) (pid : ℕ) (login : Bytes)
    → (add_player_to_session m sid pid login).1 ≡ ok tt
    → PlacedIn sid pid (add_player_to_session m sid pid login).0
unfolding add_player_to_session
add-PlacedIn m sid pid login = elim (Option-cases (lookup sid m.sessions)) [
  | inl e ↦ rw (e, add_player_to_session) (λ d. absurd (never_ok session_not_found d))
  | inr (ref, here) ↦ elim (Option-cases (lookup pid m.player_index)) [
    | inl free ↦
        rw (here, add_player_to_session, free)
          (admit-PlacedIn m sid ref pid login (ap is_some here))
    | inr (old, e) ↦ elim (Bool-cases (bytes_beq old sid)) [
      | inl same ↦
          let there : PlacedIn sid pid (modify m ref (λ s. reset_player_transport s pid)) = (
            ap (lookup pid) (modify_index m ref (λ s. reset_player_transport s pid))
                ∙ (e ∙ ap some ((bytes_beq_iff old sid).0 same)),
            ap (λ t. is_some (lookup sid t))
                  (modify_sessions m ref (λ s. reset_player_transport s pid))
                ∙ ap is_some here,
          ) in
          rw (here, add_player_to_session, e, same) (λ d. there)
      | inr other ↦
          rw (here, add_player_to_session, e, other)
            (admit-PlacedIn (migrate_out m old pid) sid ref pid login
              (ap (λ t. is_some (lookup sid t)) (migrate_sessions m old pid) ∙ ap is_some here))
    ]
  ]
]
