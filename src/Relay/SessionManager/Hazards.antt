-- ===== src/Relay/SessionManager/Hazards.antt =====
-- What goes wrong in the session manager of internal/relay/session.go: a join that fails after the
-- player has left the old session, and a session that is replaced between the reaper's two phases.
use fafsturmudprelay.Prelude.{
  ℕ, ◌≤◌, ◌<◌, ◌≡◌, ◌≢◌, sym, ap, ◌∙◌, none, some, true, false, [], ◌∷◌, Bytes, length, get_elem?,
  is_some, nat_eq, bytes_eq, bytes_beq, bytes_beq_iff, ==_refl, arith, get_elem?-set_ne,
}
use mathlib.Core.Bool.{false≢true}
use fafsturmudprelay.Prelude.Int.{pos_part}
use fafsturmudprelay.Prelude.Map.{lookup, lookup-delete, length-delete}
use fafsturmudprelay.Outcome.{Outcome, err}
use fafsturmudprelay.Relay.Session.{Session, add_player, session_full}
use fafsturmudprelay.Relay.SessionManager.{
  Manager, ManagerError, session_error, admit, add_player_to_session, max_total_players,
}
use fafsturmudprelay.Relay.SessionManager.Consistency.{
  Consistent, has_player, indexed, Pointers-inj,
}
use fafsturmudprelay.Relay.SessionManager.Writes.{expel}
use fafsturmudprelay.Relay.SessionManager.Join.{
  indexed_session, migrate_out_lem, without, add_player-Consistent,
}
use fafsturmudprelay.Relay.SessionManager.Reaper.{Candidate, apply_removals, is_empty_and_old}

admit_full :
    (m : Manager) (sid : Bytes) (ref pid : ℕ) (s : Session) (login : Bytes)
    → length m.player_index < max_total_players
    → get_elem? m.heap ref ≡ some s
    → is_some (lookup pid s.players) ≡ false
    → pos_part s.max_players ≤ length s.players
    → admit m sid ref pid login ≡ (m, err (session_error session_full))
unfolding admit add_player
admit_full m sid ref pid s login room at absent full = ground (arith, room, at, absent, full)

refusal :
    (m : Manager) (old sid : Bytes) (ref r pid : ℕ) (s t : Session) (login : Bytes)
    → Consistent m
    → lookup pid m.player_index ≡ some old
    → old ≢ sid
    → lookup sid m.sessions ≡ some ref
    → get_elem? m.heap ref ≡ some s
    → pos_part s.max_players ≤ length s.players
    → lookup old m.sessions ≡ some r
    → get_elem? m.heap r ≡ some t
    → add_player_to_session m sid pid login
      ≡ (expel m r (without t pid) pid, err (session_error session_full))
unfolding add_player_to_session has_player indexed
refusal m old sid ref r pid s t login c e differ here at full there at' =
    let other : bytes_beq old sid ≡ false = ground (arith, bytes_beq_iff old sid) in
    let apart : r ≢ ref = λ q.
      differ (Pointers-inj m.sessions m.heap old sid r c.pointers there (here ∙ ap some (sym q))) in
    let absent : is_some (lookup pid s.players) ≡ false =
      ground (arith, c.agree pid sid, e, other, here, at) in
    rw (here, add_player_to_session, e, other, migrate_out_lem m old pid r t there at')
      (admit_full (expel m r (without t pid) pid) sid ref pid s login
        (ground (arith, e, length-delete pid m.player_index c.index_unique, c.players_fit))
        (get_elem?-set_ne m.heap r ref (without t pid) apart ∙ at) absent full)

-- A player of session `old` who asks to join another session that is full is refused, and is then
-- in no session at all: the migration has already taken the player out of `old`.
pub refused_join_evicts :
    (m : Manager) (old sid : Bytes) (ref pid : ℕ) (s : Session) (login : Bytes)
    → Consistent m
    → lookup pid m.player_index ≡ some old
    → old ≢ sid
    → lookup sid m.sessions ≡ some ref
    → get_elem? m.heap ref ≡ some s
    → pos_part s.max_players ≤ length s.players
    → let after = add_player_to_session m sid pid login in
      (after.1 ≡ err (session_error session_full))
      × (lookup pid after.0.player_index ≡ none)
      × ((other : Bytes) → has_player after.0.sessions after.0.heap other pid ≡ false)
refused_join_evicts m old sid ref pid s login c e differ here at full =
    let (r, t, there, at', present) = indexed_session m old pid c e in
    let q = refusal m old sid ref r pid s t login c e differ here at full there at' in
    let c' = add_player-Consistent m sid pid login c in
    let gone : lookup pid (add_player_to_session m sid pid login).0.player_index ≡ none =
      rw q (lookup-delete pid pid m.player_index ∙ ground (arith, ==_refl pid)) in
    (
      ap (λ (x : Manager × Outcome ManagerError (Unit {0})). x.1) q,
      gone,
      λ other. sym (c'.agree pid other) ∙ (unfold indexed in ground (arith, gone)),
    )

-- Phase 2 unregisters the id of an empty, old candidate, not the candidate: if the id has since been
-- given to another session, with a player in it, that session is lost, while the index still
-- sends the player to the id.
pub replaced_session_lost :
    (m : Manager) (now : ℕ) (clock : ℕ → ℕ → ℕ) (c : Candidate) (gone live : Session) (ref pid : ℕ)
    → Consistent m
    → c.stale_pids ≡ []
    → get_elem? m.heap c.session ≡ some gone
    → is_empty_and_old gone now ≡ true
    → lookup c.session_id m.sessions ≡ some ref
    → get_elem? m.heap ref ≡ some live
    → is_some (lookup pid live.players) ≡ true
    → let after = (apply_removals m now clock (c ∷ [])).manager in
      (lookup c.session_id after.sessions ≡ none)
      × (indexed after.player_index pid c.session_id ≡ true)
      × (¬ Consistent after)
unfolding apply_removals has_player
replaced_session_lost m now clock c gone live ref pid k none_stale was old here at present =
    let after = (apply_removals m now clock (c ∷ [])).manager in
    let unregistered : lookup c.session_id after.sessions ≡ none = ground (
      arith,
      none_stale,
      was,
      old,
      lookup-delete c.session_id c.session_id m.sessions,
      bytes_beq_iff c.session_id c.session_id,
    ) in
    let still : indexed after.player_index pid c.session_id ≡ true =
      ground (arith, none_stale, was, old, k.agree pid c.session_id, here, at, present) in
    (
      unregistered,
      still,
      λ bad. false≢true (ground (arith, unregistered, still, bad.agree pid c.session_id)),
    )
