-- ===== src/Relay/SessionManager/Leave.antt =====
-- DeleteSession and RemovePlayerFromSession of internal/relay/session.go keep the manager
-- consistent.
use fafsturmudprelay.Prelude.{
  ℕ, suc, ◌+◌, ◌≡◌, ◌≢◌, refl, sym, ap, ◌∙◌, inl, inr, some, true, false, List, [], ◌∷◌, Bytes,
  length, get_elem?, is_some, if◌then◌else◌, nat_eq, bytes_eq, bytes_beq, bytes_beq_iff, ==_iff,
  ==_refl, arith, Option-cases, Bool-cases, elem, map,
}
use fafsturmudprelay.Prelude.Int.{pos, negsuc, ◌+ℤ◌, ◌-ℤ◌}
use fafsturmudprelay.Prelude.Map.{
  lookup, delete, Unique, lookup-delete, delete-Unique, length-delete,
}
use fafsturmudprelay.Relay.Metrics.{add_players, add_sessions}
use fafsturmudprelay.Relay.Session.Player.{PlayerInfo}
use fafsturmudprelay.Relay.Session.{Session, remove_player, player_ids}
use fafsturmudprelay.Relay.Session.Capacity.{delete-IsBounded}
use fafsturmudprelay.Relay.SessionManager.{
  Manager, delete_all, delete_session, remove_player_from_session,
}
use fafsturmudprelay.Relay.SessionManager.Consistency.{
  Consistent, has_player, indexed, Agree, indexed-delete, indexed-inj,
}
use fafsturmudprelay.Relay.SessionManager.Writes.{Harmless, set-Consistent, expel-Consistent}

elem-player_ids :
    (pid : ℕ) (players : List (ℕ × PlayerInfo))
    → elem pid (map (λ e. e.0) players) ≡ is_some (lookup pid players)
unfolding lookup
elem-player_ids pid [] = refl
elem-player_ids pid ((k, p) ∷ rest) = ground (arith, elem-player_ids pid rest)

indexed-delete_all :
    (ids : List ℕ) (index : List (ℕ × Bytes)) (pid : ℕ) (sid : Bytes)
    → indexed (delete_all ids index) pid sid
      ≡ (if elem pid ids then false else indexed index pid sid)
unfolding delete_all
indexed-delete_all [] index pid sid = refl
indexed-delete_all (k ∷ ids) index pid sid =
    ground (arith, indexed-delete_all ids (delete k index) pid sid, indexed-delete index k pid sid)

delete_all-Unique :
    (ids : List ℕ) (index : List (ℕ × Bytes)) → Unique index → Unique (delete_all ids index)
unfolding delete_all
delete_all-Unique [] index u = u
delete_all-Unique (k ∷ ids) index u =
    delete_all-Unique ids (delete k index) (delete-Unique k index u)

-- Each player takes one entry of the index along.
length-delete_all :
    (players : List (ℕ × PlayerInfo)) (index : List (ℕ × Bytes))
    → Unique players
    → Unique index
    → ((k : ℕ) → is_some (lookup k players) ≡ true → is_some (lookup k index) ≡ true)
    → length index ≡ length players + length (delete_all (map (λ e. e.0) players) index)
unfolding delete_all lookup
length-delete_all [] index up ui sub = omega arith
length-delete_all ((k, p) ∷ rest) index up ui sub =
    let one : length index ≡ suc (length (delete k index)) =
      ground (arith, sub k, ==_refl k, length-delete k index ui) in
    let others =
      length-delete_all rest (delete k index) up.1 (delete-Unique k index ui)
        (λ j h. ground (arith, sub j, h, lookup-delete k j index, ==_iff k j, up.0)) in
    omega (arith, one, others)

length-map : (players : List (ℕ × PlayerInfo)) → length (map (λ e. e.0) players) ≡ length players
length-map [] = refl
length-map (x ∷ xs) = ap suc (length-map xs)

module _ (m : Manager) (c : Consistent m) (sid : Bytes) (ref : ℕ) (s : Session)
    (here : lookup sid m.sessions ≡ some ref) (at : get_elem? m.heap ref ≡ some s) where
  indexed_here : (pid : ℕ) → indexed m.player_index pid sid ≡ is_some (lookup pid s.players)
  indexed_here pid = c.agree pid sid ∙ (unfold has_player in ground (arith, here, at))

  -- Who is in the deleted session is in no other.
  only_here :
      (pid : ℕ) (other : Bytes)
      → is_some (lookup pid s.players) ≡ true
      → sid ≢ other
      → indexed m.player_index pid other ≡ false
  only_here pid other present differ = elim (Bool-cases (indexed m.player_index pid other)) [
    | inl yes' ↦
        absurd (differ (indexed-inj m.player_index pid sid other (indexed_here pid ∙ present) yes'))
    | inr no' ↦ no'
  ]

  -- After the deletion the index and the sessions agree.
  delete-Agree : Agree (delete sid m.sessions) m.heap (delete_all (player_ids s) m.player_index)
  unfolding has_player player_ids
  delete-Agree pid other = elim (Bool-cases (bytes_beq sid other)) [
    | inl same ↦ ground (
      arith,
      same,
      lookup-delete sid other m.sessions,
      indexed-delete_all (player_ids s) m.player_index pid other,
      elem-player_ids pid s.players,
      indexed_here pid,
      (bytes_beq_iff sid other).0 same,
    )
    | inr differ ↦ ground (
      arith,
      differ,
      lookup-delete sid other m.sessions,
      indexed-delete_all (player_ids s) m.player_index pid other,
      elem-player_ids pid s.players,
      c.agree pid other,
      only_here pid other,
      bytes_beq_iff sid other,
    )
  ]

  delete-players :
      length m.player_index
      ≡ length (player_ids s) + length (delete_all (player_ids s) m.player_index)
  unfolding player_ids
  delete-players =
      length-delete_all s.players m.player_index (c.bounded ref s at).unique c.index_unique
        (λ k h. unfold indexed in ground (arith, indexed_here k, h))
      ∙ ap (λ (n : ℕ). n + length (delete_all (map (λ e. e.0) s.players) m.player_index))
          (sym (length-map s.players))

  delete-Consistent : Consistent (record m {
    player_index = delete_all (player_ids s) m.player_index;
    metrics =
        add_sessions (add_players m.metrics (pos 0 -ℤ pos (length (player_ids s)))) (negsuc 0);
    sessions = delete sid m.sessions;
  })
  unfolding ◌+ℤ◌ ◌-ℤ◌
  delete-Consistent = record {
    sessions_unique = delete-Unique sid m.sessions c.sessions_unique;
    index_unique = delete_all-Unique (player_ids s) m.player_index c.index_unique;
    pointers =
        λ other q e. ground (arith, e, lookup-delete sid other m.sessions, c.pointers other q);
    agree = delete-Agree;
    bounded = c.bounded;
    sessions_counted =
        ground (arith, c.sessions_counted, here, length-delete sid m.sessions c.sessions_unique);
    players_counted = ground (arith, c.players_counted, delete-players);
    sessions_fit =
        ground (arith, c.sessions_fit, here, length-delete sid m.sessions c.sessions_unique);
    players_fit = omega (arith, c.players_fit, delete-players);
  }

-- Deleting a session keeps the manager consistent, also when it is not found.
pub delete_session-Consistent :
    (m : Manager) (sid : Bytes) → Consistent m → Consistent (delete_session m sid).0
unfolding delete_session
delete_session-Consistent m sid c = elim (Option-cases (lookup sid m.sessions)) [
  | inl e ↦ ground (arith, e)
  | inr (ref, here) ↦ elim (Option-cases (get_elem? m.heap ref)) [
    | inl e ↦ ground (arith, e, here)
    | inr (s, at) ↦
        rw (here, delete_session)
          (rw (at, delete_session) (delete-Consistent m c sid ref s here at))
  ]
]

-- Removing a player who is not there changes nothing but the layout of the map.
remove-Harmless :
    (s : Session) (pid : ℕ)
    → is_some (lookup pid s.players) ≡ false
    → Harmless s (record s { players = delete pid s.players })
remove-Harmless s pid absent = record {
  same_id = refl;
  same_players = λ q. ground (arith, lookup-delete pid q s.players, ==_iff pid q);
  still_bounded = delete-IsBounded s pid;
}

-- Removing a player from a session keeps the manager consistent, also when there is no such
-- session or no such player in it.
pub remove_player-Consistent :
    (m : Manager) (sid : Bytes) (pid : ℕ)
    → Consistent m
    → Consistent (remove_player_from_session m sid pid).0
unfolding remove_player_from_session remove_player
remove_player-Consistent m sid pid c = elim (Option-cases (lookup sid m.sessions)) [
  | inl e ↦ ground (arith, e)
  | inr (ref, here) ↦ elim (Option-cases (get_elem? m.heap ref)) [
    | inl e ↦ ground (arith, e, here)
    | inr (s, at) ↦ elim (Bool-cases (is_some (lookup pid s.players))) [
      | inl present ↦
          rw (here, remove_player_from_session)
            (rw (at, remove_player_from_session)
              (rw present (expel-Consistent m c sid ref s pid here at present)))
      | inr absent ↦
          rw (here, remove_player_from_session)
            (rw (at, remove_player_from_session)
              (rw absent (set-Consistent m c ref s _ at (remove-Harmless s pid absent))))
    ]
  ]
]
