-- ===== src/Relay/SessionManager/Reach.antt =====
-- Every history of the manager of internal/relay/session.go: requests, packets and reaper cycles in
-- any order.
use fafsturmudprelay.Prelude.{
  ℕ, ◌≡◌, refl, ap, ◌∙◌, inl, inr, some, true, Bytes, get_elem?, is_some, nat_eq, bytes_eq,
  bytes_beq_iff, ==_iff, arith, Option-cases,
}
use fafsturmudprelay.Prelude.Int.{ℤ}
use fafsturmudprelay.Prelude.Map.{lookup, insert, lookup-insert}
use fafsturmudprelay.Relay.Session.Player.{
  AddrPort, Conn, PlayerInfo, player_update_addr, player_update_tcp,
}
use fafsturmudprelay.Relay.Session.{Session, update_player_addr, update_player_tcp}
use fafsturmudprelay.Relay.Session.Capacity.{update_addr-IsBounded, update_tcp-IsBounded}
use fafsturmudprelay.Relay.SessionManager.{
  Manager, new_manager, modify, create_session, delete_session, add_player_to_session,
  remove_player_from_session, find_session_by_player,
}
use fafsturmudprelay.Relay.SessionManager.Consistency.{Consistent, has_player, indexed, indexed-inj}
use fafsturmudprelay.Relay.SessionManager.Writes.{Harmless, Harmless-modify}
use fafsturmudprelay.Relay.SessionManager.Create.{create-Consistent}
use fafsturmudprelay.Relay.SessionManager.Join.{add_player-Consistent, indexed_session}
use fafsturmudprelay.Relay.SessionManager.Leave.{
  delete_session-Consistent, remove_player-Consistent,
}
use fafsturmudprelay.Relay.SessionManager.Reaper.{collect_stale, apply_removals}
use fafsturmudprelay.Relay.SessionManager.Reaper.Uninterrupted.{reap-Consistent}

store-present :
    (s : Session) (pid : ℕ) (p q : PlayerInfo) (k : ℕ)
    → lookup pid s.players ≡ some p
    → is_some (lookup k (insert pid q s.players)) ≡ is_some (lookup k s.players)
store-present s pid p q k e = ground (arith, e, lookup-insert pid k q s.players, ==_iff pid k)

update_addr-Harmless :
    (pid : ℕ) (addr : AddrPort) (now : ℕ) (s : Session)
    → Harmless s (update_player_addr s pid addr now).0
unfolding update_player_addr
update_addr-Harmless pid addr now s = record {
  same_id = ground arith;
  same_players = λ k. elim (Option-cases (lookup pid s.players)) [
    | inl e ↦ ground (arith, e)
    | inr (p, e) ↦ ground (arith, e, store-present s pid p (player_update_addr p addr now).0 k e)
  ];
  still_bounded = update_addr-IsBounded s pid addr now;
}

pub update_tcp-Harmless :
    (pid : ℕ) (conn : Conn) (now : ℕ) (s : Session)
    → Harmless s (update_player_tcp s pid conn now).0
unfolding update_player_tcp
update_tcp-Harmless pid conn now s = record {
  same_id = ground arith;
  same_players = λ k. elim (Option-cases (lookup pid s.players)) [
    | inl e ↦ ground (arith, e)
    | inr (p, e) ↦ ground (arith, e, store-present s pid p (player_update_tcp p conn now).0 k e)
  ];
  still_bounded = update_tcp-IsBounded s pid conn now;
}

-- One atomic step. A packet goes through a pointer that was looked up before, so its session may
-- no longer be registered. The first phase of a reaper cycle looked at `earlier`, which had the
-- same sessions registered.
pub data Step : Manager → Manager → Type 0 where
  creates : {m : Manager} (id : Bytes) (max : ℤ) (now : ℕ) → Step m (create_session m id max now).0
  deletes : {m : Manager} (id : Bytes) → Step m (delete_session m id).0
  joins :
      {m : Manager} (id : Bytes) (pid : ℕ) (login : Bytes)
      → Step m (add_player_to_session m id pid login).0
  leaves : {m : Manager} (id : Bytes) (pid : ℕ) → Step m (remove_player_from_session m id pid).0
  hears_udp :
      {m : Manager} (ref pid : ℕ) (addr : AddrPort) (now : ℕ)
      → Step m (modify m ref (λ s. (update_player_addr s pid addr now).0))
  hears_tcp :
      {m : Manager} (ref pid : ℕ) (conn : Conn) (now : ℕ)
      → Step m (modify m ref (λ s. (update_player_tcp s pid conn now).0))
  reaps :
      {m : Manager} (earlier : Manager) (now₁ now₂ : ℕ) (clock₁ : ℕ → ℕ) (clock₂ : ℕ → ℕ → ℕ)
      → earlier.sessions ≡ m.sessions
      → Step m (apply_removals m now₂ clock₂ (collect_stale earlier now₁ clock₁)).manager

pub data Reach : Manager → Type 0 where
  start : Reach new_manager
  next : {m n : Manager} → Reach m → Step m n → Reach n

pub new-Consistent : Consistent new_manager
unfolding has_player indexed lookup
new-Consistent = record {
  sessions_unique = tt;
  index_unique = tt;
  pointers = λ sid ref e. ground arith;
  agree = λ pid sid. refl;
  bounded = λ ref s e. ground arith;
  sessions_counted = refl;
  players_counted = refl;
  sessions_fit = omega arith;
  players_fit = omega arith;
}

pub Step-Consistent : {m n : Manager} → Step m n → Consistent m → Consistent n
Step-Consistent (creates id max now) c = create-Consistent _ id max now c
Step-Consistent (deletes id) c = delete_session-Consistent _ id c
Step-Consistent (joins id pid login) c = add_player-Consistent _ id pid login c
Step-Consistent (leaves id pid) c = remove_player-Consistent _ id pid c
Step-Consistent (hears_udp ref pid addr now) c =
    Harmless-modify _ ref _ c (update_addr-Harmless pid addr now)
Step-Consistent (hears_tcp ref pid conn now) c =
    Harmless-modify _ ref _ c (update_tcp-Harmless pid conn now)
Step-Consistent (reaps earlier now₁ now₂ clock₁ clock₂ same) c =
    reap-Consistent earlier _ now₁ now₂ clock₁ clock₂ c same

-- Every history of session creations and deletions, joins, leaves, packets and reaper cycles leaves
-- the manager consistent: keys are unique, registered pointers have the registered id, the index
-- and the sessions agree on who is where, the two counters are the sizes of the tables, and the
-- limits on sessions, players and session sizes hold. No session is created or deleted between
-- the two phases of a reaper cycle.
pub Reach-Consistent : (m : Manager) → Reach m → Consistent m
Reach-Consistent m start = new-Consistent
Reach-Consistent m (next r st) = Step-Consistent st (Reach-Consistent _ r)

-- In a consistent manager, the session found for a player is a registered one that has the player,
-- and no registered session other than that one has the player.
pub find_session_sound :
    (m : Manager) (pid ref : ℕ)
    → Consistent m
    → find_session_by_player m pid ≡ some ref
    → (s : Session) × (get_elem? m.heap ref ≡ some s)
      × (is_some (lookup pid s.players) ≡ true)
      × (lookup s.id m.sessions ≡ some ref)
      × ((sid : Bytes) → has_player m.sessions m.heap sid pid ≡ true → sid ≡ s.id)
unfolding find_session_by_player
find_session_sound m pid ref c found = elim (Option-cases (lookup pid m.player_index)) [
  | inl e ↦ ground (arith, e, found)
  | inr (old, e) ↦
      let (q, s, here, at, present) = indexed_session m old pid c e in
      let same : q ≡ ref = ground (arith, e, here, found) in
      let named : s.id ≡ old = ground (arith, c.pointers old q here, at) in
      (
        s,
        rw (← same) at,
        present,
        rw named (here ∙ ap some same),
        λ sid h.
            indexed-inj m.player_index pid sid s.id (c.agree pid sid ∙ h)
              (unfold indexed in ground (arith, e, named, bytes_beq_iff old s.id)),
      )
]

-- A player whom any registered session has is found.
pub find_session_complete :
    (m : Manager) (sid : Bytes) (pid : ℕ)
    → Consistent m
    → has_player m.sessions m.heap sid pid ≡ true
    → (ref : ℕ) × (find_session_by_player m pid ≡ some ref) × (lookup sid m.sessions ≡ some ref)
unfolding find_session_by_player indexed
find_session_complete m sid pid c h = elim (Option-cases (lookup pid m.player_index)) [
  | inl e ↦ ground (arith, e, h, c.agree pid sid)
  | inr (old, e) ↦
      let (q, s, here, at, present) = indexed_session m old pid c e in
      let same : old ≡ sid = ground (arith, e, h, c.agree pid sid, bytes_beq_iff old sid) in
      (q, ground (arith, e, here), rw (← same) here)
]
