-- ===== src/Relay/Session/Capacity.antt =====
-- The players of a session of internal/relay/session.go: no id twice, and never more than the
-- session's maximum, whatever happens to it.
use fafsturmudprelay.Prelude.{
  ℕ, ◌≤◌, ◌<◌, ◌≡◌, none, some, Bytes, arith, nat_eq, length, inl, inr, Option-cases,
}
use fafsturmudprelay.Prelude.Int.{ℤ, pos_part}
use fafsturmudprelay.Prelude.Map.{
  lookup, delete, Unique, insert-Unique, delete-Unique, length-insert, length-delete,
}
use fafsturmudprelay.Outcome.{ok}
use fafsturmudprelay.Relay.Session.Player.{AddrPort, Conn, PlayerInfo, new_player}
use fafsturmudprelay.Relay.Session.{
  Session, new_session, store, add_player, reset_player_transport, remove_player,
  update_player_addr, update_player_tcp, remove_player_if_stale,
}

pub record IsBounded (s : Session) : Type 0 where
  pub unique : Unique s.players
  pub fits : length s.players ≤ pos_part s.max_players

pub new_session-IsBounded : (id : Bytes) (max : ℤ) (now : ℕ) → IsBounded (new_session id max now)
unfolding new_session
new_session-IsBounded id max now = record { unique = tt; fits = omega arith }

-- When a player is added, and what the session is then.
pub add_player-eq-ok :
    (s t : Session) (id : ℕ) (login : Bytes)
    → add_player s id login ≡ ok t
    → (lookup id s.players ≡ none)
      × (length s.players < pos_part s.max_players)
      × (t ≡ store s id (new_player id login))
unfolding add_player
add_player-eq-ok s t id login h = (ground arith, ground arith, ground arith)

pub add_player-IsBounded :
    (s t : Session) (id : ℕ) (login : Bytes)
    → IsBounded s
    → add_player s id login ≡ ok t
    → IsBounded t
unfolding store
add_player-IsBounded s t id login b h =
    let (new, room, e) = add_player-eq-ok s t id login h in
    let p : PlayerInfo = new_player id login in
    rw e (record {
      unique = insert-Unique id p s.players b.unique;
      fits = ground (arith, length-insert id p s.players);
    })

-- A write to a player who is there.
store-IsBounded :
    (s : Session) (id : ℕ) (p q : PlayerInfo)
    → IsBounded s
    → lookup id s.players ≡ some p
    → IsBounded (store s id q)
unfolding store
store-IsBounded s id p q b h = record {
  unique = insert-Unique id q s.players b.unique;
  fits = ground (arith, length-insert id q s.players);
}

pub delete-IsBounded :
    (s : Session) (id : ℕ) → IsBounded s → IsBounded (record s { players = delete id s.players })
delete-IsBounded s id b = record {
  unique = delete-Unique id s.players b.unique;
  fits = ground (arith, length-delete id s.players b.unique);
}

pub reset-IsBounded : (s : Session) (id : ℕ) → IsBounded s → IsBounded (reset_player_transport s id)
unfolding reset_player_transport
reset-IsBounded s id b = elim (Option-cases (lookup id s.players)) [
  | inl e ↦ rw (e, reset_player_transport) b
  | inr (p, e) ↦ rw (e, reset_player_transport) (store-IsBounded s id p _ b e)
]

pub update_addr-IsBounded :
    (s : Session) (id : ℕ) (addr : AddrPort) (now : ℕ)
    → IsBounded s
    → IsBounded (update_player_addr s id addr now).0
unfolding update_player_addr
update_addr-IsBounded s id addr now b = elim (Option-cases (lookup id s.players)) [
  | inl e ↦ rw (e, update_player_addr) b
  | inr (p, e) ↦ rw (e, update_player_addr) (store-IsBounded s id p _ b e)
]

pub update_tcp-IsBounded :
    (s : Session) (id : ℕ) (conn : Conn) (now : ℕ)
    → IsBounded s
    → IsBounded (update_player_tcp s id conn now).0
unfolding update_player_tcp
update_tcp-IsBounded s id conn now b = elim (Option-cases (lookup id s.players)) [
  | inl e ↦ rw (e, update_player_tcp) b
  | inr (p, e) ↦ rw (e, update_player_tcp) (store-IsBounded s id p _ b e)
]

pub reap-IsBounded :
    (s : Session) (id timeout now : ℕ)
    → IsBounded s
    → IsBounded (remove_player_if_stale s id timeout now).0
unfolding remove_player_if_stale
reap-IsBounded s id timeout now b = ground (arith, delete-IsBounded s id b)

-- Everything that may happen to a session.
pub data Step : Session → Session → Type 0 where
  adds : {s t : Session} (id : ℕ) (login : Bytes) → add_player s id login ≡ ok t → Step s t
  resets : {s : Session} (id : ℕ) → Step s (reset_player_transport s id)
  removes : {s : Session} (id : ℕ) → Step s (remove_player s id).0
  hears_udp :
      {s : Session} (id : ℕ) (addr : AddrPort) (now : ℕ)
      → Step s (update_player_addr s id addr now).0
  hears_tcp :
      {s : Session} (id : ℕ) (conn : Conn) (now : ℕ) → Step s (update_player_tcp s id conn now).0
  reaps : {s : Session} (id timeout now : ℕ) → Step s (remove_player_if_stale s id timeout now).0

pub data Reach (s : Session) : Session → Type 0 where
  here : Reach s s
  next : {t u : Session} → Reach s t → Step t u → Reach s u

pub Step-IsBounded : {s t : Session} → Step s t → IsBounded s → IsBounded t
unfolding remove_player
Step-IsBounded (adds id login h) b = add_player-IsBounded _ _ id login b h
Step-IsBounded (resets id) b = reset-IsBounded _ id b
Step-IsBounded (removes id) b = delete-IsBounded _ id b
Step-IsBounded (hears_udp id addr now) b = update_addr-IsBounded _ id addr now b
Step-IsBounded (hears_tcp id conn now) b = update_tcp-IsBounded _ id conn now b
Step-IsBounded (reaps id timeout now) b = reap-IsBounded _ id timeout now b

Reach-keeps : {s t : Session} → IsBounded s → Reach s t → IsBounded t
Reach-keeps b here = b
Reach-keeps b (next r st) = Step-IsBounded st (Reach-keeps b r)

-- From its creation on, whatever the order of joins, resets, packets, removals and reaping, a
-- session holds no player id twice and no more players than its maximum (none if that is
-- negative).
pub Reach-IsBounded :
    (id : Bytes) (max : ℤ) (now : ℕ) (s : Session) → Reach (new_session id max now) s → IsBounded s
Reach-IsBounded id max now s r = Reach-keeps (new_session-IsBounded id max now) r
