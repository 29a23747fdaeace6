-- ===== src/Relay/SessionManager/Join.antt =====
-- AddPlayerToSession of internal/relay/session.go keeps the manager consistent, on every branch.
use fafsturmudprelay.Prelude.{
  ℕ, ◌<◌, ◌≡◌, refl, sym, ◌∙◌, inl, inr, none, some, true, false, Bytes, length, get_elem?, set,
  is_some, nat_eq, bytes_eq, bytes_beq, bytes_beq_iff, ==_refl, ==_iff, arith, Option-cases,
  Bool-cases, leb,
}
use fafsturmudprelay.Prelude.Int.{pos, ◌+ℤ◌}
use fafsturmudprelay.Prelude.Map.{
  lookup, insert, delete, lookup-insert, lookup-delete, insert-Unique, length-insert,
}
use fafsturmudprelay.Outcome.{Outcome, ok, err, panic}
use fafsturmudprelay.Relay.Metrics.{add_players}
use fafsturmudprelay.Relay.Session.Player.{new_player}
use fafsturmudprelay.Relay.Session.{
  Session, SessionError, store, add_player, remove_player, reset_player_transport, cleared,
}
use fafsturmudprelay.Relay.Session.Capacity.{
  IsBounded, add_player-IsBounded, add_player-eq-ok, reset-IsBounded,
}
use fafsturmudprelay.Relay.SessionManager.{
  Manager, modify, migrate_out, admit, add_player_to_session, max_total_players,
}
use fafsturmudprelay.Relay.SessionManager.Consistency.{
  Consistent, has_player, indexed, has_player-set, Pointers-set, AllBounded-set, indexed-insert,
}
use fafsturmudprelay.Relay.SessionManager.Writes.{
  Harmless, Harmless-modify, expel, expel-Consistent,
}

-- The manager with player `pid`, who entered session `sid` at `ref` as `t`.
abbrev pub enter : Manager → Bytes → ℕ → Session → ℕ → Manager
enter m sid ref t pid = record m {
  heap = set m.heap ref t;
  player_index = insert pid sid m.player_index;
  metrics = add_players m.metrics (pos 1);
}

module _ (m : Manager) (c : Consistent m) (sid : Bytes) (ref : ℕ) (s : Session) (pid : ℕ)
    (login : Bytes) (here : lookup sid m.sessions ≡ some ref) (at : get_elem? m.heap ref ≡ some s)
    (free : lookup pid m.player_index ≡ none) where
  entered : Session
  entered = store s pid (new_player pid login)

  nowhere : (other : Bytes) → has_player m.sessions m.heap other pid ≡ false
  nowhere other = sym (c.agree pid other) ∙ (unfold indexed in ground (arith, free))

  enter-Agree :
      (p : ℕ) (other : Bytes)
      → indexed (insert pid sid m.player_index) p other
        ≡ has_player m.sessions (set m.heap ref entered) other p
  unfolding entered store
  enter-Agree p other = elim (Bool-cases (bytes_beq sid other)) [
    | inl same ↦ ground (
      arith,
      same,
      has_player-set m.sessions m.heap sid ref s entered c.pointers here at other p,
      indexed-insert m.player_index pid sid p other,
      lookup-insert pid p (new_player pid login) s.players,
      agree_here p,
      (bytes_beq_iff sid other).0 same,
    )
    | inr differ ↦ ground (
      arith,
      differ,
      has_player-set m.sessions m.heap sid ref s entered c.pointers here at other p,
      indexed-insert m.player_index pid sid p other,
      c.agree p other,
      ==_iff pid p,
      nowhere other,
    )
  ]
    where
      agree_here : (q : ℕ) → indexed m.player_index q sid ≡ is_some (lookup q s.players)
      agree_here q = c.agree q sid ∙ (unfold has_player in ground (arith, here, at))

  enter-Consistent :
      IsBounded entered
      → length m.player_index < max_total_players
      → Consistent (enter m sid ref entered pid)
  unfolding ◌+ℤ◌ entered store
  enter-Consistent b room = record {
    sessions_unique = c.sessions_unique;
    index_unique = insert-Unique pid sid m.player_index c.index_unique;
    pointers = Pointers-set m.sessions m.heap sid ref s _ c.pointers here at refl;
    agree = enter-Agree;
    bounded = AllBounded-set m.heap ref s _ c.bounded at b;
    sessions_counted = c.sessions_counted;
    players_counted = ground (arith, c.players_counted, free, length-insert pid sid m.player_index);
    sessions_fit = c.sessions_fit;
    players_fit = ground (arith, free, length-insert pid sid m.player_index);
  }

  -- Both checks of the entry, and the entry.
  admit_cases :
      (o : Outcome SessionError Session)
      → add_player s pid login ≡ o
      → Consistent (admit m sid ref pid login).0
  unfolding admit entered
  admit_cases (ok t) e = elim (Bool-cases (leb max_total_players (length m.player_index))) [
    | inl full ↦ rw full c
    | inr room ↦
        let (_, _, is_store) = add_player-eq-ok s t pid login e in
        rw (room, at, e)
          (rw is_store (
            enter-Consistent
              (rw (← is_store) (add_player-IsBounded s t pid login (c.bounded ref s at) e))
              (ground (arith, room))))
  ]
  admit_cases (err x) e = ground (arith, at, e)
  admit_cases panic e = ground (arith, at, e)

admit-Consistent :
    (m : Manager) (sid : Bytes) (ref pid : ℕ) (login : Bytes)
    → Consistent m
    → lookup sid m.sessions ≡ some ref
    → lookup pid m.player_index ≡ none
    → Consistent (admit m sid ref pid login).0
unfolding admit
admit-Consistent m sid ref pid login c here free = elim (Option-cases (get_elem? m.heap ref)) [
  | inl e ↦ ground (arith, e)
  | inr (s, e) ↦ admit_cases m c sid ref s pid login here e free (add_player s pid login) refl
]

-- What the index and the sessions say of an indexed player: the session is there, and has it.
pub indexed_session :
    (m : Manager) (old : Bytes) (pid : ℕ)
    → Consistent m
    → lookup pid m.player_index ≡ some old
    → (ref : ℕ) × (s : Session) × (lookup old m.sessions ≡ some ref)
      × (get_elem? m.heap ref ≡ some s)
      × (is_some (lookup pid s.players) ≡ true)
unfolding has_player indexed
indexed_session m old pid c e = elim (Option-cases (lookup old m.sessions)) [
  | inl f ↦ ground (arith, e, f, c.agree pid old, bytes_beq_iff old old)
  | inr (ref, f) ↦ elim (Option-cases (get_elem? m.heap ref)) [
    | inl g ↦ ground (arith, e, f, g, c.agree pid old, bytes_beq_iff old old)
    | inr (s, g) ↦ (ref, s, f, g, ground (arith, e, f, g, c.agree pid old, bytes_beq_iff old old))
  ]
]

abbrev pub without : Session → ℕ → Session
without s pid = record s { players = delete pid s.players }

-- Migrating a player away is expelling the player from the session that the index names.
pub migrate_out_lem :
    (m : Manager) (old : Bytes) (pid ref : ℕ) (s : Session)
    → lookup old m.sessions ≡ some ref
    → get_elem? m.heap ref ≡ some s
    → migrate_out m old pid ≡ expel m ref (without s pid) pid
unfolding migrate_out remove_player
migrate_out_lem m old pid ref s here at = rw (here, migrate_out) (rw (at, modify) refl)

reset-Harmless : (pid : ℕ) (s : Session) → Harmless s (reset_player_transport s pid)
unfolding reset_player_transport store
reset-Harmless pid s = record {
  same_id = ground arith;
  same_players = λ q. elim (Option-cases (lookup pid s.players)) [
    | inl e ↦ ground (arith, e)
    | inr (p, e) ↦ ground (arith, e, lookup-insert pid q (cleared p) s.players, ==_iff pid q)
  ];
  still_bounded = reset-IsBounded s pid;
}

-- Whatever AddPlayerToSession is asked, and whether it succeeds or fails, it keeps the manager
-- consistent.
pub add_player-Consistent :
    (m : Manager) (sid : Bytes) (pid : ℕ) (login : Bytes)
    → Consistent m
    → Consistent (add_player_to_session m sid pid login).0
unfolding add_player_to_session
add_player-Consistent m sid pid login c = elim (Option-cases (lookup sid m.sessions)) [
  | inl e ↦ ground (arith, e)
  | inr (ref, here) ↦ elim (Option-cases (lookup pid m.player_index)) [
    | inl free ↦
        rw (here, add_player_to_session, free) (admit-Consistent m sid ref pid login c here free)
    | inr (old, e) ↦ elim (Bool-cases (bytes_beq old sid)) [
      | inl same ↦
          rw (here, add_player_to_session, e, same) (Harmless-modify m ref _ c (reset-Harmless pid))
      | inr other ↦
          let (r, s, there, at, present) = indexed_session m old pid c e in
          let c' : Consistent (expel m r (without s pid) pid) =
            expel-Consistent m c old r s pid there at present in
          rw (here, add_player_to_session, e, other, migrate_out_lem m old pid r s there at)
            (admit-Consistent _ sid ref pid login c' here
              (lookup-delete pid pid m.player_index ∙ ground (arith, ==_refl pid)))
    ]
  ]
]
