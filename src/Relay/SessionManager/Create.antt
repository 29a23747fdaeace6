-- ===== src/Relay/SessionManager/Create.antt =====
-- CreateSession of internal/relay/session.go keeps the manager consistent.
use fafsturmudprelay.Prelude.{
  ℕ, ◌≡◌, refl, sym, ◌∙◌, inl, inr, none, some, List, [], ◌∷◌, ◌++◌, Bytes, length, get_elem?,
  nat_eq, bytes_eq, bytes_beq_iff, arith, Option-cases, Bool-cases, leb, dec_lt, get_elem?-lt,
  get_elem?-append_lt, get_elem?-append_end, length-append,
}
use fafsturmudprelay.Prelude.Int.{ℤ, ◌+ℤ◌}
use fafsturmudprelay.Prelude.Map.{lookup, insert, lookup-insert, insert-Unique, length-insert}
use fafsturmudprelay.Relay.Session.{Session, new_session}
use fafsturmudprelay.Relay.Session.Capacity.{IsBounded, new_session-IsBounded}
use fafsturmudprelay.Relay.SessionManager.{Manager, max_total_sessions, create_session}
use fafsturmudprelay.Relay.SessionManager.Consistency.{Consistent, has_player, Pointers, AllBounded}

module _ (m : Manager) (c : Consistent m) (id : Bytes) (s : Session)
    (new : lookup id m.sessions ≡ none) (named : s.id ≡ id) (empty : s.players ≡ []) where
  abbrev grown : List Session
  grown = m.heap ++ (s ∷ [])

  abbrev registered : List (Bytes × ℕ)
  registered = insert id (length m.heap) m.sessions

  -- A registered pointer still points to what it did.
  old_pointer :
      (sid : Bytes) (ref : ℕ)
      → lookup sid m.sessions ≡ some ref
      → get_elem? grown ref ≡ get_elem? m.heap ref
  old_pointer sid ref e = elim (Option-cases (get_elem? m.heap ref)) [
    | inl f ↦ ground (arith, f, c.pointers sid ref e)
    | inr (u, f) ↦ get_elem?-append_lt m.heap (s ∷ []) ref (get_elem?-lt m.heap ref u f)
  ]

  create-Pointers : Pointers registered grown
  create-Pointers sid ref e = ground (
    arith,
    e,
    lookup-insert id sid (length m.heap) m.sessions,
    bytes_beq_iff id sid,
    get_elem?-append_end m.heap s,
    old_pointer sid ref,
    c.pointers sid ref,
  )

  -- The new session has no players, and nothing changes for the others.
  has_player-create :
      (sid : Bytes) (pid : ℕ)
      → has_player registered grown sid pid ≡ has_player m.sessions m.heap sid pid
  unfolding has_player lookup
  has_player-create sid pid = elim (Option-cases (lookup sid m.sessions)) [
    | inl e ↦ ground (
      arith,
      e,
      lookup-insert id sid (length m.heap) m.sessions,
      get_elem?-append_end m.heap s,
      empty,
    )
    | inr (ref, e) ↦ ground (
      arith,
      e,
      new,
      lookup-insert id sid (length m.heap) m.sessions,
      bytes_beq_iff id sid,
      old_pointer sid ref e,
    )
  ]

  create-AllBounded : IsBounded s → AllBounded grown
  create-AllBounded b ref t e = elim (dec_lt ref (length m.heap)) [
    | yes old ↦ c.bounded ref t (sym (get_elem?-append_lt m.heap (s ∷ []) ref old) ∙ e)
    | no beyond ↦
        let last : ref ≡ length m.heap =
          omega (arith, get_elem?-lt grown ref t e, length-append m.heap (s ∷ [])) in
        let eq : s ≡ t = ground (arith, e, last, get_elem?-append_end m.heap s) in rw (← eq) b
  ]

-- Creating a session keeps the manager consistent, also when it is refused.
pub create-Consistent :
    (m : Manager) (id : Bytes) (max : ℤ) (now : ℕ)
    → Consistent m
    → Consistent (create_session m id max now).0
unfolding create_session new_session ◌+ℤ◌
create-Consistent m id max now c = elim (Option-cases (lookup id m.sessions)) [
  | inr (ref, e) ↦ rw e c
  | inl new ↦ elim (Bool-cases (leb max_total_sessions (length m.sessions))) [
    | inl full ↦ rw (new, full) c
    | inr room ↦
        let s : Session = new_session id max now in
        rw (new, room)
          (record {
            sessions_unique = insert-Unique id (length m.heap) m.sessions c.sessions_unique;
            index_unique = c.index_unique;
            pointers = create-Pointers m c id s new refl refl;
            agree =
                λ pid sid. c.agree pid sid ∙ sym (has_player-create m c id s new refl refl sid pid);
            bounded = create-AllBounded m c id s new refl refl (new_session-IsBounded id max now);
            sessions_counted =
                ground
                  (arith, c.sessions_counted, new, length-insert id (length m.heap) m.sessions);
            players_counted = c.players_counted;
            sessions_fit = ground (arith, room, new, length-insert id (length m.heap) m.sessions);
            players_fit = c.players_fit;
          })
  ]
]
