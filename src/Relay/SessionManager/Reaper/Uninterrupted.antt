-- ===== src/Relay/SessionManager/Reaper/Uninterrupted.antt =====
-- ReapStaleSessions of internal/relay/session.go keeps the manager consistent if no session is
-- created or deleted between its two phases.
use fafsturmudprelay.Prelude.{
  ℕ, ◌≡◌, ◌≢◌, refl, sym, ap, ◌∙◌, ◌⊎◌, inl, inr, none, some, true, false, List, [], ◌∷◌, Bytes,
  length, get_elem?, is_some, nat_eq, bytes_eq, bytes_beq_iff, ◌==◌, arith, Option-cases,
  Bool-cases, All, subst, not, ◌||◌,
}
use fafsturmudprelay.Prelude.Int.{negsuc, ◌+ℤ◌}
use fafsturmudprelay.Prelude.Map.{
  lookup, delete, Unique, lookup-delete, delete-Unique, length-delete,
}
use fafsturmudprelay.Relay.Metrics.{add_sessions}
use fafsturmudprelay.Relay.Session.Player.{PlayerInfo}
use fafsturmudprelay.Relay.Session.{
  Session, stale_players, player_count, remove_player_if_stale, is_stale,
}
use fafsturmudprelay.Relay.SessionManager.{Manager}
use fafsturmudprelay.Relay.SessionManager.Consistency.{Consistent, has_player}
use fafsturmudprelay.Relay.SessionManager.Writes.{expel-Consistent}
use fafsturmudprelay.Relay.SessionManager.Reaper.{
  Candidate, Reaped, player_timeout, is_empty_and_old, candidate_of, candidates, collect_stale,
  reap_player, reap_players, reap_session, reap_candidates, apply_removals,
}

-- Removing a stale player of a registered session keeps the manager consistent, and the sessions.
reap_player-Consistent :
    (now ref pid : ℕ) (sid : Bytes) (r : Reaped)
    → Consistent r.manager
    → lookup sid r.manager.sessions ≡ some ref
    → Consistent (reap_player now ref pid r).manager
      × ((reap_player now ref pid r).manager.sessions ≡ r.manager.sessions)
unfolding reap_player remove_player_if_stale
reap_player-Consistent now ref pid sid r c here =
    elim (Option-cases (get_elem? r.manager.heap ref)) [
      | inl e ↦ (ground (arith, e), ground (arith, e))
      | inr (s, at) ↦ elim (Option-cases (lookup pid s.players)) [
        | inl e ↦ (ground (arith, at, e), ground (arith, at, e))
        | inr (p, e) ↦ elim (Bool-cases (is_stale s p player_timeout now)) [
          | inl stale ↦ (
            rw (at, reap_player)
                (rw (e, remove_player_if_stale)
                  (rw stale
                    (expel-Consistent r.manager c sid ref s pid here at (ground (arith, e))))),
            ground (arith, at, e, stale),
          )
          | inr fresh ↦ (ground (arith, at, e, fresh), ground (arith, at, e, fresh))
        ]
      ]
    ]

reap_players-Consistent :
    (clock : ℕ → ℕ) (ref : ℕ) (sid : Bytes) (pids : List ℕ) (r : Reaped)
    → Consistent r.manager
    → lookup sid r.manager.sessions ≡ some ref
    → Consistent (reap_players clock ref pids r).manager
      × ((reap_players clock ref pids r).manager.sessions ≡ r.manager.sessions)
unfolding reap_players
reap_players-Consistent clock ref sid [] r c here = (c, refl)
reap_players-Consistent clock ref sid (pid ∷ pids) r c here =
    let (c', same) = reap_player-Consistent (clock pid) ref pid sid r c here in
    let (c'', same') =
      reap_players-Consistent clock ref sid pids (reap_player (clock pid) ref pid r) c'
        (ap (lookup sid) same ∙ here) in
    (c'', same' ∙ same)

nobody_in :
    (s : Session) (pid : ℕ) → (player_count s == 0) ≡ true → is_some (lookup pid s.players) ≡ false
unfolding player_count lookup
nobody_in s pid h = go s.players h
  where
    go : (ps : List (ℕ × PlayerInfo)) → (length ps == 0) ≡ true → is_some (lookup pid ps) ≡ false
    go [] h = refl
    go (x ∷ ps) h = ground arith

module _ (m : Manager) (c : Consistent m) (sid : Bytes) (ref : ℕ) (s : Session)
    (here : lookup sid m.sessions ≡ some ref) (at : get_elem? m.heap ref ≡ some s)
    (empty : (player_count s == 0) ≡ true) where
  -- An empty session can go: no entry of the index leads to it.
  drop-Consistent :
      Consistent
        (record m { sessions = delete sid m.sessions; metrics = add_sessions m.metrics (negsuc 0) })
  unfolding ◌+ℤ◌ has_player
  drop-Consistent = record {
    sessions_unique = delete-Unique sid m.sessions c.sessions_unique;
    index_unique = c.index_unique;
    pointers =
        λ other q e. ground (arith, e, lookup-delete sid other m.sessions, c.pointers other q);
    agree = λ pid other. ground (
      arith,
      c.agree pid other,
      lookup-delete sid other m.sessions,
      bytes_beq_iff sid other,
      here,
      at,
      nobody_in s pid empty,
    );
    bounded = c.bounded;
    sessions_counted =
        ground (arith, c.sessions_counted, here, length-delete sid m.sessions c.sessions_unique);
    players_counted = c.players_counted;
    sessions_fit =
        ground (arith, c.sessions_fit, here, length-delete sid m.sessions c.sessions_unique);
    players_fit = c.players_fit;
  }

-- The other sessions stay registered.
abbrev Keeps : Bytes → List (Bytes × ℕ) → List (Bytes × ℕ) → Type 0
Keeps sid before after =
    (other : Bytes) (q : ℕ)
    → sid ≢ other
    → lookup other before ≡ some q
    → lookup other after ≡ some q

reap_session-Consistent :
    (now ref : ℕ) (sid : Bytes) (r : Reaped)
    → Consistent r.manager
    → lookup sid r.manager.sessions ≡ some ref
    → Consistent (reap_session now sid ref r).manager
      × Keeps sid r.manager.sessions (reap_session now sid ref r).manager.sessions
unfolding reap_session
reap_session-Consistent now ref sid r c here = elim (Option-cases (get_elem? r.manager.heap ref)) [
  | inl e ↦ (ground (arith, e), λ other q d h. ground (arith, e, h))
  | inr (s, at) ↦ elim (Bool-cases (is_empty_and_old s now)) [
    | inl gone ↦ (
      rw (at, reap_session)
          (rw gone (drop-Consistent r.manager c sid ref s here at (ground (arith, gone)))),
      λ other q d h.
          ground (
            arith,
            at,
            gone,
            h,
            lookup-delete sid other r.manager.sessions,
            bytes_beq_iff sid other,
          ),
    )
    | inr stays ↦ (ground (arith, at, stays), λ other q d h. ground (arith, at, stays, h))
  ]
]

-- Each candidate names a registered session and its pointer, and no session is named twice.
abbrev Valid : List (Bytes × ℕ) → List Candidate → Type 0
Valid sessions [] = Unit {0}
Valid sessions (c ∷ cs) =
    (lookup c.session_id sessions ≡ some c.session)
    × All (λ d. c.session_id ≢ d.session_id) cs
    × Valid sessions cs

Valid-Keeps :
    (sid : Bytes) (before after : List (Bytes × ℕ)) (cs : List Candidate)
    → Keeps sid before after
    → All (λ d. sid ≢ d.session_id) cs
    → Valid before cs
    → Valid after cs
Valid-Keeps sid before after [] k n v = tt
Valid-Keeps sid before after (c ∷ cs) k n v =
    (k c.session_id c.session n.0 v.0, v.1, Valid-Keeps sid before after cs k n.1 v.2)

reap_candidates-Consistent :
    (now : ℕ) (clock : ℕ → ℕ → ℕ) (cs : List Candidate) (r : Reaped)
    → Consistent r.manager
    → Valid r.manager.sessions cs
    → Consistent (reap_candidates now clock cs r).manager
unfolding reap_candidates
reap_candidates-Consistent now clock [] r k v = k
reap_candidates-Consistent now clock (c ∷ cs) r k v =
    let r₁ : Reaped = reap_players (clock c.session) c.session c.stale_pids r in
    let (k₁, same) =
      reap_players-Consistent (clock c.session) c.session c.session_id c.stale_pids r k v.0 in
    let here : lookup c.session_id r₁.manager.sessions ≡ some c.session =
      ap (lookup c.session_id) same ∙ v.0 in
    let (k₂, keeps) = reap_session-Consistent now c.session c.session_id r₁ k₁ here in
    reap_candidates-Consistent now clock cs (reap_session now c.session_id c.session r₁) k₂ (
      Valid-Keeps c.session_id _ _ cs keeps v.1
        (subst (λ (t : List (Bytes × ℕ)). Valid t cs) (sym same) v.2))

-- Candidates that were found in the rest of the map are as good in the whole of it.
Valid-cons :
    (id : Bytes) (ref : ℕ) (rest : List (Bytes × ℕ)) (cs : List Candidate)
    → lookup id rest ≡ none
    → Valid rest cs
    → Valid ((id, ref) ∷ rest) cs × All (λ d. id ≢ d.session_id) cs
unfolding lookup
Valid-cons id ref rest [] u v = (tt, tt)
Valid-cons id ref rest (c ∷ cs) u v =
    let (w, n) = Valid-cons id ref rest cs u v.2 in
    let differ : id ≢ c.session_id =
      λ e. ground (arith, v.0, u, ap (λ (t : Bytes). lookup t rest) e) in
    ((ground (arith, v.0, differ, bytes_beq_iff id c.session_id), v.1, w), (differ, n))

candidate_of-cases :
    (heap : List Session) (now : ℕ) (clock : ℕ → ℕ) (id : Bytes) (ref : ℕ)
    → (candidate_of heap now clock id ref ≡ [])
      ⊎ ((stale : List ℕ) × (candidate_of heap now clock id ref
            ≡ record { session_id = id; session = ref; stale_pids = stale } ∷ []))
unfolding candidate_of
candidate_of-cases heap now clock id ref = elim (Option-cases (get_elem? heap ref)) [
  | inl e ↦ inl (ground (arith, e))
  | inr (s, e) ↦
      let stale : List ℕ = stale_players s player_timeout (clock ref) in
      elim (Bool-cases (not (length stale == 0) || is_empty_and_old s now)) [
        | inl found ↦ inr (stale, ground (arith, e, found))
        | inr nothing ↦ inl (ground (arith, e, nothing))
      ]
]

candidates-Valid :
    (heap : List Session) (now : ℕ) (clock : ℕ → ℕ) (sessions : List (Bytes × ℕ))
    → Unique sessions
    → Valid sessions (candidates heap now clock sessions)
unfolding candidates lookup
candidates-Valid heap now clock [] u = tt
candidates-Valid heap now clock ((id, ref) ∷ rest) u =
    let found = candidates heap now clock rest in
    let (w, n) = Valid-cons id ref rest found u.0 (candidates-Valid heap now clock rest u.1) in
    elim (candidate_of-cases heap now clock id ref) [
      | inl e ↦ rw e w
      | inr (stale, e) ↦ rw e (ground (arith, bytes_beq_iff id id), n, w)
    ]

-- A reaper cycle keeps the manager consistent, whatever the clock readings, if the sessions that
-- are registered when phase 2 starts are those of phase 1. Players may have joined, left and sent
-- packets in between.
pub reap-Consistent :
    (earlier m : Manager) (now₁ now₂ : ℕ) (clock₁ : ℕ → ℕ) (clock₂ : ℕ → ℕ → ℕ)
    → Consistent m
    → earlier.sessions ≡ m.sessions
    → Consistent (apply_removals m now₂ clock₂ (collect_stale earlier now₁ clock₁)).manager
unfolding apply_removals collect_stale
reap-Consistent earlier m now₁ now₂ clock₁ clock₂ c same =
    reap_candidates-Consistent now₂ clock₂ _ _ c (
      subst
        (λ (t : List (Bytes × ℕ)). Valid t (candidates earlier.heap now₁ clock₁ earlier.sessions))
        same
        (candidates-Valid earlier.heap now₁ clock₁ earlier.sessions
          (subst (λ (t : List (Bytes × ℕ)). Unique t) (sym same) c.sessions_unique)))
