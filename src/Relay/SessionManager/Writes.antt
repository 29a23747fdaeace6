-- ===== src/Relay/SessionManager/Writes.antt =====
-- Writes through session pointers in internal/relay/session.go, and what they do to the consistency
-- of the manager: changes that keep the players, and the removal of a player.
use fafsturmudprelay.Prelude.{
  ℕ, ◌≡◌, ◌≢◌, refl, sym, ◌∙◌, inl, inr, some, true, false, Bytes, get_elem?, set, is_some, nat_eq,
  bytes_eq, bytes_beq, bytes_beq_iff, ==_iff, arith, Option-cases, ℕ_discrete, get_elem?-set_self,
  get_elem?-set_ne, get_elem?-lt, Bool-cases,
}
use mathlib.Core.Bool.{false≢true}
use fafsturmudprelay.Prelude.Int.{negsuc, ◌+ℤ◌}
use fafsturmudprelay.Prelude.Map.{lookup, delete, lookup-delete, delete-Unique, length-delete}
use fafsturmudprelay.Relay.Metrics.{add_players}
use fafsturmudprelay.Relay.Session.{Session}
use fafsturmudprelay.Relay.Session.Capacity.{IsBounded, delete-IsBounded}
use fafsturmudprelay.Relay.SessionManager.{Manager, modify}
use fafsturmudprelay.Relay.SessionManager.Consistency.{
  Consistent, has_player, indexed, Pointers, has_player-set, Pointers-set, AllBounded-set,
  indexed-delete, indexed-inj,
}

-- A change of a session that its id and the presence of players survive.
pub record Harmless (s t : Session) : Type 0 where
  pub same_id : t.id ≡ s.id
  pub same_players : (pid : ℕ) → is_some (lookup pid t.players) ≡ is_some (lookup pid s.players)
  pub still_bounded : IsBounded s → IsBounded t

module _ (m : Manager) (c : Consistent m) (ref : ℕ) (s t : Session)
    (at : get_elem? m.heap ref ≡ some s) where
  has_player-Harmless :
      Harmless s t
      → (sid : Bytes) (pid : ℕ)
      → has_player m.sessions (set m.heap ref t) sid pid ≡ has_player m.sessions m.heap sid pid
  unfolding has_player
  has_player-Harmless h sid pid = elim (Option-cases (lookup sid m.sessions)) [
    | inl e ↦ ground (arith, e)
    | inr (q, e) ↦ elim (ℕ_discrete ref q) [
      | yes same ↦
          let there : get_elem? m.heap q ≡ some s = rw (← same) at in
          let now : get_elem? (set m.heap ref t) q ≡ some t =
            rw (← same) (get_elem?-set_self m.heap ref t (get_elem?-lt m.heap ref s at)) in
          ground (arith, e, there, now, h.same_players pid)
      | no differ ↦ ground (arith, e, get_elem?-set_ne m.heap ref q t differ)
    ]
  ]

  Pointers-Harmless : Harmless s t → Pointers m.sessions (set m.heap ref t)
  Pointers-Harmless h other q e = elim (ℕ_discrete ref q) [
    | yes same ↦ ground (
      arith,
      c.pointers other q e,
      h.same_id,
      get_elem?-set_self m.heap ref t (get_elem?-lt m.heap ref s at),
    )
    | no differ ↦ ground (arith, c.pointers other q e, get_elem?-set_ne m.heap ref q t differ)
  ]

  -- A harmless change through any pointer, registered or not, keeps the manager consistent.
  pub set-Consistent : Harmless s t → Consistent (record m { heap = set m.heap ref t })
  set-Consistent h = record {
    sessions_unique = c.sessions_unique;
    index_unique = c.index_unique;
    pointers = Pointers-Harmless h;
    agree = λ pid sid. c.agree pid sid ∙ sym (has_player-Harmless h sid pid);
    bounded = AllBounded-set m.heap ref s t c.bounded at (h.still_bounded (c.bounded ref s at));
    sessions_counted = c.sessions_counted;
    players_counted = c.players_counted;
    sessions_fit = c.sessions_fit;
    players_fit = c.players_fit;
  }

pub Harmless-modify :
    (m : Manager) (ref : ℕ) (f : Session → Session)
    → Consistent m
    → ((s : Session) → Harmless s (f s))
    → Consistent (modify m ref f)
unfolding modify
Harmless-modify m ref f c h = elim (Option-cases (get_elem? m.heap ref)) [
  | inl e ↦ rw (e, modify) c
  | inr (s, e) ↦ rw (e, modify) (set-Consistent m c ref s (f s) e (h s))
]

-- The manager without player `pid`, who left the session at `ref` as `t`.
abbrev pub expel : Manager → ℕ → Session → ℕ → Manager
expel m ref t pid = record m {
  heap = set m.heap ref t;
  player_index = delete pid m.player_index;
  metrics = add_players m.metrics (negsuc 0);
}

module _ (m : Manager) (c : Consistent m) (sid : Bytes) (ref : ℕ) (s : Session) (pid : ℕ)
    (here : lookup sid m.sessions ≡ some ref) (at : get_elem? m.heap ref ≡ some s)
    (present : is_some (lookup pid s.players) ≡ true) where
  indexed-here : indexed m.player_index pid sid ≡ true
  indexed-here = c.agree pid sid ∙ (unfold has_player in ground (arith, here, at, present))

  -- The player is in no other session.
  not_elsewhere : (other : Bytes) → sid ≢ other → has_player m.sessions m.heap other pid ≡ false
  not_elsewhere other differ = elim (Bool-cases (indexed m.player_index pid other)) [
    | inl yes' ↦ absurd (differ (indexed-inj m.player_index pid sid other indexed-here yes'))
    | inr no' ↦ sym (c.agree pid other) ∙ no'
  ]

  expel-Agree :
      (p : ℕ) (other : Bytes)
      → indexed (delete pid m.player_index) p other
        ≡ has_player m.sessions
            (set m.heap ref (record s { players = delete pid s.players }))
            other
            p
  expel-Agree p other = elim (Bool-cases (bytes_beq sid other)) [
    | inl same ↦ ground (
      arith,
      same,
      has_player-set m.sessions m.heap sid ref s t c.pointers here at other p,
      indexed-delete m.player_index pid p other,
      lookup-delete pid p s.players,
      agree_here p,
      (bytes_beq_iff sid other).0 same,
    )
    | inr differ ↦ ground (
      arith,
      differ,
      has_player-set m.sessions m.heap sid ref s t c.pointers here at other p,
      indexed-delete m.player_index pid p other,
      c.agree p other,
      ==_iff pid p,
      not_elsewhere other (λ e. false≢true (sym differ ∙ (bytes_beq_iff sid other).1 e)),
    )
  ]
    where
      t : Session
      t = record s { players = delete pid s.players }

      agree_here : (q : ℕ) → indexed m.player_index q sid ≡ is_some (lookup q s.players)
      agree_here q = c.agree q sid ∙ (unfold has_player in ground (arith, here, at))

  index_present : is_some (lookup pid m.player_index) ≡ true
  unfolding indexed
  index_present = ground (arith, indexed-here)

  pub expel-Consistent : Consistent (expel m ref (record s { players = delete pid s.players }) pid)
  unfolding ◌+ℤ◌
  expel-Consistent = record {
    sessions_unique = c.sessions_unique;
    index_unique = delete-Unique pid m.player_index c.index_unique;
    pointers = Pointers-set m.sessions m.heap sid ref s _ c.pointers here at refl;
    agree = expel-Agree;
    bounded =
        AllBounded-set m.heap ref s _ c.bounded at (delete-IsBounded s pid (c.bounded ref s at));
    sessions_counted = c.sessions_counted;
    players_counted =
        ground (
          arith,
          c.players_counted,
          index_present,
          length-delete pid m.player_index c.index_unique,
        );
    sessions_fit = c.sessions_fit;
    players_fit =
        ground
          (arith, c.players_fit, index_present, length-delete pid m.player_index c.index_unique);
  }
