-- ===== src/Relay/SessionManager/Consistency.antt =====
-- The invariant of the manager of internal/relay/session.go: the player index, the players of the
-- sessions and the two counters always tell the same story.
use fafsturmudprelay.Prelude.{
  ℕ, ◌≤◌, ◌≡◌, sym, ap, ◌∙◌, inl, inr, Option, none, some, Bool, true, false, List, Bytes, length,
  get_elem?, set, is_some, if◌then◌else◌, nat_eq, bytes_eq, bytes_beq, bytes_beq_iff, ◌==◌, arith,
  Option-cases, ℕ_discrete, get_elem?-set_self, get_elem?-set_ne, get_elem?-lt,
}
use fafsturmudprelay.Prelude.Int.{pos}
use fafsturmudprelay.Prelude.Map.{lookup, insert, delete, Unique, lookup-insert, lookup-delete}
use fafsturmudprelay.Relay.Session.{Session}
use fafsturmudprelay.Relay.Session.Capacity.{IsBounded}
use fafsturmudprelay.Relay.SessionManager.{Manager, max_total_sessions, max_total_players}

abbrev pub holds : Option Session → ℕ → Bool
holds none pid = false
holds (some s) pid = is_some (lookup pid s.players)

abbrev deref : List Session → Option ℕ → Option Session
deref heap none = none
deref heap (some ref) = get_elem? heap ref

-- Whether the registered session `sid` has player `pid`.
unfoldable pub has_player : List (Bytes × ℕ) → List Session → Bytes → ℕ → Bool
has_player sessions heap sid pid = holds (deref heap (lookup sid sessions)) pid

abbrev names : Option Bytes → Bytes → Bool
names none sid = false
names (some t) sid = bytes_beq t sid

-- Whether the index sends player `pid` to session `sid`.
unfoldable pub indexed : List (ℕ × Bytes) → ℕ → Bytes → Bool
indexed index pid sid = names (lookup pid index) sid

abbrev pub id_of : Option Session → Option Bytes
id_of none = none
id_of (some s) = some s.id

-- Each registered id points to a session with that id.
abbrev pub Pointers : List (Bytes × ℕ) → List Session → Type 0
Pointers sessions heap =
    (sid : Bytes) (ref : ℕ) → lookup sid sessions ≡ some ref → id_of (get_elem? heap ref) ≡ some sid

abbrev pub Agree : List (Bytes × ℕ) → List Session → List (ℕ × Bytes) → Type 0
Agree sessions heap index =
    (pid : ℕ) (sid : Bytes) → indexed index pid sid ≡ has_player sessions heap sid pid

abbrev pub AllBounded : List Session → Type 0
AllBounded heap = (ref : ℕ) (s : Session) → get_elem? heap ref ≡ some s → IsBounded s

pub record Consistent (m : Manager) : Type 0 where
  pub sessions_unique : Unique m.sessions
  pub index_unique : Unique m.player_index
  pub pointers : Pointers m.sessions m.heap
  pub agree : Agree m.sessions m.heap m.player_index
  pub bounded : AllBounded m.heap
  pub sessions_counted : m.metrics.active_sessions ≡ pos (length m.sessions)
  pub players_counted : m.metrics.active_players ≡ pos (length m.player_index)
  pub sessions_fit : length m.sessions ≤ max_total_sessions
  pub players_fit : length m.player_index ≤ max_total_players

-- Two registered ids never point to the same session.
pub Pointers-inj :
    (sessions : List (Bytes × ℕ)) (heap : List Session) (a b : Bytes) (r : ℕ)
    → Pointers sessions heap
    → lookup a sessions ≡ some r
    → lookup b sessions ≡ some r
    → a ≡ b
Pointers-inj sessions heap a b r ps ea eb = ground (arith, ps a r ea, ps b r eb)

module _ (sessions : List (Bytes × ℕ)) (heap : List Session) (sid : Bytes) (r : ℕ) (s t : Session)
    (ps : Pointers sessions heap) (here : lookup sid sessions ≡ some r)
    (at : get_elem? heap r ≡ some s) where
  -- A write through the pointer of `sid` shows in `sid` and in no other session.
  pub has_player-set :
      (other : Bytes) (pid : ℕ)
      → has_player sessions (set heap r t) other pid ≡ (
          if bytes_beq sid other
          then is_some (lookup pid t.players)
          else has_player sessions heap other pid)
  unfolding has_player
  has_player-set other pid = elim (Option-cases (lookup other sessions)) [
    | inl e ↦ ground (arith, e, bytes_beq_iff sid other)
    | inr (q, e) ↦ elim (ℕ_discrete r q) [
      | yes same ↦ ground (
        arith,
        e,
        Pointers-inj sessions heap sid other r ps here (e ∙ ap some (sym same)),
        get_elem?-set_self heap r t (get_elem?-lt heap r s at),
        bytes_beq_iff sid other,
      )
      | no differ ↦ ground (arith, e, get_elem?-set_ne heap r q t differ, bytes_beq_iff sid other)
    ]
  ]

  pub Pointers-set : t.id ≡ s.id → Pointers sessions (set heap r t)
  Pointers-set same other q e = elim (ℕ_discrete r q) [
    | yes eq ↦ ground (arith, ps other q e, get_elem?-set_self heap r t (get_elem?-lt heap r s at))
    | no differ ↦ ground (arith, ps other q e, get_elem?-set_ne heap r q t differ)
  ]

pub AllBounded-set :
    (heap : List Session) (r : ℕ) (s t : Session)
    → AllBounded heap
    → get_elem? heap r ≡ some s
    → IsBounded t
    → AllBounded (set heap r t)
AllBounded-set heap r s t h at b q u e = elim (ℕ_discrete r q) [
  | yes same ↦
      let eq : t ≡ u = ground (arith, get_elem?-set_self heap r t (get_elem?-lt heap r s at)) in
      rw (← eq) b
  | no differ ↦ h q u (sym (get_elem?-set_ne heap r q t differ) ∙ e)
]

pub indexed-insert :
    (index : List (ℕ × Bytes)) (k : ℕ) (t : Bytes) (pid : ℕ) (sid : Bytes)
    → indexed (insert k t index) pid sid
      ≡ (if k == pid then bytes_beq t sid else indexed index pid sid)
unfolding indexed
indexed-insert index k t pid sid = ground (arith, lookup-insert k pid t index)

pub indexed-delete :
    (index : List (ℕ × Bytes)) (k pid : ℕ) (sid : Bytes)
    → indexed (delete k index) pid sid ≡ (if k == pid then false else indexed index pid sid)
unfolding indexed
indexed-delete index k pid sid = ground (arith, lookup-delete k pid index)

-- The index sends a player to one session at most.
pub indexed-inj :
    (index : List (ℕ × Bytes)) (pid : ℕ) (a b : Bytes)
    → indexed index pid a ≡ true
    → indexed index pid b ≡ true
    → a ≡ b
unfolding indexed
indexed-inj index pid a b ha hb = elim (Option-cases (lookup pid index)) [
  | inl e ↦ ground (arith, e)
  | inr (t, e) ↦ ground (arith, e, bytes_beq_iff t a, bytes_beq_iff t b)
]
