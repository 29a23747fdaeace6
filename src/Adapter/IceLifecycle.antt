-- ===== src/Adapter/IceLifecycle.antt =====
-- The life of an ICE peer of internal/adapter/icepeer.go: its connection state, what asks for a restart, and
-- what is shown of it. The ICE library's agent reports states, and answers for the selected pair.
pub mod Restarts
use fafsturmudprelay.Prelude.{
  ℕ, suc, zero, ◌+◌, Option, none, some, Bool, true, false, not, ◌&&◌, ◌||◌, List, [], ◌∷◌, ◌++◌,
  Bytes, bytes_beq, ltb, if◌then◌else◌,
}
use fafsturmudprelay.Adapter.IceSignal.{FafIceMsg}

pub data ConnectionState : Type 0 where
  new checking connected completed disconnected failed closed : ConnectionState

-- `has_restart` and `has_connected` say whether the callbacks are set; `pending` counts the goroutines that
-- wait for answererRestartDelay; `fired` is restartOnce, `cancelled` the context of Start.
pub record Life : Type 0 where
  pub offerer : Bool
  pub has_restart : Bool
  pub has_connected : Bool
  pub ice_state : Option ConnectionState
  pub connected_at : Option ℕ
  pub pending : ℕ
  pub fired : Bool
  pub cancelled : Bool

-- onConnected, and onRestart by the peer itself, by hand and with a message of the remote peer.
pub data Effect : Type 0 where
  tell_connected automatic_restart manual_restart : Effect
  remote_restart : FafIceMsg → Effect

abbrev is_connected : ConnectionState → Bool
is_connected connected = true
is_connected _ = false

abbrev is_failed : ConnectionState → Bool
is_failed failed = true
is_failed _ = false

-- restartOnce.Do
unfoldable pub restart_once : Life → Life × List Effect
restart_once p = if p.fired then (p, []) else (record p { fired = true }, automatic_restart ∷ [])

-- What Failed leads to: an answerer waits before it restarts.
unfoldable pub on_failed : Life → Life × List Effect
unfolding restart_once
on_failed p =
    if not p.has_restart
    then (p, [])
    else if p.offerer
    then restart_once p
    else (record p { pending = suc p.pending }, [])

-- The callback of OnConnectionStateChange.
unfoldable pub on_state_change : Life → ConnectionState → ℕ → Life × List Effect
unfolding on_failed
on_state_change p state now =
    let p' : Life = record p {
      ice_state = some state;
      connected_at = if is_connected state then some now else none;
    } in
    if is_connected state
    then (p', if p.has_connected then tell_connected ∷ [] else [])
    else if is_failed state
    then on_failed p'
    else (p', [])

-- One of the waiting goroutines goes on: `after` says whether the delay has passed.
unfoldable pub delay_ends : Life → Life × List Effect
unfolding restart_once
delay_ends p = elim p.pending [
  | zero ↦ (p, [])
  | suc n ↦
      let q : Life = record p { pending = n } in if p.cancelled then (q, []) else restart_once q
]

-- The end of run after Dial or Accept returned an error.
unfoldable pub connect_failed : Life → Life × List Effect
unfolding restart_once
connect_failed p = if p.offerer && p.has_restart then restart_once p else (p, [])

unfoldable pub force_restart : Life → Life × List Effect
force_restart p = (p, if p.has_restart then manual_restart ∷ [] else [])

-- HandleIceMsg on new credentials.
unfoldable pub restart_from_remote : Life → FafIceMsg → Life × List Effect
restart_from_remote p msg = (p, if p.has_restart then remote_restart msg ∷ [] else [])

-- `credentials_failed` ends run before it connects, `read_failed` ends iceToGame: both only return.
pub data Event : Type 0 where
  state_changed : ConnectionState → ℕ → Event
  delay_ended dial_failed forced context_ended credentials_failed read_failed : Event
  new_credentials : FafIceMsg → Event

unfoldable pub handle : Life → Event → Life × List Effect
unfolding on_state_change delay_ends connect_failed force_restart restart_from_remote
handle p (state_changed state now) = on_state_change p state now
handle p delay_ended = delay_ends p
handle p dial_failed = connect_failed p
handle p forced = force_restart p
handle p context_ended = (record p { cancelled = true }, [])
handle p credentials_failed = (p, [])
handle p read_failed = (p, [])
handle p (new_credentials msg) = restart_from_remote p msg

unfoldable pub handle_all : Life → List Event → Life × List Effect
handle_all p [] = (p, [])
handle_all p (e ∷ es) =
    let (q, now) = handle p e in let (r, later) = handle_all q es in (r, now ++ later)

-- ICEState
unfoldable pub shown_state : Life → ConnectionState
shown_state p = elim p.ice_state [ none ↦ new | some state ↦ state ]

abbrev is_closed : Life → Bool
is_closed p = elim p.ice_state [
  | none ↦ false
  | some state ↦ elim state [ closed ↦ true | _ ↦ false ]
]

-- `stun` is the library's round-trip time, in whole milliseconds and whether it is positive at all.
unfoldable pub shown_rtt_ms : Life → Option (ℕ × Bool) → ℕ → ℕ
shown_rtt_ms p stun measured =
    if is_closed p
    then measured
    else (elim stun [ none ↦ measured | some (ms, _) ↦ if ltb 0 ms then ms else measured ])

unfoldable pub shown_rtt_is_estimated : Life → Option (ℕ × Bool) → Bool → Bool
shown_rtt_is_estimated p stun estimated = if is_closed p then estimated else (elim stun [
  | none ↦ estimated
  | some (_, positive) ↦ if positive then false else estimated
])

-- The selected pair, if there is one: the types of its two candidates, and the protocol to the relay if the
-- local one is relayed.
pub record SelectedPair : Type 0 where
  pub local_type : Bytes
  pub remote_type : Bytes
  pub relay_protocol : Option Bytes

pub data Transport : Type 0 where
  udp tcp : Transport

abbrev text_tcp : Bytes
text_tcp = b't' ∷ b'c' ∷ b'p' ∷ []

abbrev text_tls : Bytes
text_tls = b't' ∷ b'l' ∷ b's' ∷ []

unfoldable pub selected_transport : Life → Option SelectedPair → Transport
selected_transport p pair = if is_closed p then udp else (elim pair [
  | none ↦ udp
  | some s ↦ elim s.relay_protocol [
    | none ↦ udp
    | some proto ↦ if bytes_beq proto text_tcp || bytes_beq proto text_tls then tcp else udp
  ]
])

unfoldable pub selected_cand_types : Life → Option SelectedPair → Bytes × Bytes
selected_cand_types p pair =
    if is_closed p
    then ([], [])
    else (elim pair [ none ↦ ([], []) | some s ↦ (s.local_type, s.remote_type) ])
