-- ===== src/Adapter/IceSignal.antt =====
-- HandleIceMsg of internal/adapter/icepeer.go, and the step of run that takes a message. `parse` is
-- json.Unmarshal into the message.
use fafsturmudprelay.Prelude.{
  ℕ, ◌≤◌, ◌≡◌, refl, Option, none, some, Bool, true, false, not, ◌||◌, ◌&&◌, List, [], ◌∷◌, ◌++◌,
  Bytes, bytes_beq, length, length-append, length-drop, drop, ltb, ◌==◌, arith, if◌then◌else◌,
  Bool-cases, inl, inr,
}
use fafsturmudprelay.Prelude.Int.{ℤ}

abbrev pub signal_queue_size : ℕ
signal_queue_size = 4

-- `kind` is the field `type` of the JSON.
pub record FafIceCandidate : Type 0 where
  pub foundation : Bytes
  pub protocol : Bytes
  pub priority : ℕ
  pub ip : Bytes
  pub port : ℤ
  pub kind : Bytes
  pub generation : ℤ
  pub id : Bytes
  pub rel_addr : Option Bytes
  pub rel_port : ℤ

pub record FafIceMsg : Type 0 where
  pub src_id : ℤ
  pub dest_id : ℤ
  pub password : Bytes
  pub ufrag : Bytes
  pub candidates : List FafIceCandidate

pub record IceSignal : Type 0 where
  pub remote_ufrag : Bytes
  pub remote_msg : List FafIceMsg

pub data SignalResult : Type 0 where
  parse_error ignored queued : SignalResult
  restart : FafIceMsg → SignalResult

-- The newest messages are kept when the channel is full.
abbrev pub push_newest : List FafIceMsg → FafIceMsg → List FafIceMsg
push_newest q msg =
    if ltb (length q) signal_queue_size then q ++ (msg ∷ []) else drop 1 q ++ (msg ∷ [])

abbrev pub is_empty : Bytes → Bool
is_empty s = length s == 0

unfoldable pub handle_msg : IceSignal → FafIceMsg → IceSignal × SignalResult
handle_msg p msg =
    if is_empty msg.ufrag || is_empty msg.password
    then (p, ignored)
    else if not (is_empty p.remote_ufrag) && not (bytes_beq msg.ufrag p.remote_ufrag)
    then (p, restart msg)
    else (record p { remote_msg = push_newest p.remote_msg msg }, queued)

unfoldable pub handle_ice_msg :
    (Bytes → Option FafIceMsg) → IceSignal → Bytes → IceSignal × SignalResult
unfolding handle_msg
handle_ice_msg parse p msg_json = elim (parse msg_json) [
  | none ↦ (p, parse_error)
  | some msg ↦ handle_msg p msg
]

-- run takes the first message that waits, and remembers whose it is.
unfoldable pub take_message : IceSignal → IceSignal × Option FafIceMsg
take_message p = elim p.remote_msg [
  | [] ↦ (p, none)
  | msg ∷ rest ↦ (record { remote_ufrag = msg.ufrag; remote_msg = rest }, some msg)
]

abbrev pub HasCredentials : FafIceMsg → Type 0
HasCredentials msg = (is_empty msg.ufrag ≡ false) × (is_empty msg.password ≡ false)

pushed :
    (q : List FafIceMsg) (msg : FafIceMsg)
    → length q ≤ signal_queue_size
    → (length (push_newest q msg) ≤ signal_queue_size)
      × ((front : List FafIceMsg) × (push_newest q msg ≡ front ++ (msg ∷ [])))
pushed q msg room = elim (Bool-cases (ltb (length q) signal_queue_size)) [
  | inl e ↦ rw (e) (ground (arith, e, length-append q (msg ∷ [])), (q, refl))
  | inr e ↦ rw (e) (
    ground (arith, e, room, length-append (drop 1 q) (msg ∷ []), length-drop 1 q),
    (drop 1 q, refl),
  )
]

-- Until the remote peer is known, a message with credentials is the last of those that wait, however
-- many there were, and no more than four wait; once it is known, a message with another user fragment
-- asks for a restart with that message and leaves what waits as it was.
pub newest_message_is_kept :
    (p : IceSignal) (msg : FafIceMsg)
    → HasCredentials msg
    → length p.remote_msg ≤ signal_queue_size
    → let (p', r) = handle_msg p msg in
      (is_empty p.remote_ufrag ≡ true
        → (r ≡ queued)
          × (length p'.remote_msg ≤ signal_queue_size)
          × ((front : List FafIceMsg) × (p'.remote_msg ≡ front ++ (msg ∷ []))))
      × (is_empty p.remote_ufrag ≡ false
          → bytes_beq msg.ufrag p.remote_ufrag ≡ false
          → (r ≡ restart msg) × (p' ≡ p))
unfolding handle_msg
newest_message_is_kept p msg given room =
    let next = pushed p.remote_msg msg room in
    (
      λ unknown. rw (given.0, given.1, unknown, handle_msg) (refl, next.0, next.1),
      λ known other. rw (given.0, given.1, known, other, handle_msg) (refl, refl),
    )
