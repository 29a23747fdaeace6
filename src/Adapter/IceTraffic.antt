-- ===== src/Adapter/IceTraffic.antt =====
-- iceToGame, gameToICE and the echo loops of internal/adapter/icepeer.go. `now` is UnixMilli(), as the 64
-- bits of an int64. Logging is left out.
pub mod Early
pub mod Rtt
use fafsturmudprelay.Prelude.{
  ℕ, ◌+◌, ◌-◌, ◌*◌, ◌%◌, ◌^◌, Option, none, some, Bool, true, false, not, ◌&&◌, List, [], ◌∷◌, ◌++◌,
  Bytes, length, ltb, ◌==◌, if◌then◌else◌,
}
use fafsturmudprelay.Protocol.Binary.{put_uint32_be, uint32_be, put_uint64_be, uint64_be}
use fafsturmudprelay.Relay.Session.Player.{AddrPort}
use fafsturmudprelay.Adapter.Peer.{since}

-- 'd', 'e', 'f' and 'r'.
abbrev pub faf_prefix_data : ℕ
faf_prefix_data = 100

abbrev pub faf_prefix_echo : ℕ
faf_prefix_echo = 101

abbrev pub faf_prefix_answer_echo : ℕ
faf_prefix_answer_echo = 102

abbrev pub faf_prefix_rtt_report : ℕ
faf_prefix_rtt_report = 114

abbrev pub faf_echo_len : ℕ
faf_echo_len = 9

abbrev pub faf_rtt_report_len : ℕ
faf_rtt_report_len = 5

abbrev pub early_buf_cap : ℕ
early_buf_cap = 64

-- The fields of an ICE peer that its two loops use, and iceToGame's buffer.
pub record IceTraffic : Type 0 where
  pub offerer : Bool
  pub game_addr : Option AddrPort
  pub early_buf : List Bytes
  pub rtt_ms : ℕ
  pub rtt_estimated : Bool

pub data Effect : Type 0 where
  write_game : AddrPort → Bytes → Effect
  write_ice : Bytes → Effect

abbrev pub writes : AddrPort → List Bytes → List Effect
writes addr [] = []
writes addr (pkt ∷ pkts) = write_game addr pkt ∷ writes addr pkts

-- Game data: kept for later while the game's address is not known.
unfoldable pub forward_data : IceTraffic → Bytes → IceTraffic × List Effect
forward_data p [] = (p, [])
forward_data p (b ∷ bs) = elim p.game_addr [
  | none ↦ (
    if ltb (length p.early_buf) early_buf_cap
        then record p { early_buf = p.early_buf ++ ((b ∷ bs) ∷ []) }
        else p,
    [],
  )
  | some addr ↦
      (record p { early_buf = [] }, writes addr p.early_buf ++ (write_game addr (b ∷ bs) ∷ []))
]

-- `rtt >= 0 && rtt < 60000` on int64: a negative difference is 2^63 or more here.
abbrev pub is_sane : ℕ → Bool
is_sane rtt = ltb rtt 60000

abbrev pub direct : IceTraffic → ℕ → IceTraffic
direct p rtt = record p { rtt_ms = rtt; rtt_estimated = false }

abbrev pub rtt_report : ℕ → Bytes
rtt_report rtt = faf_prefix_rtt_report ∷ put_uint32_be rtt

-- The offerer's own echo has come back. Its rttEstimated is left as it is.
abbrev pub on_own_echo : IceTraffic → ℕ → ℕ → IceTraffic × List Effect
on_own_echo p now ts =
    let rtt = since now ts in
    if is_sane rtt then (record p { rtt_ms = rtt }, write_ice (rtt_report rtt) ∷ []) else (p, [])

-- The offerer's echo at the answerer: an estimate, if there is no measurement, and the echo goes back.
abbrev pub on_remote_echo : IceTraffic → ℕ → ℕ → IceTraffic
on_remote_echo p now ts =
    let one_way = since now ts in
    if ltb one_way 30000 && p.rtt_ms == 0
    then record p { rtt_ms = one_way * 2; rtt_estimated = true }
    else p

abbrev pub on_time {ℓ} : {A : Type ℓ} → Option ℕ → A → (ℕ → A) → A
on_time none a f = a
on_time (some ts) a f = f ts

unfoldable pub receive_echo : IceTraffic → Bytes → ℕ → IceTraffic × List Effect
receive_echo p stamp now =
    if not (length stamp + 1 == faf_echo_len)
    then (p, [])
    else if p.offerer
    then on_time (uint64_be stamp) (p, []) (on_own_echo p now)
    else (
      on_time (uint64_be stamp) p (on_remote_echo p now),
      write_ice (faf_prefix_echo ∷ stamp) ∷ [],
    )

abbrev pub on_reflected : IceTraffic → ℕ → ℕ → IceTraffic
on_reflected p now ts = let rtt = since now ts in if is_sane rtt then direct p rtt else p

unfoldable pub receive_answer_echo : IceTraffic → Bytes → ℕ → IceTraffic × List Effect
receive_answer_echo p stamp now =
    if not (length stamp + 1 == faf_echo_len)
    then (p, [])
    else if p.offerer
    then (p, write_ice (faf_prefix_answer_echo ∷ stamp) ∷ [])
    else (on_time (uint64_be stamp) p (on_reflected p now), [])

abbrev pub on_report : IceTraffic → ℕ → IceTraffic
on_report p rtt = if is_sane rtt then direct p rtt else p

unfoldable pub receive_rtt_report : IceTraffic → Bytes → IceTraffic
receive_rtt_report p body =
    if (length body + 1 == faf_rtt_report_len) && not p.offerer
    then on_time (uint32_be body) p (on_report p)
    else p

-- iceToGame on one packet. Packets with another prefix are dropped.
unfoldable pub ice_to_game : IceTraffic → Bytes → ℕ → IceTraffic × List Effect
unfolding forward_data receive_echo receive_answer_echo receive_rtt_report
ice_to_game p [] now = (p, [])
ice_to_game p (prefix ∷ body) now =
    if prefix == faf_prefix_data
    then forward_data p body
    else if prefix == faf_prefix_echo
    then receive_echo p body now
    else if prefix == faf_prefix_answer_echo
    then receive_answer_echo p body now
    else if prefix == faf_prefix_rtt_report
    then (receive_rtt_report p body, [])
    else (p, [])

-- The game's address is the latest, told apart by its port.
abbrev pub learn_addr : Option AddrPort → AddrPort → AddrPort
learn_addr none remote_addr = remote_addr
learn_addr (some addr) remote_addr = if addr.port == remote_addr.port then addr else remote_addr

-- gameToICE on one packet; `connected` says whether there is a connection after the wait for it.
unfoldable pub game_to_ice : IceTraffic → AddrPort → Bytes → Bool → IceTraffic × List Effect
game_to_ice p remote_addr packet connected = (
  record p { game_addr = some (learn_addr p.game_addr remote_addr) },
  if connected then write_ice (faf_prefix_data ∷ packet) ∷ [] else [],
)

-- What sendEchoLoop and sendAnswerEchoLoop write.
unfoldable pub echo_packet : ℕ → ℕ → Bytes
unfolding put_uint64_be
echo_packet prefix now = prefix ∷ put_uint64_be now
