-- ===== src/Adapter/Peer.antt =====
-- internal/adapter/peer.go: the local socket that stands for a remote player. What its goroutines do
-- with one packet is a function; what they hand on is a list of effects. `now` is UnixNano().
pub mod Echo
use fafsturmudprelay.Prelude.{
  ℕ, ◌+◌, ◌-◌, ◌*◌, ◌/◌, ◌%◌, ◌^◌, Option, none, some, Bool, true, false, ◌&&◌, List, [], ◌∷◌, ◌++◌,
  Bytes, length, take, drop, ltb, ◌==◌, is_some, if◌then◌else◌, bytes_beq,
}
use fafsturmudprelay.Protocol.Binary.{put_uint64_be, uint64_be}
use fafsturmudprelay.Relay.Session.Player.{AddrPort}

abbrev pub echo_magic_ping : Bytes
echo_magic_ping = 0xAF ∷ 0xEC ∷ 0xFA ∷ 0x00 ∷ []

abbrev pub echo_magic_pong : Bytes
echo_magic_pong = 0xAF ∷ 0xED ∷ 0xFA ∷ 0x00 ∷ []

abbrev pub echo_frame_size : ℕ
echo_frame_size = 12

-- make(chan []byte, 256)
abbrev pub channel_size : ℕ
channel_size = 256

-- `socket` is the local port. The handlers create peers for positive ids only, so an id is a number.
pub record Peer : Type 0 where
  pub player_id : ℕ
  pub login : Bytes
  pub added_order : ℕ
  pub local_id : ℕ
  pub socket : ℕ
  pub game_addr : Option AddrPort
  pub from_ch : List Bytes
  pub started : Bool
  pub rtt_ms : ℕ

-- uint32(p.PlayerID)
abbrev pub dest_of : Peer → ℕ
dest_of p = p.player_id % 2 ^ 32

-- What a peer asks of its relay connection and of its socket.
pub data Effect : Type 0 where
  send : (dest_id : ℕ) (payload : Bytes) → Effect
  write_to_game : AddrPort → Bytes → Effect

unfoldable pub start : Peer → Peer
start p = if p.started then p else record p { started = true }

-- gameToRelay on a packet that was read from the game.
unfoldable pub game_to_relay : Peer → AddrPort → Bytes → Peer × Effect
game_to_relay p remote_addr packet = (
  record p { game_addr = if is_some p.game_addr then p.game_addr else some remote_addr },
  send (dest_of p) packet,
)

-- The frame that pingLoop sends at each tick.
unfoldable pub ping_frame : ℕ → Bytes
unfolding put_uint64_be
ping_frame now = echo_magic_ping ++ put_uint64_be (now % 2 ^ 64)

abbrev pub pong_frame : Bytes → Bytes
pong_frame packet = echo_magic_pong ++ drop 4 packet

-- `rtt := now - sentNs; rtt > 0` on int64, which wraps.
abbrev pub since : ℕ → ℕ → ℕ
since now sent = (now + 2 ^ 64 - sent) % 2 ^ 64

abbrev pub is_positive : ℕ → Bool
is_positive rtt = ltb 0 rtt && ltb rtt (2 ^ 63)

abbrev pub measured : Peer → ℕ → Option ℕ → Peer
measured p now none = p
measured p now (some sent) =
    if is_positive (since now sent) then record p { rtt_ms = since now sent / 10 ^ 6 } else p

abbrev to_game : Peer → Bytes → Option AddrPort → List Effect
to_game p packet none = []
to_game p packet (some addr) = write_to_game addr packet ∷ []

-- relayToGame on a packet from the channel.
unfoldable pub relay_to_game : Peer → Bytes → ℕ → Peer × List Effect
relay_to_game p packet now =
    let is_echo : Bool = length packet == echo_frame_size in
    if is_echo && bytes_beq (take 4 packet) echo_magic_ping
    then (p, send (dest_of p) (pong_frame packet) ∷ [])
    else if is_echo && bytes_beq (take 4 packet) echo_magic_pong
    then (measured p now (uint64_be (drop 4 packet)), [])
    else (p, to_game p packet p.game_addr)

-- relayToGame: one packet is taken from the channel, if there is one.
unfoldable pub next_from_relay : Peer → ℕ → Peer × List Effect
unfolding relay_to_game
next_from_relay p now = elim p.from_ch [
  | [] ↦ (p, [])
  | packet ∷ rest ↦ relay_to_game (record p { from_ch = rest }) packet now
]

-- A packet that finds the channel full is dropped.
unfoldable pub deliver_from_relay : Peer → Bytes → Peer
deliver_from_relay p packet =
    if ltb (length p.from_ch) channel_size
    then record p { from_ch = p.from_ch ++ (packet ∷ []) }
    else p

-- `relay_rtt` is what the relay connection measured.
unfoldable pub peer_rtt_ms : Peer → ℕ → ℕ
peer_rtt_ms p relay_rtt = if ltb 0 p.rtt_ms then p.rtt_ms else relay_rtt

unfoldable pub rtt_is_estimated : Peer → Bool
rtt_is_estimated p = p.rtt_ms == 0
