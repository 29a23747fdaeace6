-- ===== src/Relay/Session/Packets.antt =====
-- Histories of packets: what the UDP and the TCP path do to a session of
-- internal/relay/session.go, one packet after the other, from any senders.
use fafsturmudprelay.Prelude.{
  ℕ, ◌+◌, ◌≡◌, some, Bool, true, false, List, [], ◌∷◌, arith, ◌==◌, ==_iff, nat_eq, if◌then◌else◌,
  ◌&&◌, Option-cases, inl, inr,
}
use fafsturmudprelay.Prelude.Map.{lookup, lookup-insert}
use fafsturmudprelay.Relay.Session.Player.{
  AddrPort, Conn, PlayerInfo, Verdict, verdict_ok, first_addr, player_update_addr,
  player_update_tcp,
}
use fafsturmudprelay.Relay.Session.{
  Session, store, get_player, update_player_addr, update_player_tcp,
}

-- The player id that the packet claims, where it came from, and when.
pub data Packet : Type 0 where
  from_udp : ℕ → AddrPort → ℕ → Packet
  from_tcp : ℕ → Conn → ℕ → Packet

abbrev pub sender : Packet → ℕ
sender (from_udp id addr now) = id
sender (from_tcp id conn now) = id

abbrev pub time_of : Packet → ℕ
time_of (from_udp id addr now) = now
time_of (from_tcp id conn now) = now

unfoldable pub packet_step : Session → Packet → Session × Verdict
packet_step s (from_udp id addr now) = update_player_addr s id addr now
packet_step s (from_tcp id conn now) =
    let (t, verdict, old_conn) = update_player_tcp s id conn now in (t, verdict)

unfoldable pub run_packets : Session → List Packet → Session
unfolding packet_step
run_packets s [] = s
run_packets s (x ∷ xs) = run_packets (packet_step s x).0 xs

abbrev pub is_accepted : Verdict → Bool
is_accepted verdict_ok = true
is_accepted first_addr = true
is_accepted _ = false

-- How many packets of the history that claim `id` are accepted.
unfoldable pub accepted : ℕ → Session → List Packet → ℕ
unfolding packet_step
accepted id s [] = 0
accepted id s (x ∷ xs) =
    (if sender x == id && is_accepted (packet_step s x).1 then 1 else 0)
    + accepted id (packet_step s x).0 xs

-- What a packet does to the player that it claims.
unfoldable pub player_step : PlayerInfo → Packet → PlayerInfo × Verdict
player_step p (from_udp id addr now) = player_update_addr p addr now
player_step p (from_tcp id conn now) =
    let (q, verdict, old_conn) = player_update_tcp p conn now in (q, verdict)

pub get_player-store :
    (s : Session) (k : ℕ) (q : PlayerInfo) (id : ℕ)
    → get_player (store s k q) id ≡ (if k == id then some q else get_player s id)
unfolding get_player store
get_player-store s k q id = lookup-insert k id q s.players

get_player-update_addr :
    (s : Session) (k : ℕ) (addr : AddrPort) (now id : ℕ) (p : PlayerInfo)
    → get_player s id ≡ some p
    → get_player (update_player_addr s k addr now).0 id
      ≡ some (if k == id then (player_update_addr p addr now).0 else p)
unfolding update_player_addr get_player
get_player-update_addr s k addr now id p h = elim (Option-cases (lookup k s.players)) [
  | inl e ↦ ground (arith, e, ==_iff k id)
  | inr (q, e) ↦
      ground (arith, e, lookup-insert k id (player_update_addr q addr now).0 s.players, ==_iff k id)
]

get_player-update_tcp :
    (s : Session) (k : ℕ) (conn : Conn) (now id : ℕ) (p : PlayerInfo)
    → get_player s id ≡ some p
    → get_player (update_player_tcp s k conn now).0 id
      ≡ some (if k == id then (player_update_tcp p conn now).0 else p)
unfolding update_player_tcp get_player
get_player-update_tcp s k conn now id p h = elim (Option-cases (lookup k s.players)) [
  | inl e ↦ ground (arith, e, ==_iff k id)
  | inr (q, e) ↦
      ground (arith, e, lookup-insert k id (player_update_tcp q conn now).0 s.players, ==_iff k id)
]

-- A packet changes at most the player that it claims.
pub get_player-step :
    (s : Session) (x : Packet) (id : ℕ) (p : PlayerInfo)
    → get_player s id ≡ some p
    → get_player (packet_step s x).0 id ≡ some (if sender x == id then (player_step p x).0 else p)
unfolding packet_step player_step
get_player-step s (from_udp k addr now) id p h = get_player-update_addr s k addr now id p h
get_player-step s (from_tcp k conn now) id p h = get_player-update_tcp s k conn now id p h

-- The verdict on a packet of a known player is the verdict on the player.
pub verdict-step :
    (s : Session) (x : Packet) (p : PlayerInfo)
    → get_player s (sender x) ≡ some p
    → (packet_step s x).1 ≡ (player_step p x).1
unfolding packet_step player_step get_player update_player_addr update_player_tcp
verdict-step s (from_udp k addr now) p h = ground arith
verdict-step s (from_tcp k conn now) p h = ground arith
