-- ===== src/Relay/Session/Pinning.antt =====
-- IP pinning in internal/relay/session.go: what it keeps out, and what it lets through.
use fafsturmudprelay.Prelude.{
  ℕ, ◌≡◌, refl, Option, none, some, true, false, List, [], ◌∷◌, arith, ◌==◌, nat_eq, if◌then◌else◌,
  is_some, ◌≢◌, ◌<◌, ==_refl,
}
use fafsturmudprelay.Prelude.Map.{lookup-insert, insert-lookup}
use fafsturmudprelay.Relay.Session.Player.{
  AddrPort, Conn, PlayerInfo, is_valid, same_ip, player_update_addr, player_update_tcp, spoofed,
  max_packets_per_second,
}
use fafsturmudprelay.Relay.Session.{
  Session, get_player, update_player_addr, update_player_tcp, get_player_target, PlayerSendTarget,
  target_of,
}
use fafsturmudprelay.Relay.Session.Packets.{
  Packet, from_udp, from_tcp, sender, packet_step, run_packets, player_step, get_player-step,
  is_accepted,
}

pub same_ip-eq : (a b : Option ℕ) → same_ip a b ≡ true → a ≡ b
same_ip-eq none none h = refl
same_ip-eq none (some j) h = ground arith
same_ip-eq (some i) none h = ground arith
same_ip-eq (some i) (some j) h = ground arith

-- A UDP packet whose IP is not the one of the player's valid address is a spoofed one, and leaves
-- the whole session as it was, rate counter included.
pub spoofed_udp_refused :
    (s : Session) (id : ℕ) (p : PlayerInfo) (addr : AddrPort) (now : ℕ)
    → get_player s id ≡ some p
    → is_valid p.addr ≡ true
    → p.addr.ip ≢ addr.ip
    → update_player_addr s id addr now ≡ (s, spoofed)
unfolding get_player update_player_addr player_update_addr
spoofed_udp_refused s id p addr now h v other =
    ground (arith, same_ip-eq p.addr.ip addr.ip, insert-lookup id p s.players)

-- A TCP packet over a connection whose IP is not the pinned TCP IP of the player is a spoofed
-- one, leaves the whole session as it was, and gives no connection to close.
pub spoofed_tcp_refused :
    (s : Session) (id : ℕ) (p : PlayerInfo) (conn : Conn) (now : ℕ)
    → get_player s id ≡ some p
    → is_some p.tcp_ip ≡ true
    → p.tcp_ip ≢ conn.remote_ip
    → update_player_tcp s id conn now ≡ (s, spoofed, none)
unfolding get_player update_player_tcp player_update_tcp
spoofed_tcp_refused s id p conn now h v other =
    ground (arith, same_ip-eq p.tcp_ip conn.remote_ip, insert-lookup id p s.players)

player_step-pinned :
    (p : PlayerInfo) (x : Packet) → is_valid p.addr ≡ true → (player_step p x).0.addr.ip ≡ p.addr.ip
unfolding player_step player_update_addr player_update_tcp
player_step-pinned p (from_udp id addr now) h = ground (arith, same_ip-eq p.addr.ip addr.ip)
player_step-pinned p (from_tcp id conn now) h = ground arith

-- Once a player has a valid UDP address, no history of packets, from whatever addresses,
-- connections and claimed senders, changes the IP of the address, nor removes the player.
pub run-pins_udp_ip :
    (s : Session) (id : ℕ) (p : PlayerInfo) (packets : List Packet)
    → get_player s id ≡ some p
    → is_valid p.addr ≡ true
    → (q : PlayerInfo) × (get_player (run_packets s packets) id ≡ some q) × (q.addr.ip ≡ p.addr.ip)
unfolding run_packets
run-pins_udp_ip s id p [] h v = (p, h, refl)
run-pins_udp_ip s id p (x ∷ xs) h v =
    let p' : PlayerInfo = if sender x == id then (player_step p x).0 else p in
    let same : p'.addr.ip ≡ p.addr.ip = ground (arith, player_step-pinned p x) in
    let (q, found, ip) =
      run-pins_udp_ip (packet_step s x).0 id p' xs (get_player-step s x id p h)
        (ground (arith, same)) in
    (q, found, ground (arith, same, ip))

-- The two pins do not guard one another. A TCP packet from any connection is accepted for a player
-- with no TCP pin and room in its rate, whatever IP its UDP address is pinned to, and from then on
-- the connection is where the player's packets are sent.
pub tcp_takes_over_udp :
    (s : Session) (id : ℕ) (p : PlayerInfo) (conn : Conn) (now : ℕ)
    → get_player s id ≡ some p
    → p.tcp_ip ≡ none
    → p.rate_pkts < max_packets_per_second
    → (t : PlayerSendTarget) × (get_player_target (update_player_tcp s id conn now).0 id ≡ some t)
      × (t.tcp_conn ≡ some conn)
      × (is_accepted (update_player_tcp s id conn now).1 ≡ true)
unfolding get_player get_player_target update_player_tcp player_update_tcp
tcp_takes_over_udp s id p conn now h unpinned room =
    let q : PlayerInfo = (player_update_tcp p conn now).0 in
    (
      target_of id q,
      ground (arith, lookup-insert id id q s.players, ==_refl id),
      ground arith,
      ground arith,
    )

-- Nor does the TCP pin guard the UDP path: a UDP packet from any valid address is accepted for a
-- player with no valid UDP address and room in its rate, and clears the connection, so that the
-- player's packets are sent to that address; the TCP pin is gone if there was a connection.
pub udp_takes_over_tcp :
    (s : Session) (id : ℕ) (p : PlayerInfo) (addr : AddrPort) (now : ℕ)
    → get_player s id ≡ some p
    → is_valid p.addr ≡ false
    → p.rate_pkts < max_packets_per_second
    → (q : PlayerInfo) × (get_player (update_player_addr s id addr now).0 id ≡ some q)
      × (q.tcp_conn ≡ none)
      × (is_some p.tcp_conn ≡ true → q.tcp_ip ≡ none)
      × (q.addr ≡ addr)
      × (is_accepted (update_player_addr s id addr now).1 ≡ true)
unfolding get_player update_player_addr player_update_addr
udp_takes_over_tcp s id p addr now h unpinned room =
    let q : PlayerInfo = (player_update_addr p addr now).0 in
    (
      q,
      ground (arith, lookup-insert id id q s.players, ==_refl id),
      ground arith,
      ground arith,
      ground arith,
      ground arith,
    )
