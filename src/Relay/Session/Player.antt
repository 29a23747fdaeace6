-- ===== src/Relay/Session/Player.antt =====
-- PlayerInfo of internal/relay/session.go: one player's transports and rate, and what a packet
-- does to them. The maps of the session are in the parent.
use fafsturmudprelay.Prelude.{
  ℕ, ◌+◌, ◌/◌, ◌%◌, ◌^◌, Option, none, some, Bool, true, false, not, ◌&&◌, Bytes, leb, ◌==◌,
  is_some, if◌then◌else◌,
}

-- netip.AddrPort: the zero value has no IP and is not valid.
pub record AddrPort : Type 0 where
  pub ip : Option ℕ
  pub port : ℕ

abbrev pub no_addr : AddrPort
no_addr = record { ip = none; port = 0 }

abbrev pub is_valid : AddrPort → Bool
is_valid a = is_some a.ip

-- A net.Conn: which one it is, and the IP that its RemoteAddr parses to, if it does.
pub record Conn : Type 0 where
  pub handle : ℕ
  pub remote_ip : Option ℕ

abbrev pub tcp_conn_ip : Option Conn → Option ℕ
tcp_conn_ip none = none
tcp_conn_ip (some conn) = conn.remote_ip

abbrev pub same_ip : Option ℕ → Option ℕ → Bool
same_ip none none = true
same_ip none (some j) = false
same_ip (some i) none = false
same_ip (some i) (some j) = i == j

pub data Transport : Type 0 where
  unset udp tcp : Transport

pub data Verdict : Type 0 where
  verdict_ok first_addr unknown spoofed rate_limited : Verdict

abbrev pub max_packets_per_second : ℕ
max_packets_per_second = 2000

pub record PlayerInfo : Type 0 where
  pub player_id : ℕ
  pub login : Bytes
  pub addr : AddrPort
  pub tcp_conn : Option Conn
  pub tcp_ip : Option ℕ
  pub transport : Transport
  pub last_seen : Option ℕ
  pub rate_pkts : ℕ
  pub rate_second : ℕ

abbrev pub new_player : ℕ → Bytes → PlayerInfo
new_player player_id login = record {
  player_id = player_id;
  login = login;
  addr = no_addr;
  tcp_conn = none;
  tcp_ip = none;
  transport = unset;
  last_seen = none;
  rate_pkts = 0;
  rate_second = 0;
}

-- time.Time.Unix
abbrev pub unix : ℕ → ℕ
unix now = now / 10 ^ 9

-- The uint32 counter wraps.
unfoldable pub check_rate : PlayerInfo → ℕ → PlayerInfo × Bool
check_rate p now_unix =
    let pkts : ℕ = if p.rate_second == now_unix then p.rate_pkts else 0 in
    let counted : ℕ = (pkts + 1) % 2 ^ 32 in
    (record p { rate_second = now_unix; rate_pkts = counted }, leb counted max_packets_per_second)

-- What UpdatePlayerAddr does with the player that it found.
unfoldable pub player_update_addr : PlayerInfo → AddrPort → ℕ → PlayerInfo × Verdict
unfolding check_rate
player_update_addr p addr now =
    if is_valid p.addr && not (same_ip p.addr.ip addr.ip)
    then (p, spoofed)
    else (let (q, within) = check_rate p (unix now) in
        if not within then (q, rate_limited) else (
          record q {
            addr = addr;
            tcp_conn = none;
            tcp_ip = if is_some q.tcp_conn then none else q.tcp_ip;
            transport = udp;
            last_seen = some now;
          },
          if not (is_valid q.addr) && not (is_some q.tcp_conn) then first_addr else verdict_ok,
        ))

-- What UpdatePlayerTCP does with the player that it found; last, the connection it replaces.
unfoldable pub player_update_tcp : PlayerInfo → Conn → ℕ → PlayerInfo × Verdict × Option Conn
unfolding check_rate
player_update_tcp p conn now =
    let conn_ip : Option ℕ = tcp_conn_ip (some conn) in
    if is_some p.tcp_ip && not (same_ip p.tcp_ip conn_ip)
    then (p, spoofed, none)
    else (let (q, within) = check_rate p (unix now) in
        if not within then (q, rate_limited, none) else (
          record q {
            tcp_conn = some conn;
            tcp_ip = if not (is_some q.tcp_ip) && is_some conn_ip then conn_ip else q.tcp_ip;
            transport = tcp;
            last_seen = some now;
          },
          if not (is_some q.tcp_conn) && not (is_valid q.addr) then first_addr else verdict_ok,
          q.tcp_conn,
        ))
