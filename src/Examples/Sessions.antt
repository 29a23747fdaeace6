-- ===== src/Examples/Sessions.antt =====
-- A concrete session (internal/relay/session.go): player 7 on UDP, player 8 on TCP.
use fafsturmudprelay.Prelude.{ℕ, ◌*◌, ◌^◌, ◌≡◌, ◌≤◌, refl, some, List, [], ◌∷◌, arith, nat_eq}
use fafsturmudprelay.Prelude.Int.{pos}
use fafsturmudprelay.Prelude.Map.{lookup, insert, Unique}
use fafsturmudprelay.Outcome.{ok}
use fafsturmudprelay.Relay.Session.Player.{
  AddrPort, Conn, PlayerInfo, new_player, udp, tcp, max_packets_per_second,
}
use fafsturmudprelay.Relay.Session.{
  Session, new_session, add_player, get_player, other_player_targets, get_player_target,
}
use fafsturmudprelay.Relay.Session.Packets.{Packet, from_udp, from_tcp, run_packets, accepted}
use fafsturmudprelay.Relay.Session.Pinning.{run-pins_udp_ip}
use fafsturmudprelay.Relay.Session.Rate.{accepted-le-max}
use fafsturmudprelay.Relay.Session.Targets.{targets_for-others, targets_for, owed, unicast_way}

abbrev pub second : ℕ
second = 10 ^ 9

abbrev pub home : AddrPort
home = record { ip = some 10; port = 4000 }

abbrev pub attacker : AddrPort
attacker = record { ip = some 66; port = 1 }

abbrev pub wire : Conn
wire = record { handle = 3; remote_ip = some 20 }

abbrev pub intruder : Conn
intruder = record { handle = 4; remote_ip = some 66 }

abbrev pub ann : PlayerInfo
ann = record (new_player 7 (97 ∷ [])) { addr = home; transport = udp; last_seen = some second }

abbrev pub bob : PlayerInfo
bob = record (new_player 8 (98 ∷ [])) {
  tcp_conn = some wire;
  tcp_ip = some 20;
  transport = tcp;
  last_seen = some (50 * second);
}

abbrev pub game : Session
game = record {
  id = 103 ∷ [];
  max_players = pos 12;
  created_at = 0;
  players = (7, ann) ∷ (8, bob) ∷ [];
}

abbrev traffic : List Packet
traffic = from_udp 7 attacker second ∷ from_tcp 7 intruder second ∷ from_udp 7 home second ∷ []

run-pins_udp_ip_example :
    (q : PlayerInfo) × (get_player (run_packets game traffic) 7 ≡ some q) × (q.addr.ip ≡ some 10)
unfolding get_player lookup
run-pins_udp_ip_example = run-pins_udp_ip game 7 ann traffic refl refl

accepted-le-max_example : accepted 7 game traffic ≤ max_packets_per_second
unfolding get_player lookup
accepted-le-max_example =
    accepted-le-max game 7 1 ann traffic refl (refl, (refl, (refl, tt))) (omega arith)

abbrev fresh : Session
fresh = record { id = 103 ∷ []; max_players = pos 1; created_at = 0; players = [] }

abbrev joined : Session
joined = record fresh { players = (7, new_player 7 (97 ∷ [])) ∷ [] }

joins : add_player (new_session (103 ∷ []) (pos 1) 0) 7 (97 ∷ []) ≡ ok joined
unfolding add_player new_session lookup insert
joins = refl

pub two_players : Unique game.players
unfolding lookup
two_players = (refl, (refl, tt))

targets_for-others_example :
    (targets_for 8 (other_player_targets game 7) ≡ owed 7 8 (lookup 8 game.players))
    × (get_player_target game 8 ≡ unicast_way 8 (lookup 8 game.players))
targets_for-others_example = targets_for-others game 7 8 two_players
