-- ===== src/Examples/Routing.antt =====
-- Concrete packets on their way (internal/relay/router.go): player 7 on UDP, player 8 on TCP.
use fafsturmudprelay.Prelude.{
  ◌≡◌, refl, Bool, true, List, [], ◌∷◌, ◌++◌, Bytes, All, arith, nat_eq, bytes_eq,
}
use fafsturmudprelay.Prelude.Map.{lookup}
use fafsturmudprelay.Outcome.{ok, panic}
use fafsturmudprelay.Protocol.Binary.{uint32_be}
use fafsturmudprelay.Protocol.RelayWire.{decode_relay_header}
use fafsturmudprelay.Relay.Metrics.{no_metrics}
use fafsturmudprelay.Relay.Session.{get_player, update_player_addr}
use fafsturmudprelay.Relay.Session.Player.{player_update_addr}
use fafsturmudprelay.Relay.SessionManager.{Manager, find_session_by_player}
use fafsturmudprelay.Relay.Router.{Sent, Routing, broadcast, forward, route_packet}
use fafsturmudprelay.Relay.Router.Delivery.{broadcast_lem, count_writes, due}
use fafsturmudprelay.Relay.Router.Datagrams.{forward_confined, Reaches}
use fafsturmudprelay.Relay.Router.Oversized.{long_datagram_panics}
use fafsturmudprelay.Examples.Sessions.{game, bob, home, wire, second, two_players}

abbrev pub up : Sent → Bool
up w = true

abbrev idle : Routing
idle = record { metrics = no_metrics; sent = [] }

-- From player 7 to player 8, with three bytes.
abbrev hello : Bytes
hello = 0 ∷ 0 ∷ 0 ∷ 7 ∷ 0 ∷ 0 ∷ 0 ∷ 8 ∷ 1 ∷ 2 ∷ 3 ∷ []

broadcast_lem_example :
    broadcast up game 7 hello idle
    ≡ ok (record {
      metrics = count_writes up hello (due 7 hello game.players) no_metrics;
      sent = due 7 hello game.players;
    })
broadcast_lem_example = broadcast_lem up hello (omega arith) game 7 idle

forward_confined_example :
    (r' : Routing) × (new : List Sent) × (forward up game 7 8 hello idle ≡ ok r')
    × (r'.sent ≡ [] ++ new)
    × All (Reaches game 7 hello) new
forward_confined_example =
    forward_confined up game 7 8 hello idle two_players (omega arith) (λ e. ground arith)

abbrev pub server : Manager
server = record {
  sessions = (game.id, 0) ∷ [];
  player_index = (7, game.id) ∷ (8, game.id) ∷ [];
  metrics = no_metrics;
  heap = game ∷ [];
}

abbrev ten : Bytes → Bytes
ten bs = 0 ∷ 0 ∷ 0 ∷ 0 ∷ 0 ∷ 0 ∷ 0 ∷ 0 ∷ 0 ∷ 0 ∷ bs

abbrev hundred : Bytes → Bytes
hundred bs = ten (ten (ten (ten (ten (ten (ten (ten (ten (ten bs)))))))))

-- 1411 bytes from player 7 to player 8.
abbrev long_hello : Bytes
long_hello =
    0
    ∷ 0
    ∷ 0
    ∷ 7
    ∷ 0
    ∷ 0
    ∷ 0
    ∷ 8
    ∷ 1
    ∷ 2
    ∷ 3
    ∷ hundred (
        hundred (
          hundred (
            hundred (
              hundred (
                hundred (
                  hundred
                    (hundred (hundred (hundred (hundred (hundred (hundred (hundred [])))))))))))))

long_datagram_panics_example : route_packet up server home long_hello second ≡ panic
unfolding decode_relay_header uint32_be find_session_by_player get_player lookup update_player_addr
    player_update_addr
long_datagram_panics_example =
    long_datagram_panics up server home long_hello second 7 8 0 game bob wire (omega arith) refl
      (λ e. ground arith) (λ e. ground arith) refl refl refl refl refl
