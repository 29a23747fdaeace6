-- ===== src/Examples/Connections.antt =====
-- Concrete connections (internal/relay/tcphandler.go): player 7 on UDP, player 8 on TCP.
use fafsturmudprelay.Prelude.{◌≡◌, [], ◌∷◌, Bytes, nat_eq, bytes_eq}
use fafsturmudprelay.Outcome.{ok}
use fafsturmudprelay.Relay.SessionManager.Consistency.{Consistent}
use fafsturmudprelay.Relay.SessionManager.Reach.{Reach-Consistent}
use fafsturmudprelay.Relay.TcpHandler.{Handled, handle_conn}
use fafsturmudprelay.Relay.TcpHandler.Total.{handle_conn-Consistent}
use fafsturmudprelay.Examples.Sessions.{wire, second}
use fafsturmudprelay.Examples.Managers.{m₄, history}
use fafsturmudprelay.Examples.Routing.{up}

-- A frame with a packet from player 8 to player 7, and then one byte more.
abbrev framed : Bytes
framed = 0 ∷ 9 ∷ 0 ∷ 0 ∷ 0 ∷ 8 ∷ 0 ∷ 0 ∷ 0 ∷ 7 ∷ 1 ∷ 0 ∷ []

handle_conn-Consistent_example :
    (h : Handled) × (handle_conn up wire m₄ framed (second ∷ second ∷ []) ≡ ok h)
    × Consistent h.manager
handle_conn-Consistent_example =
    handle_conn-Consistent up wire m₄ framed (second ∷ second ∷ []) (Reach-Consistent m₄ history)
