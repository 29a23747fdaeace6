-- ===== src/Relay/TcpHandler/Accepting.antt =====
-- Run of internal/relay/tcphandler.go: the limit on open connections.
use fafsturmudprelay.Prelude.{
  ℕ, ◌+◌, ◌-◌, ◌≤◌, Bool, true, false, List, [], ◌∷◌, leb, if◌then◌else◌, arith,
}

abbrev pub max_tcp_conns : ℕ
max_tcp_conns = 1000

-- What Run and its goroutines do with connections: Accept gives one, or fails, or a handler returns.
pub data ConnEvent : Type 0 where
  arrives accept_fails ends : ConnEvent

-- The number of open connections, and whether a handler was started. A handler ends only after its start.
unfoldable pub accept_step : ℕ → ConnEvent → ℕ × Bool
accept_step active arrives =
    if leb max_tcp_conns active then (active, false) else (active + 1, true)
accept_step active accept_fails = (active, false)
accept_step active ends = (active - 1, false)

unfoldable pub accept_run : ℕ → List ConnEvent → ℕ
accept_run active [] = active
accept_run active (e ∷ es) = accept_run (accept_step active e).0 es

step-le :
    (active : ℕ) (e : ConnEvent) → active ≤ max_tcp_conns → (accept_step active e).0 ≤ max_tcp_conns
unfolding accept_step
step-le active arrives h = ground (arith, h)
step-le active accept_fails h = h
step-le active ends h = omega arith

-- However connections arrive and end, no more than 1000 of them are open at once.
pub accept_run-le :
    (es : List ConnEvent) (active : ℕ)
    → active ≤ max_tcp_conns
    → accept_run active es ≤ max_tcp_conns
unfolding accept_run
accept_run-le [] active h = h
accept_run-le (e ∷ es) active h = accept_run-le es (accept_step active e).0 (step-le active e h)
