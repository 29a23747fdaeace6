-- ===== src/Adapter/RpcServer/Clients.antt =====
-- The clients of internal/adapter/rpcserver.go over any sequence of connections.
use fafsturmudprelay.Prelude.{
  ℕ, ◌+◌, ◌≤◌, ◌≡◌, refl, true, List, [], ◌∷◌, length, length-append, arith, elem,
}
use fafsturmudprelay.Adapter.RpcServer.{
  RpcServer, max_rpc_clients, new_rpc_server, accept_client, end_client, remove_first,
}

length-remove_first :
    (writer : ℕ) (clients : List ℕ)
    → elem writer clients ≡ true
    → length (remove_first writer clients) + 1 ≡ length clients
unfolding remove_first
length-remove_first writer [] h = ground (arith, h)
length-remove_first writer (c ∷ clients) h = ground (arith, h, length-remove_first writer clients)

-- A connection that is accepted, and one of the clients that ends.
pub data Reach : RpcServer → Type 0 where
  start : Reach new_rpc_server
  accepts : {s : RpcServer} → Reach s → (writer : ℕ) → Reach (accept_client s writer).0
  ends :
      {s : RpcServer}
      → Reach s
      → (writer : ℕ) → elem writer s.clients ≡ true
      → Reach (end_client s writer)

-- After any connections and ends, the count of active clients is the number of those that get
-- notifications, and at most four.
pub Reach-le :
    {s : RpcServer}
    → Reach s
    → (s.active_clients ≡ length s.clients) × (s.active_clients ≤ max_rpc_clients)
unfolding new_rpc_server accept_client end_client
Reach-le start = (refl, omega arith)
Reach-le (accepts {s} r writer) =
    let before = Reach-le r in ground (arith, before, length-append s.clients (writer ∷ []))
Reach-le (ends {s} r writer there) =
    let before = Reach-le r in ground (arith, before, length-remove_first writer s.clients there)
