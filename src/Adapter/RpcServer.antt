-- ===== src/Adapter/RpcServer.antt =====
-- internal/adapter/rpcserver.go: the server that the FAF client connects to. A request is what ReadRequest
-- made of a message; `net` says of each response whether it could be written.
pub mod Clients
pub mod Answers
use fafsturmudprelay.Prelude.{
  ℕ, ◌+◌, ◌-◌, Option, none, some, Bool, true, false, List, [], ◌∷◌, ◌++◌, Bytes, leb, ◌==◌,
  if◌then◌else◌,
}
use fafsturmudprelay.Outcome.{Outcome, ok, err, panic}
use fafsturmudprelay.Adapter.RpcHandler.{
  Decoder, Surroundings, Config, Adapter, Action, IceServer, Reply, RpcError,
}
use fafsturmudprelay.Adapter.RpcHandler.Dispatch.{handle_request}

abbrev pub max_rpc_clients : ℕ
max_rpc_clients = 4

-- `clients` are the writers of the connections that get notifications, by a handle.
pub record RpcServer : Type 0 where
  pub active_clients : ℕ
  pub clients : List ℕ

unfoldable pub new_rpc_server : RpcServer
new_rpc_server = record { active_clients = 0; clients = [] }

-- Run on a connection that was accepted, with the start of handleConnection; false is a refusal.
unfoldable pub accept_client : RpcServer → ℕ → RpcServer × Bool
accept_client s writer = if leb max_rpc_clients s.active_clients then (s, false) else (
  record { active_clients = s.active_clients + 1; clients = s.clients ++ (writer ∷ []) },
  true,
)

unfoldable pub remove_first : ℕ → List ℕ → List ℕ
remove_first writer [] = []
remove_first writer (c ∷ clients) =
    let rest = remove_first writer clients in if c == writer then clients else c ∷ rest

-- The deferred calls of a connection that ends.
unfoldable pub end_client : RpcServer → ℕ → RpcServer
unfolding remove_first
end_client s writer = record {
  active_clients = s.active_clients - 1;
  clients = remove_first writer s.clients;
}

pub record Call (Key Raw : Type 0) : Type 0 where
  pub id : Option Key
  pub method : Bytes
  pub params : List Raw

-- A response, and -32603 with the text of an error.
pub data Response (Key : Type 0) : Type 0 where
  result : Key → Reply → Response Key
  internal_error : Key → RpcError → Response Key

module _ {Key Raw Float : Type 0} (json : Decoder Raw Float) (parse : Raw → Option (List IceServer))
    (cfg : Config) (env : Surroundings) (net : Response Key → Bool) where
  abbrev pub failure_of : Option Key → RpcError → List (Response Key)
  failure_of none e = []
  failure_of (some id) e = internal_error id e ∷ []

  -- Whether the loop goes on, and what was written. A panic of the handler ends the program.
  abbrev pub respond : Option Key → Outcome RpcError Reply → Bool × List (Response Key)
  respond id (err e) = (true, failure_of id e)
  respond none (ok r) = (true, [])
  respond (some id) (ok r) = (net (result id r), result id r ∷ [])
  respond id panic = (false, [])

  -- The loop of handleConnection over the calls that are read.
  unfoldable pub serve_calls :
      Adapter Float → List (Call Key Raw) → Adapter Float × List Action × List (Response Key)
  unfolding handle_request
  serve_calls a [] = (a, [], [])
  serve_calls a (c ∷ calls) =
      let ((a', actions), r) = handle_request json parse cfg env a c.method c.params in
      let (go_on, written) = respond c.id r in
      let (a'', later, responses) = serve_calls a' calls in
      if go_on then (a'', actions ++ later, written ++ responses) else (a', actions, written)
