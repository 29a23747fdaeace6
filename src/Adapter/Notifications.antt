-- ===== src/Adapter/Notifications.antt =====
-- The notifications of internal/adapter/adapter.go, sent by internal/adapter/rpcserver.go to every client of
-- the RPC server. A write that fails is only logged.
use fafsturmudprelay.Prelude.{
  ℕ, ◌≡◌, refl, ap, Option, none, some, Bool, true, false, List, [], ◌∷◌, ◌++◌, Bytes, map,
}
use fafsturmudprelay.Protocol.Gpgnet.{Chunk}
use fafsturmudprelay.Adapter.RpcServer.{RpcServer}
use fafsturmudprelay.Adapter.RelayConnection.{RelayConnection}
use fafsturmudprelay.Adapter.RelayConnection.Health.{Tick, run_health_monitor}

pub data Param : Type 0 where
  text : Bytes → Param
  number : ℕ → Param
  flag : Bool → Param
  chunks : List Chunk → Param

-- The methods by name: onRelayConnectionStateChanged, and so on.
pub data NotificationMethod : Type 0 where
  on_relay_connection_state_changed on_connection_state_changed : NotificationMethod
  on_gpg_net_message_received on_ice_connection_state_changed : NotificationMethod
  on_connected on_ice_msg : NotificationMethod

pub record Notification : Type 0 where
  pub method : NotificationMethod
  pub params : List Param

-- A notification that is written to the client with a handle.
abbrev pub Writes : Type 0
Writes = List (ℕ × Notification)

unfoldable pub send_notification : RpcServer → Notification → Writes
send_notification s n = map (λ client. (client, n)) s.clients

-- The test that each Notify method begins with.
unfoldable pub notify_clients : Option RpcServer → NotificationMethod → List Param → Writes
unfolding send_notification
notify_clients rpc method params = elim rpc [
  | none ↦ []
  | some s ↦ send_notification s (record { method = method; params = params })
]

abbrev pub text_connected : Bytes
text_connected = b'C' ∷ b'o' ∷ b'n' ∷ b'n' ∷ b'e' ∷ b'c' ∷ b't' ∷ b'e' ∷ b'd' ∷ []

abbrev pub text_disconnected : Bytes
text_disconnected =
    b'D' ∷ b'i' ∷ b's' ∷ b'c' ∷ b'o' ∷ b'n' ∷ b'n' ∷ b'e' ∷ b'c' ∷ b't' ∷ b'e' ∷ b'd' ∷ []

module _ (rpc : Option RpcServer) where
  unfoldable pub notify_relay_state_changed : Bytes → Writes
  unfolding notify_clients
  notify_relay_state_changed state =
      notify_clients rpc on_relay_connection_state_changed (text state ∷ [])

  unfoldable pub notify_connection_state_changed : Bytes → Writes
  unfolding notify_clients
  notify_connection_state_changed state =
      notify_clients rpc on_connection_state_changed (text state ∷ [])

  unfoldable pub notify_gpg_net_message : Bytes → List Chunk → Writes
  unfolding notify_clients
  notify_gpg_net_message header args =
      notify_clients rpc on_gpg_net_message_received (text header ∷ chunks args ∷ [])

  unfoldable pub notify_ice_connection_state_changed : (local remote : ℕ) → Bytes → Writes
  unfolding notify_clients
  notify_ice_connection_state_changed local remote state =
      notify_clients rpc on_ice_connection_state_changed
        (number local ∷ number remote ∷ text state ∷ [])

  unfoldable pub notify_connected : (local remote : ℕ) → Bool → Writes
  unfolding notify_clients
  notify_connected local remote is_connected =
      notify_clients rpc on_connected (number local ∷ number remote ∷ flag is_connected ∷ [])

  unfoldable pub send_ice_msg : (local remote : ℕ) → Bytes → Writes
  unfolding notify_clients
  send_ice_msg local remote msg_json =
      notify_clients rpc on_ice_msg (number local ∷ number remote ∷ text msg_json ∷ [])

  unfoldable pub on_relay_health_changed : Bool → Writes
  unfolding notify_relay_state_changed
  on_relay_health_changed true = notify_relay_state_changed text_connected
  on_relay_health_changed false = notify_relay_state_changed text_disconnected

  -- WaitRelayConfirmed ends with the connection as it is then, or with a cancelled context: `waited` is
  -- none for the latter.
  unfoldable pub notify_peer_connected_when_relay_ready :
      (local pid : ℕ) → Option RelayConnection → Writes
  unfolding notify_ice_connection_state_changed notify_connected
  notify_peer_connected_when_relay_ready local pid waited = elim waited [
    | none ↦ []
    | some rc ↦ elim rc.relay_confirmed [
      | true ↦
          notify_ice_connection_state_changed local pid text_connected
          ++ notify_connected local pid true
      | false ↦ []
    ]
  ]

  -- All that onRelayHealthChanged sends while the monitor ticks.
  unfoldable pub told_of_health : List Bool → Writes
  unfolding on_relay_health_changed
  told_of_health [] = []
  told_of_health (reachable ∷ changes) = on_relay_health_changed reachable ++ told_of_health changes

abbrev told_state : Bool → Param
told_state true = text text_connected
told_state false = text text_disconnected

abbrev told : ℕ → Bool → ℕ × Notification
told client reachable = (
  client,
  record { method = on_relay_connection_state_changed; params = told_state reachable ∷ [] },
)

all_told :
    (client active : ℕ) (changes : List Bool)
    → told_of_health (some (record { active_clients = active; clients = client ∷ [] })) changes
      ≡ map (told client) changes
unfolding told_of_health
all_told client active [] = refl
all_told client active (true ∷ changes) =
    ap (◌∷◌ (told client true)) (all_told client active changes)
all_told client active (false ∷ changes) =
    ap (◌∷◌ (told client false)) (all_told client active changes)

-- A single client is told each change of the relay's health that the monitor reports, in their order, and
-- nothing else.
health_is_told :
    (client active : ℕ) (ticks : List Tick)
    → told_of_health
        (some (record { active_clients = active; clients = client ∷ [] }))
        (run_health_monitor ticks)
      ≡ map (told client) (run_health_monitor ticks)
health_is_told client active ticks = all_told client active (run_health_monitor ticks)
